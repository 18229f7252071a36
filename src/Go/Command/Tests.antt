-- ===== src/Go/Command/Tests.antt =====
-- cmd/tframe on concrete data, and the theorems at concrete inputs.
use proto.Base.{
  ℕ, ◌≡◌, ◌≢◌, refl, ◌⊎◌, true, false, List, [], ◌∷◌, ◌++◌, String, some, Outcome, ok, err, arith,
}
use proto.Base.Integers.{pos}
use proto.TinyFrame.Bytes.{to_be_bytes, from_be_bytes}
use proto.TinyFrame.Header.{compress_id_of}
use proto.TinyFrame.Header
use proto.TinyFrame.Key
use proto.TinyFrame.Payload
use proto.TinyFrame.Wire
use proto.TinyFrame.Stream
use proto.TinyFrame.Stream.{Sink}
use proto.TinyFrame.Samples.{marking, key, nonce, zeros, idle}
use proto.TinyFrame.Samples
use proto.TinyFrame.Stream.Framing.{source}
use proto.TinyFrame.Roundtrip.{sent_frame}
use proto.Binary.Hex.{is_whitespace, trim_start, trim_end, hex_digit}
use proto.Go.Samples.{go_marking, to_crate, to_go, conn}
use proto.Go.Frame.Types.{eof, compress_none}
use proto.Go.Frame.Key.{initial, set_encrypt_key, require_encrypt_key}
use proto.Go.Frame.Payload.{
  pack_header_byte, aead_aad, compress_payload, decompress_payload, encrypt_payload,
  decrypt_payload,
}
use proto.Go.Frame.Stream.{
  write, flush, seal, build_frame, write_frame_with_key, write_frame, read_frame, read_full,
  read_payload, unseal, parse_frame, read_any,
}
use proto.Go.Frame.Interop.{reader}
use proto.Go.Hex.{decode_string, parse_secret_key_hex}
use proto.Go.Hex.Tests.{zeros_text}
use proto.Go.Command.Manifest.{
  ApiRoute, Manifest, find_route, find_in, parse_secret_key, lower, lowers_to, names_none,
  compress_method_flag, validate_response_compression,
}
use proto.Go.Command.Get.{Url, World, parse_tcp_url, type_in_range, compression_set, ask, do_get}
use proto.Go.Command.Get.Answered.{do_get-write_frame}
use proto.Go.Command.Get.Unsent.{Untouched, Cleared, do_get-Untouched}
use proto.Go.Command.Main.{main, usage}

abbrev route : ApiRoute
route = record { message_type = pos 1; path = "/api/v1/message1"; compressed = true }

abbrev manifest : Manifest
manifest = record {
  api = record {
    secret_key = zeros_text;
    compress_method = " GZip";
    interfaces = record { message_type = pos 40; path = "/wide"; compressed = false } ∷ route ∷ [];
  };
}

abbrev parse : String → Outcome String Url
parse raw = ok (record { scheme = "tcp"; host = "127.0.0.1:8080"; path = "/api/v1/message1" })

-- The server's frame, compressed and encrypted.
abbrev reply_bytes : List ℕ
reply_bytes = 13 ∷ zeros 7 (1 ∷ 0 ∷ 30 ∷ zeros 11 (7 ∷ zeros 16 (1 ∷ 7 ∷ [])))

abbrev replied : Sink
replied = record idle { written = reply_bytes; flushed = reply_bytes; room = 959 }

reply_run :
    Stream.write_frame marking (some (some key)) nonce 1 1 (7 ∷ []) 5 idle ≡ (ok tt, replied)
unfolding Stream.write_frame Wire.build_wire_frame Header.pack_header_byte Payload.compress_payload
    Wire.seal Key.require_encrypt_key Payload.encrypt_payload Payload.aead_aad to_be_bytes
    Stream.write_all Stream.flush
reply_run = refl

abbrev world : World
world = record { key = initial; request = conn; response = reader reply_bytes eof; output = conn }

abbrev asked : List ℕ
asked = 12 ∷ zeros 7 (1 ∷ 0 ∷ 28 ∷ zeros 11 (7 ∷ zeros 16 []))

abbrev world' : World
world' = record {
  key = record { encrypt_key = some key; encrypt_key_set = true };
  request = record conn { written = asked; room = 961 };
  response = reader [] eof;
  output = record conn { written = 7 ∷ []; room = 999 };
}

do_get_run :
    do_get go_marking
      (ok nonce)
      parse
      (λ host. ok tt)
      1
      "tcp://127.0.0.1:8080/api/v1/message1"
      manifest
      world
    ≡ (ok tt, world')
unfolding do_get parse_tcp_url find_route find_in type_in_range parse_secret_key
    parse_secret_key_hex decode_string trim_start trim_end is_whitespace hex_digit
    compress_method_flag names_none lowers_to lower compression_set ask set_encrypt_key
    require_encrypt_key write_frame write_frame_with_key build_frame pack_header_byte
    compress_payload seal encrypt_payload aead_aad to_be_bytes write flush read_frame read_any
    read_full read_payload from_be_bytes parse_frame unseal decrypt_payload decompress_payload
    validate_response_compression
do_get_run = refl

key_parsed : parse_secret_key manifest ≡ ok key
unfolding parse_secret_key parse_secret_key_hex decode_string trim_start trim_end is_whitespace
    hex_digit
key_parsed = refl

do_get-write_frame_example :
    (host : String) × (path : String) × (route : ApiRoute) × (message_type : ℕ) × (parse_tcp_url
        parse "tcp://127.0.0.1:8080/api/v1/message1"
      ≡ ok (host, path))
    × (find_route manifest path ≡ ok route)
    × (route.message_type ≡ pos message_type)
    × (Stream.read_frame marking (some (some key)) (source asked Samples.eof)
        ≡ ok (sent_frame message_type 1 [] 4, source [] Samples.eof))
    × (world'.output.written ≡ [] ++ 7 ∷ [])
    × ((route.compressed ≡ false) ⊎ (compress_id_of 5 ≢ compress_none))
do_get-write_frame_example =
    do_get-write_frame go_marking marking to_crate to_go key nonce nonce refl refl parse
      (λ host. ok tt) 1 "tcp://127.0.0.1:8080/api/v1/message1" manifest world world' 1 1 (7 ∷ []) 5
      idle replied Samples.eof eof key_parsed (omega arith) refl (omega arith) (omega arith) refl
      reply_run refl do_get_run

do_get-Untouched_example :
    Untouched world
      (do_get go_marking
        (ok nonce)
        parse
        (λ host. err eof)
        1
        "tcp://127.0.0.1:1/nope"
        manifest
        world).1
    ⊎ Cleared parse (λ host. err eof) "tcp://127.0.0.1:1/nope" manifest
do_get-Untouched_example =
    do_get-Untouched go_marking (ok nonce) parse (λ host. err eof) 1 "tcp://127.0.0.1:1/nope"
      manifest world

-- Only `get` and one URL are understood.
usage_run :
    (main go_marking
      (ok nonce)
      (err "no home")
      (λ parts. "")
      (λ path. err "no file")
      (λ bytes. ok manifest)
      parse
      (λ host. ok tt)
      1
      ""
      ("put" ∷ "tcp://h/p" ∷ [])
      world).0
    ≡ ok usage
unfolding main
usage_run = refl
