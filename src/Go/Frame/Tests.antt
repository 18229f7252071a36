-- ===== src/Go/Frame/Tests.antt =====
-- tinyframe/frame.go on concrete data, and the theorems at concrete inputs.
use proto.Base.{
  ℕ, ◌≡◌, refl, List, [], ◌∷◌, ◌++◌, some, ok, err, panicked, true, ok-injective,
  key_not_configured, arith,
}
use proto.TinyFrame.Samples.{marking, keyed, key, nonce, zeros, idle}
use proto.TinyFrame.Samples
use proto.TinyFrame.Bytes.{to_be_bytes, from_be_bytes}
use proto.TinyFrame.Types.{IoError, invalid_input}
use proto.TinyFrame.Key
use proto.TinyFrame.Header
use proto.TinyFrame.Payload
use proto.TinyFrame.Wire
use proto.TinyFrame.Stream
use proto.TinyFrame.Stream.{Source, Sink}
use proto.TinyFrame.Stream.Framing.{source}
use proto.TinyFrame.Roundtrip.{sent_frame}
use proto.PromProxy.Tests.{framed}
use proto.Base.Agreement.{Agrees}
use proto.Go.Samples.{go_marking, to_crate, to_go, conn}
use proto.Go.Frame.Types.{Frame, eof}
use proto.Go.Frame.Key.{KeyState, initial}
use proto.Go.Frame.Payload.{
  pack_header_byte, aead_aad, compress_payload, decompress_payload, encrypt_payload,
}
use proto.Go.Frame.Stream.{
  Writer, Reader, write, flush, seal, build_frame, write_frame_with_key, write_frame, read_frame,
  read_frame_with_key,
}
use proto.Go.Frame.Agrees.{as_codec, as_cell, as_frame}
use proto.Go.Frame.Agrees.Reading.{SameFrame}
use proto.Go.Frame.Agrees.Writing.{SameWrite, write_frame_order}
use proto.Go.Frame.Agrees.Codecs.{
  SameCipher, packed, SameUnpacking, go_read_frame-Agrees, go_write_frame-Agrees,
}
use proto.TinyFrame.Types
use mathlib.Core.Path.{subst}
use proto.Go.Frame.Interop.{
  reader, read_frame-write_frame_with_key, read_frame_with_key-write_frame,
}

abbrev go_sent : Writer
go_sent = record conn { written = framed 84 7; room = 960 }

write_run :
    write_frame_with_key go_marking (ok nonce) 10 1 (7 ∷ []) 4 (some key) conn ≡ (ok tt, go_sent)
unfolding write_frame_with_key build_frame pack_header_byte compress_payload seal encrypt_payload
    aead_aad to_be_bytes write flush
write_run = refl

-- A frame that is compressed and encrypted, to be read.
abbrev zipped : List ℕ
zipped = 85 ∷ zeros 7 (1 ∷ 0 ∷ 30 ∷ zeros 11 (7 ∷ zeros 16 (1 ∷ 7 ∷ [])))

abbrev keyed_state : KeyState
keyed_state = record { encrypt_key = some key; encrypt_key_set = true }

ciphers : SameCipher go_marking marking
ciphers = record { sealed = λ key nonce aad msg. refl; opened = λ key nonce aad ct. refl }

-- The same bytes for a reader of each side.
abbrev both_sources : Source
both_sources = source zipped Samples.eof

-- What arrives before it is unpacked.
arrived :
    (f : Types.Frame) (rest : Source)
    → Stream.read_frame (packed marking) (as_cell keyed_state) both_sources ≡ ok (f, rest)
    → SameUnpacking go_marking marking f.compress_id f.payload
unfolding Stream.read_frame Stream.read_exact Stream.read_payload from_be_bytes
    Wire.parse_wire_frame Wire.unseal Key.require_encrypt_key Payload.aead_aad to_be_bytes
    Payload.decrypt_payload Payload.decompress_payload decompress_payload
arrived f rest e =
    subst
      (λ (p : Types.Frame × Source). SameUnpacking go_marking marking p.0.compress_id p.0.payload)
      (ok-injective e) refl

go_read_frame-Agrees_example :
    Agrees SameFrame
      (read_frame go_marking keyed_state (reader zipped eof))
      (Stream.read_frame marking (as_cell keyed_state) both_sources)
go_read_frame-Agrees_example =
    go_read_frame-Agrees go_marking marking ciphers keyed_state (reader zipped eof) both_sources
      refl arrived

go_write_frame-Agrees_example :
    SameWrite
      (write_frame go_marking keyed_state (ok nonce) 10 1 (7 ∷ []) 5 conn)
      (Stream.write_frame marking (as_cell keyed_state) nonce 10 1 (7 ∷ []) 5 idle)
unfolding pack_header_byte compress_payload Payload.compress_payload
go_write_frame-Agrees_example =
    go_write_frame-Agrees go_marking marking ciphers nonce keyed_state 10 1 (7 ∷ []) (1 ∷ 7 ∷ []) 5
      85 conn idle refl refl refl (refl, refl, refl)

write_frame_order_example :
    (write_frame go_marking initial (ok nonce) 32 1 [] 4 conn ≡ (panicked key_not_configured, conn))
    × (e : IoError) × (Stream.write_frame
          (as_codec go_marking)
          (as_cell initial)
          nonce
          32
          1
          []
          4
          idle
        ≡ (err e, idle))
    × (e.kind ≡ invalid_input)
write_frame_order_example =
    write_frame_order go_marking nonce 32 1 [] 4 initial conn idle (omega arith) refl refl
      (λ good. absurd (omega (arith, good.0)))

read_frame-write_frame_with_key_example :
    (buf : List ℕ) × (go_sent.written ≡ [] ++ buf)
    × (Stream.read_frame marking (some (some key)) (source (buf ++ 9 ∷ []) Samples.eof)
        ≡ ok (sent_frame 10 1 (7 ∷ []) 4, source (9 ∷ []) Samples.eof))
read_frame-write_frame_with_key_example =
    read_frame-write_frame_with_key go_marking marking key nonce refl to_crate 10 1 (7 ∷ []) 4 conn
      go_sent (9 ∷ []) Samples.eof (omega arith) (omega arith) write_run

abbrev sent : Sink
sent = record idle { written = framed 84 7; flushed = framed 84 7; room = 960 }

crate_write_run :
    Stream.write_frame marking (some (some key)) nonce 10 1 (7 ∷ []) 4 idle ≡ (ok tt, sent)
unfolding Stream.write_frame Wire.build_wire_frame Header.pack_header_byte Payload.compress_payload
    Wire.seal Key.require_encrypt_key Payload.encrypt_payload Payload.aead_aad to_be_bytes
    Stream.write_all Stream.flush
crate_write_run = refl

read_frame_with_key-write_frame_example :
    (buf : List ℕ) × (sent.written ≡ [] ++ buf)
    × (frame : Frame) × (r : Reader) × (read_frame_with_key go_marking
          (some key)
          (reader (buf ++ 9 ∷ []) eof)
        ≡ ok (frame, r))
    × (as_frame frame ≡ sent_frame 10 1 (7 ∷ []) 4)
    × (r.arriving ≡ 9 ∷ [])
read_frame_with_key-write_frame_example =
    read_frame_with_key-write_frame go_marking marking key nonce refl to_go 10 1 (7 ∷ []) 4 idle
      sent (9 ∷ []) eof (omega arith) (omega arith) crate_write_run
