-- ===== src/PromProxy/Tests.antt =====
-- The proxy and its client on concrete data, and the theorems at concrete inputs.
use proto.Base.{ℕ, ◌≡◌, refl, true, List, [], ◌∷◌, ◌++◌, String, some, ok, arith}
use proto.Base.Counter.{advance}
use proto.Base.Integers.{pos, as_i64}
use proto.TinyFrame.Types.{Frame}
use proto.TinyFrame.Bytes.{to_be_bytes, from_be_bytes}
use proto.TinyFrame.Header.{pack_header_byte}
use proto.TinyFrame.Key.{require_encrypt_key}
use proto.TinyFrame.Payload.{
  compress_payload, decompress_payload, encrypt_payload, decrypt_payload, aead_aad,
}
use proto.TinyFrame.Wire.{seal, unseal, build_wire_frame, parse_wire_frame}
use proto.TinyFrame.Stream.{
  Sink, read_exact, read_payload, write_all, flush, write_frame, read_frame,
}
use proto.TinyFrame.Stream.Framing.{source}
use proto.TinyFrame.Roundtrip.{sent_frame}
use proto.TinyFrame.Samples.{marking, marking_laws, keyed, key, nonce, zeros, eof, idle}
use proto.PromProxy.Client.{Session, new_client, next_tx_id, decode_response, remote_write}
use proto.PromProxy.Server.State.{
  Inner, World, Response, new_config, remote_write_request, accepted,
}
use proto.PromProxy.Server.{
  judge, post_remote_write, forward_frame, incr_edge, answer, handle_frame, handle_conn,
}
use proto.PromProxy.Server.Forwarding.{remote_write-handle_conn}
use proto.PromProxy.Server.Completes.{remote_write_completes}
use proto.TinyFrame.Total.{Encrypts}
use proto.PromProxy.Server.Replies.{Done, handle_conn_reply}
use proto.PromProxy.Edge.{incr}
use proto.PromProxy.Samples.{one_hash, edges, Fields, json_samples, json_samples_laws}

-- A frame with id 1 and one byte of data, encrypted.
abbrev pub framed : (header byte : ℕ) → List ℕ
framed header byte = header ∷ zeros 7 (1 ∷ 0 ∷ 29 ∷ zeros 11 (7 ∷ zeros 16 (byte ∷ [])))

abbrev sent : List ℕ → Sink
sent bytes = record idle { written = bytes; flushed = bytes; room = 960 }

abbrev session : Session
session = record { client = new_client; out = idle; replies = source (framed 92 204) eof }

abbrev session' : Session
session' = record {
  client = record new_client { next_tx = 2 };
  out = sent (framed 84 7);
  replies = source [] eof;
}

remote_write_run :
    remote_write marking keyed nonce json_samples (ok tt) (7 ∷ []) session ≡ (ok 204, session')
unfolding remote_write next_tx_id advance decode_response write_frame build_wire_frame
    pack_header_byte compress_payload seal require_encrypt_key encrypt_payload aead_aad to_be_bytes
    write_all flush read_frame read_exact read_payload from_be_bytes parse_wire_frame unseal
    decrypt_payload decompress_payload
remote_write_run = refl

-- A proxy whose upstream answers every request with 204.
abbrev pub upstream_url : String
upstream_url = "http://127.0.0.1:9090/api/v1/write"

abbrev pub state : Inner (Unit {0})
state = record {
  config = new_config "127.0.0.1:0" upstream_url "redis://127.0.0.1:6379";
  http = λ before request. ok (record { status = 204; text = ok "" });
  edges = edges;
}

abbrev pub world : World Fields
world = record { db = []; requests = []; out = idle }

abbrev pub world' : World Fields
world' = record {
  db = ("remote_write_ok", pos 1) ∷ [];
  requests = remote_write_request upstream_url (7 ∷ []) ∷ [];
  out = sent (framed 92 204);
}

pub handle_conn_run :
    handle_conn marking keyed nonce json_samples
      (λ e. "io")
      one_hash
      state
      (source (framed 84 7) eof)
      world
    ≡ (ok tt, world')
unfolding handle_conn handle_frame answer forward_frame post_remote_write judge incr_edge incr
    as_i64 write_frame build_wire_frame pack_header_byte compress_payload seal require_encrypt_key
    encrypt_payload aead_aad to_be_bytes write_all flush read_frame read_exact read_payload
    from_be_bytes parse_wire_frame unseal decrypt_payload decompress_payload
handle_conn_run = refl

remote_write-handle_conn_example :
    (world'.requests ≡ [] ++ remote_write_request upstream_url (7 ∷ []) ∷ [])
    × (resp : Response) × (state.http [] (remote_write_request upstream_url (7 ∷ [])) ≡ ok resp)
    × (resp.status ≡ 204)
    × (accepted 204 ≡ true)
remote_write-handle_conn_example =
    remote_write-handle_conn marking marking_laws keyed nonce nonce refl refl json_samples
      json_samples_laws (λ e. "io") one_hash state (ok tt) (7 ∷ []) session session' 204 world
      world' eof eof (omega arith) refl refl refl remote_write_run handle_conn_run

abbrev pub request : Frame
request = sent_frame 10 1 (7 ∷ []) 4

pub read_run : read_frame marking keyed (source (framed 84 7) eof) ≡ ok (request, source [] eof)
unfolding read_frame read_exact read_payload from_be_bytes parse_wire_frame unseal
    require_encrypt_key aead_aad decrypt_payload decompress_payload to_be_bytes
read_run = refl

handle_conn_reply_example :
    (reply : Frame) × (read_frame marking keyed (source (framed 92 204) eof)
      ≡ ok (reply, source [] eof))
    × (reply.tx_id ≡ 1)
    × (reply.encrypted ≡ true)
    × Done state request reply world world'
handle_conn_reply_example =
    handle_conn_reply marking marking_laws keyed nonce refl json_samples (λ e. "io") one_hash state
      (source (framed 84 7) eof) request (source [] eof) world world' eof read_run (omega arith)
      refl handle_conn_run

encrypts : Encrypts marking key nonce
encrypts aad msg fits = (zeros 16 msg, refl)

remote_write_completes_example :
    (w' : World Fields) × (s' : Session) × (handle_conn marking
        (some (some key))
        nonce
        json_samples
        (λ e. "io")
        one_hash
        state
        (source s'.out.written eof)
        world
      ≡ (ok tt, w'))
    × (remote_write marking
          (some (some key))
          nonce
          json_samples
          (ok tt)
          (7 ∷ [])
          (record { client = new_client; out = idle; replies = source w'.out.written eof })
        ≡ (ok 204, s'))
remote_write_completes_example =
    remote_write_completes marking marking_laws key nonce nonce refl refl encrypts encrypts
      json_samples json_samples_laws (λ e. "io") one_hash state new_client idle (7 ∷ []) (204 ∷ [])
      world (record { status = 204; text = ok "" }) eof eof (omega arith) refl (omega arith)
      (omega arith) refl (omega arith, refl) refl refl refl refl (omega arith) (omega arith, refl)
