-- ===== src/Go/Client/Tests.antt =====
-- promproxy/client.go on concrete data, and the theorems at concrete inputs.
use proto.Base.{
  ◌<◌, ◌≡◌, refl, ap, sym, true, [], ◌∷◌, ◌++◌, get_elem?, none, some, ok, err, ok-injective, arith,
}
use proto.Base.Json.{json_error}
use proto.Base.Integers.{pos}
use proto.TinyFrame.Bytes.{to_be_bytes, from_be_bytes}
use proto.TinyFrame.Samples.{marking, key, nonce, zeros}
use proto.TinyFrame.Samples
use proto.PromProxy.Samples.{one_hash, json_samples}
use proto.PromProxy.Tests.{framed, state, upstream_url, world, world', handle_conn_run}
use proto.PromProxy.Server.State.{Response, remote_write_request, accepted}
use proto.Go.Samples.{go_marking, to_crate, to_go, conn}
use proto.Go.Frame.Types.{eof}
use proto.Go.Frame.Payload.{
  pack_header_byte, aead_aad, compress_payload, decompress_payload, encrypt_payload,
  decrypt_payload,
}
use proto.Go.Frame.Stream.{
  write, flush, seal, build_frame, write_frame_with_key, read_frame_with_key, read_full,
  read_payload, unseal, parse_frame, read_any,
}
use proto.Go.Frame.Interop.{reader}
use proto.Go.Client.{Unmarshal, Client, Session, next_of, decode_response, remote_write}
use proto.Go.Client.Forwarding.{ReadsAcks, go_remote_write-handle_conn}
use proto.Go.Client.Ids.{
  Calls, load, swap, retry, Reach, begin, next, fresh, none_yet, then_one, handed-Reach,
  retry-Steps, move, start, loaded,
}

abbrev go_json : Unmarshal
go_json = record {
  remote_write_ack =
      λ bytes. elim bytes [ [] ↦ err (json_error "EOF") | b ∷ _ ↦ ok (record { status = b }) ];
  error_body = λ bytes. ok (record { message = "unknown" });
}

go_json-ReadsAcks : ReadsAcks go_json json_samples
go_json-ReadsAcks status body e = ap go_json.remote_write_ack (sym (ok-injective e))

abbrev client : Client
client = record {
  addr = "127.0.0.1:9100";
  key = key;
  message_type = 10;
  dial_timeout = pos 1;
  next_tx = 1;
}

abbrev session : Session
session = record { client = client; out = conn; replies = reader (framed 92 204) eof }

abbrev session' : Session
session' = record {
  client = record client { next_tx = 2 };
  out = record conn { written = framed 84 7; room = 960 };
  replies = reader [] eof;
}

remote_write_run :
    remote_write go_marking (ok nonce) go_json none (ok tt) (7 ∷ []) session ≡ (ok 204, session')
unfolding remote_write next_of decode_response write_frame_with_key build_frame pack_header_byte
    compress_payload seal encrypt_payload aead_aad to_be_bytes write flush read_frame_with_key
    read_any read_full read_payload from_be_bytes parse_frame unseal decrypt_payload
    decompress_payload
remote_write_run = refl

go_remote_write-handle_conn_example :
    (world'.requests ≡ [] ++ remote_write_request upstream_url (7 ∷ []) ∷ [])
    × (resp : Response) × (state.http [] (remote_write_request upstream_url (7 ∷ [])) ≡ ok resp)
    × (resp.status ≡ 204)
    × (accepted 204 ≡ true)
go_remote_write-handle_conn_example =
    go_remote_write-handle_conn go_marking marking to_crate to_go key nonce nonce refl refl go_json
      json_samples go_json-ReadsAcks (λ e. "io") one_hash state none (ok tt) (7 ∷ []) session
      session' 204 world world' Samples.eof eof (omega arith) refl refl refl refl remote_write_run
      handle_conn_run

-- Two goroutines: both load, the second swaps, and the first has to try again.
abbrev calls₁ : Calls
calls₁ = record fresh { at = move fresh.at 0 (loaded 1) }

abbrev calls₂ : Calls
calls₂ = record calls₁ { at = move calls₁.at 1 (loaded 1) }

abbrev calls₃ : Calls
calls₃ = record { next_tx = next_of 1; handed = 1 ∷ []; at = move calls₂.at 1 start }

first_id : Reach calls₃
first_id = next (next (next begin (load 0 refl)) (load 1 refl)) (swap 1 1 refl refl)

handed-Reach_example : get_elem? calls₃.handed 0 ≡ some 1
handed-Reach_example = handed-Reach calls₃ 0 first_id (omega arith)

retry-Steps_example : 0 < 1
unfolding next_of
retry-Steps_example =
    retry-Steps fresh calls₁ calls₃ (record calls₃ { at = move calls₃.at 0 start }) 0 1 refl
      (load 0 refl) refl (then_one (then_one none_yet (load 1 refl)) (swap 1 1 refl refl)) refl
      (retry 0 1 refl (omega arith)) refl refl
