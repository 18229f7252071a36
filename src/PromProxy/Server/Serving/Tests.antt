-- ===== src/PromProxy/Server/Serving/Tests.antt =====
-- The proxy with one connection, whose request the upstream accepts, and with a report after it.
use proto.Base.{◌≡◌, refl, List, [], ◌∷◌, some, ok}
use proto.Base.Integers.{pos, ◌+ℤ◌, as_i64}
use proto.TinyFrame.Stream.Framing.{source}
use proto.TinyFrame.Bytes.{to_be_bytes, from_be_bytes}
use proto.TinyFrame.Header.{pack_header_byte}
use proto.TinyFrame.Key.{require_encrypt_key}
use proto.TinyFrame.Payload.{
  compress_payload, decompress_payload, encrypt_payload, decrypt_payload, aead_aad,
}
use proto.TinyFrame.Wire.{seal, unseal, build_wire_frame, parse_wire_frame}
use proto.TinyFrame.Stream.{read_exact, read_payload, write_all, flush, write_frame, read_frame}
use proto.TinyFrame.Samples.{marking, keyed, nonce, eof, idle}
use proto.PromProxy.Edge.{incr}
use proto.PromProxy.Edge.Totals.{counted}
use proto.PromProxy.Server.State.{remote_write_request}
use proto.PromProxy.Server.{judge, post_remote_write, forward_frame, incr_edge}
use proto.PromProxy.Server.Serving.{
  Shared, Connection, Task, accepted, received, forwarded, recorded, ended, Process, waiting,
  binding, serving, record_result, send_result, advance_task, bound, accept, run_task, Runs, start,
  then_step,
}
use proto.PromProxy.Server.Serving.Adds.{counted_all}
use proto.PromProxy.Server.Serving.Counts.{Runs-Tallies}
use proto.PromProxy.Tests.{framed, state, upstream_url, world', request}
use proto.PromProxy.Server.Tests.{numbers, one_byte}
use proto.PromProxy.Samples.{one_hash, one_hash_laws, edges, Fields, json_samples}

abbrev conn : Connection
conn = record { stream = source (framed 84 7) eof; out = idle }

-- Before the request, after it, and after it has been counted.
abbrev fresh : Shared Fields
fresh = record { db = []; requests = [] }

abbrev asked : Shared Fields
asked = record { db = []; requests = remote_write_request upstream_url (7 ∷ []) ∷ [] }

abbrev tallied : Shared Fields
tallied = record asked { db = ("remote_write_ok", pos 1) ∷ [] }

abbrev move : Task → Shared Fields → Task × Shared Fields
move = advance_task marking keyed nonce json_samples (λ e. "io") one_hash state

accepted_step : move (accepted conn) fresh ≡ (received conn request, fresh)
unfolding advance_task read_frame read_exact read_payload from_be_bytes parse_wire_frame unseal
    require_encrypt_key aead_aad decrypt_payload decompress_payload to_be_bytes
accepted_step = refl

received_step : move (received conn request) fresh ≡ (forwarded conn request (ok 204), asked)
unfolding advance_task forward_frame post_remote_write judge
received_step = refl

forwarded_step :
    move (forwarded conn request (ok 204)) asked ≡ (recorded conn request (ok 204), tallied)
unfolding advance_task record_result incr_edge incr as_i64
forwarded_step = refl

abbrev done : Task
done = ended conn (some (ok 204)) (ok tt) world'.out

recorded_step : move (recorded conn request (ok 204)) tallied ≡ (done, tallied)
unfolding advance_task send_result write_frame build_wire_frame pack_header_byte compress_payload
    seal require_encrypt_key encrypt_payload aead_aad to_be_bytes write_all flush
recorded_step = refl

abbrev process : Shared Fields → List Task → Process Fields
process g tasks = record { shared = g; tasks = tasks; report = waiting; stage = serving }

abbrev unstarted : Process Fields
unstarted = record { shared = fresh; tasks = []; report = waiting; stage = binding }

abbrev run :
    Runs marking keyed nonce json_samples
      (λ e. "io")
      numbers
      one_byte
      (λ b. some b)
      one_hash
      state
      unstarted
      (process tallied (done ∷ []))
run =
    let begun =
      then_step (then_step start (bound unstarted refl)) (accept (process fresh []) conn refl) in
    then_step
      (then_step
        (then_step
          (then_step begun
            (run_task (process fresh (accepted conn ∷ [])) [] [] _ _ _ refl accepted_step))
          (run_task (process fresh (received conn request ∷ [])) [] [] _ _ _ refl received_step))
        (run_task (process asked (forwarded conn request (ok 204) ∷ [])) [] [] _ _ _ refl
          forwarded_step))
      (run_task (process tallied (recorded conn request (ok 204) ∷ [])) [] [] _ _ _ refl
        recorded_step)

increment_works : (incr one_hash edges "remote_write_ok" 1 []).0 ≡ ok tt
unfolding incr as_i64
increment_works = refl

Runs-Tallies_example :
    counted (one_hash_laws.value tallied.db "remote_write_ok")
    ≡ counted (one_hash_laws.value [] "remote_write_ok")
      +ℤ pos (counted_all "remote_write_ok" (done ∷ []))
Runs-Tallies_example =
    Runs-Tallies numbers one_byte (λ b. some b) one_hash state one_hash_laws marking keyed nonce
      json_samples (λ e. "io") fresh (process tallied (done ∷ [])) "remote_write_ok" run
      ((((((tt, tt), tt), tt), tt), increment_works), tt)
