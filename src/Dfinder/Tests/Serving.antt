-- ===== src/Dfinder/Tests/Serving.antt =====
-- The server with one connection, on which the node registers while the probe rests.
use proto.Base.{ℕ, ◌≡◌, refl, List, [], ◌∷◌, none, ok}
use proto.TinyFrame.Stream.{
  read_exact, read_payload, write_all, flush, write_frame_plain, read_frame,
}
use proto.TinyFrame.Stream.Framing.{source}
use proto.TinyFrame.Bytes.{to_be_bytes, from_be_bytes}
use proto.TinyFrame.Header.{pack_header_byte}
use proto.TinyFrame.Payload.{compress_payload, decompress_payload}
use proto.TinyFrame.Wire.{seal, unseal, build_wire_frame, parse_wire_frame}
use proto.TinyFrame.Samples.{marking, nonce, eof, idle}
use proto.Dfinder.Store.{Row, lock, upsert}
use proto.Dfinder.Server.State.{Inner}
use proto.Dfinder.Server.Locked.{store_node}
use proto.Dfinder.Server.Interleaving.{System, resting}
use proto.Dfinder.Server.Serving.{
  Connection, Reply, Task, accepted, received, answering, ended, Process, serving, respond,
  respond_register, write_reply, advance_task, binding, bound, accept, run_task, Runs, start,
  then_step,
}
use proto.Dfinder.Server.Serving.Explained.{HandledIn}
use proto.Dfinder.Server.Serving.Moments.{Runs-HandledIn}
use proto.Dfinder.Store.Refines.{node_at}
use proto.Dfinder.Server.Interleaving.Tracked.{Tracked}
use proto.Dfinder.Server.Serving.Entries.{new-Runs-Tracked}
use proto.Dfinder.Samples.{rows_db_laws, rows_db, json_samples, json_samples_laws}
use proto.Dfinder.Runs.{
  config, server, new_run, inner₀, inner₁, request_bytes, register_frame, world',
}

abbrev conn : Connection
conn = record { ip = "10.0.0.1"; stream = source request_bytes eof; out = idle }

abbrev ack : Reply
ack = record { message_type = 2; tx_id = 1; body = 123 ∷ 125 ∷ [] }

abbrev process : System ℕ (List Row) → List Task → Process ℕ (List Row)
process s tasks = record { system = s; tasks = tasks; stage = serving }

abbrev before : System ℕ (List Row)
before = record { inner = inner₀; phase = resting }

abbrev after : System ℕ (List Row)
after = record { inner = inner₁; phase = resting }

abbrev move : Task → System ℕ (List Row) → Task × Inner ℕ (List Row)
move task s = advance_task marking none nonce json_samples rows_db 77 10 task s.inner

read_run : move (accepted conn) before ≡ (received conn register_frame, inner₀)
unfolding advance_task read_frame read_exact read_payload from_be_bytes parse_wire_frame unseal
    decompress_payload to_be_bytes
read_run = refl

lock_run : move (received conn register_frame) before ≡ (answering conn ack, inner₁)
unfolding advance_task respond respond_register store_node upsert lock
lock_run = refl

write_run : move (answering conn ack) after ≡ (ended conn (ok tt) world'.out, inner₁)
unfolding advance_task write_reply write_frame_plain build_wire_frame pack_header_byte
    compress_payload seal to_be_bytes write_all flush
write_run = refl

abbrev fresh : Process ℕ (List Row)
fresh = record { system = before; tasks = []; stage = binding }

run :
    Runs marking none nonce json_samples rows_db fresh
      (process after (ended conn (ok tt) world'.out ∷ []))
run =
    let accepted₁ =
      then_step (then_step start (bound fresh refl)) (accept (process before []) conn refl) in
    then_step
      (then_step
        (then_step accepted₁
          (run_task (process before (accepted conn ∷ [])) 77 10 [] [] _ _ _ refl read_run))
        (run_task (process before (received conn register_frame ∷ [])) 77 10 [] [] _ _ _ refl
          lock_run))
      (run_task (process after (answering conn ack ∷ [])) 77 10 [] [] _ _ _ refl write_run)

Runs-HandledIn_example :
    HandledIn marking none nonce json_samples rows_db run conn (ok tt) world'.out
Runs-HandledIn_example =
    Runs-HandledIn marking none nonce json_samples rows_db before
      (process after (ended conn (ok tt) world'.out ∷ [])) [] [] conn (ok tt) world'.out run refl

new-Runs-Tracked_example :
    Tracked
      (node_at json_samples rows_db rows_db_laws inner₁.store "10.0.0.1")
      (inner₁.health "10.0.0.1")
new-Runs-Tracked_example =
    new-Runs-Tracked marking none nonce json_samples json_samples_laws rows_db rows_db_laws 0 config
      server (process after (ended conn (ok tt) world'.out ∷ [])) "10.0.0.1" new_run run
