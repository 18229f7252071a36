-- ===== src/PromProxy/Server/Serving/Alone.antt =====
-- The steps of a task, one after the other, are the handler.
use proto.Base.{
  ℕ, ◌==◌, ◌≡◌, refl, ap, List, String, Option, none, some, Outcome, ok, err, panicked, inl, inr,
  Bool-cases, Outcome-cases,
}
use proto.TinyFrame.Types.{IoError, Frame}
use proto.TinyFrame.Codec.{Codec}
use proto.TinyFrame.Key.{KeyCell}
use proto.TinyFrame.Stream.{Sink, read_frame}
use proto.PromProxy.Protocol.{Serde}
use proto.PromProxy.Edge.{Redis}
use proto.PromProxy.Server.State.{ServerError, Inner, World}
use proto.PromProxy.Server.{
  incr_edge, post_remote_write, forward_frame, answer, handle_frame, handle_conn,
}
use proto.PromProxy.Server.Serving.{
  Shared, with_out, without_out, Connection, Task, accepted, ended, record_result, send_result,
  advance_task, finish_task,
}

module _ (c : Codec) (cell : KeyCell) (nonce : List ℕ) (serde : Serde) (io_text : IoError → String)
    {RedisClient Conn Db : Type 0} (server : Redis RedisClient Conn Db) (state : Inner Conn) where
  -- The increment and the reply are the arms of the `match`.
  answer-send_result :
      (frame : Frame) (r : Outcome ServerError ℕ) (g : Shared Db) (out : Sink)
      → send_result c cell nonce serde io_text frame r
          (with_out (without_out (record_result server state r (with_out g out))) out)
        ≡ answer c cell nonce serde io_text server state frame r (with_out g out)
  unfolding answer send_result record_result incr_edge
  answer-send_result frame (ok status) g out = refl
  answer-send_result frame (err e) g out = refl
  answer-send_result frame (panicked p) g out = refl

  -- Four steps of a task, where nothing else happens between them, are `handle_conn`: the task has
  -- ended with its result, has sent its bytes, and leaves the state that it leaves.
  pub advance_task-handle_conn :
      (conn : Connection) (g : Shared Db)
      → let step : Task × Shared Db → Task × Shared Db =
          λ s. advance_task c cell nonce serde io_text server state s.0 s.1 in
        let alone : Outcome ServerError (Unit {0}) × World Db =
          handle_conn c cell nonce serde io_text server state conn.stream (with_out g conn.out) in
        (tried : Option (Outcome ServerError ℕ)) × (step (step (step (step (accepted conn, g))))
          ≡ (ended conn tried alone.0 alone.1.out, without_out alone.1))
  unfolding advance_task handle_conn handle_frame forward_frame post_remote_write
  advance_task-handle_conn conn g = elim (Outcome-cases (read_frame c cell conn.stream)) [
    | inl ((frame, rest), got) ↦
        elim (Bool-cases (frame.message_type == state.config.message_type)) [
          | inl same ↦
              let forwarded : Outcome ServerError ℕ × World Db =
                forward_frame state frame (with_out g conn.out) in
              (
                some forwarded.0,
                rw (got, same)
                    (ap (finish_task conn (some forwarded.0))
                      (answer-send_result frame forwarded.0 (without_out forwarded.1) conn.out)),
              )
          | inr other ↦ (none, rw (got, other))
        ]
    | inr (inl (x, failed)) ↦ (none, rw failed)
    | inr (inr (p, failed)) ↦ (none, rw failed)
  ]
