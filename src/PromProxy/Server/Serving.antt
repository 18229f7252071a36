-- ===== src/PromProxy/Server/Serving.antt =====
-- src/prom_proxy/server.rs: the proxy as it runs. Each connection is a task of its own, which reads
-- its frame, waits for the upstream, waits for Redis, and answers; the report of the counters is one
-- more task.
pub mod Alone
pub mod Adds
pub mod Counts
pub mod Tests
use proto.Base.{
  ℕ, ◌==◌, ◌≡◌, if◌then◌else◌, Bool, true, false, List, [], ◌∷◌, ◌++◌, String, Option, none, some,
  Outcome, ok, err, panicked, map_err,
}
use proto.Base.Exec.{Exec, lift, ◌>>=◌}
use proto.Base.Integers.{ℤ}
use proto.Base.Text.{decimal}
use Prim.Native.String
use proto.TinyFrame.Types.{IoError, Frame, chacha20poly1305}
use proto.TinyFrame.Codec.{Codec}
use proto.TinyFrame.Key.{KeyCell}
use proto.TinyFrame.Stream.{Source, Sink, write_frame, read_frame}
use proto.PromProxy.Protocol.{Serde, Snappy, msg_remote_write_ack}
use proto.PromProxy.Edge.{EdgeError, Redis, totals}
use proto.PromProxy.Encode.{Prost, Float}
use proto.PromProxy.Server.State.{ServerError, io, json, Request, Inner, World}
use proto.PromProxy.Server.{
  on_stream, forget_error, forward_frame, incr_edge, server_error_text, write_error, flush_totals,
}

-- What the tasks share: the counters' database, and the upstream with the requests made so far.
pub record Shared (Db : Type 0) : Type 0 where
  pub db : Db
  pub requests : List Request

module _ {Db : Type 0} where
  abbrev pub with_out : Shared Db → Sink → World Db
  with_out g out = record { db = g.db; requests = g.requests; out = out }

  abbrev pub without_out : World Db → Shared Db
  without_out w = record { db = w.db; requests = w.requests }

-- What `listener.accept()` hands to a task: the two halves of the stream.
pub record Connection : Type 0 where
  pub stream : Source
  pub out : Sink

-- Where the task of a connection is. A task that has ended keeps the result of its request, if it
-- made one.
pub data Task : Type 0 where
  accepted : Connection → Task
  received : Connection → Frame → Task
  forwarded : Connection → Frame → Outcome ServerError ℕ → Task
  recorded : Connection → Frame → Outcome ServerError ℕ → Task
  ended : Connection → Option (Outcome ServerError ℕ) → Outcome ServerError (Unit {0}) → Sink → Task

-- Where the task of the report is: between two reports, or with the totals that it has read.
pub data Report : Type 0 where
  waiting : Report
  posting : List (String × ℕ) → Report

-- `spawn_with_ready`: the listener is bound, the report's task is spawned, and the accept loop runs
-- until an accept fails, or until the handle is aborted. The other tasks go on.
pub data Stage : Type 0 where
  binding unbound serving detached : Stage

-- Whether the task of the report is there.
abbrev pub report_runs : Stage → Bool
report_runs binding = false
report_runs unbound = false
report_runs serving = true
report_runs detached = true

pub record Process (Db : Type 0) : Type 0 where
  pub shared : Shared Db
  pub tasks : List Task
  pub report : Report
  pub stage : Stage

abbrev pub after_read : Connection → Outcome IoError (Frame × Source) → Task
after_read conn (ok (frame, _)) = received conn frame
after_read conn (err e) = ended conn none (err (io e)) conn.out
after_read conn (panicked p) = ended conn none (panicked p) conn.out

module _ {RedisClient Conn Db : Type 0} (server : Redis RedisClient Conn Db)
    (state : Inner Conn) where
  -- The increment in each arm of the `match` on the result of `forward_frame`.
  unfoldable pub record_result : Outcome ServerError ℕ → World Db → World Db
  record_result (ok status) w = forget_error (incr_edge server state "remote_write_ok") w
  record_result (err e) w = forget_error (incr_edge server state "remote_write_err") w
  record_result (panicked p) w = w

module _ (c : Codec) (cell : KeyCell) (nonce : List ℕ) (serde : Serde) (io_text : IoError → String)
    {Db : Type 0} where
  -- The reply in each arm.
  unfoldable pub send_result :
      Frame → Outcome ServerError ℕ → Exec ServerError (World Db) (Unit {0})
  send_result frame (ok status) w =
      (do
        body ← lift (map_err json (serde.remote_write_ack.encode (record { status = status })))
        on_stream (write_frame c cell nonce msg_remote_write_ack frame.tx_id body chacha20poly1305))
        w
  send_result frame (err e) w =
      write_error c cell nonce serde frame.tx_id (server_error_text io_text e) w
  send_result frame (panicked p) w = (panicked p, w)

-- The end of a task.
abbrev pub finish_task :
    {Db : Type 0}
    → Connection
    → Option (Outcome ServerError ℕ)
    → Outcome ServerError (Unit {0}) × World Db
    → Task × Shared Db
finish_task conn tried (r, w) = (ended conn tried r w.out, without_out w)

module _ (c : Codec) (cell : KeyCell) (nonce : List ℕ) (serde : Serde) (io_text : IoError → String)
    {RedisClient Conn Db : Type 0} (server : Redis RedisClient Conn Db) (state : Inner Conn) where
  -- One step of a spawned `handle_conn`, which is over when it has ended.
  unfoldable pub advance_task : Task → Shared Db → Task × Shared Db
  advance_task (accepted conn) g = (after_read conn (read_frame c cell conn.stream), g)
  advance_task (received conn frame) g =
      if frame.message_type == state.config.message_type
      then (let (r, w) = forward_frame state frame (with_out g conn.out) in
          (forwarded conn frame r, without_out w))
      else finish_task conn none (
          write_error c cell nonce serde frame.tx_id
            (String.◌++◌ "unexpected message_type " (decimal frame.message_type))
            (with_out g conn.out))
  advance_task (forwarded conn frame r) g =
      (recorded conn frame r, without_out (record_result server state r (with_out g conn.out)))
  advance_task (recorded conn frame r) g =
      finish_task conn (some r)
        (send_result c cell nonce serde io_text frame r (with_out g conn.out))
  advance_task (ended conn tried r out) g = (ended conn tried r out, g)

-- What the report does with the totals, or without them.
abbrev pub after_totals : Outcome EdgeError (List (String × ℕ)) → Report
after_totals (ok entries) = posting entries
after_totals (err e) = waiting
after_totals (panicked p) = waiting

module _ (c : Codec) (cell : KeyCell) (nonce : List ℕ) (serde : Serde) (io_text : IoError → String)
    {F : Type 0} (float : Float F) (prost : Prost F) (snappy : Snappy)
    {RedisClient Conn Db : Type 0} (server : Redis RedisClient Conn Db) (state : Inner Conn) where
  -- The steps of the proxy: of the accept loop, of one of the tasks, or of the report.
  pub data ServerStep : Process Db → Process Db → Type 0 where
    bound : (p : Process Db) → p.stage ≡ binding → ServerStep p (record p { stage = serving })
    bind_failed : (p : Process Db) → p.stage ≡ binding → ServerStep p (record p { stage = unbound })
    accept :
        (p : Process Db) (conn : Connection)
        → p.stage ≡ serving
        → ServerStep p (record p { tasks = p.tasks ++ accepted conn ∷ [] })
    accept_failed :
        (p : Process Db) → p.stage ≡ serving → ServerStep p (record p { stage = detached })
    run_task :
        (p : Process Db) (before after : List Task) (task task' : Task) (g' : Shared Db)
        → p.tasks ≡ before ++ task ∷ after
        → advance_task c cell nonce serde io_text server state task p.shared ≡ (task', g')
        → ServerStep p (record p { shared = g'; tasks = before ++ task' ∷ after })
    read_totals :
        (p : Process Db) (r : Outcome EdgeError (List (String × ℕ))) (db : Db)
        → report_runs p.stage ≡ true
        → p.report ≡ waiting
        → totals server state.edges p.shared.db ≡ (r, db)
        → ServerStep p (record p { shared = record p.shared { db = db }; report = after_totals r })
    post_totals :
        (p : Process Db) (now : ℤ) (entries : List (String × ℕ)) (out : Sink)
        (r : Outcome ServerError (Unit {0})) (w : World Db)
        → report_runs p.stage ≡ true
        → p.report ≡ posting entries
        → flush_totals float prost snappy server state now entries (with_out p.shared out) ≡ (r, w)
        → ServerStep p (record p { shared = without_out w; report = waiting })

  pub data Runs (p : Process Db) : Process Db → Type 0 where
    start : Runs p p
    then_step : {q r : Process Db} → Runs p q → ServerStep q r → Runs p r
