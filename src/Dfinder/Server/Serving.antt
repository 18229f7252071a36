-- ===== src/Dfinder/Server/Serving.antt =====
-- src/dfinder/server.rs: the server as it runs. Each connection is a task of its own, which reads its
-- frame, waits for the lock, and answers; the probe is one more task.
pub mod Responses
pub mod Sections
pub mod Explained
pub mod Moments
pub mod Entries
use proto.Base.{
  ℕ, ◌==◌, ◌≡◌, if◌then◌else◌, Bool, true, false, List, [], ◌∷◌, ◌++◌, String, Outcome, ok, err,
  panicked, map_err,
}
use proto.Base.Exec.{Exec, lift, pure, ◌>>=◌, ◌>>◌}
use proto.Base.Text.{decimal}
use Prim.Native.String
use proto.TinyFrame.Types.{IoError, Frame}
use proto.TinyFrame.Codec.{Codec}
use proto.TinyFrame.Key.{KeyCell}
use proto.TinyFrame.Stream.{Source, Sink, write_frame_plain, read_frame}
use proto.Dfinder.Protocol.{
  Serde, msg_register, msg_register_ack, msg_query, msg_query_result, msg_error,
}
use proto.Dfinder.Store.{Sqlite}
use proto.Dfinder.Server.State.{ServerError, io, json, Inner}
use proto.Dfinder.Server.Locked.{store_node, find_healthy}
use proto.Dfinder.Server.Handlers.{is_empty}
use proto.Dfinder.Server.Interleaving.{Phase, System, ProbeStep}

-- What `listener.accept()` hands to a task: the peer's address and the two halves of the stream.
pub record Connection : Type 0 where
  pub ip : String
  pub stream : Source
  pub out : Sink

-- A frame that a handler has made and not yet written.
pub record Reply : Type 0 where
  pub message_type : ℕ
  pub tx_id : ℕ
  pub body : List ℕ

-- Where the task of a connection is.
pub data Task : Type 0 where
  accepted : Connection → Task
  received : Connection → Frame → Task
  answering : Connection → Reply → Task
  ended : Connection → Outcome ServerError (Unit {0}) → Sink → Task

-- `run_and_notify`: the listener is bound, the probe task is spawned, the accept loop runs until an
-- accept fails, and then the probe task is aborted. Where the handle that `spawn` returned is
-- aborted, the accept loop is dropped, and the probe task is left to itself.
pub data Stage : Type 0 where
  binding serving stopping stopped detached : Stage

-- Whether the probe task is there.
abbrev pub probe_runs : Stage → Bool
probe_runs binding = false
probe_runs serving = true
probe_runs stopping = true
probe_runs stopped = false
probe_runs detached = true

pub record Process (E Conn : Type 0) : Type 0 where
  pub system : System E Conn
  pub tasks : List Task
  pub stage : Stage

module _ {E Conn : Type 0} where
  -- A section under the write lock: an error changes nothing.
  abbrev pub section_under_lock :
      (Inner E Conn → Outcome ServerError (Inner E Conn))
      → Exec ServerError (Inner E Conn) (Unit {0})
  section_under_lock section g = elim (section g) [
    | ok g' ↦ (ok tt, g')
    | err e ↦ (err e, g)
    | panicked p ↦ (panicked p, g)
  ]

module _ {E Conn : Type 0} (serde : Serde E) (db : Sqlite Conn) where
  -- The handlers up to the write of their reply: at most one section under the lock.
  abbrev pub error_reply : (tx_id : ℕ) (message : String) → Exec ServerError (Inner E Conn) Reply
  error_reply tx_id message = do
    body ← lift (map_err json (serde.error_body.encode (record { message = message })))
    pure (record { message_type = msg_error; tx_id = tx_id; body = body })

  unfoldable pub respond_register :
      (secs now : ℕ) (ip : String) → Frame → Exec ServerError (Inner E Conn) Reply
  respond_register secs now ip frame = do
    req ← lift (map_err json (serde.register_request.decode frame.payload))
    if is_empty req.labels then error_reply frame.tx_id "register requires >= 1 label" else do
      section_under_lock (
          store_node serde db secs now
            (record { ip = ip; port = req.port; labels = req.labels; extra = req.extra }))
      pure
          (record { message_type = msg_register_ack; tx_id = frame.tx_id; body = b'{' ∷ b'}' ∷ [] })

  unfoldable pub respond_query : Frame → Exec ServerError (Inner E Conn) Reply
  respond_query frame = do
    req ← lift (map_err json (serde.query_request.decode frame.payload))
    if is_empty req.labels then error_reply frame.tx_id "query requires >= 1 label" else do
      nodes ← (λ g. (find_healthy serde db req.labels g, g))
      body ← lift (map_err json (serde.query_result.encode (record { nodes = nodes })))
      pure (record { message_type = msg_query_result; tx_id = frame.tx_id; body = body })

  unfoldable pub respond :
      (secs now : ℕ) (ip : String) → Frame → Exec ServerError (Inner E Conn) Reply
  respond secs now ip frame =
      if frame.message_type == msg_register
      then respond_register secs now ip frame
      else if frame.message_type == msg_query
      then respond_query frame
      else error_reply frame.tx_id
          (String.◌++◌ "unknown message_type " (decimal frame.message_type))

-- After the read of the frame.
abbrev pub after_read : Connection → Outcome IoError (Frame × Source) → Task
after_read conn (ok (frame, _)) = received conn frame
after_read conn (err e) = ended conn (err (io e)) conn.out
after_read conn (panicked p) = ended conn (panicked p) conn.out

-- After the section under the lock.
abbrev pub after_lock : Connection → Outcome ServerError Reply → Task
after_lock conn (ok reply) = answering conn reply
after_lock conn (err e) = ended conn (err e) conn.out
after_lock conn (panicked p) = ended conn (panicked p) conn.out

module _ (c : Codec) (cell : KeyCell) (nonce : List ℕ) where
  -- The write that ends a handler.
  unfoldable pub write_reply : Reply → Sink → Outcome ServerError (Unit {0}) × Sink
  write_reply reply out =
      let (r, out') =
        write_frame_plain c cell nonce reply.message_type reply.tx_id reply.body out in
      (map_err io r, out')

module _ (c : Codec) (cell : KeyCell) (nonce : List ℕ) {E Conn : Type 0} (serde : Serde E)
    (db : Sqlite Conn) where
  -- One step of a spawned `handle_conn`, which is over when it has ended.
  unfoldable pub advance_task : (secs now : ℕ) → Task → Inner E Conn → Task × Inner E Conn
  advance_task secs now (accepted conn) g = (after_read conn (read_frame c cell conn.stream), g)
  advance_task secs now (received conn frame) g =
      let (r, g') = respond serde db secs now conn.ip frame g in (after_lock conn r, g')
  advance_task secs now (answering conn reply) g =
      let (r, out) = write_reply c cell nonce reply conn.out in (ended conn r out, g)
  advance_task secs now (ended conn r out) g = (ended conn r out, g)

  -- The steps of the server: of the accept loop, of one of the tasks, or of the probe.
  pub data ServerStep : Process E Conn → Process E Conn → Type 0 where
    bound : (p : Process E Conn) → p.stage ≡ binding → ServerStep p (record p { stage = serving })
    bind_failed :
        (p : Process E Conn) → p.stage ≡ binding → ServerStep p (record p { stage = stopped })
    accept :
        (p : Process E Conn) (conn : Connection)
        → p.stage ≡ serving
        → ServerStep p (record p { tasks = p.tasks ++ accepted conn ∷ [] })
    accept_failed :
        (p : Process E Conn) → p.stage ≡ serving → ServerStep p (record p { stage = stopping })
    handle_aborted :
        (p : Process E Conn) → p.stage ≡ serving → ServerStep p (record p { stage = detached })
    abort_probe :
        (p : Process E Conn) → p.stage ≡ stopping → ServerStep p (record p { stage = stopped })
    run_task :
        (p : Process E Conn) (secs now : ℕ) (before after : List Task) (task task' : Task)
        (g' : Inner E Conn)
        → p.tasks ≡ before ++ task ∷ after
        → advance_task secs now task p.system.inner ≡ (task', g')
        → ServerStep p
            (record p { system = record p.system { inner = g' }; tasks = before ++ task' ∷ after })
    run_probe :
        (p : Process E Conn) (s : System E Conn)
        → probe_runs p.stage ≡ true
        → ProbeStep serde db p.system s
        → ServerStep p (record p { system = s })

  pub data Runs (p : Process E Conn) : Process E Conn → Type 0 where
    start : Runs p p
    then_step : {q r : Process E Conn} → Runs p q → ServerStep q r → Runs p r
