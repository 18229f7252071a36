-- ===== src/Dfinder/Server/Serving/Explained.antt =====
-- What is known of the task of a connection, given the steps of the server so far.
use proto.Base.{ℕ, ◌≡◌, refl, List, ◌∷◌, ◌++◌, Outcome, ok, err, panicked, ◌⊎◌, inl, inr}
use mathlib.Core.Path.{subst}
use proto.TinyFrame.Types.{IoError, Frame}
use proto.TinyFrame.Codec.{Codec}
use proto.TinyFrame.Key.{KeyCell}
use proto.TinyFrame.Stream.{Source, Sink, read_frame}
use proto.Dfinder.Protocol.{Serde}
use proto.Dfinder.Store.{Sqlite}
use proto.Dfinder.Server.State.{ServerError, Inner}
use proto.Dfinder.Server.Handlers.{handle_conn}
use proto.Dfinder.Server.Serving.{
  Connection, Reply, Task, accepted, received, answering, ended, respond, write_reply, after_read,
  after_lock, advance_task, Process, ServerStep, Runs, start, then_step,
}
use proto.Dfinder.Server.Serving.Responses.{deliver, handle_frame-deliver}

abbrev pub connection_of : Task → Connection
connection_of (accepted conn) = conn
connection_of (received conn frame) = conn
connection_of (answering conn reply) = conn
connection_of (ended conn r out) = conn

module _ (c : Codec) (cell : KeyCell) (nonce : List ℕ) {E Conn : Type 0} (serde : Serde E)
    (db : Sqlite Conn) where
  -- A step of the server that is one of the task of this connection.
  abbrev pub Moves : Connection → (p q : Process E Conn) → Type 0
  Moves conn p q =
      (before after : List Task) × (task task' : Task) × (connection_of task ≡ conn)
      × (p.tasks ≡ before ++ task ∷ after)
      × (q.tasks ≡ before ++ task' ∷ after)

  -- A step of that task that leaves the registry as `handle_conn`, run alone on this connection
  -- before the step, leaves it, with this result and these bytes sent.
  abbrev pub Handles :
      Connection → Outcome ServerError (Unit {0}) → Sink → (p q : Process E Conn) → Type 0
  Handles conn r out p q =
      (secs now : ℕ) × (g' : Inner E Conn) × (handle_conn c cell nonce serde db secs now conn.ip
          conn.stream (record { inner = p.system.inner; out = conn.out })
        ≡ (r, record { inner = g'; out = out }))
      × (q.system ≡ record p.system { inner = g' })
      × Moves conn p q

  -- One of the steps of this run has the property.
  abbrev pub During :
      {p q : Process E Conn}
      → (Process E Conn → Process E Conn → Type 0)
      → Runs c cell nonce serde db p q
      → Type 0
  During P start = ⊥
  During P (then_step {q = q} {r = r} runs st) = During P runs ⊎ P q r

  abbrev pub HandledIn :
      {p q : Process E Conn}
      → Runs c cell nonce serde db p q
      → Connection
      → Outcome ServerError (Unit {0})
      → Sink
      → Type 0
  HandledIn runs conn r out = During (Handles conn r out) runs

  -- What is known of a task.
  abbrev pub Explained : {p q : Process E Conn} → Runs c cell nonce serde db p q → Task → Type 0
  Explained runs (accepted conn) = Unit {0}
  Explained runs (received conn frame) =
      (rest : Source) × (read_frame c cell conn.stream ≡ ok (frame, rest))
  Explained runs (answering conn reply) =
      let (r, out) = write_reply c cell nonce reply conn.out in HandledIn runs conn r out
  Explained runs (ended conn r out) = HandledIn runs conn r out

  module _ {p q r : Process E Conn} (runs : Runs c cell nonce serde db p q)
      (st : ServerStep c cell nonce serde db q r) where
    pub Explained-later : (task : Task) → Explained runs task → Explained (then_step runs st) task
    Explained-later (accepted conn) x = tt
    Explained-later (received conn frame) x = x
    Explained-later (answering conn reply) x = inl x
    Explained-later (ended conn r out) x = inl x

    -- A connection whose frame could not be read has ended, whatever the state.
    after_read-Explained :
        (conn : Connection) (got : Outcome IoError (Frame × Source))
        → read_frame c cell conn.stream ≡ got
        → r.system ≡ q.system
        → Moves conn q r
        → Explained (then_step runs st) (after_read conn got)
    unfolding handle_conn
    after_read-Explained conn (ok (frame, rest)) e same moved = (rest, e)
    after_read-Explained conn (err x) e same moved = inr (0, 0, q.system.inner, rw e, same, moved)
    after_read-Explained conn (panicked x) e same moved =
        inr (0, 0, q.system.inner, rw e, same, moved)

    after_lock-Explained :
        (conn : Connection) (secs now : ℕ) (g' : Inner E Conn) (answer : Outcome ServerError Reply)
        → r.system ≡ record q.system { inner = g' }
        → handle_conn c cell nonce serde db secs now conn.ip conn.stream
            (record { inner = q.system.inner; out = conn.out })
          ≡ deliver c cell nonce conn.out (answer, g')
        → Moves conn q r
        → Explained (then_step runs st) (after_lock conn answer)
    after_lock-Explained conn secs now g' (ok reply) to e moved = inr (secs, now, g', e, to, moved)
    after_lock-Explained conn secs now g' (err x) to e moved = inr (secs, now, g', e, to, moved)
    after_lock-Explained conn secs now g' (panicked x) to e moved =
        inr (secs, now, g', e, to, moved)

  handle_conn-deliver :
      (secs now : ℕ) (conn : Connection) (frame : Frame) (rest : Source) (g : Inner E Conn)
      → read_frame c cell conn.stream ≡ ok (frame, rest)
      → handle_conn c cell nonce serde db secs now conn.ip conn.stream
          (record { inner = g; out = conn.out })
        ≡ deliver c cell nonce conn.out (respond serde db secs now conn.ip frame g)
  unfolding handle_conn
  handle_conn-deliver secs now conn frame rest g got = rw got (
      handle_frame-deliver c cell nonce serde db secs now conn.ip frame
        (record { inner = g; out = conn.out }))

  module _ {p q r : Process E Conn} (runs : Runs c cell nonce serde db p q)
      (st : ServerStep c cell nonce serde db q r) where
    advance_task_lem :
        (secs now : ℕ) (task : Task)
        → Explained runs task
        → let after : Task × Inner E Conn =
            advance_task c cell nonce serde db secs now task q.system.inner in
          r.system ≡ record q.system { inner = after.1 }
          → Moves (connection_of task) q r
          → Explained (then_step runs st) after.0
    unfolding advance_task
    advance_task_lem secs now (accepted conn) x to moved =
        after_read-Explained runs st conn (read_frame c cell conn.stream) refl to moved
    advance_task_lem secs now (received conn frame) (rest, got) to moved =
        let answer : Outcome ServerError Reply × Inner E Conn =
          respond serde db secs now conn.ip frame q.system.inner in
        after_lock-Explained runs st conn secs now answer.1 answer.0 to
          (handle_conn-deliver secs now conn frame rest q.system.inner got) moved
    advance_task_lem secs now (answering conn reply) x to moved = inl x
    advance_task_lem secs now (ended conn result out) x to moved = inl x

    pub advance_task-Explained :
        (secs now : ℕ) (task task' : Task) (g' : Inner E Conn)
        → advance_task c cell nonce serde db secs now task q.system.inner ≡ (task', g')
        → r.system ≡ record q.system { inner = g' }
        → Moves (connection_of task) q r
        → Explained runs task
        → Explained (then_step runs st) task'
    advance_task-Explained secs now task task' g' e to moved x =
        subst
          (λ (s : Task × Inner E Conn).
            r.system ≡ record q.system { inner = s.1 } → Explained (then_step runs st) s.0)
          e (λ same. advance_task_lem secs now task x same moved) to
