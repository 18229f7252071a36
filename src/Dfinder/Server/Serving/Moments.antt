-- ===== src/Dfinder/Server/Serving/Moments.antt =====
-- The server with its tasks: what a connection was told is what `handle_conn` tells it at one moment
-- of the run.
use proto.Base.{ℕ, ◌≡◌, refl, List, [], ◌∷◌, ◌++◌, Outcome}
use mathlib.Core.Path.{subst}
use proto.TinyFrame.Codec.{Codec}
use proto.TinyFrame.Key.{KeyCell}
use proto.TinyFrame.Stream.{Sink}
use proto.Dfinder.Protocol.{Serde, SerdeLaws}
use proto.Dfinder.Store.{Sqlite}
use proto.Dfinder.Server.State.{ServerError, Inner}
use proto.Dfinder.Server.Interleaving.{Reach-trans, System, probe, Reach, here, next}
use proto.Dfinder.Server.Serving.{
  Connection, Task, accepted, received, answering, ended, Process, binding, ServerStep, accept,
  accept_failed, bound, bind_failed, abort_probe, handle_aborted, run_task, run_probe, Runs, start,
  then_step, respond, advance_task,
}
use proto.Base.{All, All-append, All-append_left, All-append_right, All-map}
use proto.Dfinder.Server.Serving.Sections.{respond-Reach}
use proto.Dfinder.Server.Serving.Explained.{
  HandledIn, Explained, Explained-later, advance_task-Explained,
}

module _ (c : Codec) (cell : KeyCell) (nonce : List ℕ) {E Conn : Type 0} (serde : Serde E)
    (db : Sqlite Conn) where
  abbrev AllExplained : {p q : Process E Conn} → Runs c cell nonce serde db p q → Type 0
  AllExplained {q = q} runs = All (Explained c cell nonce serde db runs) q.tasks

  module _ {p q r : Process E Conn} (runs : Runs c cell nonce serde db p q)
      (st : ServerStep c cell nonce serde db q r) where
    All-later :
        (tasks : List Task)
        → All (Explained c cell nonce serde db runs) tasks
        → All (Explained c cell nonce serde db (then_step runs st)) tasks
    All-later tasks = All-map _ _ tasks (Explained-later c cell nonce serde db runs st)

    run_task-Explained :
        (before after : List Task) (task task' : Task)
        → Explained c cell nonce serde db (then_step runs st) task'
        → All (Explained c cell nonce serde db runs) (before ++ task ∷ after)
        → All (Explained c cell nonce serde db (then_step runs st)) (before ++ task' ∷ after)
    run_task-Explained before after task task' explained x =
        let P = Explained c cell nonce serde db runs in
        All-append (Explained c cell nonce serde db (then_step runs st)) before (task' ∷ after)
          (All-later before (All-append_left P before (task ∷ after) x))
          (explained, All-later after (All-append_right P before (task ∷ after) x).1)

  Runs-Explained :
      {p q : Process E Conn} (runs : Runs c cell nonce serde db p q)
      → p.tasks ≡ []
      → AllExplained runs
  Runs-Explained {p} start none_yet = rw none_yet tt
  Runs-Explained (then_step runs (bound p on)) none_yet =
      All-later runs (bound p on) p.tasks (Runs-Explained runs none_yet)
  Runs-Explained (then_step runs (bind_failed p on)) none_yet =
      All-later runs (bind_failed p on) p.tasks (Runs-Explained runs none_yet)
  Runs-Explained (then_step runs (accept p conn on)) none_yet =
      All-append (Explained c cell nonce serde db (then_step runs (accept p conn on))) p.tasks _
        (All-later runs (accept p conn on) p.tasks (Runs-Explained runs none_yet)) (tt, tt)
  Runs-Explained (then_step runs (accept_failed p on)) none_yet =
      All-later runs (accept_failed p on) p.tasks (Runs-Explained runs none_yet)
  Runs-Explained (then_step runs (handle_aborted p on)) none_yet =
      All-later runs (handle_aborted p on) p.tasks (Runs-Explained runs none_yet)
  Runs-Explained (then_step runs (abort_probe p on)) none_yet =
      All-later runs (abort_probe p on) p.tasks (Runs-Explained runs none_yet)
  Runs-Explained (then_step runs (run_probe p s on st)) none_yet =
      All-later runs (run_probe p s on st) p.tasks (Runs-Explained runs none_yet)
  Runs-Explained (then_step runs (run_task p secs now before after task task' g' whole e))
        none_yet =
      let step = run_task p secs now before after task task' g' whole e in
      let P = Explained c cell nonce serde db runs in
      let known = subst (All P) whole (Runs-Explained runs none_yet) in
      let mine = (All-append_right P before (task ∷ after) known).0 in
      run_task-Explained runs step before after task task'
        (advance_task-Explained c cell nonce serde db runs step secs now task task' g' e refl
          (before, after, task, task', refl, whole, refl) mine)
        known

  -- However the accept loop, the tasks of the connections and the probe take turns: where a task has
  -- ended, one of the steps of this very run, which is a step of a task on the same connection, found
  -- the registry in a state and left it in a state such that `handle_conn`, run without interruption
  -- on that connection in the first, has the task's result, sends the bytes that the task has sent,
  -- and leaves the registry in the second.
  pub Runs-HandledIn :
      (s₀ : System E Conn) (p : Process E Conn) (before after : List Task) (conn : Connection)
      (r : Outcome ServerError (Unit {0})) (out : Sink)
      (runs : Runs c cell nonce serde db (record { system = s₀; tasks = []; stage = binding }) p)
      → p.tasks ≡ before ++ ended conn r out ∷ after
      → HandledIn c cell nonce serde db runs conn r out
  Runs-HandledIn s₀ p before after conn r out runs whole =
      let P = Explained c cell nonce serde db runs in
      let known = subst (All P) whole (Runs-Explained runs refl) in
      (All-append_right P before (ended conn r out ∷ after) known).0

module _ (c : Codec) (cell : KeyCell) (nonce : List ℕ) {E Conn : Type 0} (serde : Serde E)
    (coding : SerdeLaws serde) (db : Sqlite Conn) where
  advance_task-Reach :
      (s : System E Conn) (secs now : ℕ) (task : Task)
      → Reach serde db s
          (record s { inner = (advance_task c cell nonce serde db secs now task s.inner).1 })
  unfolding advance_task
  advance_task-Reach s secs now (accepted conn) = here
  advance_task-Reach s secs now (received conn frame) =
      let answer = respond serde db secs now conn.ip frame s.inner in
      respond-Reach serde coding db secs now conn.ip frame s answer.1 answer.0 refl
  advance_task-Reach s secs now (answering conn reply) = here
  advance_task-Reach s secs now (ended conn r out) = here

  ServerStep-Reach :
      {p q : Process E Conn}
      → ServerStep c cell nonce serde db p q
      → Reach serde db p.system q.system
  ServerStep-Reach (bound p on) = here
  ServerStep-Reach (bind_failed p on) = here
  ServerStep-Reach (accept p conn on) = here
  ServerStep-Reach (accept_failed p on) = here
  ServerStep-Reach (handle_aborted p on) = here
  ServerStep-Reach (abort_probe p on) = here
  ServerStep-Reach (run_task p secs now before after task task' g' whole e) =
      subst (λ (a : Task × Inner E Conn). Reach serde db p.system (record p.system { inner = a.1 }))
        e (advance_task-Reach p.system secs now task)
  ServerStep-Reach (run_probe p s on st) = next here (probe p.system s st)

  -- The registry under the server goes through steps of its own.
  pub Runs-Reach :
      {p q : Process E Conn} → Runs c cell nonce serde db p q → Reach serde db p.system q.system
  Runs-Reach start = here
  Runs-Reach (then_step runs st) = Reach-trans serde db (Runs-Reach runs) (ServerStep-Reach st)
