-- ===== src/PromProxy/Server/Serving/Counts.antt =====
-- The counters of the proxy under every interleaving of its tasks.
use proto.Base.{ℕ, ◌≡◌, refl, sym, ap, ◌∙◌, List, [], ◌∷◌, ◌++◌, String, Outcome, arith}
use mathlib.Core.Path.{subst}
use proto.Base.Integers.{ℤ, pos, ◌+ℤ◌, +ℤ-pos-zero, +ℤ-pos-pos}
use proto.TinyFrame.Types.{IoError}
use proto.TinyFrame.Codec.{Codec}
use proto.TinyFrame.Key.{KeyCell}
use proto.PromProxy.Protocol.{Serde, Snappy}
use proto.PromProxy.Edge.{EdgeError, Redis}
use proto.PromProxy.Edge.Totals.{counted, RedisLaws, totals_unchanged}
use proto.PromProxy.Encode.{Prost, Float}
use proto.PromProxy.Server.State.{ServerError, Inner, World}
use proto.PromProxy.Server.{post_remote_write, flush_totals}
use proto.PromProxy.Server.Serving.{
  Shared, with_out, Task, accepted, Process, waiting, binding, ServerStep, bound, bind_failed,
  accept, accept_failed, run_task, read_totals, post_totals, Runs, start, then_step,
}
use proto.PromProxy.Server.Serving.Adds.{
  counted_all, counted_all-append, number, Works, Adds, advance_task-Adds,
}

module _ {F : Type 0} (float : Float F) (prost : Prost F) (snappy : Snappy)
    {RedisClient Conn Db : Type 0} (server : Redis RedisClient Conn Db) (state : Inner Conn) where
  db-flush_totals :
      (now : ℤ) (entries : List (String × ℕ)) (w : World Db)
      → (flush_totals float prost snappy server state now entries w).1.db ≡ w.db
  unfolding flush_totals post_remote_write
  db-flush_totals now [] w = refl
  db-flush_totals now (entry ∷ entries) w = ground arith

module _ {F : Type 0} (float : Float F) (prost : Prost F) (snappy : Snappy)
    {RedisClient Conn Db : Type 0} (server : Redis RedisClient Conn Db) (state : Inner Conn)
    (redis : RedisLaws server state.edges.hash_key) (c : Codec) (cell : KeyCell) (nonce : List ℕ)
    (serde : Serde) (io_text : IoError → String) where
  -- What every reachable process keeps.
  abbrev Tallies : (key : String) (g₀ : Shared Db) → Process Db → Type 0
  Tallies key g₀ p =
      number server state redis p.shared key
      ≡ number server state redis g₀ key +ℤ pos (counted_all key p.tasks)

  run_task-Tallies :
      (key : String) (g₀ g g' : Shared Db) (before after : List Task) (task task' : Task)
      → Adds server state redis key task task' g g'
      → number server state redis g key
        ≡ number server state redis g₀ key +ℤ pos (counted_all key (before ++ task ∷ after))
      → number server state redis g' key
        ≡ number server state redis g₀ key +ℤ pos (counted_all key (before ++ task' ∷ after))
  run_task-Tallies key g₀ g g' before after task task' (n, more, one) known =
      more
      ∙ ap (λ z. z +ℤ pos n) known
      ∙ +ℤ-pos-pos (number server state redis g₀ key) (counted_all key (before ++ task ∷ after)) n
      ∙ ap (λ k. number server state redis g₀ key +ℤ pos k)
          (omega (
            arith,
            counted_all-append key before (task ∷ after),
            counted_all-append key before (task' ∷ after),
          ))

  -- If a step increments a counter, the increment succeeds.
  abbrev StepWorks :
      {p q : Process Db}
      → ServerStep c cell nonce serde io_text float prost snappy server state p q
      → Type 0
  StepWorks (run_task p before after task task' g' whole e) = Works server state redis task p.shared
  StepWorks _ = Unit

  -- No increment of this run fails.
  abbrev pub AllWork :
      {p q : Process Db}
      → Runs c cell nonce serde io_text float prost snappy server state p q
      → Type 0
  AllWork start = Unit
  AllWork (then_step r st) = AllWork r × StepWorks st

  ServerStep-Tallies :
      (key : String) (g₀ : Shared Db) {p q : Process Db}
      (st : ServerStep c cell nonce serde io_text float prost snappy server state p q)
      → StepWorks st
      → Tallies key g₀ p
      → Tallies key g₀ q
  ServerStep-Tallies key g₀ (bound p on) works known = known
  ServerStep-Tallies key g₀ (bind_failed p on) works known = known
  ServerStep-Tallies key g₀ (accept p conn on) works known =
      known
      ∙ ap (λ k. number server state redis g₀ key +ℤ pos k)
          (omega (arith, counted_all-append key p.tasks (accepted conn ∷ [])))
  ServerStep-Tallies key g₀ (accept_failed p on) works known = known
  ServerStep-Tallies key g₀ (run_task p before after task task' g' whole e) works known =
      let adds : Adds server state redis key task task' p.shared g' =
        subst (λ (s : Task × Shared Db). Adds server state redis key task s.0 p.shared s.1) e
          (advance_task-Adds server state redis c cell nonce serde io_text key task p.shared
            works) in
      run_task-Tallies key g₀ p.shared g' before after task task' adds
        (known ∙ ap (λ ts. number server state redis g₀ key +ℤ pos (counted_all key ts)) whole)
  ServerStep-Tallies key g₀ (read_totals p r db runs on e) works known =
      let kept : db ≡ p.shared.db =
        ap (λ (s : Outcome EdgeError (List (String × ℕ)) × Db). s.1) (sym e)
        ∙ totals_unchanged server state.edges redis p.shared.db in
      ap (λ d. counted (redis.value d key)) kept ∙ known
  ServerStep-Tallies key g₀ (post_totals p now entries out r w runs on e) works known =
      let kept : w.db ≡ p.shared.db =
        ap (λ (s : Outcome ServerError Unit × World Db). s.1.db) (sym e)
        ∙ db-flush_totals float prost snappy server state now entries (with_out p.shared out) in
      ap (λ d. counted (redis.value d key)) kept ∙ known

  -- However the accept loop, the tasks of the connections and the report take turns: a counter
  -- is what it was at the start, and one more for each connection whose request has been
  -- counted under it; no increment is lost and none comes twice. (In a run in which none of the
  -- increments that it makes fails.)
  pub Runs-Tallies :
      (g₀ : Shared Db) (p : Process Db) (key : String)
      (runs : Runs c cell nonce serde io_text float prost snappy server state
        (record { shared = g₀; tasks = []; report = waiting; stage = binding })
        p)
      → AllWork runs
      → number server state redis p.shared key
        ≡ number server state redis g₀ key +ℤ pos (counted_all key p.tasks)
  Runs-Tallies g₀ p key start works = sym (+ℤ-pos-zero _)
  Runs-Tallies g₀ p key (then_step r st) works =
      ServerStep-Tallies key g₀ st works.1 (Runs-Tallies g₀ _ key r works.0)
