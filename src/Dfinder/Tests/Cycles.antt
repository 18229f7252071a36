-- ===== src/Dfinder/Tests/Cycles.antt =====
-- A cycle in which the node does not answer, and one in which it does.
use proto.Base.{ℕ, ◌≡◌, refl, Bool, true, false, List, [], ◌∷◌, String, none, some, ok, arith}
use proto.Dfinder.Protocol.{NodeInfo}
use proto.Dfinder.Store.{Row, lock}
use proto.Dfinder.Store
use proto.Dfinder.Store.Refines.{node_at}
use proto.Dfinder.Server.State.{Inner}
use proto.Dfinder.Server.Locked.{mark_node, remove_node, remove_expired}
use proto.Dfinder.Server.Interleaving.{
  System, resting, probing, probe, begin, probe_one, finish, Reach, here, next,
}
use proto.Dfinder.Server.Interleaving.Eventually.{node_at-Silent}
use proto.Dfinder.Server.Interleaving.Stays.{node_at-Answering}
use proto.Dfinder.Samples.{rows_db, rows_db_laws, json_samples, json_samples_laws, node}
use proto.Dfinder.Runs.{inner₁, list_one, stored_one}

abbrev ip : String
ip = "10.0.0.1"

-- The node was healthy at 10, and is probed at 15; five units are the most that is allowed.
abbrev marks : Bool → Inner ℕ (List Row) × List String
marks answer = mark_node 15 5 answer ip (inner₁, [])

abbrev left : Bool → Inner ℕ (List Row)
left answer = (remove_expired rows_db (marks answer).1 (marks answer).0).1

abbrev started : System ℕ (List Row)
started = record { inner = inner₁; phase = probing 15 5 (node ∷ []) [] }

removal :
    (answer : Bool)
    → remove_expired rows_db (marks answer).1 (marks answer).0 ≡ (ok tt, left answer)
unfolding remove_expired remove_node Store.remove lock mark_node
removal true = refl
removal false = refl

cycle_steps :
    (answer : Bool) {s : System ℕ (List Row)}
    → Reach json_samples rows_db s started
    → Reach json_samples rows_db s (record { inner = left answer; phase = resting })
cycle_steps answer r = next (next r (probe _ _ (probe_one inner₁ 15 5 node [] [] answer))) (
    probe _ _
      (finish (marks answer).0 (left answer) 15 5 (marks answer).1 (ok tt) (removal answer)))

node_at-Silent_example : node_at json_samples rows_db rows_db_laws (left false).store ip ≡ none
unfolding cycle_steps
node_at-Silent_example =
    node_at-Silent json_samples json_samples_laws rows_db rows_db_laws ip inner₁ 15 (node ∷ [])
      (record { healthy = true; last_ok = 10 }) (record { inner = left false; phase = resting })
      list_one refl (omega arith) (cycle_steps false here) ((tt, λ _. refl), refl) (omega arith)

node_at-Answering_example :
    (node' : NodeInfo ℕ) × (node_at json_samples rows_db rows_db_laws (left true).store ip
      ≡ some node')
unfolding cycle_steps
node_at-Answering_example =
    node_at-Answering json_samples json_samples_laws rows_db rows_db_laws ip inner₁ node
      (record { inner = left true; phase = resting }) stored_one
      (cycle_steps true (next here (probe _ _ (begin inner₁ 15 (node ∷ []) list_one))))
      (((tt, tt), λ _. refl), tt)
