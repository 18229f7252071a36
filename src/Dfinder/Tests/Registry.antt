-- ===== src/Dfinder/Tests/Registry.antt =====
-- The table, the probe cycle and the interleavings.
use proto.Base.{◌≡◌, refl, [], ◌∷◌, none, some, if◌then◌else◌, arith}
use proto.Dfinder.Store.{has_labels}
use proto.Dfinder.Store.Lookup.{find_node, only_if}
use proto.Dfinder.Store.Refines.{node_at, list_by_labels-upsert}
use proto.Dfinder.Server.Cycle.{marked, to_remove}
use proto.Dfinder.Server.Verdict.{run_probe_cycle_verdict, find_healthy-run_probe_cycle}
use proto.Dfinder.Server.Interleaving.{resting, probing, Reach}
use proto.Dfinder.Server.Interleaving.Lost.{lost_registration}
use proto.Dfinder.Samples.{rows_db, rows_db_laws, json_samples, json_samples_laws, api, node}
use proto.Dfinder.Runs.{
  store₀, store₁, upsert_run, list_none, list_one, labels_one, inner₀, inner₁, store_node_run,
  inner₂, cycle_run, list_after, find_after, expired, inner₃, removal_run,
}

list_by_labels-upsert_example :
    find_node "10.0.0.1" (node ∷ []) ≡ only_if (has_labels api) (some node)
list_by_labels-upsert_example =
    list_by_labels-upsert json_samples json_samples_laws rows_db rows_db_laws 77 node api store₀
      store₁ [] (node ∷ []) "10.0.0.1" (omega arith) list_none upsert_run labels_one

run_probe_cycle_verdict_example :
    (find_node "10.0.0.1" [] ≡ (
      if to_remove 15 5 inner₁.probe (some node) (inner₁.health "10.0.0.1")
      then none
      else some node))
    × (inner₂.health "10.0.0.1" ≡ (
        if to_remove 15 5 inner₁.probe (some node) (inner₁.health "10.0.0.1")
        then none
        else marked 15 5 inner₁.probe (some node) (inner₁.health "10.0.0.1")))
run_probe_cycle_verdict_example =
    run_probe_cycle_verdict json_samples json_samples_laws rows_db rows_db_laws 15 inner₁ inner₂
      (node ∷ []) [] "10.0.0.1" list_one cycle_run list_after

find_healthy-run_probe_cycle_example :
    find_node "10.0.0.1" [] ≡ only_if inner₁.probe (only_if (has_labels api) (some node))
find_healthy-run_probe_cycle_example =
    find_healthy-run_probe_cycle json_samples json_samples_laws rows_db rows_db_laws 15 inner₁
      inner₂ api (node ∷ []) [] "10.0.0.1" list_one cycle_run find_after

lost_registration_example :
    Reach json_samples rows_db
      (record { inner = inner₀; phase = probing 15 5 [] expired })
      (record { inner = inner₃; phase = resting })
    × (node_at json_samples rows_db rows_db_laws store₁ "10.0.0.1" ≡ some node)
    × (node_at json_samples rows_db rows_db_laws inner₃.store "10.0.0.1" ≡ none)
    × (inner₃.health "10.0.0.1" ≡ none)
lost_registration_example =
    lost_registration json_samples json_samples_laws rows_db rows_db_laws inner₀ inner₁ inner₃ 15 5
      expired 77 10 node (omega arith) refl store_node_run removal_run
