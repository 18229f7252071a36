-- ===== src/Dfinder/Server/Interleaving/Ticks.antt =====
-- The ticks of the probe, where nothing else happens between their sections, as a run.
use proto.Base.{ℕ, refl, List, [], ◌∷◌, String, inl, inr, Outcome-cases}
use proto.Dfinder.Protocol.{NodeInfo, Serde}
use proto.Dfinder.Store.{Sqlite, list_all}
use proto.Dfinder.Server.State.{Inner, HealthProbe}
use proto.Dfinder.Server.Locked.{mark_node, mark_nodes, remove_expired, run_probe_cycle}
use proto.Dfinder.Server.Interleaving.{
  resting, probing, probe, begin, probe_one, finish, Reach, here, next, Reach-trans,
}

module _ {E Conn : Type 0} (serde : Serde E) (db : Sqlite Conn) where
  -- The task that `spawn_probe` spawns: a cycle at each tick, whatever came of the one before.
  unfoldable pub probe_loop : (ticks : List ℕ) → Inner E Conn → Inner E Conn
  probe_loop [] g = g
  probe_loop (now ∷ ticks) g = probe_loop ticks (run_probe_cycle serde db now g).1

  mark_nodes-Reach :
      (now ttl : ℕ) (answers : HealthProbe E) (nodes : List (NodeInfo E)) (g : Inner E Conn)
      (expired : List String)
      → let after : Inner E Conn × List String = mark_nodes now ttl answers nodes (g, expired) in
        Reach serde db
          (record { inner = g; phase = probing now ttl nodes expired })
          (record { inner = after.0; phase = probing now ttl [] after.1 })
  unfolding mark_nodes
  mark_nodes-Reach now ttl answers [] g expired = here
  mark_nodes-Reach now ttl answers (node ∷ nodes) g expired =
      let step : Inner E Conn × List String =
        mark_node now ttl (answers node) node.ip (g, expired) in
      Reach-trans serde db
        (next here (probe _ _ (probe_one g now ttl node nodes expired (answers node))))
        (mark_nodes-Reach now ttl answers nodes step.0 step.1)

  run_probe_cycle-Reach :
      (now : ℕ) (g : Inner E Conn)
      → Reach serde db
          (record { inner = g; phase = resting })
          (record { inner = (run_probe_cycle serde db now g).1; phase = resting })
  unfolding run_probe_cycle
  run_probe_cycle-Reach now g = elim (Outcome-cases (list_all serde db g.store)) [
    | inl (nodes, listed) ↦
        let after : Inner E Conn × List String =
          mark_nodes now g.offline_ttl g.probe nodes (g, []) in
        rw (listed, run_probe_cycle)
          (next
            (Reach-trans serde db (next here (probe _ _ (begin g now nodes listed)))
              (mark_nodes-Reach now g.offline_ttl g.probe nodes g []))
            (probe _ _ (
              finish after.0 (remove_expired db after.1 after.0).1 now g.offline_ttl after.1
                (remove_expired db after.1 after.0).0 refl)))
    | inr (inl (x, failed)) ↦ rw (failed, run_probe_cycle) here
    | inr (inr (p, failed)) ↦ rw (failed, run_probe_cycle) here
  ]

  pub probe_loop-Reach :
      (ticks : List ℕ) (g : Inner E Conn)
      → Reach serde db
          (record { inner = g; phase = resting })
          (record { inner = probe_loop ticks g; phase = resting })
  unfolding probe_loop
  probe_loop-Reach [] g = here
  probe_loop-Reach (now ∷ ticks) g =
      Reach-trans serde db (run_probe_cycle-Reach now g)
        (probe_loop-Reach ticks (run_probe_cycle serde db now g).1)
