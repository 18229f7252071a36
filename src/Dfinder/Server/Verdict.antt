-- ===== src/Dfinder/Server/Verdict.antt =====
-- The outcome of a probe cycle, as the registry's clients see it.
use proto.Base.{
  ℕ, ◌≡◌, refl, ap, ◌∙◌, if◌then◌else◌, List, [], ◌∷◌, String, eq_iff, Option, none, some, ok,
  arith,
}
use proto.Dfinder.Protocol.{NodeInfo, Serde, SerdeLaws}
use proto.Dfinder.Store.{Sqlite, list_all, has_labels}
use proto.Dfinder.Store.Table.{SqliteLaws}
use proto.Dfinder.Store.Lookup.{find_node, only_if}
use proto.Dfinder.Store.Refines.{list_all-node_at}
use proto.Dfinder.Server.State.{Inner}
use proto.Dfinder.Server.Locked.{find_healthy, marked_healthy, run_probe_cycle}
use proto.Dfinder.Server.Cycle.{marked, to_remove}
use proto.Dfinder.Server.Queries.{find_healthy-node_at, cycle_parts}

pub find_node-ip :
    {E : Type 0} (ip : String) (nodes : List (NodeInfo E)) (node : NodeInfo E)
    → find_node ip nodes ≡ some node
    → node.ip ≡ ip
find_node-ip ip [] node e = cc
find_node-ip ip (n ∷ nodes) node e = ground (arith, eq_iff n.ip ip, find_node-ip ip nodes node)

module _ {E Conn : Type 0} (serde : Serde E) (coding : SerdeLaws serde) (db : Sqlite Conn)
    (table : SqliteLaws db) where
  -- An uninterrupted probe cycle that succeeds removes exactly the nodes whose probe failed and
  -- that were last known to be healthy at least `offline_ttl` ago, from the table and from the
  -- health map. Every other node is listed as before, and is marked healthy at the time of the
  -- cycle if its probe succeeded, and unhealthy since its last success if not. An address that was
  -- not listed is not touched.
  pub run_probe_cycle_verdict :
      (now : ℕ) (g g' : Inner E Conn) (nodes nodes' : List (NodeInfo E)) (ip : String)
      → list_all serde db g.store ≡ ok nodes
      → run_probe_cycle serde db now g ≡ (ok tt, g')
      → list_all serde db g'.store ≡ ok nodes'
      → (find_node ip nodes' ≡ (
          if to_remove now g.offline_ttl g.probe (find_node ip nodes) (g.health ip)
          then none
          else find_node ip nodes))
        × (g'.health ip ≡ (
            if to_remove now g.offline_ttl g.probe (find_node ip nodes) (g.health ip)
            then none
            else marked now g.offline_ttl g.probe (find_node ip nodes) (g.health ip)))
  run_probe_cycle_verdict now g g' nodes nodes' ip before e after =
      let (node, health) = cycle_parts serde coding db table now g g' nodes ip before e in
      (list_all-node_at serde coding db table g'.store nodes' ip after ∙ node, health)

  marked_by_probe :
      (now : ℕ) (g g' : Inner E Conn) (found : Option (NodeInfo E)) (ip : String)
      (labels : List String)
      → ((node : NodeInfo E) → found ≡ some node → node.ip ≡ ip)
      → g'.health ip ≡ (
          if to_remove now g.offline_ttl g.probe found (g.health ip)
          then none
          else marked now g.offline_ttl g.probe found (g.health ip))
      → only_if
          (λ n. marked_healthy (g'.health n.ip))
          (only_if
            (has_labels labels)
            (if to_remove now g.offline_ttl g.probe found (g.health ip) then none else found))
        ≡ only_if g.probe (only_if (has_labels labels) found)
  marked_by_probe now g g' none ip labels at health = refl
  marked_by_probe now g g' (some node) ip labels at health =
      let here : g'.health node.ip ≡ g'.health ip = ap g'.health (at node refl) in
      ground (arith, here, health)

  -- After an uninterrupted probe cycle that succeeds, a query shows exactly the nodes that were
  -- registered before it, have all the labels asked for and answered the probe.
  pub find_healthy-run_probe_cycle :
      (now : ℕ) (g g' : Inner E Conn) (labels : List String) (nodes found : List (NodeInfo E))
      (ip : String)
      → list_all serde db g.store ≡ ok nodes
      → run_probe_cycle serde db now g ≡ (ok tt, g')
      → find_healthy serde db labels g' ≡ ok found
      → find_node ip found ≡ only_if g.probe (only_if (has_labels labels) (find_node ip nodes))
  find_healthy-run_probe_cycle now g g' labels nodes found ip before e answered =
      let (node, health) = cycle_parts serde coding db table now g g' nodes ip before e in
      find_healthy-node_at serde coding db table labels g' found ip answered
      ∙ rw node (
          marked_by_probe now g g' (find_node ip nodes) ip labels (λ n. find_node-ip ip nodes n)
            health)
