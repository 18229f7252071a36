-- ===== src/Dfinder/Server/Queries.antt =====
-- What a query of the registry answers, after a registration and after a probe cycle.
use proto.Base.{
  ℕ, ◌<◌, ◌^◌, ◌≡◌, refl, sym, ap, ◌∙◌, if◌then◌else◌, Bool, true, List, [], ◌∷◌, String, str_eq,
  eq_iff, none, some, ok, >>=-eq-ok, ok-injective, map_err, map_err-eq-ok, Bool-cases, inl, inr,
  arith,
}
use mathlib.Core.Path.{subst}
use proto.Base.Maps.{insert, filter}
use proto.Dfinder.Protocol.{NodeInfo, Serde, SerdeLaws}
use proto.Dfinder.Store.{Sqlite, NodeStore, list_all, list_by_labels, has_labels, upsert}
use proto.Dfinder.Store.Table.{SqliteLaws}
use proto.Dfinder.Store.Lookup.{find_node, UniqueNodes, only_if, find_node-filter}
use proto.Dfinder.Store.Refines.{
  node_at, upsert-node_at, list_all-node_at, list_all-UniqueNodes, list_by_labels-node_at,
}
use proto.Dfinder.Server.State.{in_store, Inner}
use proto.Dfinder.Server.Locked.{
  mark_nodes, store_node, find_healthy, marked_healthy, remove_expired, run_probe_cycle,
}
use proto.Dfinder.Server.Cycle.{marked, to_remove, mark_nodes_lem, remove_expired_lem}

module _ {E : Type 0} (test : NodeInfo E → Bool) where
  find_node-keep_if :
      (b : Bool) (ip : String) (node : NodeInfo E) (nodes : List (NodeInfo E))
      → find_node ip nodes ≡ none
      → find_node ip (filter test nodes) ≡ none
  find_node-keep_if b ip node [] e = refl
  find_node-keep_if b ip node (n ∷ nodes) e = ground (arith, find_node-keep_if b ip node nodes)

  UniqueNodes-filter :
      (nodes : List (NodeInfo E)) → UniqueNodes nodes → UniqueNodes (filter test nodes)
  UniqueNodes-filter [] u = tt
  UniqueNodes-filter (node ∷ nodes) u = elim (Bool-cases (test node)) [
    | inl kept ↦
        rw kept (find_node-keep_if true node.ip node nodes u.0, UniqueNodes-filter nodes u.1)
    | inr left ↦ rw left (UniqueNodes-filter nodes u.1)
  ]

module _ {E Conn : Type 0} (serde : Serde E) (coding : SerdeLaws serde) (db : Sqlite Conn)
    (table : SqliteLaws db) where
  list_by_labels-UniqueNodes :
      (labels : List String) (store : NodeStore Conn) (found : List (NodeInfo E))
      → list_by_labels serde db labels store ≡ ok found
      → UniqueNodes found
  unfolding list_by_labels
  list_by_labels-UniqueNodes labels store found e =
      let (nodes, listed, k) = >>=-eq-ok (list_all serde db store) _ e in
      subst UniqueNodes (ok-injective k) (
        UniqueNodes-filter (has_labels labels) nodes
          (list_all-UniqueNodes serde coding db table store nodes listed))

  -- A query shows the node of an address exactly if that has the labels and is marked healthy.
  pub find_healthy-node_at :
      (labels : List String) (g : Inner E Conn) (found : List (NodeInfo E)) (ip : String)
      → find_healthy serde db labels g ≡ ok found
      → find_node ip found
        ≡ only_if
            (λ n. marked_healthy (g.health n.ip))
            (only_if (has_labels labels) (node_at serde db table g.store ip))
  unfolding find_healthy
  find_healthy-node_at labels g found ip e =
      let (matched, e₁, k) =
        >>=-eq-ok (map_err in_store (list_by_labels serde db labels g.store)) _ e in
      let listed = map_err-eq-ok in_store (list_by_labels serde db labels g.store) e₁ in
      let test = λ (n : NodeInfo E). marked_healthy (g.health n.ip) in
      subst
        (λ (ns : List (NodeInfo E)).
          find_node ip ns
          ≡ only_if test (only_if (has_labels labels) (node_at serde db table g.store ip)))
        (ok-injective k)
        (find_node-filter test ip matched (list_by_labels-UniqueNodes labels g.store matched listed)
          ∙ ap (only_if test)
              (list_by_labels-node_at serde coding db table labels g.store matched ip listed))

  pub store_node-node_at :
      (secs now : ℕ) (node : NodeInfo E) (g g' : Inner E Conn) (ip : String)
      → node.port < 2 ^ 16
      → store_node serde db secs now node g ≡ ok g'
      → (node_at serde db table g'.store ip
          ≡ (if str_eq node.ip ip then some node else node_at serde db table g.store ip))
        × (g'.health ip ≡ insert node.ip (record { healthy = true; last_ok = now }) g.health ip)
  unfolding store_node
  store_node-node_at secs now node g g' ip fits e =
      let (store, e₁, k) = >>=-eq-ok (map_err in_store (upsert serde db secs node g.store)) _ e in
      let same = ok-injective k in
      let stored = map_err-eq-ok in_store (upsert serde db secs node g.store) e₁ in
      (
        ap (λ (i : Inner E Conn). node_at serde db table i.store ip) (sym same)
            ∙ upsert-node_at serde coding db table secs node g.store store ip fits stored,
        ap (λ (i : Inner E Conn). i.health ip) (sym same),
      )

  -- A node that has just registered is found, as it registered, by every query for labels that it
  -- has. (Its port is a 16-bit number.)
  pub find_healthy-store_node :
      (secs now : ℕ) (node : NodeInfo E) (labels : List String) (g g' : Inner E Conn)
      (found : List (NodeInfo E))
      → node.port < 2 ^ 16
      → store_node serde db secs now node g ≡ ok g'
      → has_labels labels node ≡ true
      → find_healthy serde db labels g' ≡ ok found
      → find_node node.ip found ≡ some node
  find_healthy-store_node secs now node labels g g' found fits e has e₂ =
      let self = (eq_iff node.ip node.ip).1 refl in
      let (stored, health) = store_node-node_at secs now node g g' node.ip fits e in
      find_healthy-node_at labels g' found node.ip e₂
      ∙ rw (stored, self) (rw has (rw (health, self)))

  -- The result of an uninterrupted cycle at one address.
  pub cycle_parts :
      (now : ℕ) (g g' : Inner E Conn) (nodes : List (NodeInfo E)) (ip : String)
      → list_all serde db g.store ≡ ok nodes
      → run_probe_cycle serde db now g ≡ (ok tt, g')
      → (node_at serde db table g'.store ip ≡ (
          if to_remove now g.offline_ttl g.probe (find_node ip nodes) (g.health ip)
          then none
          else find_node ip nodes))
        × (g'.health ip ≡ (
            if to_remove now g.offline_ttl g.probe (find_node ip nodes) (g.health ip)
            then none
            else marked now g.offline_ttl g.probe (find_node ip nodes) (g.health ip)))
  unfolding run_probe_cycle
  cycle_parts now g g' nodes ip listed e =
      let after : Inner E Conn × List String = mark_nodes now g.offline_ttl g.probe nodes (g, []) in
      let removed : remove_expired db after.1 after.0 ≡ (ok tt, g') =
        rw (listed, run_probe_cycle) at e in
      let (health, due, kept) =
        mark_nodes_lem now g.offline_ttl g.probe nodes g [] ip
          (list_all-UniqueNodes serde coding db table g.store nodes listed) in
      let (node', health') =
        remove_expired_lem serde coding db table after.1 after.0 g' ip removed in
      let before = list_all-node_at serde coding db table g.store nodes ip listed in
      let same : node_at serde db table after.0.store ip ≡ find_node ip nodes =
        ap (λ (s : NodeStore Conn). node_at serde db table s ip) kept ∙ sym before in
      (node' ∙ rw (due, same), health' ∙ rw (due, health))
