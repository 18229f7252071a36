-- ===== src/Dfinder/Server/Cycle.antt =====
-- What one probe cycle does to each node, where nothing else happens between its sections.
use proto.Base.{
  ℕ, ◌-◌, ◌≡◌, refl, sym, ap, ◌∙◌, leb, if◌then◌else◌, Bool, true, false, ◌||◌, List, [], ◌∷◌, ◌++◌,
  String, str_eq, eq_iff, Option, none, some, Outcome, ok, >>=-eq-ok, ok-injective, map_err,
  map_err-eq-ok, Bool-cases, Outcome-cases, inl, inr, arith,
}
use mathlib.Core.Path.{subst}
use proto.Base.Maps.{entry_or, contains}
use proto.Dfinder.Protocol.{NodeInfo, Serde, SerdeLaws}
use proto.Dfinder.Store
use proto.Dfinder.Store.{Sqlite, NodeStore, list_all}
use proto.Dfinder.Store.Table.{SqliteLaws}
use proto.Dfinder.Store.Lookup.{find_node, UniqueNodes}
use proto.Dfinder.Store.Refines.{node_at, remove-node_at}
use proto.Dfinder.Server.State.{ServerError, in_store, HealthState, HealthProbe, Inner}
use proto.Dfinder.Server.Locked.{mark, mark_node, mark_nodes, remove_node, remove_expired}

contains-append_last :
    (xs : List String) (y s : String) → contains (xs ++ y ∷ []) s ≡ (contains xs s || str_eq y s)
contains-append_last [] y s = ground arith
contains-append_last (x ∷ xs) y s = ground (arith, contains-append_last xs y s)

or_false : (b c : Bool) → c ≡ false → (b || c) ≡ b
or_false b c e = ground arith

abbrev fresh : ℕ → HealthState
fresh now = record { healthy = false; last_ok = now }

-- Whether a node whose probe gave this answer has been unhealthy for the whole time allowed.
abbrev pub expires : (now offline_ttl : ℕ) (answer : Bool) → Option HealthState → Bool
expires now offline_ttl answer old =
    if answer then false else leb offline_ttl (now - (entry_or (fresh now) old).last_ok)

-- What an entry is after a probe with this answer: the time is that of the last good answer.
abbrev pub judged : (now : ℕ) (answer : Bool) → Option HealthState → HealthState
judged now answer old = record {
  healthy = answer;
  last_ok = if answer then now else (entry_or (fresh now) old).last_ok;
}

mark-judged :
    (now : ℕ) (answer : Bool) (old : Option HealthState)
    → mark now answer (entry_or (fresh now) old) ≡ judged now answer old
unfolding mark
mark-judged now true old = refl
mark-judged now false old = refl

module _ {E : Type 0} (now offline_ttl : ℕ) (probe : HealthProbe E) where
  -- The entry of an address after the marks, and whether it is to be removed.
  abbrev pub marked : Option (NodeInfo E) → Option HealthState → Option HealthState
  marked none old = old
  marked (some node) old = some (judged now (probe node) old)

  abbrev pub to_remove : Option (NodeInfo E) → Option HealthState → Bool
  to_remove none old = false
  to_remove (some node) old = expires now offline_ttl (probe node) old

module _ {E Conn : Type 0} (now offline_ttl : ℕ) (probe : HealthProbe E) where
  pub mark_node_lem :
      (node : NodeInfo E) (g : Inner E Conn) (expired : List String) (ip : String)
      → let after : Inner E Conn × List String =
          mark_node now offline_ttl (probe node) node.ip (g, expired) in
        (after.0.health ip ≡ (
          if str_eq node.ip ip
          then some (judged now (probe node) (g.health node.ip))
          else g.health ip))
        × (contains after.1 ip ≡ (
            contains expired ip
            || (if str_eq node.ip ip
                then expires now offline_ttl (probe node) (g.health node.ip)
                else false)))
  unfolding mark_node
  mark_node_lem node g expired ip = (
    ap (λ h. if str_eq node.ip ip then some h else g.health ip)
        (mark-judged now (probe node) (g.health node.ip)),
    ground (arith, contains-append_last expired node.ip ip),
  )

  pub store-mark_node :
      (node : NodeInfo E) (g : Inner E Conn) (expired : List String)
      → (mark_node now offline_ttl (probe node) node.ip (g, expired)).0.store ≡ g.store
  unfolding mark_node
  store-mark_node node g expired = refl

  pub mark_nodes_lem :
      (nodes : List (NodeInfo E)) (g : Inner E Conn) (expired : List String) (ip : String)
      → UniqueNodes nodes
      → let after : Inner E Conn × List String =
          mark_nodes now offline_ttl probe nodes (g, expired) in
        (after.0.health ip ≡ marked now offline_ttl probe (find_node ip nodes) (g.health ip))
        × (contains after.1 ip ≡ (
            contains expired ip
            || to_remove now offline_ttl probe (find_node ip nodes) (g.health ip)))
        × (after.0.store ≡ g.store)
  unfolding mark_nodes
  mark_nodes_lem [] g expired ip u = (refl, sym (or_false _ false refl), refl)
  mark_nodes_lem (node ∷ nodes) g expired ip u =
      let step : Inner E Conn × List String =
        mark_node now offline_ttl (probe node) node.ip (g, expired) in
      let (health, due) = mark_node_lem node g expired ip in
      let (health', due', kept) = mark_nodes_lem nodes step.0 step.1 ip u.1 in
      elim (Bool-cases (str_eq node.ip ip)) [
        | inl same ↦
            let e = (eq_iff node.ip ip).0 same in
            let at : g.health node.ip ≡ g.health ip = ap g.health e in
            let absent : find_node ip nodes ≡ none = subst (λ k. find_node k nodes ≡ none) e u.0 in
            (
              rw same (ground (arith, health, health', absent, at)),
              rw same (ground (arith, due, due', absent, at)),
              kept ∙ store-mark_node node g expired,
            )
        | inr differs ↦ (
          rw differs (ground (arith, health, health')),
          rw differs (ground (arith, due, due', health)),
          kept ∙ store-mark_node node g expired,
        )
      ]

remove_expired_step :
    {E Conn : Type 0} (db : Sqlite Conn) (key : String) (ips : List String) (g g' : Inner E Conn)
    → remove_expired db (key ∷ ips) g ≡ (ok tt, g')
    → (g₁ : Inner E Conn) × (remove_node db key g ≡ ok g₁)
      × (remove_expired db ips g₁ ≡ (ok tt, g'))
unfolding remove_expired
remove_expired_step db key ips g g' e = elim (Outcome-cases (remove_node db key g)) [
  | inl (g₁, done) ↦ (g₁, done, ground (arith, done))
  | inr (inl (x, failed)) ↦ absurd (ground (arith, failed))
  | inr (inr (p, failed)) ↦ absurd (ground (arith, failed))
]

module _ {E Conn : Type 0} (serde : Serde E) (coding : SerdeLaws serde) (db : Sqlite Conn)
    (table : SqliteLaws db) where
  pub remove_node_lem :
      (key : String) (g g' : Inner E Conn) (ip : String)
      → remove_node db key g ≡ ok g'
      → (node_at serde db table g'.store ip
          ≡ (if str_eq key ip then none else node_at serde db table g.store ip))
        × (g'.health ip ≡ (if str_eq key ip then none else g.health ip))
  unfolding remove_node
  remove_node_lem key g g' ip e =
      let (store, e₁, k₁) = >>=-eq-ok (map_err in_store (Store.remove db key g.store)) _ e in
      let same = ok-injective k₁ in
      let removed = map_err-eq-ok in_store (Store.remove db key g.store) e₁ in
      (
        ap (λ (i : Inner E Conn). node_at serde db table i.store ip) (sym same)
            ∙ remove-node_at serde coding db table key g.store store ip removed,
        ap (λ (i : Inner E Conn). i.health ip) (sym same),
      )

  -- After the removals, the listed addresses are gone from the table and from the health map, and
  -- the others are as they were.
  pub remove_expired_lem :
      (ips : List String) (g g' : Inner E Conn) (ip : String)
      → remove_expired db ips g ≡ (ok tt, g')
      → (node_at serde db table g'.store ip
          ≡ (if contains ips ip then none else node_at serde db table g.store ip))
        × (g'.health ip ≡ (if contains ips ip then none else g.health ip))
  unfolding remove_expired
  remove_expired_lem [] g g' ip e =
      let same = ap (λ (p : Outcome ServerError Unit × Inner E Conn). p.1) e in
      (
        ap (λ (i : Inner E Conn). node_at serde db table i.store ip) (sym same),
        ap (λ (i : Inner E Conn). i.health ip) (sym same),
      )
  remove_expired_lem (key ∷ ips) g g' ip e =
      let (g₁, first, rest) = remove_expired_step db key ips g g' e in
      let (node, health) = remove_node_lem key g g₁ ip first in
      let (node', health') = remove_expired_lem ips g₁ g' ip rest in
      (node' ∙ ground (arith, node), health' ∙ ground (arith, health))
