-- ===== src/Dfinder/Store/Lookup.antt =====
-- The listing of the store as nodes are looked up in it by their addresses.
use proto.Base.{
  ◌≡◌, refl, sym, ap, ◌∙◌, List, [], ◌∷◌, String, Bool, Option, none, some, str_eq, eq_iff,
  if◌then◌else◌, Outcome, ok, >>=-eq-ok, ok-injective, map_err-eq-ok, map_err, arith,
}
use mathlib.Core.Path.{subst, ap₂}
use proto.Base.Maps.{filter}
use proto.Dfinder.Protocol.{NodeInfo, Serde}
use proto.Dfinder.Store.{
  Row, SqlError, StoreError, sqlite, json, NodeStore, lock, execute, decode_row, decode_rows,
}
use proto.Dfinder.Store.Table.{find_row, UniqueRows, stepped}

module _ {E : Type 0} where
  abbrev pub find_node : String → List (NodeInfo E) → Option (NodeInfo E)
  find_node ip [] = none
  find_node ip (node ∷ nodes) = if str_eq node.ip ip then some node else find_node ip nodes

  abbrev pub UniqueNodes : List (NodeInfo E) → Type 0
  UniqueNodes [] = Unit {0}
  UniqueNodes (node ∷ nodes) = (find_node node.ip nodes ≡ none) × UniqueNodes nodes

  abbrev pub node_or_none : Outcome StoreError (NodeInfo E) → Option (NodeInfo E)
  node_or_none (ok node) = some node
  node_or_none _ = none

  -- A node that passes the test, or none.
  abbrev pub only_if : (NodeInfo E → Bool) → Option (NodeInfo E) → Option (NodeInfo E)
  only_if test none = none
  only_if test (some node) = if test node then some node else none

  -- Looking up in the filtered list is filtering what is looked up.
  pub find_node-filter :
      (test : NodeInfo E → Bool) (ip : String) (nodes : List (NodeInfo E))
      → UniqueNodes nodes
      → find_node ip (filter test nodes) ≡ only_if test (find_node ip nodes)
  find_node-filter test ip [] u = refl
  find_node-filter test ip (node ∷ nodes) u =
      ground (arith, eq_iff node.ip ip, find_node-filter test ip nodes u.1)

module _ {E : Type 0} (serde : Serde E) where
  -- The node that a row stands for.
  abbrev pub decoded : Option Row → Option (NodeInfo E)
  decoded none = none
  decoded (some row) = node_or_none (decode_row serde row)

  -- The nodes of the rows, one by one.
  abbrev pub Decodes : List Row → List (NodeInfo E) → Type 0
  Decodes [] [] = Unit {0}
  Decodes (row ∷ rows) (node ∷ nodes) = (decode_row serde row ≡ ok node) × Decodes rows nodes
  Decodes _ _ = ⊥

  pub decode_row-ip :
      (row : Row) (node : NodeInfo E) → decode_row serde row ≡ ok node → node.ip ≡ row.ip
  unfolding decode_row
  decode_row-ip row node e =
      let (ls, _, e₁) = >>=-eq-ok (map_err json (serde.labels.decode row.labels)) _ e in
      let (x, _, e₂) = >>=-eq-ok (map_err json (serde.extra.decode row.extra)) _ e₁ in
      sym (ap (λ (n : NodeInfo E). n.ip) (ok-injective e₂))

  pub decode_rows-Decodes :
      (steps : List (Outcome SqlError Row)) (nodes : List (NodeInfo E))
      → decode_rows serde steps ≡ ok nodes
      → (rows : List Row) × (steps ≡ stepped rows) × Decodes rows nodes
  unfolding decode_rows
  decode_rows-Decodes [] nodes e = ([], refl, subst (Decodes []) (ok-injective e) tt)
  decode_rows-Decodes (step ∷ steps) nodes e =
      let (row, e₀, k₀) = >>=-eq-ok (map_err sqlite step) _ e in
      let (node, e₁, k₁) = >>=-eq-ok (decode_row serde row) _ k₀ in
      let (rest, e₂, k₂) = >>=-eq-ok (decode_rows serde steps) _ k₁ in
      let (rows, same, each) = decode_rows-Decodes steps rest e₂ in
      (
        row ∷ rows,
        ap₂ (λ x xs. x ∷ xs) (map_err-eq-ok sqlite step e₀) same,
        subst (Decodes (row ∷ rows)) (ok-injective k₂) (e₁, each),
      )

  pub find_node-Decodes :
      (ip : String) (rows : List Row) (nodes : List (NodeInfo E))
      → Decodes rows nodes
      → find_node ip nodes ≡ decoded (find_row ip rows)
  find_node-Decodes ip [] [] d = refl
  find_node-Decodes ip [] (node ∷ nodes) d = elim d [ ]
  find_node-Decodes ip (row ∷ rows) [] d = elim d [ ]
  find_node-Decodes ip (row ∷ rows) (node ∷ nodes) d =
      ground (arith, decode_row-ip row node d.0, find_node-Decodes ip rows nodes d.1)

  find_node-Decodes-none :
      (row : Row) (rows : List Row) (node : NodeInfo E) (nodes : List (NodeInfo E))
      → decode_row serde row ≡ ok node
      → Decodes rows nodes
      → find_row row.ip rows ≡ none
      → find_node node.ip nodes ≡ none
  find_node-Decodes-none row rows node nodes e each absent =
      rw (decode_row-ip row node e, find_node-Decodes row.ip rows nodes each, absent)

  pub Decodes-UniqueNodes :
      (rows : List Row) (nodes : List (NodeInfo E))
      → Decodes rows nodes
      → UniqueRows rows
      → UniqueNodes nodes
  Decodes-UniqueNodes [] [] d u = tt
  Decodes-UniqueNodes [] (node ∷ nodes) d u = elim d [ ]
  Decodes-UniqueNodes (row ∷ rows) [] d u = elim d [ ]
  Decodes-UniqueNodes (row ∷ rows) (node ∷ nodes) d u = (
    find_node-Decodes-none row rows node nodes d.0 d.1 u.0,
    Decodes-UniqueNodes rows nodes d.1 u.1,
  )

module _ {Conn : Type 0} where
  pub lock_eq : (store : NodeStore Conn) {c : Conn} → lock store ≡ ok c → store.conn ≡ c
  unfolding lock
  lock_eq store e = ground arith

  -- A statement that was executed went through on the connection.
  pub execute_parts :
      (statement : Conn → Outcome SqlError Conn) (store store' : NodeStore Conn)
      → execute statement store ≡ ok store'
      → (statement store.conn ≡ ok store'.conn) × (store'.is_poisoned ≡ store.is_poisoned)
  execute_parts statement store store' e =
      let (c, e₁, k₁) = >>=-eq-ok (lock store) _ e in
      let (c', e₂, k₂) = >>=-eq-ok (map_err sqlite (statement c)) _ k₁ in
      let same = ok-injective k₂ in
      (
        rw (lock_eq store e₁)
            (map_err-eq-ok sqlite (statement c) e₂ ∙ ap (λ (s : NodeStore Conn). ok s.conn) same),
        sym (ap (λ (s : NodeStore Conn). s.is_poisoned) same),
      )
