-- ===== src/Dfinder/Store/Refines.antt =====
-- The store as a map from addresses to nodes, and what its listings show after a change.
use proto.Base.{
  ℕ, ◌<◌, ◌%◌, ◌^◌, ◌≡◌, ap, ◌∙◌, List, String, Option, none, some, str_eq, if◌then◌else◌, ok,
  >>=-eq-ok, ok-injective, map_err-eq-ok, map_err, Bool-cases, inl, inr, arith,
}
use mathlib.Core.Path.{subst}
use proto.Dfinder.Protocol.{NodeInfo, Serde, SerdeLaws}
use proto.Dfinder.Store.{
  Row, sqlite, json, Sqlite, NodeStore, lock, upsert, remove, decode_row, list_all, list_by_labels,
  has_labels,
}
use proto.Dfinder.Store.Table.{stepped, SqliteLaws}
use proto.Dfinder.Store.Lookup.{
  find_node, UniqueNodes, only_if, find_node-filter, decoded, Decodes, decode_rows-Decodes,
  find_node-Decodes, Decodes-UniqueNodes, lock_eq, execute_parts,
}

module _ {E Conn : Type 0} (serde : Serde E) (db : Sqlite Conn) (table : SqliteLaws db) where
  -- The node that the store has under an address.
  unfoldable pub node_at : NodeStore Conn → String → Option (NodeInfo E)
  node_at store ip = decoded serde (table.holds store.conn ip)

module _ {E Conn : Type 0} (serde : Serde E) (coding : SerdeLaws serde) (db : Sqlite Conn)
    (table : SqliteLaws db) where
  list_all_parts :
      (store : NodeStore Conn) (nodes : List (NodeInfo E))
      → list_all serde db store ≡ ok nodes
      → (rows : List Row) × (db.select_nodes store.conn ≡ ok (stepped rows))
        × Decodes serde rows nodes
  unfolding list_all
  list_all_parts store nodes e =
      let (c, e₁, k₁) = >>=-eq-ok (lock store) _ e in
      let (steps, e₂, k₂) = >>=-eq-ok (map_err sqlite (db.select_nodes c)) _ k₁ in
      let (rows, same, each) = decode_rows-Decodes serde steps nodes k₂ in
      (rows, rw (lock_eq store e₁) (map_err-eq-ok sqlite (db.select_nodes c) e₂ ∙ ap ok same), each)

  pub list_all-UniqueNodes :
      (store : NodeStore Conn) (nodes : List (NodeInfo E))
      → list_all serde db store ≡ ok nodes
      → UniqueNodes nodes
  list_all-UniqueNodes store nodes e =
      let (rows, selected, each) = list_all_parts store nodes e in
      Decodes-UniqueNodes serde rows nodes each (table.unique store.conn rows selected)

  pub list_all-node_at :
      (store : NodeStore Conn) (nodes : List (NodeInfo E)) (ip : String)
      → list_all serde db store ≡ ok nodes
      → find_node ip nodes ≡ node_at serde db table store ip
  unfolding node_at
  list_all-node_at store nodes ip e =
      let (rows, selected, each) = list_all_parts store nodes e in
      find_node-Decodes serde ip rows nodes each
      ∙ ap (decoded serde) (table.selected store.conn rows ip selected)

  pub list_by_labels-node_at :
      (labels : List String) (store : NodeStore Conn) (found : List (NodeInfo E)) (ip : String)
      → list_by_labels serde db labels store ≡ ok found
      → find_node ip found ≡ only_if (has_labels labels) (node_at serde db table store ip)
  unfolding list_by_labels
  list_by_labels-node_at labels store found ip e =
      let (nodes, listed, k) = >>=-eq-ok (list_all serde db store) _ e in
      subst
        (λ (ns : List (NodeInfo E)).
          find_node ip ns ≡ only_if (has_labels labels) (node_at serde db table store ip))
        (ok-injective k)
        (find_node-filter (has_labels labels) ip nodes (list_all-UniqueNodes store nodes listed)
          ∙ ap (only_if (has_labels labels)) (list_all-node_at store nodes ip listed))

  -- What was encoded for a row is decoded from it.
  decoded_row :
      (node : NodeInfo E) (labels extra : String) (now : ℕ)
      → node.port < 2 ^ 16
      → serde.labels.encode node.labels ≡ ok labels
      → serde.extra.encode node.extra ≡ ok extra
      → decode_row serde (record {
        ip = node.ip;
        port = node.port;
        labels = labels;
        extra = extra;
        updated_at = now;
      })
        ≡ ok node
  unfolding decode_row
  decoded_row node labels extra now fits e₁ e₂ =
      let port : node.port % 2 ^ 16 ≡ node.port = omega arith in
      rw
        (
          coding.labels.decode_encode node.labels labels e₁,
          coding.extra.decode_encode node.extra extra e₂,
        )
        (λ i. ok (record { ip = node.ip; port = port i; labels = node.labels; extra = node.extra }))

  pub upsert-node_at :
      (now : ℕ) (node : NodeInfo E) (store store' : NodeStore Conn) (ip : String)
      → node.port < 2 ^ 16
      → upsert serde db now node store ≡ ok store'
      → node_at serde db table store' ip
        ≡ (if str_eq node.ip ip then some node else node_at serde db table store ip)
  unfolding upsert node_at
  upsert-node_at now node store store' ip fits e =
      let (labels, e₁, k₁) = >>=-eq-ok (map_err json (serde.labels.encode node.labels)) _ e in
      let (extra, e₂, k₂) = >>=-eq-ok (map_err json (serde.extra.encode node.extra)) _ k₁ in
      let (done, _) = execute_parts _ store store' k₂ in
      let back =
        decoded_row node labels extra now fits
          (map_err-eq-ok json (serde.labels.encode node.labels) e₁)
          (map_err-eq-ok json (serde.extra.encode node.extra) e₂) in
      rw (table.inserted _ store.conn store'.conn ip done) (elim (Bool-cases (str_eq node.ip ip)) [
        | inl same ↦ rw (same, back)
        | inr differs ↦ rw differs
      ])

  pub remove-node_at :
      (key : String) (store store' : NodeStore Conn) (ip : String)
      → remove db key store ≡ ok store'
      → node_at serde db table store' ip
        ≡ (if str_eq key ip then none else node_at serde db table store ip)
  unfolding remove node_at
  remove-node_at key store store' ip e =
      let (done, _) = execute_parts _ store store' e in
      rw (table.deleted key store.conn store'.conn ip done)
        (elim (Bool-cases (str_eq key ip)) [ inl same ↦ rw same | inr differs ↦ rw differs ])

  -- After a node was stored, a listing by labels shows it under its address exactly if it has all
  -- the labels asked for, in place of what the address had; under any other address it shows the
  -- node that was there, again exactly if that has all the labels. Ports are 16-bit numbers.
  pub list_by_labels-upsert :
      (now : ℕ) (node : NodeInfo E) (labels : List String) (store store' : NodeStore Conn)
      (before found : List (NodeInfo E)) (ip : String)
      → node.port < 2 ^ 16
      → list_all serde db store ≡ ok before
      → upsert serde db now node store ≡ ok store'
      → list_by_labels serde db labels store' ≡ ok found
      → find_node ip found
        ≡ only_if (has_labels labels) (if str_eq node.ip ip then some node else find_node ip before)
  list_by_labels-upsert now node labels store store' before found ip fits e₁ e₂ e₃ =
      list_by_labels-node_at labels store' found ip e₃
      ∙ rw (upsert-node_at now node store store' ip fits e₂, list_all-node_at store before ip e₁)

  -- After a node was removed, a listing by labels shows nothing under its address, and under any
  -- other address the node that was there, exactly if that has all the labels asked for.
  pub list_by_labels-remove :
      (key : String) (labels : List String) (store store' : NodeStore Conn)
      (before found : List (NodeInfo E)) (ip : String)
      → list_all serde db store ≡ ok before
      → remove db key store ≡ ok store'
      → list_by_labels serde db labels store' ≡ ok found
      → find_node ip found
        ≡ only_if (has_labels labels) (if str_eq key ip then none else find_node ip before)
  list_by_labels-remove key labels store store' before found ip e₁ e₂ e₃ =
      list_by_labels-node_at labels store' found ip e₃
      ∙ rw (remove-node_at key store store' ip e₂, list_all-node_at store before ip e₁)
