-- ===== src/Dfinder/Server/Interleaving/Lost.antt =====
-- A registration that comes at the wrong moment of a probe cycle.
use proto.Base.{ℕ, ◌<◌, ◌^◌, ◌≡◌, refl, ◌∙◌, true, List, [], String, eq_iff, none, some, ok}
use proto.Base.Maps.{contains}
use proto.Dfinder.Protocol.{NodeInfo, Serde, SerdeLaws}
use proto.Dfinder.Store.{Sqlite}
use proto.Dfinder.Store.Table.{SqliteLaws}
use proto.Dfinder.Store.Refines.{node_at}
use proto.Dfinder.Server.State.{Inner}
use proto.Dfinder.Server.Locked.{store_node, remove_expired}
use proto.Dfinder.Server.Cycle.{remove_expired_lem}
use proto.Dfinder.Server.Queries.{store_node-node_at}
use proto.Dfinder.Server.Interleaving.{resting, probing, register, probe, finish, Reach, here, next}

module _ {E Conn : Type 0} (serde : Serde E) (coding : SerdeLaws serde) (db : Sqlite Conn)
    (table : SqliteLaws db) where
  -- A node that registers after its address was put on the list of expired ones and before the
  -- removals is stored, and is then removed by them from the table and from the health map: its
  -- acknowledged registration is lost.
  pub lost_registration :
      (g g₁ g₂ : Inner E Conn) (now ttl : ℕ) (expired : List String) (secs t : ℕ)
      (node : NodeInfo E)
      → node.port < 2 ^ 16
      → contains expired node.ip ≡ true
      → store_node serde db secs t node g ≡ ok g₁
      → remove_expired db expired g₁ ≡ (ok tt, g₂)
      → Reach serde db
          (record { inner = g; phase = probing now ttl [] expired })
          (record { inner = g₂; phase = resting })
        × (node_at serde db table g₁.store node.ip ≡ some node)
        × (node_at serde db table g₂.store node.ip ≡ none)
        × (g₂.health node.ip ≡ none)
  lost_registration g g₁ g₂ now ttl expired secs t node fits listed stored removed =
      let self = (eq_iff node.ip node.ip).1 refl in
      let (there, _) =
        store_node-node_at serde coding db table secs t node g g₁ node.ip fits stored in
      let (gone, forgotten) =
        remove_expired_lem serde coding db table expired g₁ g₂ node.ip removed in
      (
        next (next here (register g g₁ (probing now ttl [] expired) secs t node fits stored))
            (probe _ _ (finish g₁ g₂ now ttl expired (ok tt) removed)),
        there ∙ rw self,
        gone ∙ rw listed,
        forgotten ∙ rw listed,
      )
