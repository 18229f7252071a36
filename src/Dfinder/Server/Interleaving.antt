-- ===== src/Dfinder/Server/Interleaving.antt =====
-- Registrations between the sections of a probe cycle. The sections run under the lock, so each is
-- one step; the answers of the probes are the environment's.
pub mod Tracked
pub mod Lost
pub mod Silence
pub mod Eventually
pub mod Stays
pub mod Ticks
use proto.Base.{
  ℕ, ◌<◌, ◌^◌, ◌≡◌, ◌≢◌, refl, sym, ap, ◌∙◌, if◌then◌else◌, Bool, true, false, List, [], ◌∷◌,
  String, str_eq, eq_iff, Option, none, some, Outcome, ok, Bool-cases, Outcome-cases, panicked, err,
  >>=-eq-ok, ok-injective, map_err, map_err-eq-ok, inl, inr, arith,
}
use mathlib.Core.Path.{subst}
use proto.Base.Maps.{HashMap, empty, insert, contains}
use proto.Dfinder.Protocol.{NodeInfo, Serde, SerdeLaws}
use proto.Dfinder.Store.{Sqlite, NodeStore, StoreError, open_store, list_all}
use proto.Dfinder.Store.Table.{SqliteLaws}
use proto.Dfinder.Store.Lookup.{find_node}
use proto.Dfinder.Store.Refines.{node_at, list_all-node_at}
use proto.Dfinder.Server.State.{
  ServerError, ServerConfig, Server, in_store, HealthState, Inner, initial_health, new,
}
use proto.Dfinder.Server.Locked.{mark, mark_node, store_node, remove_node, remove_expired}
use proto.Dfinder.Server.Cycle.{store-mark_node, remove_node_lem, remove_expired_lem}
use proto.Dfinder.Server.Queries.{store_node-node_at}

-- Where the probe task is: between cycles, or in a cycle with the nodes that are still to be probed
-- and the addresses that have expired.
pub data Phase (E : Type 0) : Type 0 where
  resting : Phase E
  probing : (now offline_ttl : ℕ) (pending : List (NodeInfo E)) (expired : List String) → Phase E

pub record System (E Conn : Type 0) : Type 0 where
  pub inner : Inner E Conn
  pub phase : Phase E

module _ {E Conn : Type 0} (serde : Serde E) (db : Sqlite Conn) where
  -- The sections of a probe cycle.
  pub data ProbeStep : System E Conn → System E Conn → Type 0 where
    begin :
        (g : Inner E Conn) (now : ℕ) (nodes : List (NodeInfo E))
        → list_all serde db g.store ≡ ok nodes
        → ProbeStep
            (record { inner = g; phase = resting })
            (record { inner = g; phase = probing now g.offline_ttl nodes [] })
    probe_one :
        (g : Inner E Conn) (now ttl : ℕ) (node : NodeInfo E) (pending : List (NodeInfo E))
        (expired : List String) (answer : Bool)
        → ProbeStep
            (record { inner = g; phase = probing now ttl (node ∷ pending) expired })
            (record {
              inner = (mark_node now ttl answer node.ip (g, expired)).0;
              phase = probing now ttl pending (mark_node now ttl answer node.ip (g, expired)).1;
            })
    finish :
        (g g' : Inner E Conn) (now ttl : ℕ) (expired : List String)
        (r : Outcome ServerError (Unit {0}))
        → remove_expired db expired g ≡ (r, g')
        → ProbeStep
            (record { inner = g; phase = probing now ttl [] expired })
            (record { inner = g'; phase = resting })

  pub data Step : System E Conn → System E Conn → Type 0 where
    register :
        (g g' : Inner E Conn) (p : Phase E) (secs now : ℕ) (node : NodeInfo E)
        → node.port < 2 ^ 16
        → store_node serde db secs now node g ≡ ok g'
        → Step (record { inner = g; phase = p }) (record { inner = g'; phase = p })
    probe : (s s' : System E Conn) → ProbeStep s s' → Step s s'

  pub data Reach (s : System E Conn) : System E Conn → Type 0 where
    here : Reach s s
    next : {t u : System E Conn} → Reach s t → Step t u → Reach s u

  pub Reach-trans : {s t u : System E Conn} → Reach s t → Reach t u → Reach s u
  Reach-trans r here = r
  Reach-trans r (next q st) = next (Reach-trans r q) st
