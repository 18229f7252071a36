-- ===== src/Dfinder/Server/Locked.antt =====
-- src/dfinder/server.rs: the sections that run under the lock, one by one. Everything else may
-- happen between two of them.
use proto.Base.{
  ℕ, ◌-◌, leb, if◌then◌else◌, Bool, true, false, List, [], ◌∷◌, ◌++◌, String, Option, none, some,
  Outcome, ok, err, panicked, ◌>>=◌, map_err,
}
use proto.Base.Exec.{Exec}
use proto.Base.Maps
use proto.Base.Maps.{insert, entry_or, filter}
use proto.Dfinder.Protocol.{NodeInfo, Serde}
use proto.Dfinder.Store
use proto.Dfinder.Store.{Sqlite, NodeStore, upsert, list_all, list_by_labels}
use proto.Dfinder.Server.State.{ServerError, in_store, HealthState, HealthProbe, Inner}

-- `health.get(&n.ip).map(|h| h.healthy).unwrap_or(false)`.
abbrev pub marked_healthy : Option HealthState → Bool
marked_healthy none = false
marked_healthy (some h) = h.healthy

module _ {E Conn : Type 0} (serde : Serde E) (db : Sqlite Conn) where
  -- `handle_register` under the write lock: first the table, then the health map.
  unfoldable pub store_node :
      (secs now : ℕ) → NodeInfo E → Inner E Conn → Outcome ServerError (Inner E Conn)
  store_node secs now node g = do
    store ← map_err in_store (upsert serde db secs node g.store)
    ok (record g {
      store = store;
      health = insert node.ip (record { healthy = true; last_ok = now }) g.health;
    })

  -- `handle_query` under the read lock.
  unfoldable pub find_healthy : List String → Inner E Conn → Outcome ServerError (List (NodeInfo E))
  find_healthy labels g = do
    matched ← map_err in_store (list_by_labels serde db labels g.store)
    ok (filter (λ n. marked_healthy (g.health n.ip)) matched)

-- The mark that a probe leaves on a node: what the map held, or a fresh entry, is brought up to date.
unfoldable pub mark : ℕ → Bool → HealthState → HealthState
mark now true state = record { healthy = true; last_ok = now }
mark now false state = record state { healthy = false }

module _ {E Conn : Type 0} where
  -- The body of the loop of `run_probe_cycle` under the write lock, with the answer of the probe;
  -- the second result is the list of expired addresses.
  unfoldable pub mark_node :
      (now offline_ttl : ℕ) (answer : Bool) (ip : String)
      → Inner E Conn × List String
      → Inner E Conn × List String
  unfolding mark
  mark_node now offline_ttl answer ip (g, expired) =
      let state = entry_or (record { healthy = false; last_ok = now }) (g.health ip) in
      (
        record g { health = insert ip (mark now answer state) g.health },
        if answer
            then expired
            else if leb offline_ttl (now - state.last_ok)
            then expired ++ (ip ∷ [])
            else expired,
      )

  -- The loop of `run_probe_cycle`.
  unfoldable pub mark_nodes :
      (now offline_ttl : ℕ) (probe : HealthProbe E) (nodes : List (NodeInfo E))
      → Inner E Conn × List String
      → Inner E Conn × List String
  mark_nodes now offline_ttl probe [] s = s
  mark_nodes now offline_ttl probe (node ∷ nodes) s =
      mark_nodes now offline_ttl probe nodes (mark_node now offline_ttl (probe node) node.ip s)

module _ {E Conn : Type 0} (db : Sqlite Conn) where
  -- One round of the removals.
  unfoldable pub remove_node : String → Inner E Conn → Outcome ServerError (Inner E Conn)
  remove_node ip g = do
    store ← map_err in_store (Store.remove db ip g.store)
    ok (record g { store = store; health = Maps.remove ip g.health })

  -- The end of `run_probe_cycle` under the write lock: an error stops it, and what was removed
  -- before stays removed.
  unfoldable pub remove_expired : List String → Exec ServerError (Inner E Conn) (Unit {0})
  remove_expired [] g = (ok tt, g)
  remove_expired (ip ∷ ips) g = elim (remove_node ip g) [
    | ok g' ↦ remove_expired ips g'
    | err e ↦ (err e, g)
    | panicked p ↦ (panicked p, g)
  ]

module _ {E Conn : Type 0} (serde : Serde E) (db : Sqlite Conn) where
  -- `fn run_probe_cycle`, where nothing else happens between its sections.
  unfoldable pub run_probe_cycle : ℕ → Exec ServerError (Inner E Conn) (Unit {0})
  run_probe_cycle now g = elim (map_err in_store (list_all serde db g.store)) [
    | ok nodes ↦
        let (g', expired) = mark_nodes now g.offline_ttl g.probe nodes (g, []) in
        remove_expired db expired g'
    | err e ↦ (err e, g)
    | panicked p ↦ (panicked p, g)
  ]
