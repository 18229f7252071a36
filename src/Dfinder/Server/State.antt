-- ===== src/Dfinder/Server/State.antt =====
-- src/dfinder/server.rs: the shared state behind the lock, and how it is made.
use proto.Base.{ℕ, Bool, false, List, [], ◌∷◌, String, Option, Outcome, ok, ◌>>=◌, map_err}
use proto.Base.Maps.{HashMap, empty, insert}
use proto.TinyFrame.Types.{IoError}
use proto.Base.Json.{JsonError}
use proto.Dfinder.Protocol.{NodeInfo, Serde}
use proto.Dfinder.Store.{Sqlite, NodeStore, StoreError, open_store, list_all}

-- `ServerError`.
pub data ServerError : Type 0 where
  io : IoError → ServerError
  in_store : StoreError → ServerError
  json : JsonError → ServerError
  msg : String → ServerError

-- An `Instant` and a `Duration` are numbers of nanoseconds.
pub record HealthState : Type 0 where
  pub healthy : Bool
  pub last_ok : ℕ

-- The user's health probe, as it answers during one cycle.
abbrev pub HealthProbe : Type 0 → Type 0
HealthProbe E = NodeInfo E → Bool

pub record Inner (E Conn : Type 0) : Type 0 where
  pub store : NodeStore Conn
  pub health : HashMap HealthState
  pub probe : HealthProbe E
  pub offline_ttl : ℕ

pub record ServerConfig (E : Type 0) : Type 0 where
  pub listen : String
  pub db_path : Option String
  pub probe_interval : ℕ
  pub offline_ttl : ℕ
  pub health_probe : HealthProbe E

pub record Server (E Conn : Type 0) : Type 0 where
  pub inner : Inner E Conn
  pub listen : String
  pub probe_interval : ℕ

module _ {E : Type 0} where
  -- The loop of `Server::new`: a stored node counts as unhealthy until it is probed.
  unfoldable pub initial_health : ℕ → HashMap HealthState → List (NodeInfo E) → HashMap HealthState
  initial_health now health [] = health
  initial_health now health (node ∷ nodes) =
      initial_health now (insert node.ip (record { healthy = false; last_ok = now }) health) nodes

module _ {E Conn : Type 0} (serde : Serde E) (db : Sqlite Conn) where
  -- `Server::new`; `now` is `Instant::now()`.
  unfoldable pub new : ℕ → ServerConfig E → Outcome ServerError (Server E Conn)
  new now config = do
    store ← map_err in_store (open_store db config.db_path)
    nodes ← map_err in_store (list_all serde db store)
    ok (record {
      inner = record {
        store = store;
        health = initial_health now empty nodes;
        probe = config.health_probe;
        offline_ttl = config.offline_ttl;
      };
      listen = config.listen;
      probe_interval = config.probe_interval;
    })
