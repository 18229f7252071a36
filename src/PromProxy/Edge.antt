-- ===== src/PromProxy/Edge.antt =====
-- src/prom_proxy/edge.rs: counters in a Redis hash, by the asynchronous store and by the blocking
-- one. Redis is a parameter: its database is a state, on which the two commands run.
pub mod Totals
pub mod Blocking
pub mod Tests
use proto.Base.{ℕ, zero, suc, List, [], ◌∷◌, String, Outcome, ok, map_err}
use proto.Base.Exec.{Exec, lift, pure, ◌>>=◌, ◌>>◌}
use proto.Base.Integers.{ℤ, pos, negsuc, as_i64}
use proto.Base.Results

abbrev pub default_edge_hash_key : String
default_edge_hash_key = "prom_proxy:edges"

-- `redis::RedisError`, with its text.
pub data RedisError : Type 0 where
  redis_error : String → RedisError

pub data EdgeError : Type 0 where
  redis : RedisError → EdgeError

-- `redis::Client`, a connection of it (a manager, or a plain one), and the database.
pub record Redis (RedisClient Conn Db : Type 0) : Type 0 where
  pub open_client : String → Outcome RedisError RedisClient
  pub manager : RedisClient → Outcome RedisError Conn
  pub get_connection : RedisClient → Outcome RedisError Conn
  -- HINCRBY and HGETALL.
  pub hincr : Conn → (hash_key field : String) → ℤ → Exec RedisError Db ℤ
  pub hgetall : Conn → (hash_key : String) → Exec RedisError Db (List (String × ℤ))

pub record EdgeStore (Conn : Type 0) : Type 0 where
  pub conn : Conn
  pub hash_key : String

pub record EdgeStoreBlocking (RedisClient : Type 0) : Type 0 where
  pub client : RedisClient
  pub hash_key : String

-- The `filter_map` of `totals`: values below zero are left out.
unfoldable pub not_negative : List (String × ℤ) → List (String × ℕ)
not_negative [] = []
not_negative ((k, pos v) ∷ entries) = (k, v) ∷ not_negative entries
not_negative ((k, negsuc v) ∷ entries) = not_negative entries

module _ {S A : Type 0} where
  -- `?` on a command.
  abbrev pub command : Exec RedisError S A → Exec EdgeError S A
  command run s = let (r, s') = run s in (map_err redis r, s')

module _ {RedisClient Conn Db : Type 0} (server : Redis RedisClient Conn Db) where
  -- `EdgeStore::connect`.
  unfoldable pub connect : (redis_url hash_key : String) → Outcome EdgeError (EdgeStore Conn)
  connect redis_url hash_key =
      Results.◌>>=◌ (map_err redis (server.open_client redis_url)) (λ client.
        Results.◌>>=◌ (map_err redis (server.manager client))
          (λ conn. ok (record { conn = conn; hash_key = hash_key })))

  -- `EdgeStore::incr`.
  unfoldable pub incr : EdgeStore Conn → (key : String) (delta : ℕ) → Exec EdgeError Db (Unit {0})
  incr store key zero = pure tt
  incr store key (suc n) = do
    command (server.hincr store.conn store.hash_key key (as_i64 (suc n)))
    pure tt

  -- `EdgeStore::totals`.
  unfoldable pub totals : EdgeStore Conn → Exec EdgeError Db (List (String × ℕ))
  totals store = do
    entries ← command (server.hgetall store.conn store.hash_key)
    pure (not_negative entries)

  -- `EdgeStoreBlocking::connect`.
  unfoldable pub connect_blocking :
      (redis_url hash_key : String) → Outcome EdgeError (EdgeStoreBlocking RedisClient)
  connect_blocking redis_url hash_key =
      Results.◌>>=◌ (map_err redis (server.open_client redis_url))
        (λ client. ok (record { client = client; hash_key = hash_key }))

  -- `EdgeStoreBlocking::incr`: a connection for each command.
  unfoldable pub incr_blocking :
      EdgeStoreBlocking RedisClient → (key : String) (delta : ℕ) → Exec EdgeError Db (Unit {0})
  incr_blocking store key zero = pure tt
  incr_blocking store key (suc n) = do
    conn ← lift (map_err redis (server.get_connection store.client))
    command (server.hincr conn store.hash_key key (as_i64 (suc n)))
    pure tt

  -- `EdgeStoreBlocking::totals`.
  unfoldable pub totals_blocking :
      EdgeStoreBlocking RedisClient → Exec EdgeError Db (List (String × ℕ))
  totals_blocking store = do
    conn ← lift (map_err redis (server.get_connection store.client))
    entries ← command (server.hgetall conn store.hash_key)
    pure (not_negative entries)
