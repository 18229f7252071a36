-- ===== src/PromProxy/Edge/Blocking.antt =====
-- src/prom_proxy/edge.rs: the blocking store and the asynchronous one.
use proto.Base.{ℕ, zero, suc, ◌≡◌, refl, String, ok}
use proto.PromProxy.Edge.{
  Redis, EdgeStore, EdgeStoreBlocking, incr, totals, incr_blocking, totals_blocking,
}

module _ {RedisClient Conn Db : Type 0} (server : Redis RedisClient Conn Db)
    (store : EdgeStoreBlocking RedisClient) where
  abbrev pub over : Conn → EdgeStore Conn
  over conn = record { conn = conn; hash_key = store.hash_key }

  -- Where the client gets a connection, the blocking store does and returns what the asynchronous
  -- one over that connection does and returns, both when it counts and when it lists the totals.
  pub incr_blocking-eq :
      (conn : Conn) (key : String) (delta : ℕ) (s : Db)
      → server.get_connection store.client ≡ ok conn
      → (incr_blocking server store key delta s ≡ incr server (over conn) key delta s)
        × (totals_blocking server store s ≡ totals server (over conn) s)
  unfolding incr incr_blocking totals totals_blocking
  incr_blocking-eq conn key zero s e = (refl, rw e)
  incr_blocking-eq conn key (suc n) s e = (rw e, rw e)
