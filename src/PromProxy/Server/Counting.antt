-- ===== src/PromProxy/Server/Counting.antt =====
-- src/prom_proxy/server.rs: what the counters say after a connection.
use proto.Base.{
  ℕ, ◌≡◌, ap, ◌∙◌, if◌then◌else◌, List, String, str_eq, some, Outcome, ok, err, panicked, arith,
}
use proto.Base.Integers.{ℤ, pos, ◌+ℤ◌, as_i64_small}
use proto.TinyFrame.Types.{IoError, Frame}
use proto.TinyFrame.Codec.{Codec}
use proto.TinyFrame.Key.{KeyCell}
use proto.TinyFrame.Stream.{Source, read_frame}
use proto.PromProxy.Protocol.{Serde}
use proto.PromProxy.Edge.{Redis, incr}
use proto.PromProxy.Edge.Totals.{counted, RedisLaws, incr_value}
use proto.PromProxy.Server.State.{ServerError, Inner, World, remote_write_request}
use proto.PromProxy.Server.{judge, handle_conn}
use proto.PromProxy.Server.Answers.{Answered, refused, acknowledged, failed, handle_frame-Answered}
use proto.PromProxy.Server.Forwarding.{handle_conn-handle_frame}

-- The counter of a result.
abbrev pub result_key : Outcome ServerError ℕ → String
result_key (ok status) = "remote_write_ok"
result_key (err problem) = "remote_write_err"
result_key (panicked p) = "none"

module _ {RedisClient Conn Db : Type 0} (server : Redis RedisClient Conn Db) (state : Inner Conn)
    (redis : RedisLaws server state.edges.hash_key) where
  one_more :
      (key : String) (db db' : Db) (f : String)
      → db' ≡ (incr server state.edges key 1 db).1
      → (incr server state.edges key 1 db).0 ≡ ok tt
      → redis.value db' f
        ≡ (if str_eq key f then some (counted (redis.value db key) +ℤ pos 1) else redis.value db f)
  one_more key db db' f after done =
      ap (λ d. redis.value d f) after
      ∙ incr_value server state.edges redis key 1 db (incr server state.edges key 1 db).1 f
          (omega arith) (λ i. (done i, (incr server state.edges key 1 db).1))
      ∙ ap
          (λ (d : ℤ).
            if str_eq key f then some (counted (redis.value db key) +ℤ d) else redis.value db f)
          (as_i64_small 1 (omega arith))

  module _ (c : Codec) (cell : KeyCell) (nonce : List ℕ) (serde : Serde)
      (io_text : IoError → String) where
    Answered-counts :
        (frame : Frame) (w w' : World Db) (f : String)
        → frame.message_type ≡ state.config.message_type
        → ((key : String) → (incr server state.edges key 1 w.db).0 ≡ ok tt)
        → Answered c cell nonce serde io_text server state frame w w'
        → let key : String = result_key (
            judge (
              state.http w.requests
                (remote_write_request state.config.prometheus_url frame.payload))) in
          redis.value w'.db f ≡ (
            if str_eq key f
            then some (counted (redis.value w.db key) +ℤ pos 1)
            else redis.value w.db f)
    Answered-counts frame w w' f same works (refused other reply) = absurd (other same)
    Answered-counts frame w w' f same works
          (acknowledged _ status counted judged out db requests (_, _, _, _, kept)) =
        rw judged (one_more "remote_write_ok" w.db w'.db f (kept ∙ db) (works "remote_write_ok"))
    Answered-counts frame w w' f same works
          (failed _ problem counted judged out db requests (_, _, _, _, kept)) =
        rw judged (one_more "remote_write_err" w.db w'.db f (kept ∙ db) (works "remote_write_err"))

    -- A frame of the configured type that was handled without an error has been counted once: by
    -- "remote_write_ok" if the upstream accepted the request, and by "remote_write_err" if not; no
    -- other counter has changed. (Increments succeed.)
    pub handle_conn_counts :
        (r : Source) (frame : Frame) (rest : Source) (w w' : World Db) (f : String)
        → read_frame c cell r ≡ ok (frame, rest)
        → frame.message_type ≡ state.config.message_type
        → ((key : String) → (incr server state.edges key 1 w.db).0 ≡ ok tt)
        → handle_conn c cell nonce serde io_text server state r w ≡ (ok tt, w')
        → let key : String = result_key (
            judge (
              state.http w.requests
                (remote_write_request state.config.prometheus_url frame.payload))) in
          redis.value w'.db f ≡ (
            if str_eq key f
            then some (counted (redis.value w.db key) +ℤ pos 1)
            else redis.value w.db f)
    handle_conn_counts r frame rest w w' f got same works handled =
        Answered-counts frame w w' f same works (
          handle_frame-Answered c cell nonce serde io_text server state frame w w' (
            handle_conn-handle_frame c cell nonce serde io_text server state r frame rest w w' got
              handled))
