-- ===== src/PromProxy/Server.antt =====
-- src/prom_proxy/server.rs: the proxy's handler of a connection, and the report of its counters.
-- The HTTP client is a parameter: the answer that each request gets.
pub mod State
pub mod Answers
pub mod Forwarding
pub mod Replies
pub mod Completes
pub mod Counting
pub mod Flush
pub mod Serving
pub mod Tests
use proto.Base.{
  ℕ, ◌==◌, leb, ltb, if◌then◌else◌, ◌&&◌, ◌||◌, Bool, List, [], ◌∷◌, ◌++◌, map, String, Outcome, ok,
  err, panicked, map_err,
}
use proto.Base.Exec.{Exec, pure, raise, lift, ◌>>=◌, ◌>>◌}
use proto.Base.Integers.{ℤ}
use proto.Base.Json.{JsonError, json_error}
use proto.Base.Results
use proto.Base.Text.{decimal}
use Prim.Native.String
use proto.TinyFrame.Types.{IoError, Frame, chacha20poly1305}
use proto.TinyFrame.Codec.{Codec}
use proto.TinyFrame.Key.{KeyCell}
use proto.TinyFrame.Stream.{Source, Sink, write_frame, read_frame}
use proto.PromProxy.Protocol.{
  Serde, Snappy, msg_remote_write, msg_remote_write_ack, msg_error, prepare_remote_write_body,
}
use proto.PromProxy.Edge.{
  redis_error, redis, EdgeError, Redis, EdgeStore, connect, incr, totals, default_edge_hash_key,
}
use proto.PromProxy.Encode.{
  label, TimeSeries, EncodeError, Prost, Float, prost, prost_error, encode_write_request,
}
use proto.PromProxy.Encode
use proto.PromProxy.Server.State.{
  HttpError, http_error, ServerError, io, http, json, encode, edge, msg, edge_metric_name,
  ServerConfig, Request, Response, Http, Inner, World, remote_write_request, accepted,
  text_or_default,
}

-- The end of `post_remote_write`.
unfoldable pub judge : Outcome HttpError Response → Outcome ServerError ℕ
judge (ok resp) =
    if accepted resp.status
    then ok resp.status
    else err (
        msg (
          String.◌++◌ "upstream HTTP "
            (String.◌++◌ (decimal resp.status) (String.◌++◌ ": " (text_or_default resp.text)))))
judge (err e) = err (http e)
judge (panicked p) = panicked p

module _ {Db : Type 0} where
  abbrev pub on_stream : Exec IoError Sink (Unit {0}) → Exec ServerError (World Db) (Unit {0})
  on_stream write w = let (r, out) = write w.out in (map_err io r, record w { out = out })

  abbrev pub on_edges : {A : Type 0} → Exec EdgeError Db A → Exec ServerError (World Db) A
  on_edges command w = let (r, db) = command w.db in (map_err edge r, record w { db = db })

  -- `if let Err(e) = … { eprintln!(…) }`: an error is reported and forgotten.
  abbrev pub forget_error : Exec ServerError (World Db) (Unit {0}) → World Db → World Db
  forget_error command w = (command w).1

module _ {Conn Db : Type 0} (state : Inner Conn) where
  -- `fn post_remote_write`.
  unfoldable pub post_remote_write : (body : List ℕ) → Exec ServerError (World Db) ℕ
  post_remote_write body w =
      let request = remote_write_request state.config.prometheus_url body in
      (judge (state.http w.requests request), record w { requests = w.requests ++ request ∷ [] })

  -- `fn forward_frame`.
  unfoldable pub forward_frame : Frame → Exec ServerError (World Db) ℕ
  forward_frame frame = post_remote_write frame.payload

module _ {RedisClient Conn Db : Type 0} (server : Redis RedisClient Conn Db) where
  -- `Server::new`.
  unfoldable pub new : ServerConfig → Http → Outcome ServerError (Inner Conn)
  new config http_client =
      Results.◌>>=◌ (map_err edge (connect server config.redis_url config.edge_hash_key))
        (λ edges. ok (record { config = config; http = http_client; edges = edges }))

  -- `fn incr_edge`.
  unfoldable pub incr_edge : Inner Conn → (key : String) → Exec ServerError (World Db) (Unit {0})
  incr_edge state key = on_edges (incr server state.edges key 1)

-- `ServerError::to_string`; an I/O error has a text of its own.
module _ (io_text : IoError → String) where
  abbrev pub server_error_text : ServerError → String
  server_error_text (io e) = String.◌++◌ "io: " (io_text e)
  server_error_text (http (http_error text)) = String.◌++◌ "http: " text
  server_error_text (json (json_error text)) = String.◌++◌ "json: " text
  server_error_text (encode (prost (prost_error text))) =
      String.◌++◌ "encode: encode protobuf: " text
  server_error_text (encode (Encode.msg text)) = String.◌++◌ "encode: " text
  server_error_text (edge (redis (redis_error text))) = String.◌++◌ "redis: redis: " text
  server_error_text (msg text) = text

module _ (c : Codec) (cell : KeyCell) (nonce : List ℕ) (serde : Serde) {Db : Type 0} where
  -- `fn write_error`.
  unfoldable pub write_error : ℕ → String → Exec ServerError (World Db) (Unit {0})
  write_error tx_id message = do
    body ← lift (map_err json (serde.error_body.encode (record { message = message })))
    on_stream (write_frame c cell nonce msg_error tx_id body chacha20poly1305)

module _ (c : Codec) (cell : KeyCell) (nonce : List ℕ) (serde : Serde) (io_text : IoError → String)
    {RedisClient Conn Db : Type 0} (server : Redis RedisClient Conn Db) (state : Inner Conn) where
  -- The arms of the `match` on the result of `forward_frame`.
  unfoldable pub answer : Frame → Outcome ServerError ℕ → Exec ServerError (World Db) (Unit {0})
  answer frame (ok status) w =
      (do
        body ← lift (map_err json (serde.remote_write_ack.encode (record { status = status })))
        on_stream (write_frame c cell nonce msg_remote_write_ack frame.tx_id body chacha20poly1305))
        (forget_error (incr_edge server state "remote_write_ok") w)
  answer frame (err e) w =
      write_error c cell nonce serde frame.tx_id (server_error_text io_text e)
        (forget_error (incr_edge server state "remote_write_err") w)
  answer frame (panicked p) w = (panicked p, w)

  -- `fn handle_conn` behind the read.
  unfoldable pub handle_frame : Frame → Exec ServerError (World Db) (Unit {0})
  handle_frame frame w =
      if frame.message_type == state.config.message_type
      then (let (r, w') = forward_frame state frame w in answer frame r w')
      else write_error c cell nonce serde frame.tx_id
          (String.◌++◌ "unexpected message_type " (decimal frame.message_type)) w

  -- `fn handle_conn`: one frame is read and answered.
  unfoldable pub handle_conn : Source → Exec ServerError (World Db) (Unit {0})
  handle_conn stream = do
    (frame, _) ← lift (map_err io (read_frame c cell stream))
    handle_frame frame

module _ {F : Type 0} (float : Float F) where
  -- The series of one counter.
  unfoldable pub edge_series : (now : ℤ) → String × ℕ → TimeSeries F
  edge_series now (key, total) = record {
    labels = label "__name__" edge_metric_name ∷ label "key" key ∷ [];
    samples = record { value = float.from_u64 total; timestamp_ms = now } ∷ [];
  }

module _ {F : Type 0} (float : Float F) (prost : Prost F) (snappy : Snappy)
    {RedisClient Conn Db : Type 0} (server : Redis RedisClient Conn Db) (state : Inner Conn) where
  -- `fn flush_edges` behind the question whether there is a counter.
  unfoldable pub flush_totals :
      (now : ℤ) → List (String × ℕ) → Exec ServerError (World Db) (Unit {0})
  flush_totals now [] = pure tt
  flush_totals now (entry ∷ entries) = do
    let series = map (edge_series float now) (entry ∷ entries)
    protobuf ← lift (map_err encode (encode_write_request prost series))
    body ← lift (prepare_remote_write_body snappy protobuf)
    post_remote_write state body
    pure tt

  -- `fn flush_edges`; `now` is the clock.
  unfoldable pub flush_edges : (now : ℤ) → Exec ServerError (World Db) (Unit {0})
  flush_edges now = do entries ← on_edges (totals server state.edges); flush_totals now entries
