-- ===== src/PromProxy/Server/State.antt =====
-- src/prom_proxy/server.rs: the configuration, the state, and a request with its answer.
use proto.Base.{
  ℕ, ◌==◌, leb, ltb, ◌&&◌, ◌||◌, Bool, List, [], ◌∷◌, String, Outcome, ok, err, panicked,
}
use proto.Base.Json.{JsonError}
use proto.TinyFrame.Types.{IoError}
use proto.TinyFrame.Stream.{Sink}
use proto.PromProxy.Protocol.{msg_remote_write}
use proto.PromProxy.Edge.{EdgeError, EdgeStore, default_edge_hash_key}
use proto.PromProxy.Encode.{EncodeError}

-- `reqwest::Error`, with its text.
pub data HttpError : Type 0 where
  http_error : String → HttpError

pub data ServerError : Type 0 where
  io : IoError → ServerError
  http : HttpError → ServerError
  json : JsonError → ServerError
  encode : EncodeError → ServerError
  edge : EdgeError → ServerError
  msg : String → ServerError

abbrev pub edge_metric_name : String
edge_metric_name = "prom_proxy_edge_total"

pub record ServerConfig : Type 0 where
  pub listen : String
  pub prometheus_url : String
  pub redis_url : String
  pub edge_hash_key : String
  pub message_type : ℕ

-- `ServerConfig::new`.
abbrev pub new_config : (listen prometheus_url redis_url : String) → ServerConfig
new_config listen prometheus_url redis_url = record {
  listen = listen;
  prometheus_url = prometheus_url;
  redis_url = redis_url;
  edge_hash_key = default_edge_hash_key;
  message_type = msg_remote_write;
}

-- `fn edge_hash_key`.
abbrev pub edge_hash_key : ServerConfig → (key : String) → ServerConfig
edge_hash_key config key = record config { edge_hash_key = key }

-- A POST request, and its answer: the status, and the body, whose reading can fail.
pub record Request : Type 0 where
  pub url : String
  pub headers : List (String × String)
  pub body : List ℕ

pub record Response : Type 0 where
  pub status : ℕ
  pub text : Outcome HttpError String

-- The answer to a request, given the requests before it.
abbrev pub Http : Type 0
Http = List Request → Request → Outcome HttpError Response

pub record Inner (Conn : Type 0) : Type 0 where
  pub config : ServerConfig
  pub http : Http
  pub edges : EdgeStore Conn

-- `struct Server` is `Inner`, shared. This is what a handler changes: the counters' database, the
-- requests that were sent, and the bytes sent to its client.
pub record World (Db : Type 0) : Type 0 where
  pub db : Db
  pub requests : List Request
  pub out : Sink

abbrev pub remote_write_headers : List (String × String)
remote_write_headers =
    ("Content-Encoding", "snappy")
    ∷ ("Content-Type", "application/x-protobuf")
    ∷ ("X-Prometheus-Remote-Write-Version", "0.1.0")
    ∷ ("User-Agent", "proto4-prom-proxy/0.1.0")
    ∷ []

abbrev pub remote_write_request : (url : String) (body : List ℕ) → Request
remote_write_request url body = record { url = url; headers = remote_write_headers; body = body }

-- `resp.status().is_success() || status == 204`.
abbrev pub accepted : (status : ℕ) → Bool
accepted status = leb 200 status && ltb status 300 || status == 204

-- `resp.text().await.unwrap_or_default()`.
abbrev pub text_or_default : Outcome HttpError String → String
text_or_default (ok text) = text
text_or_default (err e) = ""
text_or_default (panicked p) = ""
