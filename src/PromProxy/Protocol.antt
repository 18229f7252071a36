-- ===== src/PromProxy/Protocol.antt =====
-- src/prom_proxy/protocol.rs: the messages of the proxy and the compression of a request's body.
-- The snappy encoder is a parameter.
use proto.Base.{ℕ, List, String, Option, none, some, Outcome, ok, panicked, snappy_compress}
use proto.Base.Json.{Coder, CoderLaws}

abbrev pub msg_remote_write : ℕ
msg_remote_write = 10

abbrev pub msg_remote_write_ack : ℕ
msg_remote_write_ack = 11

abbrev pub msg_error : ℕ
msg_error = 12

pub record RemoteWriteAck : Type 0 where
  pub status : ℕ

pub record ErrorBody : Type 0 where
  pub message : String

pub record Serde : Type 0 where
  pub remote_write_ack : Coder RemoteWriteAck (List ℕ)
  pub error_body : Coder ErrorBody (List ℕ)

pub record SerdeLaws (s : Serde) : Type 0 where
  pub remote_write_ack : CoderLaws s.remote_write_ack
  pub error_body : CoderLaws s.error_body

-- `snap::raw::Encoder::compress_vec`: no bytes where it fails.
abbrev pub Snappy : Type 0
Snappy = List ℕ → Option (List ℕ)

abbrev pub expect_compressed : {E : Type 0} → Option (List ℕ) → Outcome E (List ℕ)
expect_compressed none = panicked snappy_compress
expect_compressed (some body) = ok body

-- `fn prepare_remote_write_body`.
unfoldable pub prepare_remote_write_body : {E : Type 0} → Snappy → List ℕ → Outcome E (List ℕ)
prepare_remote_write_body snappy protobuf_write_request =
    expect_compressed (snappy protobuf_write_request)
