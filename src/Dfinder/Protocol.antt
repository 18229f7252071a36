-- ===== src/Dfinder/Protocol.antt =====
-- src/dfinder/protocol.rs: the messages, and a coder for each type that is written or read.
use proto.Base.{ℕ, ◌<◌, ◌^◌, ◌≡◌, List, String, ok}
use proto.Base.Json.{Coder, CoderLaws}

abbrev pub msg_register : ℕ
msg_register = 1

abbrev pub msg_register_ack : ℕ
msg_register_ack = 2

abbrev pub msg_query : ℕ
msg_query = 3

abbrev pub msg_query_result : ℕ
msg_query_result = 4

abbrev pub msg_error : ℕ
msg_error = 5

pub record NodeInfo (E : Type 0) : Type 0 where
  pub ip : String
  pub port : ℕ
  pub labels : List String
  pub extra : E

pub record RegisterRequest (E : Type 0) : Type 0 where
  pub port : ℕ
  pub labels : List String
  pub extra : E

pub record QueryRequest : Type 0 where
  pub labels : List String

pub record QueryResult (E : Type 0) : Type 0 where
  pub nodes : List (NodeInfo E)

pub record ErrorBody : Type 0 where
  pub message : String

pub record Serde (E : Type 0) : Type 0 where
  pub register_request : Coder (RegisterRequest E) (List ℕ)
  pub query_request : Coder QueryRequest (List ℕ)
  pub query_result : Coder (QueryResult E) (List ℕ)
  pub error_body : Coder ErrorBody (List ℕ)
  pub labels : Coder (List String) String
  pub extra : Coder E String

pub record SerdeLaws {E : Type 0} (s : Serde E) : Type 0 where
  pub register_request : CoderLaws s.register_request
  pub query_request : CoderLaws s.query_request
  pub query_result : CoderLaws s.query_result
  pub error_body : CoderLaws s.error_body
  pub labels : CoderLaws s.labels
  pub extra : CoderLaws s.extra
  -- A decoded port is a `u16`.
  pub port_fits :
      (bytes : List ℕ) (req : RegisterRequest E)
      → s.register_request.decode bytes ≡ ok req
      → req.port < 2 ^ 16
