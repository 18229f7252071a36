-- ===== src/Dfinder/Client.antt =====
-- src/dfinder/client.rs: registration and query, as a client makes them over one connection each.
use proto.Base.{ℕ, ◌==◌, if◌then◌else◌, Bool, List, String, Outcome, ok, err, panicked, map_err}
use proto.Base.Exec.{Exec, pure, raise, lift, ◌>>=◌, ◌>>◌}
use proto.Base.Maps.{filter}
use proto.Base.Counter.{advance}
use proto.Base.Text.{decimal}
use Prim.Native.String.{◌++◌}
use proto.TinyFrame.Types.{IoError, Frame}
use proto.TinyFrame.Codec.{Codec}
use proto.TinyFrame.Key.{KeyCell}
use proto.TinyFrame.Stream.{Source, Sink, write_frame_plain, read_frame}
use proto.Base.Json.{JsonError}
use proto.Dfinder.Protocol.{
  NodeInfo, Serde, msg_register, msg_register_ack, msg_query, msg_query_result, msg_error,
}
use proto.Dfinder.Server.Handlers.{is_empty}

pub data ClientError : Type 0 where
  io : IoError → ClientError
  json : JsonError → ClientError
  protocol : String → ClientError

-- The user's check of a node, as it answers during one query.
abbrev pub LocalHealthCheck : Type 0 → Type 0
LocalHealthCheck E = NodeInfo E → Bool

pub record Client (E : Type 0) : Type 0 where
  pub health_check : LocalHealthCheck E
  pub next_tx : ℕ

-- `Client::new`.
abbrev pub new_client : {E : Type 0} → LocalHealthCheck E → Client E
new_client health_check = record { health_check = health_check; next_tx = 1 }

-- The client, and the stream that a connection gives it.
pub record Session (E : Type 0) : Type 0 where
  pub client : Client E
  pub out : Sink
  pub replies : Source

module _ {E : Type 0} where
  -- `fn next_tx_id`.
  unfoldable pub next_tx_id : Client E → ℕ × Client E
  next_tx_id client = (client.next_tx, record client { next_tx = advance client.next_tx })

  abbrev pub take_tx_id : Exec ClientError (Session E) ℕ
  take_tx_id s = let (id, client) = next_tx_id s.client in (ok id, record s { client = client })

  abbrev pub send : Exec IoError Sink (Unit {0}) → Exec ClientError (Session E) (Unit {0})
  send write s = let (r, out) = write s.out in (map_err io r, record s { out = out })

  abbrev pub received : Outcome IoError (Frame × Source) → Exec ClientError (Session E) Frame
  received (ok (frame, rest)) s = (ok frame, record s { replies = rest })
  received (err e) s = (err (io e), s)
  received (panicked p) s = (panicked p, s)

module _ (c : Codec) (cell : KeyCell) (nonce : List ℕ) {E : Type 0} (serde : Serde E) where
  abbrev pub receive : Exec ClientError (Session E) Frame
  receive s = received (read_frame c cell s.replies) s

  -- What both methods do with a frame of another type than the one they want.
  unfoldable pub reject : {A : Type 0} → Frame → Exec ClientError (Session E) A
  reject frame =
      if frame.message_type == msg_error
      then (do
        body ← lift (map_err json (serde.error_body.decode frame.payload))
        raise (protocol body.message))
      else raise (protocol ("unexpected message_type " ++ decimal frame.message_type))

  -- `fn register`; `connected` is the result of `TcpStream::connect`.
  unfoldable pub register :
      Outcome IoError (Unit {0})
      → (port : ℕ) (labels : List String) (extra : E) → Exec ClientError (Session E) (Unit {0})
  unfolding reject
  register connected port labels extra =
      if is_empty labels then raise (protocol "register requires >= 1 label") else do
        tx_id ← take_tx_id
        lift (map_err io connected)
        body ← lift (
            map_err json (
              serde.register_request.encode
                (record { port = port; labels = labels; extra = extra })))
        send (write_frame_plain c cell nonce msg_register tx_id body)
        frame ← receive
        if frame.message_type == msg_register_ack then pure tt else reject frame

  -- `fn query_healthy`: the nodes of the answer, filtered by the client's own check.
  unfoldable pub query_healthy :
      Outcome IoError (Unit {0}) → List String → Exec ClientError (Session E) (List (NodeInfo E))
  unfolding reject
  query_healthy connected labels s =
      (if is_empty labels then raise (protocol "query requires >= 1 label") else do
        tx_id ← take_tx_id
        lift (map_err io connected)
        body ← lift (map_err json (serde.query_request.encode (record { labels = labels })))
        send (write_frame_plain c cell nonce msg_query tx_id body)
        frame ← receive
        if frame.message_type == msg_query_result
            then (do
              result ← lift (map_err json (serde.query_result.decode frame.payload))
              pure (filter s.client.health_check result.nodes))
            else reject frame)
        s
