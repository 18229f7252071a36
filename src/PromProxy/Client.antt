-- ===== src/PromProxy/Client.antt =====
-- src/prom_proxy/client.rs: a remote write as a client makes it over one connection.
pub mod Sent
use proto.Base.{ℕ, ◌==◌, if◌then◌else◌, List, String, Outcome, ok, err, panicked, map_err}
use proto.Base.Exec.{Exec, gets, lift, ◌>>=◌, ◌>>◌}
use proto.Base.Counter.{advance}
use proto.Base.Integers.{ℤ}
use proto.Base.Json.{JsonError}
use proto.Base.Results
use proto.Base.Text.{decimal}
use Prim.Native.String.{◌++◌}
use proto.TinyFrame.Types.{IoError, Frame, chacha20poly1305}
use proto.TinyFrame.Codec.{Codec}
use proto.TinyFrame.Key.{KeyCell}
use proto.TinyFrame.Stream.{
  Source, Sink, write_frame, write_frame_blocking, read_frame, read_frame_blocking,
}
use proto.PromProxy.Protocol.{
  Serde, Snappy, msg_remote_write, msg_remote_write_ack, msg_error, prepare_remote_write_body,
}
use proto.PromProxy.Encode.{
  Prost, Float, MetricFamily, EncodeError, ProstError, prost_error, prost, msg,
  encode_metric_families,
}

pub data ClientError : Type 0 where
  io : IoError → ClientError
  json : JsonError → ClientError
  protocol : String → ClientError

pub record Client : Type 0 where
  pub next_tx : ℕ
  pub message_type : ℕ

-- `Client::new` and `with_message_type`.
abbrev pub new_client : Client
new_client = record { next_tx = 1; message_type = msg_remote_write }

abbrev pub with_message_type : Client → ℕ → Client
with_message_type client message_type = record client { message_type = message_type }

-- The client, and the stream that a connection gives it.
pub record Session : Type 0 where
  pub client : Client
  pub out : Sink
  pub replies : Source

-- `fn next_tx_id`.
unfoldable pub next_tx_id : Client → ℕ × Client
next_tx_id client = (client.next_tx, record client { next_tx = advance client.next_tx })

abbrev pub take_tx_id : Exec ClientError Session ℕ
take_tx_id s = let (id, client) = next_tx_id s.client in (ok id, record s { client = client })

abbrev pub send : Exec IoError Sink (Unit {0}) → Exec ClientError Session (Unit {0})
send write s = let (r, out) = write s.out in (map_err io r, record s { out = out })

abbrev pub received : Outcome IoError (Frame × Source) → Exec ClientError Session Frame
received (ok (frame, rest)) s = (ok frame, record s { replies = rest })
received (err e) s = (err (io e), s)
received (panicked p) s = (panicked p, s)

-- `EncodeError::to_string`.
abbrev pub encode_error_text : EncodeError → String
encode_error_text (prost (prost_error text)) = "encode protobuf: " ++ text
encode_error_text (msg text) = text

module _ (serde : Serde) where
  -- `fn decode_response`.
  unfoldable pub decode_response : Frame → Outcome ClientError ℕ
  decode_response frame =
      if frame.message_type == msg_remote_write_ack
      then Results.◌>>=◌ (map_err json (serde.remote_write_ack.decode frame.payload))
          (λ ack. ok ack.status)
      else if frame.message_type == msg_error
      then Results.◌>>=◌ (map_err json (serde.error_body.decode frame.payload))
          (λ body. err (protocol body.message))
      else err (protocol ("unexpected message_type " ++ decimal frame.message_type))

module _ (c : Codec) (cell : KeyCell) (nonce : List ℕ) (serde : Serde) where
  abbrev pub receive : Exec ClientError Session Frame
  receive s = received (read_frame c cell s.replies) s

  abbrev pub receive_blocking : Exec ClientError Session Frame
  receive_blocking s = received (read_frame_blocking c cell s.replies) s

  -- `fn remote_write`; `connected` is the result of `TcpStream::connect`.
  unfoldable pub remote_write :
      Outcome IoError (Unit {0}) → (body : List ℕ) → Exec ClientError Session ℕ
  remote_write connected body = do
    tx_id ← take_tx_id
    lift (map_err io connected)
    message_type ← gets (λ s. s.client.message_type)
    send (write_frame c cell nonce message_type tx_id body chacha20poly1305)
    frame ← receive
    lift (decode_response serde frame)

  -- `fn remote_write_blocking`.
  unfoldable pub remote_write_blocking :
      Outcome IoError (Unit {0}) → (body : List ℕ) → Exec ClientError Session ℕ
  remote_write_blocking connected body = do
    tx_id ← take_tx_id
    lift (map_err io connected)
    message_type ← gets (λ s. s.client.message_type)
    send (write_frame_blocking c cell nonce message_type tx_id body chacha20poly1305)
    frame ← receive_blocking
    lift (decode_response serde frame)

  -- `fn remote_write_protobuf` and `fn remote_write_protobuf_blocking`.
  unfoldable pub remote_write_protobuf :
      Snappy
      → Outcome IoError (Unit {0})
      → (protobuf_write_request : List ℕ) → Exec ClientError Session ℕ
  remote_write_protobuf snappy connected protobuf_write_request = do
    body ← lift (prepare_remote_write_body snappy protobuf_write_request)
    remote_write connected body

  unfoldable pub remote_write_protobuf_blocking :
      Snappy
      → Outcome IoError (Unit {0})
      → (protobuf_write_request : List ℕ) → Exec ClientError Session ℕ
  remote_write_protobuf_blocking snappy connected protobuf_write_request = do
    body ← lift (prepare_remote_write_body snappy protobuf_write_request)
    remote_write_blocking connected body

  module _ {F : Type 0} (float : Float F) (encode : Prost F) where
    -- `fn remote_write_families` and `fn remote_write_families_blocking`; `now` is the clock.
    unfoldable pub remote_write_families :
        Snappy
        → Outcome IoError (Unit {0})
        → (now : ℤ) → List (MetricFamily F)
        → Exec ClientError Session ℕ
    remote_write_families snappy connected now mfs = do
      protobuf ← lift (
          map_err (λ e. protocol (encode_error_text e))
            (encode_metric_families float encode now mfs))
      remote_write_protobuf snappy connected protobuf

    unfoldable pub remote_write_families_blocking :
        Snappy
        → Outcome IoError (Unit {0})
        → (now : ℤ) → List (MetricFamily F)
        → Exec ClientError Session ℕ
    remote_write_families_blocking snappy connected now mfs = do
      protobuf ← lift (
          map_err (λ e. protocol (encode_error_text e))
            (encode_metric_families float encode now mfs))
      remote_write_protobuf_blocking snappy connected protobuf
