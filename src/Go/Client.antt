-- ===== src/Go/Client.antt =====
-- promproxy/client.go: the Go client of the proxy, and a remote write over one connection.
pub mod Sent
pub mod Ids
pub mod Forwarding
pub mod Tests
use proto.Base.{
  ℕ, ◌+◌, ◌*◌, ◌^◌, ◌%◌, ◌==◌, ltb, if◌then◌else◌, Bool, List, String, str_eq, Option, none, some,
  Outcome, ok, err, panicked, map_err,
}
use proto.Base.Exec.{Exec, gets, lift, ◌>>=◌, ◌>>◌}
use proto.Base.Integers.{ℤ, pos, negsuc}
use proto.Base.Json.{JsonError}
use proto.Base.Results
use proto.Go.Frame.Types.{Error, Frame, chacha20poly1305}
use proto.Go.Frame.Codec.{Codec}
use proto.Go.Frame.Stream.{Writer, Reader, write_frame_with_key, read_frame_with_key}
use proto.Binary.Hex.{trim_start, trim_end}
use proto.PromProxy.Protocol.{Snappy, expect_compressed}

abbrev pub msg_remote_write : ℕ
msg_remote_write = 10

abbrev pub msg_remote_write_ack : ℕ
msg_remote_write_ack = 11

abbrev pub msg_error : ℕ
msg_error = 12

-- A `time.Duration` is a number of nanoseconds.
abbrev pub default_dial_timeout : ℤ
default_dial_timeout = pos (30 * 10 ^ 9)

pub record RemoteWriteAck : Type 0 where
  pub status : ℕ

pub record ErrorBody : Type 0 where
  pub message : String

-- `json.Unmarshal` at the two types.
pub record Unmarshal : Type 0 where
  pub remote_write_ack : List ℕ → Outcome JsonError RemoteWriteAck
  pub error_body : List ℕ → Outcome JsonError ErrorBody

pub record Config : Type 0 where
  pub addr : String
  pub secret_key : List ℕ
  pub message_type : ℕ
  pub dial_timeout : ℤ

pub record Client : Type 0 where
  pub addr : String
  pub key : List ℕ
  pub message_type : ℕ
  pub dial_timeout : ℤ
  pub next_tx : ℕ

pub data ClientError : Type 0 where
  addr_required : ClientError
  message_type_out_of_range : ℕ → ClientError
  context : String → ClientError
  connect write_request read_response : Error → ClientError
  decode_ack decode_error : JsonError → ClientError
  remote : String → ClientError
  unexpected_message_type : ℕ → ClientError

abbrev pub or_default : ℤ → ℤ
or_default (pos n) = if n == 0 then default_dial_timeout else pos n
or_default (negsuc n) = default_dial_timeout

-- `New`.
unfoldable pub new : Config → Outcome ClientError Client
new cfg =
    if str_eq (trim_end (trim_start cfg.addr)) ""
    then err addr_required
    else let msg_type = if cfg.message_type == 0 then msg_remote_write else cfg.message_type in
      if ltb 31 msg_type
      then err (message_type_out_of_range msg_type)
      else ok (record {
        addr = cfg.addr;
        key = cfg.secret_key;
        message_type = msg_type;
        dial_timeout = or_default cfg.dial_timeout;
        next_tx = 1;
      })

-- `nextTxID`: the id behind one that is handed out, on a uint64.
unfoldable pub next_of : ℕ → ℕ
next_of id = let next = (id + 1) % 2 ^ 64 in if next == 0 then 1 else next

-- The client, and the connection that a call makes.
pub record Session : Type 0 where
  pub client : Client
  pub out : Writer
  pub replies : Reader

-- `nextTxID` in a call that no other one interferes with; `Ids` has the loop.
abbrev pub take_tx_id : Exec ClientError Session ℕ
take_tx_id s = (
  ok s.client.next_tx,
  record s { client = record s.client { next_tx = next_of s.client.next_tx } },
)

abbrev pub sending : Exec Error Writer (Unit {0}) → Exec ClientError Session (Unit {0})
sending write s = let (r, out) = write s.out in (map_err write_request r, record s { out = out })

abbrev pub received : Outcome Error (Frame × Reader) → Exec ClientError Session Frame
received (ok (frame, rest)) s = (ok frame, record s { replies = rest })
received (err e) s = (err (read_response e), s)
received (panicked p) s = (panicked p, s)

-- `ctx.Err()`.
abbrev pub context_ok : Option String → Outcome ClientError (Unit {0})
context_ok none = ok tt
context_ok (some reason) = err (context reason)

-- `PrepareRemoteWriteBody`: `snappy.Encode` panics on a body that is too large for it.
unfoldable pub prepare_remote_write_body :
    Snappy → (protobuf_write_request : List ℕ) → Outcome ClientError (List ℕ)
prepare_remote_write_body snappy protobuf_write_request =
    expect_compressed (snappy protobuf_write_request)

module _ (json : Unmarshal) where
  -- The `switch` of `RemoteWrite` on the type of the reply.
  unfoldable pub decode_response : Frame → Outcome ClientError ℕ
  decode_response frame =
      if frame.message_type == msg_remote_write_ack
      then Results.◌>>=◌ (map_err decode_ack (json.remote_write_ack frame.payload))
          (λ ack. ok ack.status)
      else if frame.message_type == msg_error
      then Results.◌>>=◌ (map_err decode_error (json.error_body frame.payload))
          (λ eb. err (remote eb.message))
      else err (unexpected_message_type frame.message_type)

module _ (g : Codec) (random : Outcome Error (List ℕ)) (json : Unmarshal) where
  -- `RemoteWrite`; `cancelled` is `ctx.Err()` and `dialled` the result of `dial`. A deadline of the
  -- context shows in the two streams, which then end early.
  unfoldable pub remote_write :
      (cancelled : Option String) (dialled : Outcome Error (Unit {0})) (body : List ℕ)
      → Exec ClientError Session ℕ
  remote_write cancelled dialled body = do
    lift (context_ok cancelled)
    lift (map_err connect dialled)
    tx_id ← take_tx_id
    client ← gets (λ s. s.client)
    sending (
        write_frame_with_key g random client.message_type tx_id body chacha20poly1305
          (some client.key))
    frame ← (λ s. received (read_frame_with_key g (some client.key) s.replies) s)
    lift (decode_response json frame)

  -- `RemoteWriteProtobuf`.
  unfoldable pub remote_write_protobuf :
      Snappy
      → (cancelled : Option String) (dialled : Outcome Error (Unit {0}))
        (protobuf_write_request : List ℕ)
      → Exec ClientError Session ℕ
  remote_write_protobuf snappy cancelled dialled protobuf_write_request = do
    body ← lift (prepare_remote_write_body snappy protobuf_write_request)
    remote_write cancelled dialled body
