-- ===== src/Dfinder/Server/Handlers.antt =====
-- src/dfinder/server.rs: what the server does with a frame that a client sent.
use proto.Base.{
  ℕ, ◌==◌, if◌then◌else◌, Bool, true, false, List, [], ◌∷◌, String, Outcome, ok, err, panicked,
  map_err, ◌||◌,
}
use proto.Base.Exec.{Exec, lift, ◌>>=◌, ◌>>◌}
use proto.Base.Text.{decimal}
use Prim.Native.String.{◌++◌}
use proto.TinyFrame.Types.{IoError, Frame}
use proto.TinyFrame.Codec.{Codec}
use proto.TinyFrame.Key.{KeyCell}
use proto.TinyFrame.Stream.{Source, Sink, write_frame_plain, read_frame}
use proto.Dfinder.Protocol.{
  Serde, msg_register, msg_register_ack, msg_query, msg_query_result, msg_error,
}
use proto.Dfinder.Store.{Sqlite}
use proto.Dfinder.Server.State.{ServerError, io, json, Inner}
use proto.Dfinder.Server.Locked.{store_node, find_healthy}

-- What a handler can change: the state behind the lock, and the bytes sent to its client.
pub record World (E Conn : Type 0) : Type 0 where
  pub inner : Inner E Conn
  pub out : Sink

abbrev pub is_empty {ℓ} : {A : Type ℓ} → List A → Bool
is_empty [] = true
is_empty (x ∷ xs) = false

-- `fn is_dfinder_message`.
unfoldable pub is_dfinder_message : ℕ → Bool
is_dfinder_message message_type = message_type == msg_register || message_type == msg_query

module _ {E Conn : Type 0} where
  -- A write to the client's stream.
  abbrev pub on_stream : Exec IoError Sink (Unit {0}) → Exec ServerError (World E Conn) (Unit {0})
  on_stream write w = let (r, out) = write w.out in (map_err io r, record w { out = out })

  -- The state after a section under the write lock: an error changes nothing.
  abbrev pub settle :
      World E Conn
      → Outcome ServerError (Inner E Conn)
      → Outcome ServerError (Unit {0}) × World E Conn
  settle w (ok g) = (ok tt, record w { inner = g })
  settle w (err e) = (err e, w)
  settle w (panicked p) = (panicked p, w)

  -- A section under the write lock.
  abbrev pub locked :
      (Inner E Conn → Outcome ServerError (Inner E Conn))
      → Exec ServerError (World E Conn) (Unit {0})
  locked section w = settle w (section w.inner)

module _ (c : Codec) (cell : KeyCell) (nonce : List ℕ) {E Conn : Type 0} (serde : Serde E)
    (db : Sqlite Conn) where
  -- `fn write_error`.
  unfoldable pub write_error : ℕ → String → Exec ServerError (World E Conn) (Unit {0})
  write_error tx_id message = do
    body ← lift (map_err json (serde.error_body.encode (record { message = message })))
    on_stream (write_frame_plain c cell nonce msg_error tx_id body)

  -- `fn handle_register`; `ip` is the peer's address, `secs` and `now` are the two clocks.
  unfoldable pub handle_register :
      (secs now : ℕ) (ip : String) → Frame → Exec ServerError (World E Conn) (Unit {0})
  handle_register secs now ip frame = do
    req ← lift (map_err json (serde.register_request.decode frame.payload))
    if is_empty req.labels then write_error frame.tx_id "register requires >= 1 label" else do
      locked (
          store_node serde db secs now
            (record { ip = ip; port = req.port; labels = req.labels; extra = req.extra }))
      on_stream (write_frame_plain c cell nonce msg_register_ack frame.tx_id (b'{' ∷ b'}' ∷ []))

  -- `fn handle_query`.
  unfoldable pub handle_query : Frame → Exec ServerError (World E Conn) (Unit {0})
  handle_query frame = do
    req ← lift (map_err json (serde.query_request.decode frame.payload))
    if is_empty req.labels then write_error frame.tx_id "query requires >= 1 label" else do
      nodes ← (λ w. (find_healthy serde db req.labels w.inner, w))
      body ← lift (map_err json (serde.query_result.encode (record { nodes = nodes })))
      on_stream (write_frame_plain c cell nonce msg_query_result frame.tx_id body)

  -- `fn handle_frame`.
  unfoldable pub handle_frame :
      (secs now : ℕ) (ip : String) → Frame → Exec ServerError (World E Conn) (Unit {0})
  handle_frame secs now ip frame =
      if frame.message_type == msg_register
      then handle_register secs now ip frame
      else if frame.message_type == msg_query
      then handle_query frame
      else write_error frame.tx_id ("unknown message_type " ++ decimal frame.message_type)

  -- `fn handle_conn`: one frame is read and answered.
  unfoldable pub handle_conn :
      (secs now : ℕ) (ip : String) → Source → Exec ServerError (World E Conn) (Unit {0})
  handle_conn secs now ip stream = do
    (frame, _) ← lift (map_err io (read_frame c cell stream))
    handle_frame secs now ip frame
