-- ===== src/Dfinder/Server/Serving/Responses.antt =====
-- The steps of a task, one after the other, are the handler.
use proto.Base.{ℕ, ◌≡◌, List, String, Outcome, ok, err, panicked, arith}
use proto.Base.Text.{decimal}
use Prim.Native.String
use proto.TinyFrame.Types.{Frame}
use proto.TinyFrame.Codec.{Codec}
use proto.TinyFrame.Key.{KeyCell}
use proto.TinyFrame.Stream.{Sink}
use proto.Dfinder.Protocol.{Serde}
use proto.Dfinder.Store.{Sqlite}
use proto.Dfinder.Server.State.{ServerError, Inner}
use proto.Dfinder.Server.Handlers.{World, write_error, handle_register, handle_query, handle_frame}
use proto.Dfinder.Server.Serving.{
  Reply, error_reply, respond_register, respond_query, respond, write_reply,
}

module _ (c : Codec) (cell : KeyCell) (nonce : List ℕ) {E Conn : Type 0} where
  -- A reply, or no reply, and then the end of the handler.
  abbrev pub deliver :
      Sink
      → Outcome ServerError Reply × Inner E Conn
      → Outcome ServerError (Unit {0}) × World E Conn
  deliver out (ok reply, g) =
      let (r, out') = write_reply c cell nonce reply out in (r, record { inner = g; out = out' })
  deliver out (err e, g) = (err e, record { inner = g; out = out })
  deliver out (panicked p, g) = (panicked p, record { inner = g; out = out })

module _ (c : Codec) (cell : KeyCell) (nonce : List ℕ) {E Conn : Type 0} (serde : Serde E)
    (db : Sqlite Conn) where
  write_error-deliver :
      (tx_id : ℕ) (message : String) (w : World E Conn)
      → write_error c cell nonce serde db tx_id message w
        ≡ deliver c cell nonce w.out (error_reply serde db tx_id message w.inner)
  unfolding write_error write_reply
  write_error-deliver tx_id message w = ground arith

  handle_register-deliver :
      (secs now : ℕ) (ip : String) (frame : Frame) (w : World E Conn)
      → handle_register c cell nonce serde db secs now ip frame w
        ≡ deliver c cell nonce w.out (respond_register serde db secs now ip frame w.inner)
  unfolding handle_register respond_register write_reply
  handle_register-deliver secs now ip frame w =
      ground (arith, write_error-deliver frame.tx_id "register requires >= 1 label" w)

  handle_query-deliver :
      (frame : Frame) (w : World E Conn)
      → handle_query c cell nonce serde db frame w
        ≡ deliver c cell nonce w.out (respond_query serde db frame w.inner)
  unfolding handle_query respond_query write_reply
  handle_query-deliver frame w =
      ground (arith, write_error-deliver frame.tx_id "query requires >= 1 label" w)

  -- A handler is its section under the lock, and then the write of its reply.
  pub handle_frame-deliver :
      (secs now : ℕ) (ip : String) (frame : Frame) (w : World E Conn)
      → handle_frame c cell nonce serde db secs now ip frame w
        ≡ deliver c cell nonce w.out (respond serde db secs now ip frame w.inner)
  unfolding handle_frame respond
  handle_frame-deliver secs now ip frame w = ground (
    arith,
    handle_register-deliver secs now ip frame w,
    handle_query-deliver frame w,
    write_error-deliver frame.tx_id
        (String.◌++◌ "unknown message_type " (decimal frame.message_type)) w,
  )
