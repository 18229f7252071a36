-- ===== src/PromProxy/Server/Replies.antt =====
-- src/prom_proxy/server.rs: what the client of a handled connection can read.
use proto.Base.{
  arith, ℕ, ◌≡◌, ◌≢◌, refl, ap, ◌∙◌, true, List, [], ◌∷◌, ◌++◌, String, length, ok, ◌⊎◌, inl, inr,
}
use proto.TinyFrame.Types.{IoError, IsU64, Frame, nonce_len, chacha20poly1305}
use proto.TinyFrame.Codec.{Codec, CodecLaws}
use proto.TinyFrame.Key.{KeyCell}
use proto.TinyFrame.Stream.{Source, Sink, read_frame}
use proto.TinyFrame.Stream.Framing.{source}
use proto.TinyFrame.Roundtrip.{sent_frame, written_alone}
use proto.PromProxy.Protocol.{Serde, msg_remote_write_ack, msg_error}
use proto.PromProxy.Edge.{Redis}
use proto.PromProxy.Server.State.{Inner, World, remote_write_request}
use proto.PromProxy.Server.{handle_conn}
use proto.PromProxy.Server.Answers.{Answered, refused, acknowledged, failed, handle_frame-Answered}
use proto.PromProxy.Server.Forwarding.{handle_conn-handle_frame}

module _ {Conn Db : Type 0} (state : Inner Conn) where
  -- What the proxy did, by the type of its reply.
  abbrev pub Done : (frame reply : Frame) (w w' : World Db) → Type 0
  Done frame reply w w' =
      ((frame.message_type ≢ state.config.message_type)
        × (reply.message_type ≡ msg_error)
        × (w'.requests ≡ w.requests)
        × (w'.db ≡ w.db))
      ⊎ ((frame.message_type ≡ state.config.message_type)
          × ((reply.message_type ≡ msg_remote_write_ack) ⊎ (reply.message_type ≡ msg_error))
          × (w'.requests
              ≡ w.requests ++ remote_write_request state.config.prometheus_url frame.payload ∷ []))

module _ (c : Codec) (laws : CodecLaws c) (cell : KeyCell) (nonce : List ℕ)
    (n : length nonce ≡ nonce_len) (serde : Serde) (io_text : IoError → String)
    {RedisClient Conn Db : Type 0} (server : Redis RedisClient Conn Db) (state : Inner Conn) where
  Answered-reply :
      (frame : Frame) (w w' : World Db) (ending : IoError)
      → IsU64 frame.tx_id
      → w.out.written ≡ []
      → Answered c cell nonce serde io_text server state frame w w'
      → (reply : Frame) × (read_frame c cell (source w'.out.written ending)
          ≡ ok (reply, source [] ending))
        × (reply.tx_id ≡ frame.tx_id)
        × (reply.encrypted ≡ true)
        × Done state frame reply w w'
  Answered-reply frame w w' ending fits clean (refused other (body, encoded, sent, requests, db)) =
      (
        sent_frame msg_error frame.tx_id body chacha20poly1305,
        written_alone c laws cell nonce n msg_error frame.tx_id body chacha20poly1305 w.out w'.out
            ending (omega arith) fits clean sent,
        refl,
        refl,
        inl (other, refl, requests, db),
      )
  Answered-reply frame w w' ending fits clean
        (acknowledged same status counted judged out db requests (body, encoded, sent, kept, _)) =
      (
        sent_frame msg_remote_write_ack frame.tx_id body chacha20poly1305,
        written_alone c laws cell nonce n msg_remote_write_ack frame.tx_id body chacha20poly1305
            counted.out w'.out ending (omega arith) fits (ap (λ (o : Sink). o.written) out ∙ clean)
            sent,
        refl,
        refl,
        inr (same, inl refl, kept ∙ requests),
      )
  Answered-reply frame w w' ending fits clean
        (failed same problem counted judged out db requests (body, encoded, sent, kept, _)) =
      (
        sent_frame msg_error frame.tx_id body chacha20poly1305,
        written_alone c laws cell nonce n msg_error frame.tx_id body chacha20poly1305 counted.out
            w'.out ending (omega arith) fits (ap (λ (o : Sink). o.written) out ∙ clean) sent,
        refl,
        refl,
        inr (same, inr refl, kept ∙ requests),
      )

  -- A connection that was handled without an error, and on which nothing had been sent, has got one
  -- encrypted frame with the id of the frame that was read, and nothing else. If the type of that
  -- frame is another than the configured one, the reply is an error and neither a request was made
  -- nor a counter changed; otherwise one request was made, with the payload of the frame, and the
  -- reply is an acknowledgement or an error.
  pub handle_conn_reply :
      (r : Source) (frame : Frame) (rest : Source) (w w' : World Db) (ending : IoError)
      → read_frame c cell r ≡ ok (frame, rest)
      → IsU64 frame.tx_id
      → w.out.written ≡ []
      → handle_conn c cell nonce serde io_text server state r w ≡ (ok tt, w')
      → (reply : Frame) × (read_frame c cell (source w'.out.written ending)
          ≡ ok (reply, source [] ending))
        × (reply.tx_id ≡ frame.tx_id)
        × (reply.encrypted ≡ true)
        × Done state frame reply w w'
  handle_conn_reply r frame rest w w' ending got fits clean handled =
      Answered-reply frame w w' ending fits clean (
        handle_frame-Answered c cell nonce serde io_text server state frame w w' (
          handle_conn-handle_frame c cell nonce serde io_text server state r frame rest w w' got
            handled))
