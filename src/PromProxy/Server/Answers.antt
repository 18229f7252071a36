-- ===== src/PromProxy/Server/Answers.antt =====
-- src/prom_proxy/server.rs: the three ways in which the proxy answers a frame.
use proto.Base.{
  ℕ, ◌==◌, ==_iff, ◌≡◌, ◌≢◌, refl, sym, ap, List, [], ◌∷◌, ◌++◌, String, Outcome, ok, err, panicked,
  map_err, map_err-eq-ok, Bool-cases, inl, inr, arith,
}
use proto.Base.Exec.{continue, continue-eq-ok}
use proto.Base.Json.{JsonError}
use proto.Base.Text.{decimal}
use Prim.Native.String
use proto.TinyFrame.Types.{IoError, Frame, chacha20poly1305}
use proto.TinyFrame.Codec.{Codec}
use proto.TinyFrame.Key.{KeyCell}
use proto.TinyFrame.Stream.{write_frame}
use proto.PromProxy.Protocol.{Serde, msg_remote_write_ack, msg_error}
use proto.PromProxy.Edge.{Redis, incr}
use proto.PromProxy.Server.State.{ServerError, io, json, Inner, World, remote_write_request}
use proto.PromProxy.Server.{
  judge, on_stream, post_remote_write, forward_frame, server_error_text, write_error, incr_edge,
  answer, handle_frame,
}

module _ (c : Codec) (cell : KeyCell) (nonce : List ℕ) {Db : Type 0} where
  -- One frame of this type, with the given id and JSON text, went to the client, and nothing else.
  abbrev pub Replied :
      (message_type tx_id : ℕ) (encoded : Outcome JsonError (List ℕ)) (w w' : World Db) → Type 0
  Replied message_type tx_id encoded w w' =
      (body : List ℕ) × (encoded ≡ ok body)
      × (write_frame c cell nonce message_type tx_id body chacha20poly1305 w.out ≡ (ok tt, w'.out))
      × (w'.requests ≡ w.requests)
      × (w'.db ≡ w.db)

  reply-Replied :
      (message_type tx_id : ℕ) (encoded : Outcome JsonError (List ℕ)) (w w' : World Db)
      → continue
          (map_err json encoded)
          (λ body. on_stream (write_frame c cell nonce message_type tx_id body chacha20poly1305))
          w
        ≡ (ok tt, w')
      → Replied message_type tx_id encoded w w'
  reply-Replied message_type tx_id encoded w w' e =
      let (body, fine, rest) = continue-eq-ok (map_err json encoded) _ w e in
      let sent = write_frame c cell nonce message_type tx_id body chacha20poly1305 w.out in
      let result = ap (λ (p : Outcome ServerError Unit × World Db). p.0) rest in
      let after = ap (λ (p : Outcome ServerError Unit × World Db). p.1) rest in
      (
        body,
        map_err-eq-ok json encoded fine,
        λ i. (map_err-eq-ok io sent.0 result i, (after i).out),
        ap (λ (v : World Db). v.requests) (sym after),
        ap (λ (v : World Db). v.db) (sym after),
      )

module _ (c : Codec) (cell : KeyCell) (nonce : List ℕ) (serde : Serde) (io_text : IoError → String)
    {RedisClient Conn Db : Type 0} (server : Redis RedisClient Conn Db) (state : Inner Conn) where
  -- How a frame was answered: refused for its type, with nothing else done; forwarded and
  -- acknowledged with the status; or forwarded, and the failure reported. In the last two cases
  -- the state in the middle is the one in which the request has been made and counted.
  pub data Answered (frame : Frame) (w w' : World Db) : Type 0 where
    refused :
        frame.message_type ≢ state.config.message_type
        → Replied c cell nonce msg_error frame.tx_id
            (serde.error_body.encode (record {
              message = String.◌++◌ "unexpected message_type " (decimal frame.message_type);
            }))
            w
            w'
        → Answered frame w w'
    acknowledged :
        frame.message_type ≡ state.config.message_type
        → (status : ℕ) (counted : World Db)
        → judge
            (state.http w.requests (remote_write_request state.config.prometheus_url frame.payload))
          ≡ ok status
        → counted.out ≡ w.out
        → counted.db ≡ (incr server state.edges "remote_write_ok" 1 w.db).1
        → counted.requests
          ≡ w.requests ++ remote_write_request state.config.prometheus_url frame.payload ∷ []
        → Replied c cell nonce msg_remote_write_ack frame.tx_id
            (serde.remote_write_ack.encode (record { status = status }))
            counted
            w'
        → Answered frame w w'
    failed :
        frame.message_type ≡ state.config.message_type
        → (problem : ServerError) (counted : World Db)
        → judge
            (state.http w.requests (remote_write_request state.config.prometheus_url frame.payload))
          ≡ err problem
        → counted.out ≡ w.out
        → counted.db ≡ (incr server state.edges "remote_write_err" 1 w.db).1
        → counted.requests
          ≡ w.requests ++ remote_write_request state.config.prometheus_url frame.payload ∷ []
        → Replied c cell nonce msg_error frame.tx_id
            (serde.error_body.encode (record { message = server_error_text io_text problem }))
            counted
            w'
        → Answered frame w w'

  answer-Answered :
      (frame : Frame) (r : Outcome ServerError ℕ) (w w' : World Db)
      → frame.message_type ≡ state.config.message_type
      → judge
          (state.http w.requests (remote_write_request state.config.prometheus_url frame.payload))
        ≡ r
      → answer c cell nonce serde io_text server state frame r (record w {
        requests =
            w.requests ++ remote_write_request state.config.prometheus_url frame.payload ∷ [];
      })
        ≡ (ok tt, w')
      → Answered frame w w'
  unfolding answer incr_edge write_error
  answer-Answered frame (ok status) w w' same judged e =
      acknowledged same status _ judged refl refl refl
        (reply-Replied c cell nonce msg_remote_write_ack frame.tx_id _ _ w' e)
  answer-Answered frame (err problem) w w' same judged e =
      failed same problem _ judged refl refl refl
        (reply-Replied c cell nonce msg_error frame.tx_id _ _ w' e)
  answer-Answered frame (panicked p) w w' same judged e = cc

  pub handle_frame-Answered :
      (frame : Frame) (w w' : World Db)
      → handle_frame c cell nonce serde io_text server state frame w ≡ (ok tt, w')
      → Answered frame w w'
  unfolding handle_frame forward_frame post_remote_write write_error
  handle_frame-Answered frame w w' e =
      elim (Bool-cases (frame.message_type == state.config.message_type)) [
        | inl same ↦
            answer-Answered frame _ w w'
              ((==_iff frame.message_type state.config.message_type).0 same) refl (rw same at e)
        | inr other ↦
            refused (λ is. ground (arith, other, is))
              (reply-Replied c cell nonce msg_error frame.tx_id _ w w' (rw other at e))
      ]
