-- ===== src/Dfinder/Server/Answers.antt =====
-- src/dfinder/server.rs: what the client of a handled connection can read.
use proto.Base.{
  ℕ, ◌==◌, ==_iff, ◌≡◌, refl, ap, false, List, [], String, length, Outcome, ok, err, panicked, ◌⊎◌,
  inl, inr, map_err, map_err-eq-ok, Bool-cases,
}
use proto.Base.Exec.{continue, continue-eq-ok}
use proto.TinyFrame.Types.{IoError, IsU64, Frame, nonce_len}
use proto.TinyFrame.Codec.{Codec, CodecLaws}
use proto.TinyFrame.Key.{KeyCell}
use proto.TinyFrame.Stream.{Source, write_frame_plain, read_frame}
use proto.TinyFrame.Stream.Framing.{source}
use proto.TinyFrame.Roundtrip.{sent_frame, plain_alone}
use proto.Dfinder.Protocol.{
  Serde, msg_register, msg_register_ack, msg_query, msg_query_result, msg_error,
}
use proto.Dfinder.Store.{Sqlite}
use proto.Dfinder.Server.State.{ServerError, io, json, Inner}
use proto.Dfinder.Server.Locked.{find_healthy}
use proto.Dfinder.Server.Handlers.{
  World, is_empty, on_stream, settle, write_error, handle_register, handle_query, handle_frame,
  handle_conn,
}

module _ (c : Codec) (cell : KeyCell) (nonce : List ℕ) {E Conn : Type 0} where
  -- One plain frame of this type, with the given id, went to the client, and nothing else.
  abbrev pub Replied : (message_type tx_id : ℕ) (w w' : World E Conn) → Type 0
  Replied message_type tx_id w w' =
      (body : List ℕ) × (write_frame_plain c cell nonce message_type tx_id body w.out
        ≡ (ok tt, w'.out))

  on_stream-Replied :
      (message_type tx_id : ℕ) (body : List ℕ) (w w' : World E Conn)
      → on_stream (write_frame_plain c cell nonce message_type tx_id body) w ≡ (ok tt, w')
      → Replied message_type tx_id w w'
  on_stream-Replied message_type tx_id body w w' e =
      let sent = write_frame_plain c cell nonce message_type tx_id body w.out in
      let fine =
        map_err-eq-ok io sent.0 (ap (λ (p : Outcome ServerError Unit × World E Conn). p.0) e) in
      let after = ap (λ (p : Outcome ServerError Unit × World E Conn). p.1.out) e in
      (body, λ i. (fine i, after i))

  -- After a section under the lock that succeeded.
  settle-Replied :
      (message_type tx_id : ℕ) (body : List ℕ) (r : Outcome ServerError (Inner E Conn))
      (w w' : World E Conn)
      → continue
          (settle w r).0
          (λ _. on_stream (write_frame_plain c cell nonce message_type tx_id body))
          (settle w r).1
        ≡ (ok tt, w')
      → Replied message_type tx_id w w'
  settle-Replied message_type tx_id body (ok g) w w' e =
      on_stream-Replied message_type tx_id body (record w { inner = g }) w' e
  settle-Replied message_type tx_id body (err x) w w' e = cc
  settle-Replied message_type tx_id body (panicked p) w w' e = cc

module _ (c : Codec) (cell : KeyCell) (nonce : List ℕ) {E Conn : Type 0} (serde : Serde E)
    (db : Sqlite Conn) where
  write_error-Replied :
      (tx_id : ℕ) (message : String) (w w' : World E Conn)
      → write_error c cell nonce serde db tx_id message w ≡ (ok tt, w')
      → Replied c cell nonce msg_error tx_id w w'
  unfolding write_error
  write_error-Replied tx_id message w w' e =
      let (body, _, rest) =
        continue-eq-ok (map_err json (serde.error_body.encode (record { message = message }))) _ w
          e in
      on_stream-Replied c cell nonce msg_error tx_id body w w' rest

  handle_register-Replied :
      (secs now : ℕ) (ip : String) (frame : Frame) (w w' : World E Conn)
      → handle_register c cell nonce serde db secs now ip frame w ≡ (ok tt, w')
      → Replied c cell nonce msg_register_ack frame.tx_id w w'
        ⊎ Replied c cell nonce msg_error frame.tx_id w w'
  unfolding handle_register
  handle_register-Replied secs now ip frame w w' e =
      let (req, _, rest) =
        continue-eq-ok (map_err json (serde.register_request.decode frame.payload)) _ w e in
      elim (Bool-cases (is_empty req.labels)) [
        | inl none_given ↦ inr (
            write_error-Replied frame.tx_id "register requires >= 1 label" w w'
              (rw none_given at rest))
        | inr some_given ↦ inl (
            settle-Replied c cell nonce msg_register_ack frame.tx_id _ _ w w'
              (rw some_given at rest))
      ]

  handle_query-Replied :
      (frame : Frame) (w w' : World E Conn)
      → handle_query c cell nonce serde db frame w ≡ (ok tt, w')
      → Replied c cell nonce msg_query_result frame.tx_id w w'
        ⊎ Replied c cell nonce msg_error frame.tx_id w w'
  unfolding handle_query
  handle_query-Replied frame w w' e =
      let (req, _, rest) =
        continue-eq-ok (map_err json (serde.query_request.decode frame.payload)) _ w e in
      elim (Bool-cases (is_empty req.labels)) [
        | inl none_given ↦ inr (
            write_error-Replied frame.tx_id "query requires >= 1 label" w w'
              (rw none_given at rest))
        | inr some_given ↦
            let (nodes, _, rest₁) =
              continue-eq-ok (find_healthy serde db req.labels w.inner) _ w
                (rw some_given at rest) in
            let (body, _, rest₂) =
              continue-eq-ok (map_err json (serde.query_result.encode (record { nodes = nodes }))) _
                w rest₁ in
            inl (on_stream-Replied c cell nonce msg_query_result frame.tx_id body w w' rest₂)
      ]

-- The type of an answer to a frame of this type.
abbrev pub Answers : (kind reply : ℕ) → Type 0
Answers kind reply =
    ((kind ≡ msg_register) × (reply ≡ msg_register_ack))
    ⊎ (((kind ≡ msg_query) × (reply ≡ msg_query_result)) ⊎ (reply ≡ msg_error))

module _ (c : Codec) (cell : KeyCell) (nonce : List ℕ) {E Conn : Type 0} (serde : Serde E)
    (db : Sqlite Conn) where
  handle_frame-Replied :
      (secs now : ℕ) (ip : String) (frame : Frame) (w w' : World E Conn)
      → handle_frame c cell nonce serde db secs now ip frame w ≡ (ok tt, w')
      → (reply : ℕ) × Answers frame.message_type reply × Replied c cell nonce reply frame.tx_id w w'
  unfolding handle_frame
  handle_frame-Replied secs now ip frame w w' e =
      let kind = frame.message_type in
      elim (Bool-cases (kind == msg_register)) [
        | inl registers ↦
            let is = (==_iff kind msg_register).0 registers in
            elim (handle_register-Replied c cell nonce serde db secs now ip frame w w'
              (rw registers at e)) [
                | inl ack ↦ (msg_register_ack, inl (is, refl), ack)
                | inr problem ↦ (msg_error, inr (inr refl), problem)
              ]
        | inr other ↦ elim (Bool-cases (kind == msg_query)) [
          | inl queries ↦
              let is = (==_iff kind msg_query).0 queries in
              elim (handle_query-Replied c cell nonce serde db frame w w'
                (rw (other, queries) at e)) [
                  | inl result ↦ (msg_query_result, inr (inl (is, refl)), result)
                  | inr problem ↦ (msg_error, inr (inr refl), problem)
                ]
          | inr unknown ↦ (
            msg_error,
            inr (inr refl),
            write_error-Replied c cell nonce serde db frame.tx_id _ w w' (rw (other, unknown) at e),
          )
        ]
      ]

module _ (c : Codec) (laws : CodecLaws c) (cell : KeyCell) (nonce : List ℕ)
    (n : length nonce ≡ nonce_len) {E Conn : Type 0} (serde : Serde E) (db : Sqlite Conn) where
  -- A connection that was handled without an error, and on which nothing had been sent, has got one
  -- plain frame with the id of the frame that was read, and nothing else: an acknowledgement only
  -- for a registration, a result only for a query, and otherwise an error.
  pub handle_conn-Answers :
      (secs now : ℕ) (ip : String) (r : Source) (frame : Frame) (rest : Source)
      (w w' : World E Conn) (ending : IoError)
      → read_frame c cell r ≡ ok (frame, rest)
      → IsU64 frame.tx_id
      → w.out.written ≡ []
      → handle_conn c cell nonce serde db secs now ip r w ≡ (ok tt, w')
      → (reply : Frame) × (read_frame c cell (source w'.out.written ending)
          ≡ ok (reply, source [] ending))
        × (reply.tx_id ≡ frame.tx_id)
        × (reply.encrypted ≡ false)
        × Answers frame.message_type reply.message_type
  unfolding handle_conn
  handle_conn-Answers secs now ip r frame rest w w' ending got fits clean handled =
      let (type, answers, (body, sent)) =
        handle_frame-Replied c cell nonce serde db secs now ip frame w w' (rw got at handled) in
      let read =
        plain_alone c laws cell nonce n type frame.tx_id body w.out w'.out ending fits clean sent in
      (sent_frame type frame.tx_id body 0, read, refl, refl, answers)
