-- ===== src/PromProxy/Server/Forwarding.antt =====
-- A client and the proxy together: what is forwarded, and what the client learns.
use proto.Base.{
  ℕ, ◌≡◌, refl, sym, ap, ◌∙◌, true, List, [], ◌∷◌, ◌++◌, String, length, Outcome, ok, err, panicked,
  Bool-cases, inl, inr, ok-injective, arith,
}
use proto.Base.Counter.{IsTxId}
use proto.Base.Json.{CoderLaws}
use proto.TinyFrame.Types.{IoError, IsU64, Frame, nonce_len, chacha20poly1305}
use proto.TinyFrame.Codec.{Codec, CodecLaws}
use proto.TinyFrame.Key.{KeyCell}
use proto.TinyFrame.Stream.{Source, Sink, write_frame, read_frame}
use proto.TinyFrame.Stream.Framing.{source}
use proto.TinyFrame.Roundtrip.{sent_frame, written_alone}
use proto.PromProxy.Protocol.{Serde, SerdeLaws, RemoteWriteAck, msg_remote_write_ack, msg_error}
use proto.PromProxy.Edge.{Redis}
use proto.PromProxy.Client.{Session, remote_write}
use proto.PromProxy.Client.Sent.{remote_write-eq-ok, decode_response-eq-ok}
use proto.PromProxy.Server.State.{Inner, World, Response, HttpError, remote_write_request, accepted}
use proto.PromProxy.Server.{judge, handle_frame, handle_conn}
use proto.PromProxy.Server.Answers.{Answered, refused, acknowledged, failed, handle_frame-Answered}

-- A status that the proxy passes on is the status of an accepted response.
pub judge-eq-ok :
    (r : Outcome HttpError Response) (status : ℕ)
    → judge r ≡ ok status
    → (resp : Response) × (r ≡ ok resp) × (resp.status ≡ status) × (accepted status ≡ true)
unfolding judge
judge-eq-ok (ok resp) status e = elim (Bool-cases (accepted resp.status)) [
  | inl good ↦ (
    resp,
    refl,
    ok-injective (rw good at e),
    ap accepted (sym (ok-injective (rw good at e))) ∙ good,
  )
  | inr bad ↦ cc (rw bad at e)
]
judge-eq-ok (err x) status e = cc
judge-eq-ok (panicked p) status e = cc

wrong_type :
    (reply : Frame) → reply.message_type ≡ msg_error → reply.message_type ≡ msg_remote_write_ack → ⊥
wrong_type reply e a = omega arith

module _ (c : Codec) (laws : CodecLaws c) (cell : KeyCell) (nonce : List ℕ)
    (n : length nonce ≡ nonce_len) where
  -- The only frame that can be read from what was written alone.
  reply_read :
      (m tx : ℕ) (body : List ℕ) (out out' : Sink) (ending : IoError) (reply : Frame)
      (rest : Source)
      → IsU64 tx
      → out.written ≡ []
      → write_frame c cell nonce m tx body chacha20poly1305 out ≡ (ok tt, out')
      → read_frame c cell (source out'.written ending) ≡ ok (reply, rest)
      → sent_frame m tx body chacha20poly1305 ≡ reply
  reply_read m tx body out out' ending reply rest fits clean sent read =
      let alone =
        written_alone c laws cell nonce n m tx body chacha20poly1305 out out' ending (omega arith)
          fits clean sent in
      ap (λ (p : Frame × Source). p.0) (ok-injective (sym alone ∙ read))

  module _ (serde : Serde) (coding : CoderLaws serde.remote_write_ack) (io_text : IoError → String)
      {RedisClient Conn Db : Type 0} (server : Redis RedisClient Conn Db) (state : Inner Conn) where
    -- What a reader of the reply gets is a status only if the request was forwarded and accepted.
    pub acknowledged_status :
        (frame : Frame) (w w' : World Db) (reply : Frame) (rest : Source) (ending : IoError)
        (status : ℕ)
        → IsU64 frame.tx_id
        → w.out.written ≡ []
        → Answered c cell nonce serde io_text server state frame w w'
        → read_frame c cell (source w'.out.written ending) ≡ ok (reply, rest)
        → reply.message_type ≡ msg_remote_write_ack
        → serde.remote_write_ack.decode reply.payload ≡ ok (record { status = status })
        → (w'.requests
            ≡ w.requests ++ remote_write_request state.config.prometheus_url frame.payload ∷ [])
          × (judge (
                state.http w.requests
                  (remote_write_request state.config.prometheus_url frame.payload))
              ≡ ok status)
    acknowledged_status frame w w' reply rest ending status fits clean
          (refused other (body, encoded, sent, _, _)) read kind decoded =
        let is =
          reply_read msg_error frame.tx_id body w.out w'.out ending reply rest fits clean sent
            read in
        absurd (wrong_type reply (sym (ap (λ (f : Frame). f.message_type) is)) kind)
    acknowledged_status frame w w' reply rest ending status fits clean
          (failed same problem counted judged out db requests (body, encoded, sent, _, _)) read kind
          decoded =
        let start : counted.out.written ≡ [] = ap (λ (o : Sink). o.written) out ∙ clean in
        let is =
          reply_read msg_error frame.tx_id body counted.out w'.out ending reply rest fits start sent
            read in
        absurd (wrong_type reply (sym (ap (λ (f : Frame). f.message_type) is)) kind)
    acknowledged_status frame w w' reply rest ending status fits clean
          (acknowledged same code counted judged out db requests (body, encoded, sent, kept, _))
          read kind decoded =
        let start : counted.out.written ≡ [] = ap (λ (o : Sink). o.written) out ∙ clean in
        let is =
          reply_read msg_remote_write_ack frame.tx_id body counted.out w'.out ending reply rest fits
            start sent read in
        let payload : body ≡ reply.payload = ap (λ (f : Frame). f.payload) is in
        let status_is : code ≡ status =
          ap (λ (a : RemoteWriteAck). a.status)
            (ok-injective (
              sym (coding.decode_encode (record { status = code }) body encoded)
              ∙ ap serde.remote_write_ack.decode payload
              ∙ decoded)) in
        (kept ∙ requests, judged ∙ ap ok status_is)

module _ (c : Codec) (cell : KeyCell) (nonce : List ℕ) (serde : Serde) (io_text : IoError → String)
    {RedisClient Conn Db : Type 0} (server : Redis RedisClient Conn Db) (state : Inner Conn) where
  pub handle_conn-handle_frame :
      (r : Source) (frame : Frame) (rest : Source) (w w' : World Db)
      → read_frame c cell r ≡ ok (frame, rest)
      → handle_conn c cell nonce serde io_text server state r w ≡ (ok tt, w')
      → handle_frame c cell nonce serde io_text server state frame w ≡ (ok tt, w')
  unfolding handle_conn
  handle_conn-handle_frame r frame rest w w' got e = rw got at e

module _ (c : Codec) (laws : CodecLaws c) (cell : KeyCell) (nonce nonce' : List ℕ)
    (n : length nonce ≡ nonce_len) (n' : length nonce' ≡ nonce_len) (serde : Serde)
    (coding : SerdeLaws serde) (io_text : IoError → String) {RedisClient Conn Db : Type 0}
    (server : Redis RedisClient Conn Db) (state : Inner Conn) where
  -- A remote write that returned a status, over a new connection of which the proxy handled one
  -- end without an error: the proxy sent one request, a POST of exactly the client's bytes to its
  -- Prometheus, and the status is that of the response, which is one of success. (Both sides use
  -- the same key, the client's id is a transaction id, and what the client reads is what the proxy
  -- wrote.)
  pub remote_write-handle_conn :
      (connected : Outcome IoError (Unit {0})) (body : List ℕ) (s s' : Session) (status : ℕ)
      (w w' : World Db) (ending ending' : IoError)
      → IsTxId s.client.next_tx
      → s.out.written ≡ []
      → w.out.written ≡ []
      → s.replies ≡ source w'.out.written ending'
      → remote_write c cell nonce' serde connected body s ≡ (ok status, s')
      → handle_conn c cell nonce serde io_text server state (source s'.out.written ending) w
        ≡ (ok tt, w')
      → (w'.requests ≡ w.requests ++ remote_write_request state.config.prometheus_url body ∷ [])
        × (resp : Response) × (state.http w.requests
              (remote_write_request state.config.prometheus_url body)
            ≡ ok resp)
        × (resp.status ≡ status)
        × (accepted status ≡ true)
  remote_write-handle_conn connected body s s' status w w' ending ending' id clean clean' wired
        called handled =
      let (sent, reply, rest, replied, decoded) =
        remote_write-eq-ok c cell nonce' serde connected body s s' status called in
      let (kind, ack) = decode_response-eq-ok serde reply status decoded in
      let frame = sent_frame s.client.message_type s.client.next_tx body chacha20poly1305 in
      let arrives =
        written_alone c laws cell nonce' n' s.client.message_type s.client.next_tx body
          chacha20poly1305 s.out s'.out ending (omega arith) id.1 clean sent in
      let answered = handle_frame-Answered c cell nonce serde io_text server state frame w w' (
        handle_conn-handle_frame c cell nonce serde io_text server state
          (source s'.out.written ending) frame _ w w' arrives handled) in
      let (requests, judged) =
        acknowledged_status c laws cell nonce n serde coding.remote_write_ack io_text server state
          frame w w' reply rest ending' status id.1 clean' answered (rw wired at replied) kind
          ack in
      let (resp, response, same, good) = judge-eq-ok _ status judged in
      (requests, resp, response, same, good)
