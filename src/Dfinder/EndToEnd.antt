-- ===== src/Dfinder/EndToEnd.antt =====
-- A client and a registry together: the bytes that one of them sends are what the other reads.
pub mod Asked
pub mod Query
pub mod Completes
use proto.Base.{
  ℕ, ◌==◌, ◌<◌, ◌^◌, ◌≡◌, refl, sym, ap, ◌∙◌, if◌then◌else◌, Bool, true, false, List, [], ◌∷◌, ◌++◌,
  append-nil, String, eq_iff, some, length, Outcome, ok, err, panicked, map_err, map_err-eq-ok,
  arith,
}
use proto.Base.Exec.{Exec, continue, continue-eq-ok}
use proto.Base.Counter.{IsTxId}
use proto.TinyFrame.Types.{IoError, Frame, nonce_len}
use proto.TinyFrame.Codec.{Codec, CodecLaws}
use proto.TinyFrame.Key.{KeyCell}
use proto.TinyFrame.Stream.{Source, Sink, write_frame_plain, read_frame}
use proto.TinyFrame.Stream.Framing.{source}
use proto.TinyFrame.Roundtrip.{sent_frame, plain_alone}
use proto.Dfinder.Protocol.{
  NodeInfo, RegisterRequest, Serde, SerdeLaws, msg_register, msg_register_ack,
}
use proto.Dfinder.Store.{Sqlite}
use proto.Dfinder.Store.Table.{SqliteLaws}
use proto.Dfinder.Store.Refines.{node_at}
use proto.Dfinder.Server.State.{ServerError, Inner}
use proto.Dfinder.Server.Locked.{store_node}
use proto.Dfinder.Server.Handlers.{
  World, is_empty, on_stream, settle, handle_register, handle_frame, handle_conn,
}
use proto.Dfinder.Server.Queries.{store_node-node_at}
use proto.Dfinder.Client
use proto.Dfinder.Client.{
  next_tx_id, take_tx_id, ClientError, Session, received, send, reject, register,
}

module _ (c : Codec) (cell : KeyCell) (nonce : List ℕ) {E : Type 0} (serde : Serde E) where
  pub reject-ne-ok :
      {A : Type 0} (frame : Frame) (s : Session E) {a : A} {s' : Session E}
      → reject c cell nonce serde frame s ≡ (ok a, s')
      → ⊥
  unfolding reject
  reject-ne-ok frame s e = ground arith

  finished :
      (b : Bool) (frame : Frame) (s s' : Session E)
      → (if b then (λ (t : Session E). (ok tt, t)) else reject c cell nonce serde frame) s
        ≡ (ok tt, s')
      → s ≡ s'
  finished true frame s s' e = ap (λ (p : Outcome ClientError Unit × Session E). p.1) e
  finished false frame s s' e = absurd (reject-ne-ok frame s e)

  pub received_out :
      (r : Outcome IoError (Frame × Source)) (s : Session E) (frame : Frame)
      → (received r s).0 ≡ ok frame
      → (received r s).1.out ≡ s.out
  received_out (ok (f, rest)) s frame e = refl
  received_out (err x) s frame e = refl
  received_out (panicked p) s frame e = refl

  -- A registration that returned without an error has sent its request.
  register_sent :
      (connected : Outcome IoError (Unit {0})) (port : ℕ) (labels : List String) (extra : E)
      (s s' : Session E)
      → register c cell nonce serde connected port labels extra s ≡ (ok tt, s')
      → (is_empty labels ≡ false)
        × (body : List ℕ) × (serde.register_request.encode
              (record { port = port; labels = labels; extra = extra })
            ≡ ok body)
        × (write_frame_plain c cell nonce msg_register s.client.next_tx body s.out
            ≡ (ok tt, s'.out))
  unfolding register next_tx_id
  register_sent connected port [] extra s s' e = cc
  register_sent connected port (l ∷ labels) extra s s' e =
      let write = write_frame_plain c cell nonce msg_register s.client.next_tx in
      let s₁ : Session E = (take_tx_id s).1 in
      let (_, _, e₁) = continue-eq-ok (map_err Client.io connected) _ s₁ e in
      let (body, encoded, e₂) =
        continue-eq-ok
          (map_err Client.json (
            serde.register_request.encode
              (record { port = port; labels = l ∷ labels; extra = extra })))
          _ s₁ e₁ in
      let s₂ : Session E = record s₁ { out = (write body s.out).1 } in
      let (_, written, e₃) = continue-eq-ok (map_err Client.io (write body s.out).0) _ s₂ e₂ in
      let reply = read_frame c cell s.replies in
      let (frame, got, e₄) = continue-eq-ok (received reply s₂).0 _ (received reply s₂).1 e₃ in
      let last =
        finished (frame.message_type == msg_register_ack) frame (received reply s₂).1 s' e₄ in
      let out : (write body s.out).1 ≡ s'.out =
        sym (received_out reply s₂ frame got) ∙ ap (λ (t : Session E). t.out) last in
      let fine = map_err-eq-ok Client.io (write body s.out).0 written in
      (
        refl,
        body,
        map_err-eq-ok Client.json
            (serde.register_request.encode
              (record { port = port; labels = l ∷ labels; extra = extra }))
            encoded,
        λ i. (fine i, out i),
      )

module _ (c : Codec) (cell : KeyCell) (nonce : List ℕ) {E Conn : Type 0} (serde : Serde E)
    (db : Sqlite Conn) where
  -- After the section under the lock, the handler changes the stream and nothing else.
  settled :
      (w w' : World E Conn) (r : Outcome ServerError (Inner E Conn))
      (ack : Exec IoError Sink (Unit {0}))
      → continue (settle w r).0 (λ _. on_stream ack) (settle w r).1 ≡ (ok tt, w')
      → r ≡ ok w'.inner
  settled w w' (ok g) ack e = ap (λ (p : Outcome ServerError Unit × World E Conn). ok p.1.inner) e
  settled w w' (err x) ack e = cc
  settled w w' (panicked p) ack e = cc

  -- A registration that the server handled without an error, and that has a label, is stored.
  handle_register_stored :
      (secs now : ℕ) (ip : String) (frame : Frame) (w w' : World E Conn) (req : RegisterRequest E)
      → serde.register_request.decode frame.payload ≡ ok req
      → is_empty req.labels ≡ false
      → handle_register c cell nonce serde db secs now ip frame w ≡ (ok tt, w')
      → store_node serde db secs now
          (record { ip = ip; port = req.port; labels = req.labels; extra = req.extra })
          w.inner
        ≡ ok w'.inner
  unfolding handle_register
  handle_register_stored secs now ip frame w w' req decoded labelled e =
      settled w w' _ _ (rw (decoded, labelled) at e)

  handle_conn_frame :
      (secs now : ℕ) (ip : String) (r : Source) (frame : Frame) (rest : Source)
      (w w' : World E Conn)
      → read_frame c cell r ≡ ok (frame, rest)
      → frame.message_type ≡ msg_register
      → handle_conn c cell nonce serde db secs now ip r w ≡ (ok tt, w')
      → handle_register c cell nonce serde db secs now ip frame w ≡ (ok tt, w')
  unfolding handle_conn handle_frame
  handle_conn_frame secs now ip r frame rest w w' got kind e = ground (arith, got, kind)

module _ (c : Codec) (laws : CodecLaws c) (cell : KeyCell) (nonce : List ℕ)
    (n : length nonce ≡ nonce_len) {E Conn : Type 0} (serde : Serde E) (coding : SerdeLaws serde)
    (db : Sqlite Conn) (table : SqliteLaws db) where
  -- A client's registration that returned without an error, on a new connection: if the server
  -- handles the bytes that the client sent without an error, then the node is stored under the
  -- client's address, with the port, labels and extra data that the client gave, and it is marked
  -- healthy. (The client's id is a transaction id, and the port is a 16-bit number.)
  pub register-handle_conn :
      (connected : Outcome IoError (Unit {0})) (port : ℕ) (labels : List String) (extra : E)
      (s s' : Session E) (secs now : ℕ) (ip : String) (ending : IoError) (w w' : World E Conn)
      → port < 2 ^ 16
      → IsTxId s.client.next_tx
      → s.out.written ≡ []
      → register c cell nonce serde connected port labels extra s ≡ (ok tt, s')
      → handle_conn c cell nonce serde db secs now ip (source s'.out.written ending) w ≡ (ok tt, w')
      → (node_at serde db table w'.inner.store ip
          ≡ some (record { ip = ip; port = port; labels = labels; extra = extra }))
        × (w'.inner.health ip ≡ some (record { healthy = true; last_ok = now }))
  register-handle_conn connected port labels extra s s' secs now ip ending w w' fits id clean e
        handled =
      let (labelled, body, encoded, sent) =
        register_sent c cell nonce serde connected port labels extra s s' e in
      let arrives =
        plain_alone c laws cell nonce n msg_register s.client.next_tx body s.out s'.out ending id.1
          clean sent in
      let req : RegisterRequest E = record { port = port; labels = labels; extra = extra } in
      let stored =
        handle_register_stored c cell nonce serde db secs now ip _ w w' req
          (coding.register_request.decode_encode req body encoded) labelled
          (handle_conn_frame c cell nonce serde db secs now ip _ _ _ w w' arrives refl handled) in
      let node : NodeInfo E = record { ip = ip; port = port; labels = labels; extra = extra } in
      let (there, health) =
        store_node-node_at serde coding db table secs now node w.inner w'.inner ip fits stored in
      let self = (eq_iff ip ip).1 refl in (there ∙ rw self, health ∙ rw self)
