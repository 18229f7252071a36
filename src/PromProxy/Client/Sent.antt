-- ===== src/PromProxy/Client/Sent.antt =====
-- src/prom_proxy/client.rs: what a remote write has sent and received when it returns.
use proto.Base.{
  ℕ, ◌==◌, ==_iff, ◌≡◌, refl, sym, ap, ◌∙◌, List, Outcome, ok, err, panicked, >>=-eq-ok, map_err,
  map_err-eq-ok, Bool-cases, inl, inr, ok-injective, arith,
}
use proto.Base.Exec.{Exec, continue-eq-ok, gets, lift, ◌>>=◌, ◌>>◌}
use proto.Base.Integers.{ℤ}
use proto.TinyFrame.Types.{IoError, Frame, chacha20poly1305}
use proto.TinyFrame.Codec.{Codec}
use proto.TinyFrame.Key.{KeyCell}
use proto.TinyFrame.Stream.{Source, write_frame, write_frame_blocking, read_frame}
use proto.TinyFrame.Roundtrip.{read_frame-eq-blocking}
use proto.PromProxy.Protocol.{Serde, Snappy, msg_remote_write_ack, prepare_remote_write_body}
use proto.PromProxy.Encode.{Prost, Float, MetricFamily, encode_metric_families}
use proto.PromProxy.Client
use proto.PromProxy.Client.{
  ClientError, Session, next_tx_id, take_tx_id, send, received, encode_error_text,
  remote_write_families, remote_write_families_blocking, decode_response, remote_write,
  remote_write_blocking, remote_write_protobuf, remote_write_protobuf_blocking,
}

-- A reply that is a status is an acknowledgement.
pub decode_response-eq-ok :
    (serde : Serde) (frame : Frame) (status : ℕ)
    → decode_response serde frame ≡ ok status
    → (frame.message_type ≡ msg_remote_write_ack)
      × (serde.remote_write_ack.decode frame.payload ≡ ok (record { status = status }))
unfolding decode_response
decode_response-eq-ok serde frame status e =
    elim (Bool-cases (frame.message_type == msg_remote_write_ack)) [
      | inl ack ↦
          let (ack_body, decoded, same) =
            >>=-eq-ok (map_err Client.json (serde.remote_write_ack.decode frame.payload)) _
              (rw ack at e) in
          let status_is : ack_body.status ≡ status = ok-injective same in
          (
            (==_iff frame.message_type msg_remote_write_ack).0 ack,
            map_err-eq-ok Client.json (serde.remote_write_ack.decode frame.payload) decoded ∙ λ i.
                ok (record { status = status_is i }),
          )
      | inr other ↦ absurd (ground (arith, other))
    ]

received-eq-ok :
    (r : Outcome IoError (Frame × Source)) (s : Session) (frame : Frame)
    → (received r s).0 ≡ ok frame
    → (rest : Source) × (r ≡ ok (frame, rest)) × ((received r s).1.out ≡ s.out)
received-eq-ok (ok (f, rest)) s frame e =
    let same = ok-injective e in (rest, λ i. ok (same i, rest), refl)
received-eq-ok (err x) s frame e = cc
received-eq-ok (panicked p) s frame e = cc

module _ (c : Codec) (cell : KeyCell) (nonce : List ℕ) (serde : Serde) where
  -- Both methods, with the reader of the reply as a parameter.
  abbrev exchange :
      Exec ClientError Session Frame
      → Outcome IoError (Unit {0})
      → (body : List ℕ) → Exec ClientError Session ℕ
  exchange read connected body = do
    tx_id ← take_tx_id
    lift (map_err Client.io connected)
    message_type ← gets (λ s. s.client.message_type)
    send (write_frame c cell nonce message_type tx_id body chacha20poly1305)
    frame ← read
    lift (decode_response serde frame)

  remote_write-eq-blocking :
      (connected : Outcome IoError (Unit {0})) (body : List ℕ)
      → remote_write c cell nonce serde connected body
        ≡ remote_write_blocking c cell nonce serde connected body
  unfolding remote_write remote_write_blocking next_tx_id write_frame write_frame_blocking
  remote_write-eq-blocking connected body i =
      exchange (λ s. received (read_frame-eq-blocking c cell s.replies i) s) connected body

  remote_write_protobuf-eq :
      (snappy : Snappy) (connected : Outcome IoError (Unit {0})) (protobuf : List ℕ)
      → remote_write_protobuf c cell nonce serde snappy connected protobuf
        ≡ remote_write_protobuf_blocking c cell nonce serde snappy connected protobuf
  unfolding remote_write_protobuf remote_write_protobuf_blocking
  remote_write_protobuf-eq snappy connected protobuf i = do
    body ← lift (prepare_remote_write_body snappy protobuf)
    remote_write-eq-blocking connected body i

  -- The blocking client does and returns, in every session, what the asynchronous one does and
  -- returns for the same families of metrics.
  pub remote_write_families-eq-blocking :
      {F : Type 0} (float : Float F) (encode : Prost F) (snappy : Snappy)
      (connected : Outcome IoError (Unit {0})) (now : ℤ) (mfs : List (MetricFamily F)) (s : Session)
      → remote_write_families c cell nonce serde float encode snappy connected now mfs s
        ≡ remote_write_families_blocking c cell nonce serde float encode snappy connected now mfs s
  unfolding remote_write_families remote_write_families_blocking
  remote_write_families-eq-blocking float encode snappy connected now mfs s i =
      (do
        protobuf ← lift (
            map_err (λ e. Client.protocol (encode_error_text e))
              (encode_metric_families float encode now mfs))
        remote_write_protobuf-eq snappy connected protobuf i)
        s

  pub remote_write-eq-ok :
      (connected : Outcome IoError (Unit {0})) (body : List ℕ) (s s' : Session) (status : ℕ)
      → remote_write c cell nonce serde connected body s ≡ (ok status, s')
      → (write_frame c cell nonce s.client.message_type s.client.next_tx body chacha20poly1305 s.out
          ≡ (ok tt, s'.out))
        × (frame : Frame) × (rest : Source) × (read_frame c cell s.replies ≡ ok (frame, rest))
        × (decode_response serde frame ≡ ok status)
  unfolding remote_write next_tx_id
  remote_write-eq-ok connected body s s' status e =
      let write =
        write_frame c cell nonce s.client.message_type s.client.next_tx body chacha20poly1305 in
      let s₁ : Session = (take_tx_id s).1 in
      let (_, _, e₁) = continue-eq-ok (map_err Client.io connected) _ s₁ e in
      let s₂ : Session = record s₁ { out = (write s.out).1 } in
      let (_, written, e₂) = continue-eq-ok (map_err Client.io (write s.out).0) _ s₂ e₁ in
      let reply = read_frame c cell s.replies in
      let (frame, got, e₃) = continue-eq-ok (received reply s₂).0 _ (received reply s₂).1 e₂ in
      let (rest, read, kept) = received-eq-ok reply s₂ frame got in
      let fine = map_err-eq-ok Client.io (write s.out).0 written in
      let last : (received reply s₂).1.out ≡ s'.out =
        ap (λ (p : Outcome ClientError ℕ × Session). p.1.out) e₃ in
      let out : (write s.out).1 ≡ s'.out = sym kept ∙ last in
      (
        λ i. (fine i, out i),
        frame,
        rest,
        read,
        ap (λ (p : Outcome ClientError ℕ × Session). p.0) e₃,
      )
