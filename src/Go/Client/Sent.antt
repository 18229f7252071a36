-- ===== src/Go/Client/Sent.antt =====
-- promproxy/client.go: what a remote write has sent and received when it returns a status.
use proto.Base.{
  ℕ, ◌==◌, ==_iff, ◌≡◌, refl, sym, ap, ◌∙◌, List, String, Option, some, Outcome, ok, err, panicked,
  >>=-eq-ok, map_err, map_err-eq-ok, Bool-cases, inl, inr, ok-injective, arith,
}
use proto.Base.Exec.{continue-eq-ok}
use proto.Go.Frame.Types.{Error, Frame, chacha20poly1305}
use proto.Go.Frame.Codec.{Codec}
use proto.Go.Frame.Stream.{Reader, write_frame_with_key, read_frame_with_key}
use proto.Go.Client.{
  Unmarshal, ClientError, Session, connect, write_request, decode_ack, context_ok, take_tx_id,
  received, decode_response, remote_write, msg_remote_write_ack,
}

-- A reply that is a status is an acknowledgement.
pub decode_response-ack :
    (json : Unmarshal) (frame : Frame) (status : ℕ)
    → decode_response json frame ≡ ok status
    → (frame.message_type ≡ msg_remote_write_ack)
      × (json.remote_write_ack frame.payload ≡ ok (record { status = status }))
unfolding decode_response
decode_response-ack json frame status e =
    elim (Bool-cases (frame.message_type == msg_remote_write_ack)) [
      | inl ack ↦
          let (body, decoded, same) =
            >>=-eq-ok (map_err decode_ack (json.remote_write_ack frame.payload)) _ (rw ack at e) in
          let status_is : body.status ≡ status = ok-injective same in
          (
            (==_iff frame.message_type msg_remote_write_ack).0 ack,
            map_err-eq-ok decode_ack (json.remote_write_ack frame.payload) decoded ∙ λ i.
                ok (record { status = status_is i }),
          )
      | inr other ↦ absurd (ground (arith, other))
    ]

received-frame :
    (r : Outcome Error (Frame × Reader)) (s : Session) (frame : Frame)
    → (received r s).0 ≡ ok frame
    → (rest : Reader) × (r ≡ ok (frame, rest)) × ((received r s).1.out ≡ s.out)
received-frame (ok (f, rest)) s frame e =
    let same = ok-injective e in (rest, λ i. ok (same i, rest), refl)
received-frame (err x) s frame e = cc
received-frame (panicked p) s frame e = cc

module _ (g : Codec) (random : Outcome Error (List ℕ)) (json : Unmarshal) where
  pub go_remote_write-eq-ok :
      (cancelled : Option String) (dialled : Outcome Error (Unit {0})) (body : List ℕ)
      (s s' : Session) (status : ℕ)
      → remote_write g random json cancelled dialled body s ≡ (ok status, s')
      → (write_frame_with_key g random s.client.message_type s.client.next_tx body chacha20poly1305
            (some s.client.key)
            s.out
          ≡ (ok tt, s'.out))
        × (frame : Frame) × (rest : Reader) × (read_frame_with_key g (some s.client.key) s.replies
            ≡ ok (frame, rest))
        × (decode_response json frame ≡ ok status)
  unfolding remote_write
  go_remote_write-eq-ok cancelled dialled body s s' status e =
      let write =
        write_frame_with_key g random s.client.message_type s.client.next_tx body chacha20poly1305
          (some s.client.key) in
      let (_, _, e₁) = continue-eq-ok (context_ok cancelled) _ s e in
      let (_, _, e₂) = continue-eq-ok (map_err connect dialled) _ s e₁ in
      let s₁ : Session = (take_tx_id s).1 in
      let s₂ : Session = record s₁ { out = (write s.out).1 } in
      let (_, written, e₃) = continue-eq-ok (map_err write_request (write s.out).0) _ s₂ e₂ in
      let reply = read_frame_with_key g (some s.client.key) s.replies in
      let (frame, got, e₄) = continue-eq-ok (received reply s₂).0 _ (received reply s₂).1 e₃ in
      let (rest, read, kept) = received-frame reply s₂ frame got in
      let fine = map_err-eq-ok write_request (write s.out).0 written in
      let last : (received reply s₂).1.out ≡ s'.out =
        ap (λ (p : Outcome ClientError ℕ × Session). p.1.out) e₄ in
      let out : (write s.out).1 ≡ s'.out = sym kept ∙ last in
      (
        λ i. (fine i, out i),
        frame,
        rest,
        read,
        ap (λ (p : Outcome ClientError ℕ × Session). p.0) e₄,
      )
