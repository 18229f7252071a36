-- ===== src/Go/Command/Get/Stages.antt =====
-- cmd/tframe/client.go: what a request that succeeded has done, step by step.
use proto.Base.{
  ℕ, ◌<◌, ◌≡◌, refl, sym, ap, ◌∙◌, List, [], ◌∷◌, ◌++◌, String, some, Outcome, ok, err, panicked,
  map_err, map_err-eq-ok, ok-injective, append-nil, arith,
}
use proto.Base.Exec.{continue-eq-ok}
use proto.Base.Integers.{ℤ, pos, negsuc}
use proto.Go.Frame.Types.{Error, Frame, chacha20poly1305}
use proto.Go.Frame.Codec.{Codec}
use proto.Go.Frame.Key.{KeyState, set_encrypt_key, require_encrypt_key}
use proto.Go.Frame.Stream.{
  Writer, Reader, write, write_frame, write_frame_with_key, read_frame, read_frame_with_key,
}
use proto.Go.Command.Manifest.{
  ApiRoute, Manifest, CommandError, connect, write_request, find_route, parse_secret_key,
  compress_method_flag, validate_response_compression,
}
use proto.Go.Command.Get.{
  Url, World, parse_tcp_url, type_in_range, compression_set, set_key, received, print_payload, ask,
  do_get,
}

received-frame :
    (r : Outcome Error (Frame × Reader)) (w : World) (frame : Frame)
    → (received r w).0 ≡ ok frame
    → (rest : Reader) × (r ≡ ok (frame, rest)) × ((received r w).1 ≡ record w { response = rest })
received-frame (ok (f, rest)) w frame e =
    let same = ok-injective e in (rest, λ i. ok (same i, rest), refl)
received-frame (err x) w frame e = cc
received-frame (panicked p) w frame e = cc

-- Output that was written without an error is the whole payload.
print_payload-eq-ok :
    (payload : List ℕ) (w w' : World)
    → print_payload payload w ≡ (ok tt, w')
    → (w'.output.written ≡ w.output.written ++ payload) × (w'.request ≡ w.request)
unfolding write
print_payload-eq-ok [] w w' e =
    let same : w ≡ w' = ap (λ (p : Outcome CommandError (Unit {0}) × World). p.1) e in
    (
      ap (λ (v : World). v.output.written) (sym same) ∙ sym (append-nil w.output.written),
      ap (λ (v : World). v.request) (sym same),
    )
print_payload-eq-ok (b ∷ bs) w w' e = ground (arith, e)

module _ (g : Codec) (nonce : Outcome Error (List ℕ)) (key : List ℕ) where
  -- The two calls of the package with the key that the command has set.
  sent_with_key :
      (k : KeyState) (m tx : ℕ) (w : Writer)
      → write_frame g (set_encrypt_key (some key) k) nonce m tx [] chacha20poly1305 w
        ≡ write_frame_with_key g nonce m tx [] chacha20poly1305 (some key) w
  unfolding write_frame set_encrypt_key require_encrypt_key
  sent_with_key k m tx w = refl

  read_with_key :
      (k : KeyState) (r : Reader)
      → read_frame g (set_encrypt_key (some key) k) r ≡ read_frame_with_key g (some key) r
  unfolding read_frame read_frame_with_key set_encrypt_key require_encrypt_key
  read_with_key k r = refl

  -- `ask` with the key set: one frame was sent and one was read.
  pub ask-eq-ok :
      (route : ApiRoute) (m : ℕ) (method : String) (tx : ℕ) (k : KeyState) (w w' : World)
      → w.key ≡ set_encrypt_key (some key) k
      → ask g nonce route m method tx w ≡ (ok tt, w')
      → (write_frame_with_key g nonce m tx [] chacha20poly1305 (some key) w.request
          ≡ (ok tt, w'.request))
        × (frame : Frame) × (rest : Reader) × (read_frame_with_key g (some key) w.response
            ≡ ok (frame, rest))
        × (validate_response_compression route method frame.compress_id ≡ ok tt)
        × (w'.output.written ≡ w.output.written ++ frame.payload)
  unfolding ask
  ask-eq-ok route m method tx k w w' keyed e =
      let write = write_frame g w.key nonce m tx [] chacha20poly1305 in
      let (_, written, e₁) = continue-eq-ok (map_err write_request (write w.request).0) _ _ e in
      let w₁ : World = record w { request = (write w.request).1 } in
      let reply = read_frame g w.key w.response in
      let (frame, got, e₂) = continue-eq-ok (received reply w₁).0 _ (received reply w₁).1 e₁ in
      let (rest, read, kept) = received-frame reply w₁ frame got in
      let (_, valid, e₃) =
        continue-eq-ok (validate_response_compression route method frame.compress_id) _ _ e₂ in
      let (printed, request) = print_payload-eq-ok frame.payload _ w' e₃ in
      let sent : write w.request ≡ (ok tt, w'.request) =
        let fine = map_err-eq-ok write_request (write w.request).0 written in
        let out : (write w.request).1 ≡ w'.request =
          ap (λ (v : World). v.request) (sym kept) ∙ sym request in
        (λ i. (fine i, out i)) in
      (
        sym (sent_with_key k m tx w.request) ∙ (rw keyed at sent),
        frame,
        rest,
        sym (read_with_key k w.response) ∙ (rw keyed at read),
        valid,
        printed ∙ ap (λ (v : World). v.output.written ++ frame.payload) kept,
      )

pub type_in_range-eq-ok : (t : ℤ) (m : ℕ) → type_in_range t ≡ ok m → (t ≡ pos m) × (m < 32)
unfolding type_in_range
type_in_range-eq-ok (pos n) m e = ground (arith, e)
type_in_range-eq-ok (negsuc n) m e = cc

-- What `do_get` has decided before it speaks to the server.
pub record Decided (parse : String → Outcome String Url) (raw_url : String) (m : Manifest)
    (host path : String) (route : ApiRoute) (message_type : ℕ) (key : List ℕ) (flag : ℕ)
    : Type 0 where
  pub parsed : parse_tcp_url parse raw_url ≡ ok (host, path)
  pub routed : find_route m path ≡ ok route
  pub typed : route.message_type ≡ pos message_type
  pub five_bits : message_type < 32
  pub key_is : parse_secret_key m ≡ ok key
  pub flag_is : compress_method_flag m ≡ ok flag
  pub compression : compression_set route flag ≡ ok tt

module _ (g : Codec) (nonce : Outcome Error (List ℕ)) where
  pub do_get-Decided :
      (parse : String → Outcome String Url) (dial : String → Outcome Error (Unit {0})) (tx : ℕ)
      (raw_url : String) (m : Manifest) (w w' : World)
      → do_get g nonce parse dial tx raw_url m w ≡ (ok tt, w')
      → (host : String) × (path : String) × (route : ApiRoute) × (message_type : ℕ) × (key : List ℕ)
        × (flag : ℕ) × Decided parse raw_url m host path route message_type key flag
        × (ask g nonce route message_type m.api.compress_method tx (set_key key w).1 ≡ (ok tt, w'))
  unfolding do_get
  do_get-Decided parse dial tx raw_url m w w' e =
      let ((host, path), parsed, e₁) = continue-eq-ok (parse_tcp_url parse raw_url) _ w e in
      let (route, routed, e₂) = continue-eq-ok (find_route m path) _ w e₁ in
      let (message_type, ranged, e₃) = continue-eq-ok (type_in_range route.message_type) _ w e₂ in
      let (key, key_is, e₄) = continue-eq-ok (parse_secret_key m) _ w e₃ in
      let (flag, flag_is, e₅) = continue-eq-ok (compress_method_flag m) _ _ e₄ in
      let (_, compression, e₆) = continue-eq-ok (compression_set route flag) _ _ e₅ in
      let (_, _, e₇) = continue-eq-ok (map_err connect (dial host)) _ _ e₆ in
      let (typed, five_bits) = type_in_range-eq-ok route.message_type message_type ranged in
      (
        host,
        path,
        route,
        message_type,
        key,
        flag,
        record {
          parsed = parsed;
          routed = routed;
          typed = typed;
          five_bits = five_bits;
          key_is = key_is;
          flag_is = flag_is;
          compression = compression;
        },
        e₇,
      )
