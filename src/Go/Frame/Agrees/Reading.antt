-- ===== src/Go/Frame/Agrees/Reading.antt =====
-- tinyframe/frame.go beside src/tiny_frame.rs: the readers.
use proto.Base.{ℕ, ◌≡◌, refl, Bool, true, false, List, some, Outcome, ok, arith, ◌>>=◌}
use proto.Base.Agreement.{Agrees, Agrees-bind, Agrees-then, Equal}
use proto.TinyFrame.Types.{IoError}
use proto.TinyFrame.Types
use proto.TinyFrame.Bytes.{from_be_bytes}
use proto.TinyFrame.Key.{KeyCell}
use proto.TinyFrame.Key
use proto.TinyFrame.Payload
use proto.TinyFrame.Wire
use proto.TinyFrame.Stream.{Source}
use proto.TinyFrame.Stream
use proto.Go.Frame.Types.{Error, Frame}
use proto.Go.Frame.Codec.{Codec}
use proto.Go.Frame.Payload.{decompress_payload, aead_aad}
use proto.Go.Frame.Stream.{
  Reader, read_full, read_payload, unseal, parse_frame, read_any, read_frame_with_key, first_byte,
}
use proto.Go.Frame.Agrees.{as_codec, as_frame, decompress_payload-Agrees, decrypt_payload-Agrees}

-- The same bytes to come; what ends the two streams may differ.
abbrev pub SameBytes : List ℕ × Reader → List ℕ × Source → Type 0
SameBytes (xs, r) (ys, s) = (xs ≡ ys) × (r.arriving ≡ s.arriving)

abbrev pub SameFrame : Frame × Reader → Types.Frame × Source → Type 0
SameFrame (f, r) (f', s) = (as_frame f ≡ f') × (r.arriving ≡ s.arriving)

read_full-Agrees :
    (n : ℕ) (r : Reader) (s : Source)
    → r.arriving ≡ s.arriving
    → Agrees SameBytes (read_full n r) (Stream.read_exact n s)
unfolding read_full Stream.read_exact
read_full-Agrees n r s same = ground arith

read_payload-Agrees :
    (n : ℕ) (r : Reader) (s : Source)
    → r.arriving ≡ s.arriving
    → Agrees SameBytes (read_payload n r) (Stream.read_payload n s)
unfolding read_payload Stream.read_payload
read_payload-Agrees n r s same = ground (arith, read_full-Agrees n r s same)

module _ (g : Codec) (fetched : Outcome Error (List ℕ)) (cell : KeyCell)
    (keys : Agrees {F = IoError} Equal fetched (Key.require_encrypt_key cell)) where
  unseal-Agrees :
      (encrypted : Bool) (header tx : ℕ) (payload : List ℕ)
      → Agrees Equal
          (unseal g fetched encrypted header tx payload)
          (Wire.unseal (as_codec g) cell encrypted header tx payload)
  unfolding unseal Wire.unseal aead_aad Payload.aead_aad
  unseal-Agrees true header tx payload =
      Agrees-then Equal fetched (Key.require_encrypt_key cell) _ _ keys
        (λ key. decrypt_payload-Agrees g key _ payload)
  unseal-Agrees false header tx payload = refl

  parse_frame-Agrees :
      (header tx : ℕ) (payload : List ℕ)
      → Agrees
          (λ f f'. as_frame f ≡ f')
          (parse_frame g fetched header tx payload)
          (Wire.parse_wire_frame (as_codec g) cell header tx payload)
  unfolding parse_frame Wire.parse_wire_frame
  parse_frame-Agrees header tx payload =
      Agrees-then _ (unseal g fetched _ header tx payload) _ _ _ (unseal-Agrees _ header tx payload)
        (λ plain.
          Agrees-then _ (decompress_payload g _ plain) _ _ _ (decompress_payload-Agrees g _ plain)
            (λ output. refl))

  -- The frame out of the bytes, with the streams behind it.
  framed-Agrees :
      (header tx payload : List ℕ) (header' tx' payload' : List ℕ) (r : Reader) (s : Source)
      → header ≡ header'
      → tx ≡ tx'
      → payload ≡ payload'
      → r.arriving ≡ s.arriving
      → Agrees SameFrame
          (parse_frame g fetched (first_byte header) (from_be_bytes tx) payload >>= λ frame.
            ok (frame, r))
          (Wire.parse_wire_frame
              (as_codec g)
              cell
              (Stream.first_byte header')
              (from_be_bytes tx')
              payload'
            >>= λ frame. ok (frame, s))
  framed-Agrees header tx payload header' tx' payload' r s eh et ep er =
      rw (← eh, ← et, ← ep)
        (Agrees-bind _ SameFrame
          (parse_frame g fetched (first_byte header) (from_be_bytes tx) payload) _ _ _
          (parse_frame-Agrees (first_byte header) (from_be_bytes tx) payload) (λ f f' e. (e, er)))

  -- On the same bytes the Go reader, with a key or with what kept it away, and `read_frame` of the
  -- crate with a key cell that gives the same, read the same frame.
  pub read_any-Agrees :
      (r : Reader) (s : Source)
      → r.arriving ≡ s.arriving
      → Agrees SameFrame (read_any g fetched r) (Stream.read_frame (as_codec g) cell s)
  unfolding read_any Stream.read_frame
  read_any-Agrees r s same =
      Agrees-bind SameBytes SameFrame (read_full 1 r) (Stream.read_exact 1 s) _ _
        (read_full-Agrees 1 r s same)
        λ (a, r₁) (a', s₁) (ea, e₁).
          Agrees-bind SameBytes SameFrame (read_full 8 r₁) (Stream.read_exact 8 s₁) _ _
            (read_full-Agrees 8 r₁ s₁ e₁)
            λ (b, r₂) (b', s₂) (eb, e₂).
              Agrees-bind SameBytes SameFrame (read_full 2 r₂) (Stream.read_exact 2 s₂) _ _
                (read_full-Agrees 2 r₂ s₂ e₂)
                λ (c, r₃) (c', s₃) (ec, e₃).
                  Agrees-bind SameBytes SameFrame (read_payload (from_be_bytes c) r₃)
                    (Stream.read_payload (from_be_bytes c') s₃) _ _
                    (rw (← ec) (read_payload-Agrees (from_be_bytes c) r₃ s₃ e₃))
                    λ (d, r₄) (d', s₄) (ed, e₄). framed-Agrees a b d a' b' d' r₄ s₄ ea eb ed e₄

module _ (g : Codec) where
  -- `ReadFrameWithKey` against the crate with Go's own codecs.
  pub read_frame_with_key-Agrees :
      (key : List ℕ) (r : Reader) (s : Source)
      → r.arriving ≡ s.arriving
      → Agrees SameFrame
          (read_frame_with_key g (some key) r)
          (Stream.read_frame (as_codec g) (some (some key)) s)
  unfolding read_frame_with_key Key.require_encrypt_key
  read_frame_with_key-Agrees key r s same =
      read_any-Agrees g (ok key) (some (some key)) refl r s same
