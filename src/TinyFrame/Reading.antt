-- ===== src/TinyFrame/Reading.antt =====
-- src/tiny_frame.rs: what `read_frame` does on any stream, whole or cut short.
use proto.Base.{
  ℕ, zero, suc, ◌≤◌, ◌%◌, ◌^◌, ◌≡◌, refl, ◌∙◌, ap, sym, List, [], ◌∷◌, ◌++◌, append-nil, length,
  length-append, length-take, take-append-drop, All, Outcome, ok, err, >>=-eq-ok, ok-injective,
  All-append_left, All-append_right, append_assoc, inl, inr, ◌>>=◌, arith,
}
use mathlib.Core.Path.{subst}
use proto.TinyFrame.Types.{IsU8, IsU64, IoError, Frame, u16_max}
use proto.TinyFrame.Codec.{Codec}
use proto.TinyFrame.Key.{KeyCell}
use proto.TinyFrame.Bytes.{to_be_bytes-from_be_bytes, from_be_bytes, from_be_bytes-lt}
use proto.TinyFrame.Wire.{parse_wire_frame, frame_bytes}
use proto.TinyFrame.Wire.Accepts.{FieldsOf, parse_wire_frame-Parsed, parse_wire_frame-FieldsOf}
use proto.TinyFrame.Stream.{
  Source, read_frame, read_frame_header, read_frame_blocking, read_exact, read_payload, first_byte,
}
use proto.TinyFrame.Stream.Framing.{source, read_frame_header-frame_bytes}
use proto.TinyFrame.Stream.Prefix.{read_frame_header-Reads}
use proto.TinyFrame.Roundtrip.{read_frame-eq-blocking}

-- A step that takes bytes from the front of the stream.
record Takes (n : ℕ) (r : Source) (bytes : List ℕ) (r' : Source) : Type 0 where
  size : length bytes ≡ n
  front : r.arriving ≡ bytes ++ r'.arriving

read_exact-Takes :
    (n : ℕ) (r : Source) (bytes : List ℕ) (r' : Source)
    → read_exact n r ≡ ok (bytes, r')
    → Takes n r bytes r'
unfolding read_exact
read_exact-Takes n r bytes r' e = record {
  size = ground (arith, length-take n r.arriving);
  front = ground (arith, take-append-drop n r.arriving);
}

read_payload-Takes :
    (n : ℕ) (r : Source) (bytes : List ℕ) (r' : Source)
    → read_payload n r ≡ ok (bytes, r')
    → Takes n r bytes r'
unfolding read_payload
read_payload-Takes zero r bytes r' e = record { size = ground arith; front = ground arith }
read_payload-Takes (suc n) r bytes r' e = read_exact-Takes (suc n) r bytes r' (ground arith)

-- The stream `r` began with a frame of these fields, and `r'` is what follows it.
abbrev Took : Source → (ℕ × ℕ × List ℕ) × Source → Type 0
Took r ((h, tx, payload), r') =
    (r.arriving ≡ frame_bytes h tx payload ++ r'.arriving)
    × IsU8 h
    × IsU64 tx
    × (length payload ≤ u16_max)

one_byte : (bs : List ℕ) → length bs ≡ 1 → first_byte bs ∷ [] ≡ bs
one_byte [] e = absurd (omega arith)
one_byte (b ∷ []) e = refl
one_byte (b ∷ c ∷ bs) e = absurd (omega arith)

module _ {r r₁ r₂ r₃ r₄ : Source} {b₁ b₂ b₃ b₄ : List ℕ} (t₁ : Takes 1 r b₁ r₁)
    (t₂ : Takes 8 r₁ b₂ r₂) (t₃ : Takes 2 r₂ b₃ r₃) (t₄ : Takes (from_be_bytes b₃) r₃ b₄ r₄)
    (bytes : All IsU8 r.arriving) where
  in_order : r.arriving ≡ b₁ ++ (b₂ ++ (b₃ ++ (b₄ ++ r₄.arriving)))
  in_order = rw (t₁.front, t₂.front, t₃.front, t₄.front)

  header_assembled : Took r ((first_byte b₁, from_be_bytes b₂, b₄), r₄)
  header_assembled =
      let all = rw in_order at bytes in
      let rest₁ = All-append_right IsU8 b₁ _ all in
      let rest₂ = All-append_right IsU8 b₂ _ rest₁ in
      let u₁ = All-append_left IsU8 b₁ _ all in
      let u₂ = All-append_left IsU8 b₂ _ rest₁ in
      let u₃ = All-append_left IsU8 b₃ _ rest₂ in
      let size = from_be_bytes-lt b₃ 2 u₃ t₃.size in
      let kept : length b₄ % 2 ^ 16 ≡ from_be_bytes b₃ = omega (arith, size, t₄.size) in
      let first : IsU8 (first_byte b₁) = (rw (← one_byte b₁ t₁.size) at u₁).0 in
      (
        rw
            (
              kept,
              to_be_bytes-from_be_bytes 8 b₂ u₂ t₂.size,
              to_be_bytes-from_be_bytes 2 b₃ u₃ t₃.size,
              append_assoc b₂ (b₃ ++ b₄) r₄.arriving,
              append_assoc b₃ b₄ r₄.arriving,
            )
            (in_order
              ∙ ap (λ bs. bs ++ (b₂ ++ (b₃ ++ (b₄ ++ r₄.arriving)))) (sym (one_byte b₁ t₁.size))),
        first,
        from_be_bytes-lt b₂ 8 u₂ t₂.size,
        omega (arith, size, t₄.size),
      )

-- What the reader of the fixed part accepts is exactly a frame's bytes.
pub read_frame_header_takes :
    (r : Source) (p : (ℕ × ℕ × List ℕ) × Source)
    → All IsU8 r.arriving
    → read_frame_header r ≡ ok p
    → Took r p
unfolding read_frame_header
read_frame_header_takes r p bytes e =
    let ((b₁, r₁), e₁, k₁) = >>=-eq-ok (read_exact 1 r) _ e in
    let ((b₂, r₂), e₂, k₂) = >>=-eq-ok (read_exact 8 r₁) _ k₁ in
    let ((b₃, r₃), e₃, k₃) = >>=-eq-ok (read_exact 2 r₂) _ k₂ in
    let ((b₄, r₄), e₄, k₄) = >>=-eq-ok (read_payload (from_be_bytes b₃) r₃) _ k₃ in
    subst (Took r) (ok-injective k₄) (
      header_assembled (read_exact-Takes 1 r b₁ r₁ e₁) (read_exact-Takes 8 r₁ b₂ r₂ e₂)
        (read_exact-Takes 2 r₂ b₃ r₃ e₃) (read_payload-Takes _ r₃ b₄ r₄ e₄) bytes)

-- A frame that is cut short anywhere is no frame: the reader reports the error with which the
-- stream ended (end of file, if the peer closed it), whatever bytes are missing.
pub read_frame_truncated :
    (c : Codec) (cell : KeyCell) (header tx : ℕ) (payload : List ℕ) (ending : IoError)
    (front : List ℕ) (x : ℕ) (back : List ℕ)
    → IsU64 tx
    → length payload ≤ u16_max
    → frame_bytes header tx payload ≡ front ++ (x ∷ back)
    → read_frame c cell (source front ending) ≡ err ending
read_frame_truncated c cell header tx payload ending front x back ht hp e =
    elim (read_frame_header-Reads.settles (source front ending)) [
      | inr failed ↦
          read_frame-eq-blocking c cell (source front ending)
          ∙ (unfold read_frame_blocking in rw failed)
      | inl (fields, r, found, _) ↦
          let longer =
            read_frame_header-Reads.extends (source front ending) (x ∷ back) fields r found in
          let whole : read_frame_header (source (frame_bytes header tx payload) ending)
              ≡ ok ((header, tx, payload), source [] ending) =
            rw append-nil at (read_frame_header-frame_bytes ending header tx payload [] ht hp) in
          absurd (grind (arith, longer, whole, e, length-append r.arriving (x ∷ back)))
    ]

abbrev then_parse : Codec → KeyCell → (ℕ × ℕ × List ℕ) × Source → Outcome IoError (Frame × Source)
then_parse c cell (fields, r') =
    parse_wire_frame c cell fields.0 fields.1 fields.2 >>= λ frame. ok (frame, r')

blocking :
    (c : Codec) (cell : KeyCell) (r : Source) (frame : Frame) (r' : Source)
    → read_frame c cell r ≡ ok (frame, r')
    → (read_frame_header r >>= then_parse c cell) ≡ ok (frame, r')
unfolding read_frame_blocking
blocking c cell r frame r' e = sym (read_frame-eq-blocking c cell r) ∙ e

-- The stream `r` is one frame with the fields of `frame`, and then `r'`.
abbrev pub Canonical : Source → Frame → Source → Type 0
Canonical r frame r' =
    (header : ℕ) × (payload : List ℕ) × (r.arriving
      ≡ frame_bytes header frame.tx_id payload ++ r'.arriving)
    × (length payload ≤ u16_max)
    × FieldsOf header frame

-- On any bytes, what `read_frame` returns stands for exactly the bytes it took: they are one frame
-- whose header byte is made of the type (below 32), the encryption bit and a known compression id,
-- with the transaction id and a payload of at most 65535 bytes.
pub read_frame-Canonical :
    (c : Codec) (cell : KeyCell) (r : Source) (frame : Frame) (r' : Source)
    → All IsU8 r.arriving
    → read_frame c cell r ≡ ok (frame, r')
    → Canonical r frame r'
read_frame-Canonical c cell r frame r' bytes e =
    let ((fields, r₁), e₁, k₁) = >>=-eq-ok (read_frame_header r) _ (blocking c cell r frame r' e) in
    let (parsed, e₂, k₂) = >>=-eq-ok (parse_wire_frame c cell fields.0 fields.1 fields.2) _ k₁ in
    let (front, u8, u64, fits) = read_frame_header_takes r (fields, r₁) bytes e₁ in
    let same = ok-injective k₂ in
    subst (λ (p : Frame × Source). Canonical r p.0 p.1) same
      (
        fields.0,
        fields.2,
        rw (parse_wire_frame-Parsed c cell fields.0 fields.1 fields.2 parsed e₂).tx_is front,
        fits,
        parse_wire_frame-FieldsOf c cell fields.0 fields.1 fields.2 parsed u8 u64 e₂,
      )
