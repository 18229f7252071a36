-- ===== src/TinyFrame/Header/Bits.antt =====
-- The masks and shifts of the header byte in plain arithmetic, and what packing accepts.
use proto.Base.{
  ℕ, ◌+◌, ◌*◌, ◌/◌, ◌%◌, ◌<◌, ◌≡◌, ◌≢◌, refl, inl, inr, Bool-cases, ltb, bit_and, bit_or, arith, ok,
  err,
}
use proto.Base.Bits.{difference_below, eq_below}
use proto.TinyFrame.Types.{
  IoError, io_error, invalid_input, message_type_must_fit, flags_must_fit, unsupported_compress_id,
  IsU8, flags_mask, compress_mask, chacha20poly1305,
}
use proto.TinyFrame.Header.{pack_header_byte, not_u8, shl_u8, message_type_of, flags_of}

pub bit_and-not_flags : (f : ℕ) → IsU8 f → bit_and f (not_u8 flags_mask) ≡ f / 8 * 8
unfolding difference_below
bit_and-not_flags = eq_below _ _ 256 refl

pub bit_and-flags : (f : ℕ) → IsU8 f → bit_and f flags_mask ≡ f % 8
unfolding difference_below
bit_and-flags = eq_below _ _ 256 refl

pub bit_and-compress : (f : ℕ) → IsU8 f → bit_and f compress_mask ≡ f % 4
unfolding difference_below
bit_and-compress = eq_below _ _ 256 refl

pub bit_and-chacha : (f : ℕ) → IsU8 f → bit_and f chacha20poly1305 ≡ f / 4 % 2 * 4
unfolding difference_below
bit_and-chacha = eq_below _ _ 256 refl

split_header : (h : ℕ) → IsU8 h → bit_or (shl_u8 (h / 8) 3) (h % 8) ≡ h
unfolding difference_below
split_header = eq_below _ _ 256 refl

pub bit_or-header : (m f : ℕ) → m < 32 → f < 8 → bit_or (shl_u8 m 3) f ≡ m * 8 + f
bit_or-header m f hm hf =
    let quotient : (m * 8 + f) / 8 ≡ m = omega arith in
    let remainder : (m * 8 + f) % 8 ≡ f = omega arith in
    rw (quotient, remainder) at (split_header (m * 8 + f) (omega arith))

-- Packing succeeds on a type of five bits and flags of three whose algorithm is known.
pub pack_header_byte_ok :
    (m f : ℕ) → m < 32 → f < 8 → f % 4 ≢ 3 → pack_header_byte m f ≡ ok (m * 8 + f)
unfolding pack_header_byte
pack_header_byte_ok m f hm hf hc = ground (
  arith,
  bit_and-not_flags f (omega arith),
  bit_and-compress f (omega arith),
  bit_or-header m f hm hf,
)

-- And on nothing else.
pub pack_header_byte_only :
    (m f h : ℕ)
    → IsU8 f
    → pack_header_byte m f ≡ ok h
    → (m < 32) × (f < 8) × (f % 4 ≢ 3) × (h ≡ m * 8 + f)
unfolding pack_header_byte
pack_header_byte_only m f h hf e =
    ground (arith, bit_and-not_flags f, bit_and-compress f, bit_or-header m f)

-- The header byte gives back the type and the flags.
pub unpack_header :
    (m f : ℕ) → m < 32 → f < 8 → (message_type_of (m * 8 + f) ≡ m) × (flags_of (m * 8 + f) ≡ f)
unpack_header m f hm hf = (omega arith, rw (bit_and-flags (m * 8 + f) (omega arith)) (omega arith))

-- What is refused is refused as invalid input.
pub pack_header_byte_refused :
    (m f : ℕ)
    → IsU8 f
    → ¬ ((m < 32) × (f < 8) × (f % 4 ≢ 3))
    → (e : IoError) × (pack_header_byte m f ≡ err e) × (e.kind ≡ invalid_input)
unfolding pack_header_byte
pack_header_byte_refused m f hf bad = elim (Bool-cases (ltb 31 m)) [
  | inl wide ↦ (io_error invalid_input (message_type_must_fit m), rw wide, refl)
  | inr narrow ↦ elim (Bool-cases (ltb 7 f)) [
    | inl high ↦
        (io_error invalid_input (flags_must_fit f), ground (arith, bit_and-not_flags f hf), refl)
    | inr low ↦ (
      io_error invalid_input (unsupported_compress_id (f % 4)),
      ground (
        arith,
        bit_and-not_flags f hf,
        bit_and-compress f hf,
        λ (hc : f % 4 ≢ 3). bad (ground arith, ground arith, hc),
      ),
      refl,
    )
  ]
]
