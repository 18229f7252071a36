-- ===== src/TinyFrame/Wire/Accepts.antt =====
-- What a parsed frame says of the bytes it came from.
use proto.Base.{
  ℕ, ◌+◌, ◌*◌, ◌≤◌, ◌<◌, ◌≡◌, sym, ap, ◌∙◌, true, some, if◌then◌else◌, List, ◌++◌, length, ok,
  >>=-eq-ok, ok-injective, take, drop, take-append-drop, length-take, arith,
}
use proto.TinyFrame.Types.{IsU8, IsU64, IoError, Frame, nonce_len}
use proto.TinyFrame.Header.{compress_id_of, is_encrypted, message_type_of, flags_of}
use proto.TinyFrame.Header.Bits.{bit_and-flags, bit_and-compress, bit_and-chacha}
use proto.TinyFrame.Codec.{Codec, CodecLaws}
use proto.TinyFrame.Key.{KeyCell, require_encrypt_key}
use proto.TinyFrame.Payload.{decompress_payload, decrypt_payload, aead_aad}
use proto.TinyFrame.Wire.{unseal, parse_wire_frame}

-- The header byte and the fields of the frame determine one another.
pub record FieldsOf (header : ℕ) (frame : Frame) : Type 0 where
  pub type_fits : frame.message_type < 32
  pub tx_fits : IsU64 frame.tx_id
  pub known : frame.compress_id < 3
  pub whole :
      header ≡ frame.message_type * 8 + (if frame.encrypted then 4 else 0) + frame.compress_id

module _ (c : Codec) (cell : KeyCell) where
  -- The stages of a frame that was parsed.
  pub record Parsed (header tx : ℕ) (payload : List ℕ) (frame : Frame) : Type 0 where
    pub plain : List ℕ
    pub unsealed : unseal c cell (is_encrypted (flags_of header)) header tx payload ≡ ok plain
    pub unpacked : decompress_payload c (compress_id_of (flags_of header)) plain ≡ ok frame.payload
    pub type_is : frame.message_type ≡ message_type_of header
    pub compress_is : frame.compress_id ≡ compress_id_of (flags_of header)
    pub encrypted_is : frame.encrypted ≡ is_encrypted (flags_of header)
    pub tx_is : frame.tx_id ≡ tx

  pub parse_wire_frame-Parsed :
      (header tx : ℕ) (payload : List ℕ) (frame : Frame)
      → parse_wire_frame c cell header tx payload ≡ ok frame
      → Parsed header tx payload frame
  unfolding parse_wire_frame
  parse_wire_frame-Parsed header tx payload frame e =
      let (plain, unsealed, e₁) =
        >>=-eq-ok (unseal c cell (is_encrypted (flags_of header)) header tx payload) _ e in
      let (output, unpacked, e₂) =
        >>=-eq-ok (decompress_payload c (compress_id_of (flags_of header)) plain) _ e₁ in
      let same = ok-injective e₂ in
      record {
        plain = plain;
        unsealed = unsealed;
        unpacked = unpacked ∙ ap (λ (f : Frame). ok f.payload) same;
        type_is = sym (ap (λ (f : Frame). f.message_type) same);
        compress_is = sym (ap (λ (f : Frame). f.compress_id) same);
        encrypted_is = sym (ap (λ (f : Frame). f.encrypted) same);
        tx_is = sym (ap (λ (f : Frame). f.tx_id) same);
      }

  decompress-known :
      (id : ℕ) (plain output : List ℕ) → decompress_payload c id plain ≡ ok output → id < 4 → id < 3
  unfolding decompress_payload
  decompress-known id plain output e h = ground arith

  pub parse_wire_frame-FieldsOf :
      (header tx : ℕ) (payload : List ℕ) (frame : Frame)
      → IsU8 header
      → IsU64 tx
      → parse_wire_frame c cell header tx payload ≡ ok frame
      → FieldsOf header frame
  parse_wire_frame-FieldsOf header tx payload frame u8 u64 e =
      let p = parse_wire_frame-Parsed header tx payload frame e in
      let flags = bit_and-flags header u8 in
      let low : IsU8 (flags_of header) = omega (arith, flags) in
      let comp = bit_and-compress (flags_of header) low in
      let crypt = bit_and-chacha (flags_of header) low in
      record {
        type_fits = omega (arith, p.type_is);
        tx_fits = omega (arith, p.tx_is);
        known = rw p.compress_is (
            decompress-known (compress_id_of (flags_of header)) p.plain frame.payload p.unpacked
              (omega (arith, comp)));
        whole =
            rw (p.type_is, p.compress_is, p.encrypted_is, comp, flags)
              (ground (arith, crypt, flags));
      }

module _ (c : Codec) (laws : CodecLaws c) (cell : KeyCell) where
  require_key :
      (key : List ℕ) → require_encrypt_key {E = IoError} cell ≡ ok key → cell ≡ some (some key)
  unfolding require_encrypt_key
  require_key key e = ground arith

  decrypt_parts :
      (key aad payload plain : List ℕ)
      → decrypt_payload c key aad payload ≡ ok plain
      → (nonce_len ≤ length payload)
        × (c.decrypt key (take nonce_len payload) aad (drop nonce_len payload) ≡ some plain)
  unfolding decrypt_payload
  decrypt_parts key aad payload plain e = ground arith

  -- An encrypted frame is accepted only if its payload is a nonce and the encryption, under the key
  -- of the process and with the header byte and the transaction id authenticated, of bytes that
  -- decompress to the frame's data.
  pub parse_wire_frame_authentic :
      (header tx : ℕ) (payload : List ℕ) (frame : Frame)
      → parse_wire_frame c cell header tx payload ≡ ok frame
      → frame.encrypted ≡ true
      → (key nonce plain ct : List ℕ) × (cell ≡ some (some key))
        × (length nonce ≡ nonce_len)
        × (c.encrypt key nonce (aead_aad header tx) plain ≡ some ct)
        × (payload ≡ nonce ++ ct)
        × (decompress_payload c frame.compress_id plain ≡ ok frame.payload)
  unfolding unseal
  parse_wire_frame_authentic header tx payload frame e crypt =
      let p = parse_wire_frame-Parsed c cell header tx payload frame e in
      let on = sym p.encrypted_is ∙ crypt in
      let opened : unseal c cell true header tx payload ≡ ok p.plain =
        ap (λ b. unseal c cell b header tx payload) (sym on) ∙ p.unsealed in
      let (key, found, decrypted) =
        >>=-eq-ok {A = List ℕ} (require_encrypt_key cell)
          (λ k. decrypt_payload c k (aead_aad header tx) payload) opened in
      let (long, tag) = decrypt_parts key (aead_aad header tx) payload p.plain decrypted in
      (
        key,
        take nonce_len payload,
        p.plain,
        drop nonce_len payload,
        require_key key found,
        omega (arith, length-take nonce_len payload),
        laws.encrypt_decrypt key (take nonce_len payload) (aead_aad header tx)
            (drop nonce_len payload) p.plain tag,
        sym (take-append-drop nonce_len payload),
        rw p.compress_is p.unpacked,
      )
