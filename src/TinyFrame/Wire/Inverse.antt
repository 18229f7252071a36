-- ===== src/TinyFrame/Wire/Inverse.antt =====
-- A frame that was built, and is parsed.
use proto.Base.{ℕ, ◌≤◌, ◌≡◌, Bool, true, false, List, length, ok, >>=-eq-ok, arith}
use proto.TinyFrame.Types.{IsU8, nonce_len, u16_max}
use proto.TinyFrame.Header.{pack_header_byte, compress_id_of, is_encrypted}
use proto.TinyFrame.Header.Bits.{pack_header_byte_only, unpack_header}
use proto.TinyFrame.Codec.{Codec, CodecLaws}
use proto.TinyFrame.Key.{KeyCell, require_encrypt_key}
use proto.TinyFrame.Payload.{compress_payload, encrypt_payload, aead_aad}
use proto.TinyFrame.Payload.Inverse.{decompress-compress, decrypt-encrypt}
use proto.TinyFrame.Wire.{seal, unseal, build_wire_frame, parse_wire_frame, frame_bytes}

-- The stages of a frame that was built.
pub record Stages (c : Codec) (cell : KeyCell) (nonce : List ℕ) (message_type tx_id : ℕ)
    (input : List ℕ) (flags : ℕ) (buf : List ℕ) : Type 0 where
  pub header : ℕ
  pub compressed : List ℕ
  pub payload : List ℕ
  pub packed : pack_header_byte message_type flags ≡ ok header
  pub squeezed : compress_payload c (compress_id_of flags) input ≡ ok compressed
  pub sealed : seal c cell nonce (is_encrypted flags) header tx_id compressed ≡ ok payload
  pub fits : length payload ≤ u16_max
  pub bytes : buf ≡ frame_bytes header tx_id payload

module _ (c : Codec) (cell : KeyCell) where
  pub build_wire_frame-Stages :
      (nonce : List ℕ) (message_type tx_id : ℕ) (input : List ℕ) (flags : ℕ) (buf : List ℕ)
      → build_wire_frame c cell nonce message_type tx_id input flags ≡ ok buf
      → Stages c cell nonce message_type tx_id input flags buf
  unfolding build_wire_frame
  build_wire_frame-Stages nonce message_type tx_id input flags buf e =
      let (header, packed, e₁) = >>=-eq-ok _ _ e in
      let (compressed, squeezed, e₂) = >>=-eq-ok _ _ e₁ in
      let (payload, sealed, e₃) = >>=-eq-ok _ _ e₂ in
      record {
        header = header;
        compressed = compressed;
        payload = payload;
        packed = packed;
        squeezed = squeezed;
        sealed = sealed;
        fits = ground arith;
        bytes = ground arith;
      }

module _ (c : Codec) (laws : CodecLaws c) (cell : KeyCell) where
  pub unseal-seal :
      (nonce : List ℕ) (encrypted : Bool) (header tx_id : ℕ) (plain payload : List ℕ)
      → length nonce ≡ nonce_len
      → seal c cell nonce encrypted header tx_id plain ≡ ok payload
      → unseal c cell encrypted header tx_id payload ≡ ok plain
  unfolding seal unseal
  unseal-seal nonce false header tx_id plain payload n e = ground arith
  unseal-seal nonce true header tx_id plain payload n e =
      let (key, found, sealed) =
        >>=-eq-ok {A = List ℕ} (require_encrypt_key cell)
          (λ k. encrypt_payload c nonce k (aead_aad header tx_id) plain) e in
      rw found (decrypt-encrypt c laws nonce key (aead_aad header tx_id) plain payload n sealed)

  pub parse_wire_frame-Stages :
      (nonce : List ℕ) (message_type tx_id : ℕ) (input : List ℕ) (flags : ℕ) (buf : List ℕ)
      → IsU8 flags
      → length nonce ≡ nonce_len
      → (s : Stages c cell nonce message_type tx_id input flags buf)
      → parse_wire_frame c cell s.header tx_id s.payload
        ≡ ok (record {
          message_type = message_type;
          compress_id = compress_id_of flags;
          encrypted = is_encrypted flags;
          tx_id = tx_id;
          payload = input;
        })
  unfolding parse_wire_frame
  parse_wire_frame-Stages nonce m tx_id input flags buf hf n s =
      let (hm, hf', _, e) = pack_header_byte_only m flags s.header hf s.packed in
      let (type_back, flags_back) = unpack_header m flags hm hf' in
      rw (e, type_back, flags_back)
        (rw (← e) (
          rw (
            unseal-seal nonce (is_encrypted flags) s.header tx_id s.compressed s.payload n s.sealed,
            decompress-compress c laws (compress_id_of flags) input s.compressed s.squeezed,
          )))
