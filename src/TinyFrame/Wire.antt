-- ===== src/TinyFrame/Wire.antt =====
-- src/tiny_frame.rs: a frame's bytes, built and taken apart.
pub mod Inverse
pub mod Accepts
use proto.Base.{
  ℕ, ◌%◌, ◌^◌, ◌≡◌, Bool, List, ◌∷◌, ◌++◌, length, ltb, if◌then◌else◌, Outcome, ok, err, ◌>>=◌,
}
use proto.TinyFrame.Types.{
  IoError, io_error, invalid_input, payload_length_exceeds_u16, u16_max, Frame,
}
use proto.TinyFrame.Bytes.{to_be_bytes}
use proto.TinyFrame.Header.{
  pack_header_byte, compress_id_of, is_encrypted, message_type_of, flags_of,
}
use proto.TinyFrame.Codec.{Codec}
use proto.TinyFrame.Key.{KeyCell, require_encrypt_key}
use proto.TinyFrame.Payload.{
  compress_payload, decompress_payload, encrypt_payload, decrypt_payload, aead_aad,
}

-- The buffer that `build_wire_frame` fills; the length is cut to sixteen bits by `as u16`.
abbrev pub frame_bytes : (header tx_id : ℕ) (payload : List ℕ) → List ℕ
frame_bytes header tx_id payload =
    header ∷ (to_be_bytes 8 tx_id ++ (to_be_bytes 2 (length payload % 2 ^ 16) ++ payload))

module _ (c : Codec) (cell : KeyCell) where
  -- The encryption step of `build_wire_frame`.
  unfoldable pub seal :
      (nonce : List ℕ) (encrypted : Bool) (header tx_id : ℕ) (payload : List ℕ)
      → Outcome IoError (List ℕ)
  seal nonce encrypted header tx_id payload =
      if encrypted
      then (do
        key ← require_encrypt_key cell
        encrypt_payload c nonce key (aead_aad header tx_id) payload)
      else ok payload

  -- The decryption step of `parse_wire_frame`.
  unfoldable pub unseal :
      (encrypted : Bool) (header tx_id : ℕ) (payload : List ℕ) → Outcome IoError (List ℕ)
  unseal encrypted header tx_id payload =
      if encrypted
      then (do
        key ← require_encrypt_key cell
        decrypt_payload c key (aead_aad header tx_id) payload)
      else ok payload

  -- `fn build_wire_frame`.
  unfoldable pub build_wire_frame :
      (nonce : List ℕ) (message_type tx_id : ℕ) (input : List ℕ) (flags : ℕ)
      → Outcome IoError (List ℕ)
  build_wire_frame nonce message_type tx_id input flags = do
    header ← pack_header_byte message_type flags
    compressed ← compress_payload c (compress_id_of flags) input
    payload ← seal nonce (is_encrypted flags) header tx_id compressed
    if ltb u16_max (length payload)
        then err (io_error invalid_input payload_length_exceeds_u16)
        else ok (frame_bytes header tx_id payload)

  -- `fn parse_wire_frame`.
  unfoldable pub parse_wire_frame : (header tx_id : ℕ) (payload : List ℕ) → Outcome IoError Frame
  parse_wire_frame header tx_id payload = do
    let flags = flags_of header
    plain ← unseal (is_encrypted flags) header tx_id payload
    output ← decompress_payload c (compress_id_of flags) plain
    ok (record {
      message_type = message_type_of header;
      compress_id = compress_id_of flags;
      encrypted = is_encrypted flags;
      tx_id = tx_id;
      payload = output;
    })
