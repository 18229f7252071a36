-- ===== src/TinyFrame/Payload.antt =====
-- src/tiny_frame.rs: what is done to the data on its way into a payload, and back.
pub mod Inverse
use proto.Base.{
  ℕ, zero, suc, ◌+◌, ◌-◌, ◌≡◌, List, [], ◌∷◌, ◌++◌, Option, none, some, ltb, ◌==◌, if◌then◌else◌,
  length, take, drop, Outcome, ok, err, ◌>>=◌,
}
use proto.TinyFrame.Types.{
  IoError, io_error, invalid_input, invalid_data, other, unsupported_compress_id, encrypt_failed,
  encrypted_payload_too_short, decrypt_failed, compress_none, compress_gzip, compress_deflate,
  nonce_len, tag_len,
}
use proto.TinyFrame.Bytes.{to_be_bytes}
use proto.TinyFrame.Codec.{Codec}

-- `Result::map_err` on the answer of the cipher.
abbrev or_error : Option (List ℕ) → IoError → Outcome IoError (List ℕ)
or_error none e = err e
or_error (some bytes) e = ok bytes

module _ (c : Codec) where
  -- `fn compress_payload`.
  unfoldable pub compress_payload : ℕ → List ℕ → Outcome IoError (List ℕ)
  compress_payload compress_id input =
      if compress_id == compress_none
      then ok input
      else if compress_id == compress_gzip
      then c.gzip_encode input
      else if compress_id == compress_deflate
      then c.deflate_encode input
      else err (io_error invalid_input (unsupported_compress_id compress_id))

  -- `fn decompress_payload`.
  unfoldable pub decompress_payload : ℕ → List ℕ → Outcome IoError (List ℕ)
  decompress_payload compress_id input =
      if compress_id == compress_none
      then ok input
      else if compress_id == compress_gzip
      then c.gzip_decode input
      else if compress_id == compress_deflate
      then c.deflate_decode input
      else err (io_error invalid_data (unsupported_compress_id compress_id))

  -- `fn encrypt_payload`; `nonce` is what the operating system's generator filled in.
  unfoldable pub encrypt_payload : (nonce key aad plaintext : List ℕ) → Outcome IoError (List ℕ)
  encrypt_payload nonce key aad plaintext = do
    ciphertext ← or_error (c.encrypt key nonce aad plaintext) (io_error other encrypt_failed)
    ok (nonce ++ ciphertext)

  -- `fn decrypt_payload`.
  unfoldable pub decrypt_payload : (key aad payload : List ℕ) → Outcome IoError (List ℕ)
  decrypt_payload key aad payload =
      if ltb (length payload) (nonce_len + tag_len)
      then err (io_error invalid_data encrypted_payload_too_short)
      else or_error (c.decrypt key (take nonce_len payload) aad (drop nonce_len payload))
          (io_error invalid_data decrypt_failed)

-- `fn aead_aad`: the header byte and the transaction id are authenticated with the payload.
unfoldable pub aead_aad : ℕ → ℕ → List ℕ
aead_aad header tx_id = header ∷ to_be_bytes 8 tx_id
