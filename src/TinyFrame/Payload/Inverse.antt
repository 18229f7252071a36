-- ===== src/TinyFrame/Payload/Inverse.antt =====
-- A payload that was written, and is read.
use proto.Base.{
  ℕ, ◌≡◌, List, ◌++◌, some, length, length-append, take-append_left, drop-append_left, ok, arith,
}
use proto.TinyFrame.Types.{nonce_len}
use proto.TinyFrame.Codec.{Codec, CodecLaws}
use proto.TinyFrame.Payload.{compress_payload, decompress_payload, encrypt_payload, decrypt_payload}

module _ (c : Codec) (laws : CodecLaws c) where
  pub decompress-compress :
      (id : ℕ) (d z : List ℕ) → compress_payload c id d ≡ ok z → decompress_payload c id z ≡ ok d
  unfolding compress_payload decompress_payload
  decompress-compress id d z e = ground (arith, laws.gzip_lossless d z, laws.deflate_lossless d z)

  -- An encrypted payload is the nonce and the ciphertext.
  pub encrypt_payload_parts :
      (nonce key aad plain payload : List ℕ)
      → encrypt_payload c nonce key aad plain ≡ ok payload
      → (ct : List ℕ) × (c.encrypt key nonce aad plain ≡ some ct) × (payload ≡ nonce ++ ct)
  unfolding encrypt_payload
  encrypt_payload_parts nonce key aad plain payload e = ground arith

  pub decrypt_payload-append :
      (nonce key aad plain ct : List ℕ)
      → length nonce ≡ nonce_len
      → c.encrypt key nonce aad plain ≡ some ct
      → decrypt_payload c key aad (nonce ++ ct) ≡ ok plain
  unfolding decrypt_payload
  decrypt_payload-append nonce key aad plain ct n e = ground (
    arith,
    length-append nonce ct,
    laws.length_encrypt key nonce aad plain ct,
    take-append_left nonce ct nonce_len n,
    drop-append_left nonce ct nonce_len n,
    laws.decrypt_encrypt key nonce aad plain ct,
  )

  pub decrypt-encrypt :
      (nonce key aad plain payload : List ℕ)
      → length nonce ≡ nonce_len
      → encrypt_payload c nonce key aad plain ≡ ok payload
      → decrypt_payload c key aad payload ≡ ok plain
  decrypt-encrypt nonce key aad plain payload n e =
      let (ct, sealed, whole) = encrypt_payload_parts nonce key aad plain payload e in
      rw whole (decrypt_payload-append nonce key aad plain ct n sealed)
