-- ===== src/Go/Frame/Payload.antt =====
-- tinyframe/frame.go: the header byte, and what is done to the data on its way into a payload and
-- back.
use proto.Base.{
  ℕ, ◌+◌, ◌-◌, ◌*◌, ◌%◌, ◌^◌, not, ◌||◌, bit_and, bit_or, List, ◌∷◌, ◌++◌, Option, none, some, ltb,
  ◌==◌, if◌then◌else◌, length, take, drop, Outcome, ok, err, ◌>>=◌,
}
use proto.TinyFrame.Bytes.{to_be_bytes}
use proto.Go.Frame.Types.{
  Error, message_type_must_fit, flags_must_fit, unsupported_compress_id,
  encrypted_payload_too_short, decrypt_failed, message_type_mask, flags_mask, compress_mask,
  compress_none, compress_gzip, compress_deflate, nonce_len, tag_len,
}
use proto.Go.Frame.Codec.{Codec}

-- `a &^ b` and `a << 3` on bytes.
abbrev pub and_not : ℕ → ℕ → ℕ
and_not a b = bit_and a (255 - b)

abbrev pub shl_3 : ℕ → ℕ
shl_3 a = a * 2 ^ 3 % 256

-- `packHeaderByte`.
unfoldable pub pack_header_byte : (message_type flags : ℕ) → Outcome Error ℕ
pack_header_byte message_type flags =
    if ltb message_type_mask message_type
    then err (message_type_must_fit message_type)
    else if not (and_not flags flags_mask == 0)
    then err (flags_must_fit flags)
    else let compress_id = bit_and flags compress_mask in
      if compress_id == compress_none
        || compress_id == compress_gzip
        || compress_id == compress_deflate
      then ok (bit_or (shl_3 message_type) flags)
      else err (unsupported_compress_id compress_id)

-- `aeadAAD`.
unfoldable pub aead_aad : (header tx_id : ℕ) → List ℕ
aead_aad header tx_id = header ∷ to_be_bytes 8 tx_id

abbrev opened : Option (List ℕ) → Outcome Error (List ℕ)
opened none = err decrypt_failed
opened (some plain) = ok plain

module _ (g : Codec) where
  -- `compressPayload`.
  unfoldable pub compress_payload : (compress_id : ℕ) (input : List ℕ) → Outcome Error (List ℕ)
  compress_payload compress_id input =
      if compress_id == compress_none
      then ok input
      else if compress_id == compress_gzip
      then g.gzip_write input
      else if compress_id == compress_deflate
      then g.flate_write input
      else err (unsupported_compress_id compress_id)

  -- `decompressPayload`.
  unfoldable pub decompress_payload : (compress_id : ℕ) (input : List ℕ) → Outcome Error (List ℕ)
  decompress_payload compress_id input =
      if compress_id == compress_none
      then ok input
      else if compress_id == compress_gzip
      then g.gzip_read input
      else if compress_id == compress_deflate
      then g.flate_read input
      else err (unsupported_compress_id compress_id)

  -- `encryptPayload`; `random` is what `rand.Read` made of the nonce.
  unfoldable pub encrypt_payload :
      (random : Outcome Error (List ℕ)) (key aad plaintext : List ℕ) → Outcome Error (List ℕ)
  encrypt_payload random key aad plaintext = do
    nonce ← random
    ok (nonce ++ g.seal key nonce plaintext aad)

  -- `decryptPayload`.
  unfoldable pub decrypt_payload : (key aad payload : List ℕ) → Outcome Error (List ℕ)
  decrypt_payload key aad payload =
      if ltb (length payload) (nonce_len + tag_len)
      then err encrypted_payload_too_short
      else opened (g.open_sealed key (take nonce_len payload) (drop nonce_len payload) aad)
