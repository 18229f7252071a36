-- ===== src/TinyFrame/Codec.antt =====
-- The crates that src/tiny_frame.rs calls: flate2 and chacha20poly1305. Their functions are a
-- parameter of the model, and `CodecLaws` is what their documentation promises.
use proto.Base.{ℕ, ◌+◌, ◌≡◌, Option, some, List, length, Outcome, ok}
use proto.TinyFrame.Types.{IoError, tag_len}

pub record Codec : Type 0 where
  -- `GzEncoder` and `DeflateEncoder` over a `Vec`: `write_all`, then `finish`.
  pub gzip_encode : List ℕ → Outcome IoError (List ℕ)
  pub deflate_encode : List ℕ → Outcome IoError (List ℕ)
  -- `GzDecoder` and `DeflateDecoder` over a slice: `read_to_end`.
  pub gzip_decode : List ℕ → Outcome IoError (List ℕ)
  pub deflate_decode : List ℕ → Outcome IoError (List ℕ)
  -- `ChaCha20Poly1305::encrypt` and `decrypt`: key, nonce, associated data, message.
  pub encrypt : List ℕ → List ℕ → List ℕ → List ℕ → Option (List ℕ)
  pub decrypt : List ℕ → List ℕ → List ℕ → List ℕ → Option (List ℕ)

pub record CodecLaws (c : Codec) : Type 0 where
  pub gzip_lossless : (d z : List ℕ) → c.gzip_encode d ≡ ok z → c.gzip_decode z ≡ ok d
  pub deflate_lossless : (d z : List ℕ) → c.deflate_encode d ≡ ok z → c.deflate_decode z ≡ ok d
  -- Decryption undoes encryption under the same key, nonce and associated data,
  pub decrypt_encrypt :
      (key nonce aad msg ct : List ℕ)
      → c.encrypt key nonce aad msg ≡ some ct
      → c.decrypt key nonce aad ct ≡ some msg
  -- and accepts nothing else: the tag is checked.
  pub encrypt_decrypt :
      (key nonce aad ct msg : List ℕ)
      → c.decrypt key nonce aad ct ≡ some msg
      → c.encrypt key nonce aad msg ≡ some ct
  -- The ciphertext is longer than the message by the tag.
  pub length_encrypt :
      (key nonce aad msg ct : List ℕ)
      → c.encrypt key nonce aad msg ≡ some ct
      → length ct ≡ length msg + tag_len
