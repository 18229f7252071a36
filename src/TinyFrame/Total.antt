-- ===== src/TinyFrame/Total.antt =====
-- src/tiny_frame.rs: encrypted frames that are written, come what may.
use proto.Base.{
  ℕ, ◌+◌, ◌*◌, ◌-◌, ◌≤◌, ◌<◌, ◌≡◌, refl, none, some, List, ◌++◌, length, length-append, ok, arith,
}
use proto.TinyFrame.Types.{nonce_len, chacha20poly1305}
use proto.TinyFrame.Codec.{Codec, CodecLaws}
use proto.TinyFrame.Key.{KeyCell}
use proto.TinyFrame.Payload.{aead_aad}
use proto.TinyFrame.Wire.{build_wire_frame, frame_bytes}
use proto.TinyFrame.Stream.{Sink, write_frame}
use proto.TinyFrame.Errors.{encrypted_limit, length-frame_bytes, write_all-flush}

-- The longest data of an encrypted frame without compression.
abbrev pub max_encrypted : ℕ
max_encrypted = 65507

-- The cipher fails on no data that fits into a frame.
abbrev pub Encrypts : Codec → (key nonce : List ℕ) → Type 0
Encrypts c key nonce =
    (aad msg : List ℕ)
    → length msg ≤ max_encrypted
    → (ct : List ℕ) × (c.encrypt key nonce aad msg ≡ some ct)

-- A stream with room for `n` more bytes that can be flushed.
abbrev pub Takes : ℕ → Sink → Type 0
Takes n w = (n ≤ w.room) × (w.flush_failure ≡ none)

-- The stream behind a write of these bytes.
abbrev pub with_bytes : List ℕ → Sink → Sink
with_bytes buf w = record w {
  written = w.written ++ buf;
  flushed = w.written ++ buf;
  room = w.room - length buf;
}

module _ (c : Codec) (laws : CodecLaws c) (key nonce : List ℕ) (n : length nonce ≡ nonce_len)
    (encrypts : Encrypts c key nonce) where
  -- An encrypted frame of a five-bit type with data that fits is written on such a stream.
  pub write_encrypted_total :
      (m tx : ℕ) (input : List ℕ) (w : Sink)
      → m < 32
      → length input ≤ max_encrypted
      → Takes (length input + 39) w
      → (buf : List ℕ) × (write_frame c (some (some key)) nonce m tx input chacha20poly1305 w
          ≡ (ok tt, with_bytes buf w))
  unfolding write_frame
  write_encrypted_total m tx input w hm fits (room, flushes) =
      let (ct, sealed) = encrypts (aead_aad (m * 8 + 4) tx) input fits in
      let cell : KeyCell = some (some key) in
      let built : build_wire_frame c cell nonce m tx input chacha20poly1305
          ≡ ok (frame_bytes (m * 8 + 4) tx (nonce ++ ct)) =
        (encrypted_limit c laws cell key nonce m tx input ct w refl n hm sealed).0 fits in
      let size : length (frame_bytes (m * 8 + 4) tx (nonce ++ ct)) ≡ length input + 39 = omega (
        arith,
        length-frame_bytes (m * 8 + 4) tx (nonce ++ ct),
        length-append nonce ct,
        laws.length_encrypt key nonce _ input ct sealed,
        n,
      ) in
      (
        frame_bytes (m * 8 + 4) tx (nonce ++ ct),
        rw built (write_all-flush _ w (omega (arith, size, room)) flushes),
      )
