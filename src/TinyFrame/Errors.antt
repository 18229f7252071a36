-- ===== src/TinyFrame/Errors.antt =====
-- src/tiny_frame.rs: which frames are refused, and how.
use proto.Base.{
  ℕ, ◌+◌, ◌-◌, ◌*◌, ◌%◌, ◌^◌, ◌≤◌, ◌<◌, ◌≡◌, ◌≢◌, ◌∙◌, true, none, some, List, ◌++◌, length,
  length-append, ok, err, panicked, key_not_configured, key_is_none, arith,
}
use proto.Base.Exec
use proto.TinyFrame.Types.{
  IsU8, IoError, io_error, invalid_input, payload_length_exceeds_u16, nonce_len, chacha20poly1305,
  u16_max,
}
use proto.TinyFrame.Header.{is_encrypted, compress_id_of}
use proto.TinyFrame.Header.Bits.{pack_header_byte_ok, pack_header_byte_refused}
use proto.TinyFrame.Bytes.{to_be_bytes, length-to_be_bytes}
use proto.TinyFrame.Codec.{Codec, CodecLaws}
use proto.TinyFrame.Key.{KeyCell, unset, require_encrypt_key}
use proto.TinyFrame.Payload.{compress_payload, encrypt_payload, aead_aad}
use proto.TinyFrame.Wire.{seal, build_wire_frame, frame_bytes}
use proto.TinyFrame.Stream.{Sink, write_all, flush, write_frame, write_frame_plain}

pub length-frame_bytes :
    (header tx : ℕ) (payload : List ℕ)
    → length (frame_bytes header tx payload) ≡ length payload + 11
length-frame_bytes header tx payload = omega (
  arith,
  length-append (to_be_bytes 8 tx) (to_be_bytes 2 (length payload % 2 ^ 16) ++ payload),
  length-append (to_be_bytes 2 (length payload % 2 ^ 16)) payload,
  length-to_be_bytes 8 tx,
  length-to_be_bytes 2 (length payload % 2 ^ 16),
)

pub write_all-flush :
    (buf : List ℕ) (w : Sink)
    → length buf ≤ w.room
    → w.flush_failure ≡ none
    → Exec.◌>>◌ (write_all buf) flush w ≡ (
      ok tt,
      record w {
        written = w.written ++ buf;
        flushed = w.written ++ buf;
        room = w.room - length buf;
      },
    )
unfolding write_all flush
write_all-flush buf w room flushes = ground arith

module _ (c : Codec) (cell : KeyCell) (nonce : List ℕ) where
  -- A plain frame of a five-bit type and at most 65535 bytes is always built, whatever the codecs
  -- and the key are.
  build_plain :
      (m tx : ℕ) (input : List ℕ)
      → m < 32
      → length input ≤ u16_max
      → build_wire_frame c cell nonce m tx input 0 ≡ ok (frame_bytes (m * 8) tx input)
  unfolding build_wire_frame compress_payload seal
  build_plain m tx input hm fits =
      rw (pack_header_byte_ok m 0 hm (omega arith) (omega arith)) (ground arith)

  -- A plain frame whose type is below 32 and whose data is at most 65535 bytes is written, whatever
  -- the codecs and the key are, on a stream that has room for its 11 + n bytes and can be flushed.
  pub write_frame_plain_total :
      (m tx : ℕ) (input : List ℕ) (w : Sink)
      → m < 32
      → length input ≤ u16_max
      → length input + 11 ≤ w.room
      → w.flush_failure ≡ none
      → write_frame_plain c cell nonce m tx input w ≡ (
        ok tt,
        record w {
          written = w.written ++ frame_bytes (m * 8) tx input;
          flushed = w.written ++ frame_bytes (m * 8) tx input;
          room = w.room - (length input + 11);
        },
      )
  unfolding write_frame_plain
  write_frame_plain_total m tx input w hm fits room flushes =
      let size = length-frame_bytes (m * 8) tx input in
      rw (build_plain m tx input hm fits)
        (write_all-flush (frame_bytes (m * 8) tx input) w (omega (arith, size)) flushes ∙ rw size)

  -- A frame is refused as invalid input, and nothing is sent, if its type takes more than five
  -- bits, its flags take more than three, or they name the unknown algorithm 3.
  pub write_frame_refused :
      (m tx : ℕ) (input : List ℕ) (flags : ℕ) (w : Sink)
      → IsU8 flags
      → ¬ ((m < 32) × (flags < 8) × (flags % 4 ≢ 3))
      → (e : IoError) × (write_frame c cell nonce m tx input flags w ≡ (err e, w))
        × (e.kind ≡ invalid_input)
  unfolding write_frame build_wire_frame
  write_frame_refused m tx input flags w hf bad =
      let (e, refused, kind) = pack_header_byte_refused m flags hf bad in (e, rw refused, kind)

  -- An encrypted frame that is otherwise good does not come about without a key: the writer panics
  -- and sends nothing, for each way in which the key can be missing.
  pub write_frame_without_key :
      (m tx : ℕ) (input compressed : List ℕ) (flags : ℕ) (w : Sink)
      → m < 32
      → flags < 8
      → flags % 4 ≢ 3
      → is_encrypted flags ≡ true
      → compress_payload c (compress_id_of flags) input ≡ ok compressed
      → (cell ≡ unset
          → write_frame c cell nonce m tx input flags w ≡ (panicked key_not_configured, w))
        × (cell ≡ some none
            → write_frame c cell nonce m tx input flags w ≡ (panicked key_is_none, w))
  unfolding write_frame build_wire_frame seal require_encrypt_key
  write_frame_without_key m tx input compressed flags w hm hf known crypt squeezed =
      let packed = pack_header_byte_ok m flags hm hf known in
      (λ e. rw (packed, squeezed, crypt, e), λ e. rw (packed, squeezed, crypt, e))

module _ (c : Codec) (laws : CodecLaws c) (cell : KeyCell) (key nonce : List ℕ) where
  -- With a key, an encrypted frame without compression carries at most 65507 bytes of data, 28 less
  -- than a plain one: up to that it is built, and above it is refused as invalid input with nothing
  -- sent.
  pub encrypted_limit :
      (m tx : ℕ) (input ct : List ℕ) (w : Sink)
      → cell ≡ some (some key)
      → length nonce ≡ nonce_len
      → m < 32
      → c.encrypt key nonce (aead_aad (m * 8 + 4) tx) input ≡ some ct
      → (length input ≤ 65507
          → build_wire_frame c cell nonce m tx input chacha20poly1305
            ≡ ok (frame_bytes (m * 8 + 4) tx (nonce ++ ct)))
        × (65507 < length input
            → write_frame c cell nonce m tx input chacha20poly1305 w
              ≡ (err (io_error invalid_input payload_length_exceeds_u16), w))
  unfolding write_frame build_wire_frame compress_payload seal require_encrypt_key encrypt_payload
  encrypted_limit m tx input ct w known n hm sealed =
      let packed = pack_header_byte_ok m chacha20poly1305 hm (omega arith) (omega arith) in
      let size : length (nonce ++ ct) ≡ length input + 28 =
        omega (arith, length-append nonce ct, laws.length_encrypt key nonce _ input ct sealed) in
      (
        λ small. rw (packed, known, sealed) (ground (arith, size)),
        λ large. rw (packed, known, sealed) (ground (arith, size)),
      )
