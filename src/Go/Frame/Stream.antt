-- ===== src/Go/Frame/Stream.antt =====
-- tinyframe/frame.go: frames on an `io.Writer` and from an `io.Reader`.
use proto.Base.{
  ℕ, ◌-◌, ◌%◌, ◌^◌, ◌/◌, Bool, not, bit_and, List, [], ◌∷◌, ◌++◌, Option, none, some, ltb, leb,
  ◌==◌, if◌then◌else◌, length, take, drop, Outcome, ok, err, ◌>>=◌,
}
use proto.Base.Exec
use proto.Base.Exec.{Exec}
use proto.TinyFrame.Bytes.{to_be_bytes, from_be_bytes}
use proto.Go.Frame.Types.{
  Error, encryption_requires_key, encrypted_frame_requires_key, payload_length_exceeds_uint16, eof,
  unexpected_eof, Frame, compress_none, compress_mask, flags_mask, chacha20poly1305,
}
use proto.Go.Frame.Codec.{Codec}
use proto.Go.Frame.Key.{KeyState, require_encrypt_key}
use proto.Go.Frame.Payload.{
  pack_header_byte, aead_aad, compress_payload, decompress_payload, encrypt_payload,
  decrypt_payload,
}

-- A writer takes `room` more bytes before it fails. `flusher` is its `Flush` method, if it has one,
-- with the error that the method returns.
pub record Writer : Type 0 where
  pub written : List ℕ
  pub flushed : List ℕ
  pub room : ℕ
  pub failure : Error
  pub flusher : Option (Option Error)

-- `w.Write`: on an error, what fitted has been sent.
unfoldable pub write : List ℕ → Exec Error Writer (Unit {0})
write buf w =
    if leb (length buf) w.room
    then (ok tt, record w { written = w.written ++ buf; room = w.room - length buf })
    else (err w.failure, record w { written = w.written ++ take w.room buf; room = 0 })

abbrev flush_by : Option (Option Error) → Exec Error Writer (Unit {0})
flush_by none w = (ok tt, w)
flush_by (some none) w = (ok tt, record w { flushed = w.written })
flush_by (some (some e)) w = (err e, w)

-- The end of `WriteFrameWithKey`: `Flush` only if the writer has one.
unfoldable pub flush : Exec Error Writer (Unit {0})
flush w = flush_by w.flusher w

-- What a reader will get, and the error behind it.
pub record Reader : Type 0 where
  pub arriving : List ℕ
  pub ending : Error

-- The error of `io.ReadFull`: the end behind some bytes is not the end behind none.
abbrev cut_short : List ℕ → Error → Error
cut_short (b ∷ bs) eof = unexpected_eof
cut_short _ e = e

-- `io.ReadFull` into a buffer of `n` bytes.
unfoldable pub read_full : ℕ → Reader → Outcome Error (List ℕ × Reader)
read_full n r =
    if leb n (length r.arriving)
    then ok (take n r.arriving, record r { arriving = drop n r.arriving })
    else err (cut_short r.arriving r.ending)

-- `readFrame`'s read of the payload: none if it is empty.
unfoldable pub read_payload : ℕ → Reader → Outcome Error (List ℕ × Reader)
unfolding read_full
read_payload n r = if ltb 0 n then read_full n r else ok ([], r)

abbrev pub first_byte : List ℕ → ℕ
first_byte [] = 0
first_byte (b ∷ bs) = b

abbrev pub is_encrypted : ℕ → Bool
is_encrypted flags = not (bit_and flags chacha20poly1305 == 0)

-- `key == nil`.
abbrev pub non_nil : Error → Option (List ℕ) → Outcome Error (List ℕ)
non_nil missing none = err missing
non_nil missing (some key) = ok key

-- The buffer of `WriteFrameWithKey`.
abbrev pub frame_bytes : (header tx_id : ℕ) (payload : List ℕ) → List ℕ
frame_bytes header tx_id payload =
    header ∷ (to_be_bytes 8 tx_id ++ (to_be_bytes 2 (length payload % 2 ^ 16) ++ payload))

module _ (g : Codec) where
  -- The encryption step of `WriteFrameWithKey`.
  unfoldable pub seal :
      (random : Outcome Error (List ℕ)) (key : Option (List ℕ)) (encrypted : Bool)
      (header tx_id : ℕ) (payload : List ℕ)
      → Outcome Error (List ℕ)
  seal random key encrypted header tx_id payload =
      if encrypted
      then (do
        k ← non_nil encryption_requires_key key
        encrypt_payload g random k (aead_aad header tx_id) payload)
      else ok payload

  -- `WriteFrameWithKey` before it writes.
  unfoldable pub build_frame :
      (random : Outcome Error (List ℕ)) (message_type tx_id : ℕ) (input : List ℕ) (flags : ℕ)
      (key : Option (List ℕ))
      → Outcome Error (List ℕ)
  build_frame random message_type tx_id input flags key = do
    header ← pack_header_byte message_type flags
    compressed ← compress_payload g (bit_and flags compress_mask) input
    payload ← seal random key (is_encrypted flags) header tx_id compressed
    if ltb 0xffff (length payload)
        then err payload_length_exceeds_uint16
        else ok (frame_bytes header tx_id payload)

  -- `WriteFrameWithKey`.
  unfoldable pub write_frame_with_key :
      (random : Outcome Error (List ℕ)) (message_type tx_id : ℕ) (input : List ℕ) (flags : ℕ)
      (key : Option (List ℕ))
      → Exec Error Writer (Unit {0})
  write_frame_with_key random message_type tx_id input flags key =
      Exec.◌>>=◌ (Exec.lift (build_frame random message_type tx_id input flags key))
        (λ buf. Exec.◌>>◌ (write buf) flush)

  -- `WriteFrame`: the key is fetched before anything else.
  unfoldable pub write_frame :
      KeyState
      → (random : Outcome Error (List ℕ)) (message_type tx_id : ℕ) (input : List ℕ) (flags : ℕ)
      → Exec Error Writer (Unit {0})
  write_frame k random message_type tx_id input flags =
      Exec.◌>>=◌
        (Exec.lift
          (if is_encrypted flags then (do key ← require_encrypt_key k; ok (some key)) else ok none))
        (λ key. write_frame_with_key random message_type tx_id input flags key)

  -- `WriteFramePlain`.
  unfoldable pub write_frame_plain :
      KeyState
      → (random : Outcome Error (List ℕ)) (message_type tx_id : ℕ) (input : List ℕ)
      → Exec Error Writer (Unit {0})
  write_frame_plain k random message_type tx_id input =
      write_frame k random message_type tx_id input compress_none

  -- The decryption step of `readFrame`; `fetched` is the key, or what kept it away.
  unfoldable pub unseal :
      (fetched : Outcome Error (List ℕ)) (encrypted : Bool) (header tx_id : ℕ) (payload : List ℕ)
      → Outcome Error (List ℕ)
  unseal fetched encrypted header tx_id payload =
      if encrypted
      then (do k ← fetched; decrypt_payload g k (aead_aad header tx_id) payload)
      else ok payload

  -- `readFrame` behind its reads.
  unfoldable pub parse_frame :
      (fetched : Outcome Error (List ℕ)) (header tx_id : ℕ) (payload : List ℕ) → Outcome Error Frame
  parse_frame fetched header tx_id payload = do
    let flags = bit_and header flags_mask
    plain ← unseal fetched (is_encrypted flags) header tx_id payload
    output ← decompress_payload g (bit_and flags compress_mask) plain
    ok (record {
      message_type = header / 2 ^ 3;
      compress_id = bit_and flags compress_mask;
      encrypted = is_encrypted flags;
      tx_id = tx_id;
      payload = output;
    })

  -- `readFrame`, with the stream behind the frame.
  unfoldable pub read_any :
      (fetched : Outcome Error (List ℕ)) → Reader → Outcome Error (Frame × Reader)
  read_any fetched r = do
    (header_buf, r₁) ← read_full 1 r
    (tx_buf, r₂) ← read_full 8 r₁
    (len_buf, r₃) ← read_full 2 r₂
    (payload, r₄) ← read_payload (from_be_bytes len_buf) r₃
    frame ← parse_frame fetched (first_byte header_buf) (from_be_bytes tx_buf) payload
    ok (frame, r₄)

  -- `ReadFrame`: the global key.
  unfoldable pub read_frame : KeyState → Reader → Outcome Error (Frame × Reader)
  read_frame k r = read_any (require_encrypt_key k) r

  -- `ReadFrameWithKey`.
  unfoldable pub read_frame_with_key :
      (key : Option (List ℕ)) → Reader → Outcome Error (Frame × Reader)
  read_frame_with_key key r = read_any (non_nil encrypted_frame_requires_key key) r
