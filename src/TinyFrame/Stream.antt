-- ===== src/TinyFrame/Stream.antt =====
-- src/tiny_frame.rs: frames on a byte stream. A stream to read is the bytes that will arrive and
-- the error behind them; a stream to write takes so many bytes before it fails.
pub mod Framing
pub mod Prefix
use proto.Base.{
  ℕ, Option, none, some, ◌-◌, ◌≡◌, List, [], ◌∷◌, ◌++◌, length, take, drop, leb, ltb, if◌then◌else◌,
  Outcome, ok, err, ◌>>=◌,
}
use proto.Base.Exec
use proto.Base.Exec.{Exec}
use proto.TinyFrame.Types.{IoError, Frame, compress_none}
use proto.TinyFrame.Bytes.{from_be_bytes}
use proto.TinyFrame.Codec.{Codec}
use proto.TinyFrame.Key.{KeyCell}
use proto.TinyFrame.Wire.{build_wire_frame, parse_wire_frame}

-- What a reader will get: `ending` is the error of a read that asks for more than `arriving`
-- (end of file where the peer has closed the stream).
pub record Source : Type 0 where
  pub arriving : List ℕ
  pub ending : IoError

-- `read_exact` into a buffer of `n` bytes.
unfoldable pub read_exact : ℕ → Source → Outcome IoError (List ℕ × Source)
read_exact n r =
    if leb n (length r.arriving)
    then ok (take n r.arriving, record r { arriving = drop n r.arriving })
    else err r.ending

-- `room` is how many more bytes the stream takes before it fails with `failure`.
pub record Sink : Type 0 where
  pub written : List ℕ
  pub flushed : List ℕ
  pub room : ℕ
  pub failure : IoError
  pub flush_failure : Option IoError

-- `write_all`: on an error, what fitted has been sent.
unfoldable pub write_all : List ℕ → Exec IoError Sink (Unit {0})
write_all buf w =
    if leb (length buf) w.room
    then (ok tt, record w { written = w.written ++ buf; room = w.room - length buf })
    else (err w.failure, record w { written = w.written ++ take w.room buf; room = 0 })

abbrev flush_with : Option IoError → Exec IoError Sink (Unit {0})
flush_with none w = (ok tt, record w { flushed = w.written })
flush_with (some e) w = (err e, w)

unfoldable pub flush : Exec IoError Sink (Unit {0})
flush w = flush_with w.flush_failure w

module _ (c : Codec) (cell : KeyCell) where
  -- `fn write_frame`.
  unfoldable pub write_frame :
      (nonce : List ℕ) (message_type tx_id : ℕ) (input : List ℕ) (flags : ℕ)
      → Exec IoError Sink (Unit {0})
  write_frame nonce message_type tx_id input flags =
      Exec.◌>>=◌ (Exec.lift (build_wire_frame c cell nonce message_type tx_id input flags))
        (λ buf. Exec.◌>>◌ (write_all buf) flush)

  -- `fn write_frame_blocking`.
  unfoldable pub write_frame_blocking :
      (nonce : List ℕ) (message_type tx_id : ℕ) (input : List ℕ) (flags : ℕ)
      → Exec IoError Sink (Unit {0})
  write_frame_blocking nonce message_type tx_id input flags =
      Exec.◌>>=◌ (Exec.lift (build_wire_frame c cell nonce message_type tx_id input flags))
        (λ buf. Exec.◌>>◌ (write_all buf) flush)

  -- `fn write_frame_plain`.
  unfoldable pub write_frame_plain :
      (nonce : List ℕ) (message_type tx_id : ℕ) (input : List ℕ) → Exec IoError Sink (Unit {0})
  unfolding write_frame
  write_frame_plain nonce message_type tx_id input =
      write_frame nonce message_type tx_id input compress_none

-- The end of `read_frame_header` and of `read_frame`: no read for an empty payload.
unfoldable pub read_payload : ℕ → Source → Outcome IoError (List ℕ × Source)
unfolding read_exact
read_payload len r = if ltb 0 len then read_exact len r else ok ([], r)

-- The first byte of a one-byte buffer, `header_buf[0]`.
abbrev pub first_byte : List ℕ → ℕ
first_byte [] = 0
first_byte (b ∷ bs) = b

-- `fn read_frame_header`.
unfoldable pub read_frame_header : Source → Outcome IoError ((ℕ × ℕ × List ℕ) × Source)
read_frame_header r = do
  (header_buf, r₁) ← read_exact 1 r
  (tx_bytes, r₂) ← read_exact 8 r₁
  (len_bytes, r₃) ← read_exact 2 r₂
  (payload, r₄) ← read_payload (from_be_bytes len_bytes) r₃
  ok ((first_byte header_buf, from_be_bytes tx_bytes, payload), r₄)

module _ (c : Codec) (cell : KeyCell) where
  -- `fn read_frame`, with the stream behind the frame.
  unfoldable pub read_frame : Source → Outcome IoError (Frame × Source)
  read_frame r = do
    (header_buf, r₁) ← read_exact 1 r
    (tx_bytes, r₂) ← read_exact 8 r₁
    (len_bytes, r₃) ← read_exact 2 r₂
    (payload, r₄) ← read_payload (from_be_bytes len_bytes) r₃
    frame ← parse_wire_frame c cell (first_byte header_buf) (from_be_bytes tx_bytes) payload
    ok (frame, r₄)

  -- `fn read_frame_blocking`.
  unfoldable pub read_frame_blocking : Source → Outcome IoError (Frame × Source)
  read_frame_blocking r = do
    (fields, r') ← read_frame_header r
    frame ← parse_wire_frame c cell fields.0 fields.1 fields.2
    ok (frame, r')
