-- ===== src/TinyFrame/Roundtrip.antt =====
-- src/tiny_frame.rs: what a reader gets of what a writer has sent.
use proto.Base.{
  append-nil, [], ◌∙◌, ap, arith, ℕ, ◌≡◌, ◌∙◌, sym, List, ◌++◌, length, ok, bind_assoc, arith,
}
use proto.TinyFrame.Types.{IsU8, IsU64, IoError, Frame, nonce_len}
use proto.TinyFrame.Header.{compress_id_of, is_encrypted}
use proto.TinyFrame.Codec.{Codec, CodecLaws}
use proto.TinyFrame.Key.{KeyCell}
use proto.TinyFrame.Wire.{build_wire_frame}
use proto.TinyFrame.Wire.Inverse.{build_wire_frame-Stages, parse_wire_frame-Stages}
use proto.TinyFrame.Stream.{
  write_frame_plain, Source, Sink, write_all, flush, write_frame, read_frame, read_frame_header,
  read_frame_blocking,
}
use proto.TinyFrame.Stream.Framing.{source, read_frame_header-frame_bytes}

-- The frame that a reader gets for what a writer was asked to send.
abbrev pub sent_frame : (message_type tx_id : ℕ) (input : List ℕ) (flags : ℕ) → Frame
sent_frame message_type tx_id input flags = record {
  message_type = message_type;
  compress_id = compress_id_of flags;
  encrypted = is_encrypted flags;
  tx_id = tx_id;
  payload = input;
}

-- A successful write sent one built frame, whole and flushed.
pub write_frame_sent :
    (c : Codec) (cell : KeyCell) (nonce : List ℕ) (m tx : ℕ) (input : List ℕ) (flags : ℕ)
    (w w' : Sink)
    → write_frame c cell nonce m tx input flags w ≡ (ok tt, w')
    → (buf : List ℕ) × (build_wire_frame c cell nonce m tx input flags ≡ ok buf)
      × (w'.written ≡ w.written ++ buf)
      × (w'.flushed ≡ w'.written)
unfolding write_frame write_all flush
write_frame_sent c cell nonce m tx input flags w w' e = ground arith

-- `read_frame` is `read_frame_header` and `parse_wire_frame`, as `read_frame_blocking` is: the two
-- readers give the same result on every stream.
pub read_frame-eq-blocking :
    (c : Codec) (cell : KeyCell) (r : Source) → read_frame c cell r ≡ read_frame_blocking c cell r
unfolding read_frame read_frame_blocking read_frame_header
read_frame-eq-blocking c cell r = sym (simp bind_assoc)

module _ (c : Codec) (laws : CodecLaws c) (cell : KeyCell) (nonce : List ℕ)
    (n : length nonce ≡ nonce_len) where
  pub read_frame-frame_bytes :
      (m tx : ℕ) (input : List ℕ) (flags : ℕ) (buf rest : List ℕ) (ending : IoError)
      → IsU8 flags
      → IsU64 tx
      → build_wire_frame c cell nonce m tx input flags ≡ ok buf
      → read_frame c cell (source (buf ++ rest) ending)
        ≡ ok (sent_frame m tx input flags, source rest ending)
  read_frame-frame_bytes m tx input flags buf rest ending hf ht e =
      let s = build_wire_frame-Stages c cell nonce m tx input flags buf e in
      read_frame-eq-blocking c cell (source (buf ++ rest) ending)
      ∙ rw s.bytes (
          unfold read_frame_blocking in
          rw (
            read_frame_header-frame_bytes ending s.header tx s.payload rest ht s.fits,
            parse_wire_frame-Stages c laws cell nonce m tx input flags buf hf n s,
          ))

  -- A frame that was written without an error is what stands in the stream behind what was there,
  -- flushed; and a reader that gets those bytes and any others behind them reads the type, the
  -- transaction id, the compression, the encryption bit and the data that the writer was given, and
  -- leaves the others. For every compression and encryption flag, under the same key.
  pub read_frame-write_frame :
      (m tx : ℕ) (input : List ℕ) (flags : ℕ) (w w' : Sink) (rest : List ℕ) (ending : IoError)
      → IsU8 flags
      → IsU64 tx
      → write_frame c cell nonce m tx input flags w ≡ (ok tt, w')
      → (buf : List ℕ) × (w'.written ≡ w.written ++ buf)
        × (w'.flushed ≡ w'.written)
        × (read_frame c cell (source (buf ++ rest) ending)
            ≡ ok (sent_frame m tx input flags, source rest ending))
  read_frame-write_frame m tx input flags w w' rest ending hf ht e =
      let (buf, built, sent, flushed) = write_frame_sent c cell nonce m tx input flags w w' e in
      (buf, sent, flushed, read_frame-frame_bytes m tx input flags buf rest ending hf ht built)

  -- The same for a frame on a connection of its own: nothing had been written, and nothing follows.
  pub written_alone :
      (m tx : ℕ) (input : List ℕ) (flags : ℕ) (w w' : Sink) (ending : IoError)
      → IsU8 flags
      → IsU64 tx
      → w.written ≡ []
      → write_frame c cell nonce m tx input flags w ≡ (ok tt, w')
      → read_frame c cell (source w'.written ending)
        ≡ ok (sent_frame m tx input flags, source [] ending)
  written_alone m tx input flags w w' ending hf ht clean sent =
      let (buf, written, _, read) =
        read_frame-write_frame m tx input flags w w' [] ending hf ht sent in
      let all : w'.written ≡ buf ++ [] =
        written ∙ ap (λ xs. xs ++ buf) clean ∙ sym (append-nil buf) in
      rw all read

  pub plain_alone :
      (m tx : ℕ) (input : List ℕ) (w w' : Sink) (ending : IoError)
      → IsU64 tx
      → w.written ≡ []
      → write_frame_plain c cell nonce m tx input w ≡ (ok tt, w')
      → read_frame c cell (source w'.written ending)
        ≡ ok (sent_frame m tx input 0, source [] ending)
  plain_alone m tx input w w' ending ht clean sent =
      written_alone m tx input 0 w w' ending (omega arith) ht clean
        (unfold write_frame_plain in sent)
