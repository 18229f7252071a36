-- ===== src/Go/Frame/Interop.antt =====
-- tinyframe/frame.go and src/tiny_frame.rs at the two ends of one stream.
use proto.Base.{ℕ, ◌≡◌, refl, sym, ap, ◌∙◌, List, ◌++◌, length, Option, none, some, Outcome, ok}
use proto.Base.Agreement.{Agrees-ok, ok-Agrees, Equal}
use proto.TinyFrame.Types.{IoError, IsU8, IsU64, nonce_len}
use proto.TinyFrame.Codec.{CodecLaws}
use proto.TinyFrame.Codec
use proto.TinyFrame.Key.{KeyCell}
use proto.TinyFrame.Payload
use proto.TinyFrame.Wire
use proto.TinyFrame.Stream.{Source, Sink}
use proto.TinyFrame.Stream
use proto.TinyFrame.Stream.Framing.{source}
use proto.TinyFrame.Roundtrip.{sent_frame, read_frame-write_frame}
use proto.Go.Frame.Types.{Error, Frame}
use proto.Go.Frame.Codec.{Codec}
use proto.Go.Frame.Stream.{Writer, Reader, write_frame_with_key, read_frame_with_key}
use proto.Go.Frame.Agrees.{as_error, as_codec, as_frame}
use proto.Go.Frame.Agrees.Reading.{SameFrame, read_frame_with_key-Agrees}
use proto.Go.Frame.Agrees.Writing.{
  SameOutput, go_flush_fails, flush_fails, write_frame_with_key-Agrees,
}

-- One library packs and another unpacks. The laws of this codec are what the two owe one another:
-- the formats are standards, RFC 1951, 1952 and 8439.
abbrev pub between : Codec.Codec → Codec.Codec → Codec.Codec
between writer reader = record {
  gzip_encode = writer.gzip_encode;
  deflate_encode = writer.deflate_encode;
  gzip_decode = reader.gzip_decode;
  deflate_decode = reader.deflate_decode;
  encrypt = writer.encrypt;
  decrypt = reader.decrypt;
}

module _ (c d : Codec.Codec) (cell : KeyCell) where
  written_between :
      (nonce : List ℕ) (m tx : ℕ) (input : List ℕ) (flags : ℕ) (w : Sink)
      → Stream.write_frame (between c d) cell nonce m tx input flags w
        ≡ Stream.write_frame c cell nonce m tx input flags w
  unfolding Stream.write_frame Wire.build_wire_frame Wire.seal Payload.compress_payload
      Payload.encrypt_payload
  written_between nonce m tx input flags w = refl

  pub read_between :
      (r : Source) → Stream.read_frame (between c d) cell r ≡ Stream.read_frame d cell r
  unfolding Stream.read_frame Wire.parse_wire_frame Wire.unseal Payload.decompress_payload
      Payload.decrypt_payload
  read_between r = refl

abbrev flush_failure_of : Option (Option Error) → Option IoError
flush_failure_of (some (some e)) = some (as_error e)
flush_failure_of _ = none

abbrev pub as_sink : Writer → Sink
as_sink w = record {
  written = w.written;
  flushed = w.flushed;
  room = w.room;
  failure = as_error w.failure;
  flush_failure = flush_failure_of w.flusher;
}

as_sink-Same : (w : Writer) → SameOutput w (as_sink w)
as_sink-Same w = (refl, refl, fails w.flusher)
  where
    fails : (f : Option (Option Error)) → go_flush_fails f ≡ flush_fails (flush_failure_of f)
    fails none = refl
    fails (some none) = refl
    fails (some (some e)) = refl

abbrev pub reader : List ℕ → Error → Reader
reader arriving ending = record { arriving = arriving; ending = ending }

module _ (g : Codec) (c : Codec.Codec) (key nonce : List ℕ) (n : length nonce ≡ nonce_len) where
  -- What the Go package wrote with a key, without an error, is a frame behind what was there, and
  -- `read_frame` of the crate with that key reads from it the type, the transaction id, the
  -- compression, the encryption bit and the data that the Go writer was given, and leaves what
  -- follows. (What Go's codecs pack, the crate's unpack.)
  pub read_frame-write_frame_with_key :
      CodecLaws (between (as_codec g) c)
      → (m tx : ℕ) (input : List ℕ) (flags : ℕ) (w w' : Writer) (rest : List ℕ) (ending : IoError)
      → IsU8 flags
      → IsU64 tx
      → write_frame_with_key g (ok nonce) m tx input flags (some key) w ≡ (ok tt, w')
      → (buf : List ℕ) × (w'.written ≡ w.written ++ buf)
        × (Stream.read_frame c (some (some key)) (source (buf ++ rest) ending)
            ≡ ok (sent_frame m tx input flags, source rest ending))
  read_frame-write_frame_with_key laws m tx input flags w w' rest ending hf ht sent =
      let cell : KeyCell = some (some key) in
      let rust = Stream.write_frame (as_codec g) cell nonce m tx input flags (as_sink w) in
      let (agrees, outputs) =
        write_frame_with_key-Agrees g nonce key m tx input flags w (as_sink w) (as_sink-Same w) in
      let (_, done, _) =
        ok-Agrees Equal _ rust.0 tt agrees
          (ap (λ (p : Outcome Error (Unit {0}) × Writer). p.0) sent) in
      let (buf, behind, _, read) =
        read_frame-write_frame (between (as_codec g) c) laws cell nonce n m tx input flags
          (as_sink w) rust.1 rest ending hf ht
          (written_between (as_codec g) c cell nonce m tx input flags (as_sink w) ∙ λ i.
            (done i, rust.1)) in
      (
        buf,
        sym (ap (λ (p : Outcome Error (Unit {0}) × Writer). p.1.written) sent) ∙ outputs.0 ∙ behind,
        sym (read_between (as_codec g) c cell (source (buf ++ rest) ending)) ∙ read,
      )

  -- What the crate wrote with a key in its cell, without an error, is a frame behind what was there,
  -- and the Go reader with that key reads from it the type, the transaction id, the compression, the
  -- encryption bit and the data that the writer was given, and leaves what follows. (What the
  -- crate's codecs pack, Go's unpack.)
  pub read_frame_with_key-write_frame :
      CodecLaws (between c (as_codec g))
      → (m tx : ℕ) (input : List ℕ) (flags : ℕ) (w w' : Sink) (rest : List ℕ) (ending : Error)
      → IsU8 flags
      → IsU64 tx
      → Stream.write_frame c (some (some key)) nonce m tx input flags w ≡ (ok tt, w')
      → (buf : List ℕ) × (w'.written ≡ w.written ++ buf)
        × (frame : Frame) × (r : Reader) × (read_frame_with_key g
              (some key)
              (reader (buf ++ rest) ending)
            ≡ ok (frame, r))
        × (as_frame frame ≡ sent_frame m tx input flags)
        × (r.arriving ≡ rest)
  read_frame_with_key-write_frame laws m tx input flags w w' rest ending hf ht sent =
      let cell : KeyCell = some (some key) in
      let (buf, behind, _, read) =
        read_frame-write_frame (between c (as_codec g)) laws cell nonce n m tx input flags w w' rest
          (as_error ending) hf ht
          (written_between c (as_codec g) cell nonce m tx input flags w ∙ sent) in
      let bytes = source (buf ++ rest) (as_error ending) in
      let ((frame, r), got, same) =
        Agrees-ok SameFrame _ _ (sent_frame m tx input flags, source rest (as_error ending))
          (read_frame_with_key-Agrees g key (reader (buf ++ rest) ending) bytes refl)
          (sym (read_between c (as_codec g) cell bytes) ∙ read) in
      (buf, behind, frame, r, got, same.0, same.1)
