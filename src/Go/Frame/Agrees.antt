-- ===== src/Go/Frame/Agrees.antt =====
-- tinyframe/frame.go beside src/tiny_frame.rs: the two packages on the same key and bytes, first with
-- the same codecs, and in Codecs each with its own.
pub mod Reading
pub mod Writing
pub mod Codecs
use proto.Base.{
  ℕ, ◌≡◌, refl, Bool, true, false, List, Option, none, some, Outcome, ok, err, panicked, arith,
}
use proto.Base.Agreement.{Agrees, Equal}
use proto.Base.Exec
use proto.TinyFrame.Types.{IoError, io_error, other, foreign}
use proto.TinyFrame.Types
use proto.TinyFrame.Codec
use proto.TinyFrame.Key.{KeyCell}
use proto.TinyFrame.Key
use proto.TinyFrame.Header
use proto.TinyFrame.Payload
use proto.TinyFrame.Wire
use proto.TinyFrame.Stream.{Source, Sink}
use proto.TinyFrame.Stream
use proto.Go.Frame.Types.{Error, Frame}
use proto.Go.Frame.Codec.{Codec}
use proto.Go.Frame.Key.{KeyState, required, require_encrypt_key}
use proto.Go.Frame.Payload.{
  pack_header_byte, compress_payload, decompress_payload, encrypt_payload, decrypt_payload,
}
use proto.Go.Frame.Stream.{
  Writer, write, flush, Reader, read_full, read_payload, seal, build_frame, write_frame_with_key,
  write_frame, unseal, parse_frame, read_any, read_frame, read_frame_with_key,
}

-- The text of an error is not compared.
abbrev pub as_error : Error → IoError
as_error e = io_error other (foreign "")

abbrev as_outcome : Outcome Error (List ℕ) → Outcome IoError (List ℕ)
as_outcome (ok bytes) = ok bytes
as_outcome (err e) = err (as_error e)
as_outcome (panicked p) = panicked p

-- Go's codecs, as the Rust model takes them.
abbrev pub as_codec : Codec → Codec.Codec
as_codec g = record {
  gzip_encode = λ d. as_outcome (g.gzip_write d);
  deflate_encode = λ d. as_outcome (g.flate_write d);
  gzip_decode = λ d. as_outcome (g.gzip_read d);
  deflate_decode = λ d. as_outcome (g.flate_read d);
  encrypt = λ key nonce aad msg. some (g.seal key nonce msg aad);
  decrypt = λ key nonce aad ct. g.open_sealed key nonce ct aad;
}

-- The two variables of Go as Rust's cell.
abbrev pub cell_of : Bool → Option (List ℕ) → KeyCell
cell_of false key = none
cell_of true key = some key

abbrev pub as_cell : KeyState → KeyCell
as_cell k = cell_of k.encrypt_key_set k.encrypt_key

abbrev pub as_frame : Frame → Types.Frame
as_frame f = record {
  message_type = f.message_type;
  compress_id = f.compress_id;
  encrypted = f.encrypted;
  tx_id = f.tx_id;
  payload = f.payload;
}

as_outcome-Agrees : (m : Outcome Error (List ℕ)) → Agrees Equal m (as_outcome m)
as_outcome-Agrees (ok bytes) = refl
as_outcome-Agrees (err e) = tt
as_outcome-Agrees (panicked p) = refl

pub pack_header_byte-Agrees :
    (m flags : ℕ) → Agrees Equal (pack_header_byte m flags) (Header.pack_header_byte m flags)
unfolding pack_header_byte Header.pack_header_byte
pack_header_byte-Agrees m flags = ground arith

pub require_encrypt_key-Agrees :
    (k : KeyState)
    → Agrees {E = Error} {F = IoError} Equal
        (require_encrypt_key k)
        (Key.require_encrypt_key (as_cell k))
unfolding require_encrypt_key Key.require_encrypt_key
require_encrypt_key-Agrees k = by_parts k.encrypt_key_set k.encrypt_key
  where
    by_parts :
        (set : Bool) (key : Option (List ℕ))
        → Agrees {E = Error} {F = IoError} Equal
            (required set key)
            (Key.require_encrypt_key (cell_of set key))
    by_parts false key = refl
    by_parts true none = refl
    by_parts true (some key) = refl

module _ (g : Codec) where
  pub compress_payload-Agrees :
      (id : ℕ) (input : List ℕ)
      → Agrees Equal (compress_payload g id input) (Payload.compress_payload (as_codec g) id input)
  unfolding compress_payload Payload.compress_payload
  compress_payload-Agrees id input =
      ground
        (arith, as_outcome-Agrees (g.gzip_write input), as_outcome-Agrees (g.flate_write input))

  pub decompress_payload-Agrees :
      (id : ℕ) (input : List ℕ)
      → Agrees Equal
          (decompress_payload g id input)
          (Payload.decompress_payload (as_codec g) id input)
  unfolding decompress_payload Payload.decompress_payload
  decompress_payload-Agrees id input =
      ground (arith, as_outcome-Agrees (g.gzip_read input), as_outcome-Agrees (g.flate_read input))

  pub decrypt_payload-Agrees :
      (key aad payload : List ℕ)
      → Agrees Equal
          (decrypt_payload g key aad payload)
          (Payload.decrypt_payload (as_codec g) key aad payload)
  unfolding decrypt_payload Payload.decrypt_payload
  decrypt_payload-Agrees key aad payload = ground arith
