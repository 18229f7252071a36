-- ===== src/Go/Samples.antt =====
-- A concrete codec, reader and writer of the Go packages, for the tests: what it packs, the codec of
-- TinyFrame.Samples unpacks, and the other way.
use proto.Base.{ℕ, ◌==◌, if◌then◌else◌, none, List, [], ◌∷◌, Outcome, ok, err, arith}
use proto.TinyFrame.Codec.{CodecLaws}
use proto.TinyFrame.Samples.{marking, marking_laws, zeros, strip_zeros}
use proto.Go.Frame.Types.{Error, foreign}
use proto.Go.Frame.Codec.{Codec}
use proto.Go.Frame.Stream.{Writer}
use proto.Go.Frame.Agrees.{as_codec}
use proto.Go.Frame.Interop.{between}

abbrev pub unmark : ℕ → List ℕ → Outcome Error (List ℕ)
unmark mark [] = err (foreign "EOF")
unmark mark (b ∷ xs) = if b == mark then ok xs else err (foreign "invalid header")

abbrev pub go_marking : Codec
go_marking = record {
  gzip_write = λ d. ok (1 ∷ d);
  flate_write = λ d. ok (2 ∷ d);
  gzip_read = unmark 1;
  flate_read = unmark 2;
  seal = λ key nonce msg aad. zeros 16 msg;
  open_sealed = λ key nonce ct aad. strip_zeros 16 ct;
}

pub to_crate : CodecLaws (between (as_codec go_marking) marking)
to_crate = record {
  gzip_lossless = marking_laws.gzip_lossless;
  deflate_lossless = marking_laws.deflate_lossless;
  decrypt_encrypt = marking_laws.decrypt_encrypt;
  encrypt_decrypt = marking_laws.encrypt_decrypt;
  length_encrypt = marking_laws.length_encrypt;
}

pub to_go : CodecLaws (between marking (as_codec go_marking))
to_go = record {
  gzip_lossless = λ d z e. ground arith;
  deflate_lossless = λ d z e. ground arith;
  decrypt_encrypt = marking_laws.decrypt_encrypt;
  encrypt_decrypt = marking_laws.encrypt_decrypt;
  length_encrypt = marking_laws.length_encrypt;
}

-- A connection, which has no `Flush`.
abbrev pub conn : Writer
conn = record {
  written = [];
  flushed = [];
  room = 1000;
  failure = foreign "broken pipe";
  flusher = none;
}
