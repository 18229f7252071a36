-- ===== src/TinyFrame/Samples.antt =====
-- A concrete codec, key and stream, for the tests.
use proto.Base.{
  ◌==◌, if◌then◌else◌, ℕ, zero, suc, ◌≡◌, ap, Option, none, some, List, [], ◌∷◌, Outcome, ok, err,
  arith,
}
use proto.TinyFrame.Types.{IoError, io_error, invalid_data, unexpected_eof, foreign}
use proto.TinyFrame.Codec.{Codec, CodecLaws}
use proto.TinyFrame.Key.{KeyCell}
use proto.TinyFrame.Stream.{Sink}

-- A codec that marks what it packed with one byte, and a cipher whose tag is sixteen zeros.
abbrev pub strip : ℕ → List ℕ → Outcome IoError (List ℕ)
strip mark [] = err (io_error unexpected_eof (foreign "empty"))
strip mark (b ∷ xs) = if b == mark then ok xs else err (io_error invalid_data (foreign "mark"))

abbrev pub zeros : ℕ → List ℕ → List ℕ
zeros zero xs = xs
zeros (suc n) xs = 0 ∷ zeros n xs

abbrev pub strip_zeros : ℕ → List ℕ → Option (List ℕ)
strip_zeros zero xs = some xs
strip_zeros (suc n) [] = none
strip_zeros (suc n) (zero ∷ xs) = strip_zeros n xs
strip_zeros (suc n) (suc b ∷ xs) = none

abbrev pub marking : Codec
marking = record {
  gzip_encode = λ d. ok (1 ∷ d);
  deflate_encode = λ d. ok (2 ∷ d);
  gzip_decode = strip 1;
  deflate_decode = strip 2;
  encrypt = λ key nonce aad msg. some (zeros 16 msg);
  decrypt = λ key nonce aad ct. strip_zeros 16 ct;
}

strip_zeros-zeros : (n : ℕ) (ct msg : List ℕ) → strip_zeros n ct ≡ some msg → zeros n msg ≡ ct
strip_zeros-zeros zero ct msg e = cc
strip_zeros-zeros (suc n) [] msg e = cc
strip_zeros-zeros (suc n) (zero ∷ ct) msg e = ap (λ xs. 0 ∷ xs) (strip_zeros-zeros n ct msg e)
strip_zeros-zeros (suc n) (suc b ∷ ct) msg e = cc

pub marking_laws : CodecLaws marking
marking_laws = record {
  gzip_lossless = λ d z e. ground arith;
  deflate_lossless = λ d z e. ground arith;
  decrypt_encrypt = λ key nonce aad msg ct e. ground arith;
  encrypt_decrypt = λ key nonce aad ct msg e. ap some (strip_zeros-zeros 16 ct msg e);
  length_encrypt = λ key nonce aad msg ct e. ground arith;
}

abbrev pub key : List ℕ
key = zeros 32 []

abbrev pub nonce : List ℕ
nonce = zeros 11 (7 ∷ [])

abbrev pub keyed : KeyCell
keyed = some (some key)

abbrev pub eof : IoError
eof = io_error unexpected_eof (foreign "early eof")

abbrev pub idle : Sink
idle = record { written = []; flushed = []; room = 1000; failure = eof; flush_failure = none }
