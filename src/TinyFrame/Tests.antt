-- ===== src/TinyFrame/Tests.antt =====
-- Concrete frames and streams: the theorems on frames at inputs that meet their hypotheses.
use proto.Base.{ℕ, ◌≤◌, ◌<◌, ◌≡◌, refl, true, some, List, [], ◌∷◌, ◌++◌, length, ok, err, arith}
use proto.TinyFrame.Types.{io_error, invalid_input, payload_length_exceeds_u16, Frame}
use proto.TinyFrame.Bytes.{to_be_bytes, from_be_bytes}
use proto.TinyFrame.Header.{pack_header_byte}
use proto.TinyFrame.Key.{unset, require_encrypt_key}
use proto.TinyFrame.Payload.{
  compress_payload, decompress_payload, encrypt_payload, decrypt_payload, aead_aad,
}
use proto.TinyFrame.Wire.{seal, unseal, build_wire_frame, parse_wire_frame, frame_bytes}
use proto.TinyFrame.Wire.Accepts.{parse_wire_frame_authentic}
use proto.TinyFrame.Stream.{
  Sink, read_exact, read_payload, write_all, flush, write_frame, read_frame,
}
use proto.TinyFrame.Stream.Framing.{source}
use proto.TinyFrame.Roundtrip.{sent_frame, read_frame-write_frame}
use proto.TinyFrame.Reading.{Canonical, read_frame_truncated, read_frame-Canonical}
use proto.TinyFrame.Errors.{encrypted_limit}
use proto.TinyFrame.Samples.{zeros, marking, marking_laws, key, nonce, keyed, eof, idle}

-- `CHACHA20POLY1305 | COMPRESS_GZIP` on a message of type 7.
abbrev wire : List ℕ
wire = 61 ∷ 0 ∷ 0 ∷ 0 ∷ 0 ∷ 0 ∷ 0 ∷ 48 ∷ 57 ∷ 0 ∷ 31 ∷ (nonce ++ zeros 16 (1 ∷ 104 ∷ 105 ∷ []))

abbrev written : Sink
written = record idle { written = wire; flushed = wire; room = 958 }

write_wire : write_frame marking keyed nonce 7 12345 (104 ∷ 105 ∷ []) 5 idle ≡ (ok tt, written)
unfolding write_frame build_wire_frame pack_header_byte compress_payload seal require_encrypt_key
    encrypt_payload aead_aad to_be_bytes write_all flush
write_wire = refl

read_frame-write_frame_example :
    (buf : List ℕ) × (wire ≡ [] ++ buf)
    × (wire ≡ wire)
    × (read_frame marking keyed (source (buf ++ 9 ∷ []) eof)
        ≡ ok (sent_frame 7 12345 (104 ∷ 105 ∷ []) 5, source (9 ∷ []) eof))
read_frame-write_frame_example =
    read_frame-write_frame marking marking_laws keyed nonce refl 7 12345 (104 ∷ 105 ∷ []) 5 idle
      written (9 ∷ []) eof (omega arith) (omega arith) write_wire

encrypted_limit_example :
    (1 ≤ 65507
      → build_wire_frame marking keyed nonce 3 9 (5 ∷ []) 4
        ≡ ok (frame_bytes 28 9 (nonce ++ zeros 16 (5 ∷ []))))
    × (65507 < 1
        → write_frame marking keyed nonce 3 9 (5 ∷ []) 4 idle
          ≡ (err (io_error invalid_input payload_length_exceeds_u16), idle))
encrypted_limit_example =
    encrypted_limit marking marking_laws keyed key nonce 3 9 (5 ∷ []) (zeros 16 (5 ∷ [])) idle refl
      refl (omega arith) refl

-- A plain frame of type 3 that lost its last byte.
abbrev front : List ℕ
front = 24 ∷ 0 ∷ 0 ∷ 0 ∷ 0 ∷ 0 ∷ 0 ∷ 0 ∷ 9 ∷ 0 ∷ 2 ∷ 5 ∷ []

cut : frame_bytes 24 9 (5 ∷ 6 ∷ []) ≡ front ++ (6 ∷ [])
unfolding to_be_bytes
cut = refl

read_frame_truncated_example : read_frame marking unset (source front eof) ≡ err eof
read_frame_truncated_example =
    read_frame_truncated marking unset 24 9 (5 ∷ 6 ∷ []) eof front 6 [] (omega arith) (omega arith)
      cut

abbrev secret : Frame
secret = record {
  message_type = 7;
  compress_id = 1;
  encrypted = true;
  tx_id = 12345;
  payload = 104 ∷ 105 ∷ [];
}

read_wire :
    read_frame marking keyed (source (wire ++ 9 ∷ []) eof) ≡ ok (secret, source (9 ∷ []) eof)
unfolding read_frame read_exact read_payload from_be_bytes parse_wire_frame unseal
    require_encrypt_key decrypt_payload decompress_payload
read_wire = refl

read_frame-Canonical_example : Canonical (source (wire ++ 9 ∷ []) eof) secret (source (9 ∷ []) eof)
read_frame-Canonical_example =
    read_frame-Canonical marking keyed (source (wire ++ 9 ∷ []) eof) secret (source (9 ∷ []) eof)
      (omega arith) read_wire

parse_wire :
    parse_wire_frame marking keyed 61 12345 (nonce ++ zeros 16 (1 ∷ 104 ∷ 105 ∷ [])) ≡ ok secret
unfolding parse_wire_frame unseal require_encrypt_key decrypt_payload decompress_payload
parse_wire = refl

parse_wire_frame_authentic_example :
    (k n plain ct : List ℕ) × (keyed ≡ some (some k))
    × (length n ≡ 12)
    × (marking.encrypt k n (aead_aad 61 12345) plain ≡ some ct)
    × (nonce ++ zeros 16 (1 ∷ 104 ∷ 105 ∷ []) ≡ n ++ ct)
    × (decompress_payload marking 1 plain ≡ ok (104 ∷ 105 ∷ []))
parse_wire_frame_authentic_example =
    parse_wire_frame_authentic marking marking_laws keyed 61 12345
      (nonce ++ zeros 16 (1 ∷ 104 ∷ 105 ∷ [])) secret parse_wire refl
