-- ===== src/Go/Frame/Types.antt =====
-- tinyframe/frame.go: constants, errors, and the frame as the callers see it.
use proto.Base.{ℕ, ◌-◌, ◌^◌, Bool, List, String}

abbrev pub key_len : ℕ
key_len = 32

abbrev pub nonce_len : ℕ
nonce_len = 12

abbrev pub tag_len : ℕ
tag_len = 16

abbrev pub compress_none : ℕ
compress_none = 0x00

abbrev pub compress_gzip : ℕ
compress_gzip = 0x01

abbrev pub compress_deflate : ℕ
compress_deflate = 0x02

abbrev pub chacha20poly1305 : ℕ
chacha20poly1305 = 0x04

abbrev pub message_type_bits : ℕ
message_type_bits = 5

abbrev pub message_type_mask : ℕ
message_type_mask = 2 ^ message_type_bits - 1

abbrev pub flags_mask : ℕ
flags_mask = 0x07

abbrev pub compress_mask : ℕ
compress_mask = 0x03

-- The errors of the package, with the numbers that they show; `eof` and `unexpected_eof` are those
-- of package io, and `foreign` stands for those of the codecs, the streams and the generator.
pub data Error : Type 0 where
  message_type_must_fit : ℕ → Error
  flags_must_fit : ℕ → Error
  unsupported_compress_id : ℕ → Error
  encryption_requires_key encrypted_frame_requires_key : Error
  encrypted_payload_too_short decrypt_failed payload_length_exceeds_uint16 : Error
  eof unexpected_eof : Error
  foreign : String → Error

pub record Frame : Type 0 where
  pub message_type : ℕ
  pub compress_id : ℕ
  pub encrypted : Bool
  pub tx_id : ℕ
  pub payload : List ℕ
