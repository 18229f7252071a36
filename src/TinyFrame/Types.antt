-- ===== src/TinyFrame/Types.antt =====
-- src/tiny_frame.rs: constants, errors, and the frame as the callers see it.
use proto.Base.{ℕ, ◌-◌, ◌^◌, ◌<◌, Bool, List, String}

abbrev pub key_len : ℕ
key_len = 32

abbrev pub nonce_len : ℕ
nonce_len = 12

abbrev pub tag_len : ℕ
tag_len = 16

abbrev pub compress_none : ℕ
compress_none = 0x00

abbrev pub compress_gzip : ℕ
compress_gzip = 0x01

abbrev pub compress_deflate : ℕ
compress_deflate = 0x02

abbrev pub chacha20poly1305 : ℕ
chacha20poly1305 = 0x04

abbrev pub message_type_bits : ℕ
message_type_bits = 5

abbrev pub message_type_mask : ℕ
message_type_mask = 2 ^ message_type_bits - 1

abbrev pub flags_mask : ℕ
flags_mask = 0x07

abbrev pub compress_mask : ℕ
compress_mask = 0x03

abbrev pub u16_max : ℕ
u16_max = 2 ^ 16 - 1

abbrev pub IsU8 : ℕ → Type 0
IsU8 b = b < 2 ^ 8

abbrev pub IsU64 : ℕ → Type 0
IsU64 v = v < 2 ^ 64

-- `std::io::ErrorKind`: the kinds that the source names; `os` stands for the others, which the
-- operating system or a codec reports.
pub data ErrorKind : Type 0 where
  invalid_input invalid_data unexpected_eof other : ErrorKind
  os : ℕ → ErrorKind

-- The texts of the source's errors, with the numbers that they show.
pub data Message : Type 0 where
  message_type_must_fit : ℕ → Message
  flags_must_fit : ℕ → Message
  unsupported_compress_id : ℕ → Message
  encrypt_failed encrypted_payload_too_short decrypt_failed payload_length_exceeds_u16 : Message
  foreign : String → Message

pub record IoError : Type 0 where
  pub kind : ErrorKind
  pub message : Message

abbrev pub io_error : ErrorKind → Message → IoError
io_error kind message = record { kind = kind; message = message }

pub record Frame : Type 0 where
  pub message_type : ℕ
  pub compress_id : ℕ
  pub encrypted : Bool
  pub tx_id : ℕ
  pub payload : List ℕ
