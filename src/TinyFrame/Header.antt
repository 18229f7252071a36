-- ===== src/TinyFrame/Header.antt =====
-- src/tiny_frame.rs: the header byte, `message_type` in five bits over `flags` in three.
pub mod Bits
use proto.Base.{
  ℕ, ◌-◌, ◌*◌, ◌/◌, ◌%◌, ◌^◌, Bool, not, ◌||◌, bit_and, bit_or, ltb, ◌==◌, if◌then◌else◌, Outcome,
  ok, err,
}
use proto.TinyFrame.Types.{
  IoError, io_error, invalid_input, message_type_must_fit, flags_must_fit, unsupported_compress_id,
  message_type_mask, flags_mask, compress_mask, compress_none, compress_gzip, compress_deflate,
  chacha20poly1305,
}

-- `!mask` and `x << n`, `x >> n` on a u8.
abbrev pub not_u8 : ℕ → ℕ
not_u8 b = 255 - b

abbrev pub shl_u8 : ℕ → ℕ → ℕ
shl_u8 b n = b * 2 ^ n % 256

abbrev pub shr_u8 : ℕ → ℕ → ℕ
shr_u8 b n = b / 2 ^ n

abbrev pub is_known_compress_id : ℕ → Bool
is_known_compress_id id = id == compress_none || id == compress_gzip || id == compress_deflate

-- `fn pack_header_byte`.
unfoldable pub pack_header_byte : ℕ → ℕ → Outcome IoError ℕ
pack_header_byte message_type flags =
    if ltb message_type_mask message_type
    then err (io_error invalid_input (message_type_must_fit message_type))
    else if not (bit_and flags (not_u8 flags_mask) == 0)
    then err (io_error invalid_input (flags_must_fit flags))
    else let compress_id = bit_and flags compress_mask in
      if not (is_known_compress_id compress_id)
      then err (io_error invalid_input (unsupported_compress_id compress_id))
      else ok (bit_or (shl_u8 message_type 3) flags)

-- The fields that `build_wire_frame` and `parse_wire_frame` take out of `flags` and the header.
abbrev pub compress_id_of : ℕ → ℕ
compress_id_of flags = bit_and flags compress_mask

abbrev pub is_encrypted : ℕ → Bool
is_encrypted flags = not (bit_and flags chacha20poly1305 == 0)

abbrev pub message_type_of : ℕ → ℕ
message_type_of header = shr_u8 header 3

abbrev pub flags_of : ℕ → ℕ
flags_of header = bit_and header flags_mask
