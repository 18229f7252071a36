-- ===== src/TinyFrame/Stream/Framing.antt =====
-- The readers on a stream that begins with the bytes of a frame.
use proto.Base.{
  ℕ, suc, ◌%◌, ◌^◌, ◌≤◌, ◌≡◌, refl, List, [], ◌∷◌, ◌++◌, append_assoc, length, length-append,
  take-append_left, drop-append_left, ok, arith,
}
use proto.TinyFrame.Types.{IsU64, IoError, u16_max}
use proto.TinyFrame.Bytes.{to_be_bytes, length-to_be_bytes, from_be_bytes-to_be_bytes}
use proto.TinyFrame.Wire.{frame_bytes}
use proto.TinyFrame.Stream.{Source, read_exact, read_payload, read_frame_header}

abbrev pub source : List ℕ → IoError → Source
source arriving ending = record { arriving = arriving; ending = ending }

module _ (ending : IoError) where
  pub read_exact-append :
      (n : ℕ) (xs ys : List ℕ)
      → length xs ≡ n
      → read_exact n (source (xs ++ ys) ending) ≡ ok (xs, source ys ending)
  unfolding read_exact
  read_exact-append n xs ys e =
      ground (arith, length-append xs ys, take-append_left xs ys n e, drop-append_left xs ys n e)

  pub read_payload-append :
      (xs ys : List ℕ)
      → read_payload (length xs) (source (xs ++ ys) ending) ≡ ok (xs, source ys ending)
  unfolding read_payload
  read_payload-append [] ys = refl
  read_payload-append (x ∷ xs) ys = ground (arith, read_exact-append (suc (length xs)) (x ∷ xs) ys)

  pub read_frame_header-frame_bytes :
      (header tx_id : ℕ) (payload rest : List ℕ)
      → IsU64 tx_id
      → length payload ≤ u16_max
      → read_frame_header (source (frame_bytes header tx_id payload ++ rest) ending)
        ≡ ok ((header, tx_id, payload), source rest ending)
  unfolding read_frame_header
  read_frame_header-frame_bytes header tx_id payload rest ht hp =
      let tx = to_be_bytes 8 tx_id in
      let size : length payload % 2 ^ 16 ≡ length payload = omega arith in
      let len = to_be_bytes 2 (length payload) in
      rw (
        size,
        append_assoc tx (len ++ payload) rest,
        append_assoc len payload rest,
        read_exact-append 1 (header ∷ []) (tx ++ (len ++ (payload ++ rest))) refl,
        read_exact-append 8 tx (len ++ (payload ++ rest)) (length-to_be_bytes 8 tx_id),
        read_exact-append 2 len (payload ++ rest) (length-to_be_bytes 2 (length payload)),
        from_be_bytes-to_be_bytes 2 (length payload) (omega arith),
        from_be_bytes-to_be_bytes 8 tx_id ht,
        read_payload-append payload rest,
      )
