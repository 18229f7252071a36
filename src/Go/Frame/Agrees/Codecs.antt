-- ===== src/Go/Frame/Agrees/Codecs.antt =====
-- tinyframe/frame.go beside src/tiny_frame.rs, each with the compression of its own libraries.
use proto.Base.{
  ℕ, ◌≡◌, refl, sym, ap, ◌∙◌, List, Option, some, Outcome, ok, bit_and, bind-bind, arith, ◌>>=◌,
}
use proto.Base.Agreement.{Agrees, Agrees-bind, Agrees-bind_known, ok-Agrees, Equal}
use mathlib.Core.Path.{subst}
use proto.TinyFrame.Types.{IoError}
use proto.TinyFrame.Types
use proto.TinyFrame.Bytes.{from_be_bytes}
use proto.TinyFrame.Codec
use proto.TinyFrame.Key.{KeyCell}
use proto.TinyFrame.Payload
use proto.TinyFrame.Wire
use proto.TinyFrame.Stream.{Source, Sink}
use proto.TinyFrame.Stream
use proto.Go.Frame.Types.{Error, Frame, compress_mask}
use proto.Go.Frame.Codec.{Codec}
use proto.Go.Frame.Key.{KeyState, require_encrypt_key}
use proto.Go.Frame.Payload.{pack_header_byte, compress_payload, decompress_payload, decrypt_payload}
use proto.Go.Frame.Stream.{
  Writer, Reader, read_full, read_payload, unseal, parse_frame, read_any, read_frame, first_byte,
  write_frame,
}
use proto.Go.Frame.Agrees.{
  as_codec, as_cell, as_frame, compress_payload-Agrees, require_encrypt_key-Agrees,
}
use proto.Go.Frame.Agrees.Reading.{SameFrame, read_any-Agrees}
use proto.Go.Frame.Agrees.Writing.{SameOutput, SameWrite, write_frame_own-Agrees}

-- Both packages of ChaCha20-Poly1305 do what RFC 8439 says.
pub record SameCipher (g : Codec) (c : Codec.Codec) : Type 0 where
  pub sealed :
      (key nonce aad msg : List ℕ) → c.encrypt key nonce aad msg ≡ some (g.seal key nonce msg aad)
  pub opened :
      (key nonce aad ct : List ℕ) → c.decrypt key nonce aad ct ≡ g.open_sealed key nonce ct aad

-- The libraries with nothing decompressed: their frames carry the data as it was packed.
abbrev pub packed : Codec.Codec → Codec.Codec
packed c = record c { gzip_decode = λ z. ok z; deflate_decode = λ z. ok z }

abbrev go_packed : Codec → Codec
go_packed g = record g { gzip_read = λ z. ok z; flate_read = λ z. ok z }

-- The two libraries make the same of this data, or fail both.
abbrev pub SameUnpacking : Codec → Codec.Codec → (compress_id : ℕ) → List ℕ → Type 0
SameUnpacking g c id z =
    Agrees Equal (decompress_payload g id z) (Payload.decompress_payload c id z)

-- The data of a frame, unpacked.
unpack : Codec.Codec → Types.Frame × Source → Outcome IoError (Types.Frame × Source)
unpack c (f, s) =
    Payload.decompress_payload c f.compress_id f.payload >>= λ p. ok (record f { payload = p }, s)

go_unpack : Codec → Frame × Reader → Outcome Error (Frame × Reader)
go_unpack g (f, r) =
    decompress_payload g f.compress_id f.payload >>= λ p. ok (record f { payload = p }, r)

module _ (c : Codec.Codec) (cell : KeyCell) where
  parse-unpack :
      (header tx : ℕ) (payload : List ℕ) (s : Source)
      → (Wire.parse_wire_frame c cell header tx payload >>= λ f. ok (f, s)) ≡ (
          Wire.parse_wire_frame (packed c) cell header tx payload >>= (λ f. ok (f, s)) >>= unpack c)
  unfolding unpack Wire.parse_wire_frame Wire.unseal Payload.decrypt_payload
      Payload.decompress_payload
  parse-unpack header tx payload s = ground arith

  read_frame-unpack :
      (s : Source) → Stream.read_frame c cell s ≡ (Stream.read_frame (packed c) cell s >>= unpack c)
  unfolding Stream.read_frame
  read_frame-unpack s = bind-bind (Stream.read_exact 1 s) _ _ (unpack c) λ (a, s₁).
      bind-bind (Stream.read_exact 8 s₁) _ _ (unpack c) λ (b, s₂).
        bind-bind (Stream.read_exact 2 s₂) _ _ (unpack c) λ (n, s₃).
          bind-bind (Stream.read_payload (from_be_bytes n) s₃) _ _ (unpack c)
            λ (d, s₄). parse-unpack (Stream.first_byte a) (from_be_bytes b) d s₄

module _ (g : Codec) (fetched : Outcome Error (List ℕ)) where
  go_parse-unpack :
      (header tx : ℕ) (payload : List ℕ) (r : Reader)
      → (parse_frame g fetched header tx payload >>= λ f. ok (f, r))
        ≡ (parse_frame (go_packed g) fetched header tx payload >>= (λ f. ok (f, r)) >>= go_unpack g)
  unfolding go_unpack parse_frame unseal decrypt_payload decompress_payload
  go_parse-unpack header tx payload r = ground arith

  read_any-unpack :
      (r : Reader) → read_any g fetched r ≡ (read_any (go_packed g) fetched r >>= go_unpack g)
  unfolding read_any
  read_any-unpack r = bind-bind (read_full 1 r) _ _ (go_unpack g) λ (a, r₁).
      bind-bind (read_full 8 r₁) _ _ (go_unpack g) λ (b, r₂).
        bind-bind (read_full 2 r₂) _ _ (go_unpack g) λ (n, r₃).
          bind-bind (read_payload (from_be_bytes n) r₃) _ _ (go_unpack g)
            λ (d, r₄). go_parse-unpack (first_byte a) (from_be_bytes b) d r₄

module _ (g : Codec) (c : Codec.Codec) (cipher : SameCipher g c) where
  -- With nothing decompressed, only the cipher of the codec is used by a reader.
  read_frame-cipher :
      (cell : KeyCell) (s : Source)
      → Stream.read_frame (as_codec (go_packed g)) cell s ≡ Stream.read_frame (packed c) cell s
  unfolding Stream.read_frame Wire.parse_wire_frame Wire.unseal Payload.decrypt_payload
      Payload.decompress_payload
  read_frame-cipher cell s i =
      Stream.read_frame
        (record (packed c) { decrypt = λ key nonce aad ct. sym (cipher.opened key nonce aad ct) i })
        cell s

  -- Of a writer, only the cipher and what it makes of the data.
  compress_payload-cipher :
      (encrypt : List ℕ → List ℕ → List ℕ → List ℕ → Option (List ℕ)) (id : ℕ) (input : List ℕ)
      → Payload.compress_payload (record c { encrypt = encrypt }) id input
        ≡ Payload.compress_payload c id input
  unfolding Payload.compress_payload
  compress_payload-cipher encrypt id input = refl

  unpack-Agrees :
      (f : Frame) (r : Reader) (f' : Types.Frame) (s : Source)
      → SameUnpacking g c f'.compress_id f'.payload
      → SameFrame (f, r) (f', s)
      → Agrees SameFrame (go_unpack g (f, r)) (unpack c (f', s))
  unfolding go_unpack unpack
  unpack-Agrees f r f' s same (frames, streams) =
      subst
        (λ x.
          SameUnpacking g c x.compress_id x.payload
          → Agrees SameFrame (go_unpack g (f, r)) (unpack c (x, s)))
        frames
        (λ unpacks.
          Agrees-bind Equal SameFrame (decompress_payload g f.compress_id f.payload) _ _ _ unpacks
            (λ p q e. ((λ i. record (as_frame f) { payload = e i }), streams)))
        same

  -- The Go package reads a stream as the crate does, in every state of the global key, a missing key
  -- included: the same frame and the same bytes left, an error on both sides, or the same panic. The
  -- two ciphers do the same, and if a frame arrives whole and is decrypted, the two libraries
  -- unpack its data alike, which is always so where it is not compressed.
  pub go_read_frame-Agrees :
      (k : KeyState) (r : Reader) (s : Source)
      → r.arriving ≡ s.arriving
      → ((f : Types.Frame) (rest : Source)
          → Stream.read_frame (packed c) (as_cell k) s ≡ ok (f, rest)
          → SameUnpacking g c f.compress_id f.payload)
      → Agrees SameFrame (read_frame g k r) (Stream.read_frame c (as_cell k) s)
  unfolding read_frame
  go_read_frame-Agrees k r s same unpacks =
      let cell : KeyCell = as_cell k in
      let fetched : Outcome Error (List ℕ) = require_encrypt_key k in
      let arrived : Agrees SameFrame (read_any (go_packed g) fetched r)
          (Stream.read_frame (packed c) cell s) =
        subst (Agrees SameFrame (read_any (go_packed g) fetched r)) (read_frame-cipher cell s)
          (read_any-Agrees (go_packed g) fetched cell (require_encrypt_key-Agrees k) r s same) in
      rw (read_any-unpack g fetched r, read_frame-unpack c cell s)
        (Agrees-bind_known SameFrame SameFrame (read_any (go_packed g) fetched r)
          (Stream.read_frame (packed c) cell s) (go_unpack g) (unpack c) arrived
          (λ (f, r₁) (f', s₁) got alike. unpack-Agrees f r₁ f' s₁ (unpacks f' s₁ got) alike))

  -- What the crate writes depends on its compression by the packed data alone.
  build-cipher :
      (cell : KeyCell) (nonce : List ℕ) (m tx : ℕ) (input packed_data : List ℕ) (flags : ℕ)
      → compress_payload g (bit_and flags compress_mask) input ≡ ok packed_data
      → Payload.compress_payload c (bit_and flags compress_mask) input ≡ ok packed_data
      → Wire.build_wire_frame (as_codec g) cell nonce m tx input flags
        ≡ Wire.build_wire_frame c cell nonce m tx input flags
  unfolding Wire.build_wire_frame Wire.seal Payload.encrypt_payload
  build-cipher cell nonce m tx input packed_data flags go_packs packs =
      let seal_as : List ℕ → List ℕ → List ℕ → List ℕ → Option (List ℕ) =
        λ key nonce aad msg. some (g.seal key nonce msg aad) in
      let (z, own, same) =
        ok-Agrees Equal (compress_payload g (bit_and flags compress_mask) input) _ packed_data
          (compress_payload-Agrees g (bit_and flags compress_mask) input) go_packs in
      let other : Wire.build_wire_frame (as_codec g) cell nonce m tx input flags
          ≡ Wire.build_wire_frame (record c { encrypt = seal_as }) cell nonce m tx input flags =
        rw
          (
            own ∙ ap (λ x. ok x) (sym same),
            compress_payload-cipher seal_as (bit_and flags compress_mask) input ∙ packs,
          )
          refl in
      other ∙ λ i.
      Wire.build_wire_frame
        (record c { encrypt = λ key nonce aad msg. sym (cipher.sealed key nonce aad msg) i }) cell
        nonce m tx input flags

  -- `WriteFrame` with the global key writes as `write_frame` of the crate does, in every state of the
  -- key, on frames whose header is good and whose data both libraries pack to the same bytes, which
  -- is always so where it is not compressed: the same bytes are sent, there is an error on both sides
  -- with the same part of the frame sent, or, where a key is wanted and missing, both panic for the
  -- same reason and send nothing. The two ciphers do the same.
  pub go_write_frame-Agrees :
      (nonce : List ℕ) (k : KeyState) (m tx : ℕ) (input packed_data : List ℕ) (flags header : ℕ)
      (w : Writer) (s : Sink)
      → pack_header_byte m flags ≡ ok header
      → compress_payload g (bit_and flags compress_mask) input ≡ ok packed_data
      → Payload.compress_payload c (bit_and flags compress_mask) input ≡ ok packed_data
      → SameOutput w s
      → SameWrite
          (write_frame g k (ok nonce) m tx input flags w)
          (Stream.write_frame c (as_cell k) nonce m tx input flags s)
  unfolding Stream.write_frame
  go_write_frame-Agrees nonce k m tx input packed_data flags header w s good go_packs packs same =
      rw (← build-cipher (as_cell k) nonce m tx input packed_data flags go_packs packs) (
        write_frame_own-Agrees g nonce k m tx input packed_data flags header w s good go_packs same)
