-- ===== src/Go/Frame/Agrees/Writing.antt =====
-- tinyframe/frame.go beside src/tiny_frame.rs: the writers.
use proto.Base.{
  ℕ, ◌≡◌, ◌<◌, ◌≢◌, ◌%◌, refl, Bool, true, false, List, Option, none, some, Outcome, ok, err,
  panicked, arith, ◌>>=◌, key_not_configured, key_is_none, bit_and, Bool-cases, inl, inr,
}
use proto.Base.Agreement.{Agrees, Agrees-then, ok-Agrees, Equal}
use proto.Base.Exec
use proto.Base.Results.{Panic}
use proto.Base.Exec.{Exec}
use proto.TinyFrame.Types.{IoError, IsU8, invalid_input}
use proto.TinyFrame.Key
use proto.TinyFrame.Key.{KeyCell}
use proto.TinyFrame.Errors.{write_frame_refused}
use proto.TinyFrame.Payload
use proto.TinyFrame.Header
use proto.TinyFrame.Wire
use proto.TinyFrame.Stream.{Sink}
use proto.TinyFrame.Stream
use proto.Go.Frame.Types.{Error, compress_mask}
use proto.Go.Frame.Codec.{Codec}
use proto.Go.Frame.Key.{KeyState, required, require_encrypt_key}
use proto.Go.Frame.Payload.{pack_header_byte, compress_payload, encrypt_payload, aead_aad}
use proto.Go.Frame.Stream.{
  Writer, write, flush, seal, build_frame, write_frame_with_key, write_frame, is_encrypted,
}
use proto.Go.Frame.Agrees.{
  as_codec, cell_of, as_cell, compress_payload-Agrees, pack_header_byte-Agrees,
}

abbrev pub go_flush_fails : Option (Option Error) → Bool
go_flush_fails (some (some e)) = true
go_flush_fails _ = false

abbrev pub flush_fails : Option IoError → Bool
flush_fails none = false
flush_fails (some e) = true

-- Two writers that have the same behind them and before them.
abbrev pub SameOutput : Writer → Sink → Type 0
SameOutput w s =
    (w.written ≡ s.written)
    × (w.room ≡ s.room)
    × (go_flush_fails w.flusher ≡ flush_fails s.flush_failure)

-- What a write returns and leaves behind.
abbrev pub SameWrite :
    Outcome Error (Unit {0}) × Writer → Outcome IoError (Unit {0}) × Sink → Type 0
SameWrite (m, w) (n, s) = Agrees Equal m n × SameOutput w s

send_Same :
    (buf : List ℕ) (w : Writer) (s : Sink)
    → SameOutput w s
    → SameWrite (Exec.◌>>◌ (write buf) flush w) (Exec.◌>>◌ (Stream.write_all buf) Stream.flush s)
unfolding write flush Stream.write_all Stream.flush
send_Same buf w s same = ground arith

-- Nothing is sent of a frame that is not built.
built_Same :
    (m : Outcome Error (List ℕ)) (n : Outcome IoError (List ℕ)) (w : Writer) (s : Sink)
    → Agrees Equal m n
    → SameOutput w s
    → SameWrite
        (Exec.continue m (λ buf. Exec.◌>>◌ (write buf) flush) w)
        (Exec.continue n (λ buf. Exec.◌>>◌ (Stream.write_all buf) Stream.flush) s)
built_Same (ok a) (ok b) w s e same = rw (← e) (send_Same a w s same)
built_Same (err x) (err y) w s e same = (tt, same)
built_Same (panicked p) (panicked q) w s e same = (e, same)
built_Same (ok a) (err y) w s e same = absurd e
built_Same (ok a) (panicked q) w s e same = absurd e
built_Same (err x) (ok b) w s e same = absurd e
built_Same (err x) (panicked q) w s e same = absurd e
built_Same (panicked p) (ok b) w s e same = absurd e
built_Same (panicked p) (err y) w s e same = absurd e

module _ (g : Codec) (nonce : List ℕ) where
  seal-Agrees :
      (key : List ℕ) (encrypted : Bool) (header tx : ℕ) (payload : List ℕ)
      → Agrees Equal
          (seal g (ok nonce) (some key) encrypted header tx payload)
          (Wire.seal (as_codec g) (some (some key)) nonce encrypted header tx payload)
  unfolding seal Wire.seal aead_aad Payload.aead_aad Key.require_encrypt_key encrypt_payload
      Payload.encrypt_payload
  seal-Agrees key true header tx payload = refl
  seal-Agrees key false header tx payload = refl

  build_frame-Agrees :
      (m tx : ℕ) (input : List ℕ) (flags : ℕ) (key : List ℕ)
      → Agrees Equal
          (build_frame g (ok nonce) m tx input flags (some key))
          (Wire.build_wire_frame (as_codec g) (some (some key)) nonce m tx input flags)
  unfolding build_frame Wire.build_wire_frame
  build_frame-Agrees m tx input flags key =
      Agrees-then Equal (pack_header_byte m flags) (Header.pack_header_byte m flags) _ _
        (pack_header_byte-Agrees m flags)
        λ header.
          Agrees-then Equal (compress_payload g _ input) _ _ _ (compress_payload-Agrees g _ input)
            λ compressed.
              Agrees-then Equal (seal g (ok nonce) (some key) _ header tx compressed) _ _ _
                (seal-Agrees key _ header tx compressed) λ payload. ground arith

  sent_Same :
      (key : Option (List ℕ)) (cell : KeyCell) (m tx : ℕ) (input : List ℕ) (flags : ℕ) (w : Writer)
      (s : Sink)
      → Agrees Equal
          (build_frame g (ok nonce) m tx input flags key)
          (Wire.build_wire_frame (as_codec g) cell nonce m tx input flags)
      → SameOutput w s
      → SameWrite
          (write_frame_with_key g (ok nonce) m tx input flags key w)
          (Stream.write_frame (as_codec g) cell nonce m tx input flags s)
  unfolding write_frame_with_key Stream.write_frame
  sent_Same key cell m tx input flags w s built same = built_Same _ _ w s built same

  -- With a key of the caller's and a nonce from the generator, the Go package writes every frame as
  -- the crate does with that key in its cell: the same bytes, an error on both sides with the same
  -- part of the frame sent, or nothing.
  pub write_frame_with_key-Agrees :
      (key : List ℕ) (m tx : ℕ) (input : List ℕ) (flags : ℕ) (w : Writer) (s : Sink)
      → SameOutput w s
      → SameWrite
          (write_frame_with_key g (ok nonce) m tx input flags (some key) w)
          (Stream.write_frame (as_codec g) (some (some key)) nonce m tx input flags s)
  write_frame_with_key-Agrees key m tx input flags w s same =
      sent_Same (some key) (some (some key)) m tx input flags w s
        (build_frame-Agrees m tx input flags key) same

  -- A frame that is not encrypted needs no key, of the caller's or of the process.
  plain_frame-Agrees :
      (cell : KeyCell) (key : Option (List ℕ)) (m tx : ℕ) (input : List ℕ) (flags : ℕ)
      → is_encrypted flags ≡ false
      → Agrees Equal
          (build_frame g (ok nonce) m tx input flags key)
          (Wire.build_wire_frame (as_codec g) cell nonce m tx input flags)
  unfolding build_frame Wire.build_wire_frame seal Wire.seal
  plain_frame-Agrees cell key m tx input flags plain =
      Agrees-then Equal (pack_header_byte m flags) (Header.pack_header_byte m flags) _ _
        (pack_header_byte-Agrees m flags)
        λ header.
          Agrees-then Equal (compress_payload g _ input) _ _ _ (compress_payload-Agrees g _ input)
            λ compressed. rw plain (ground arith)

  -- Where the crate has no key to give, it panics for an encrypted frame that is otherwise good.
  build_panics :
      (cell : KeyCell) (p : Panic) (m tx : ℕ) (input compressed : List ℕ) (flags header : ℕ)
      → pack_header_byte m flags ≡ ok header
      → compress_payload g (bit_and flags compress_mask) input ≡ ok compressed
      → is_encrypted flags ≡ true
      → Key.require_encrypt_key {E = IoError} cell ≡ panicked p
      → Wire.build_wire_frame (as_codec g) cell nonce m tx input flags ≡ panicked p
  unfolding Wire.build_wire_frame Wire.seal
  build_panics cell p m tx input compressed flags header packed squeezed crypt missing =
      let (h, packed', _) =
        ok-Agrees Equal (pack_header_byte m flags) _ header (pack_header_byte-Agrees m flags)
          packed in
      let (z, squeezed', _) =
        ok-Agrees Equal (compress_payload g (bit_and flags compress_mask) input) _ compressed
          (compress_payload-Agrees g (bit_and flags compress_mask) input) squeezed in
      rw (packed', squeezed', crypt, missing)

  -- `WriteFrame` with the global key against the crate with Go's own codecs, in every state of the
  -- key, on frames whose header is good and whose data can be compressed.
  pub write_frame_own-Agrees :
      (k : KeyState) (m tx : ℕ) (input compressed : List ℕ) (flags header : ℕ) (w : Writer)
      (s : Sink)
      → pack_header_byte m flags ≡ ok header
      → compress_payload g (bit_and flags compress_mask) input ≡ ok compressed
      → SameOutput w s
      → SameWrite
          (write_frame g k (ok nonce) m tx input flags w)
          (Stream.write_frame (as_codec g) (as_cell k) nonce m tx input flags s)
  unfolding write_frame require_encrypt_key Stream.write_frame Key.require_encrypt_key
  write_frame_own-Agrees k m tx input compressed flags header w s packed squeezed same =
      elim (Bool-cases (is_encrypted flags)) [
        | inl crypt ↦ rw crypt (keyed k.encrypt_key_set k.encrypt_key crypt)
        | inr plain ↦ rw plain (
            sent_Same none (as_cell k) m tx input flags w s
              (plain_frame-Agrees (as_cell k) none m tx input flags plain) same)
      ]
    where
      keyed :
          (set : Bool) (key : Option (List ℕ))
          → is_encrypted flags ≡ true
          → SameWrite
              (Exec.◌>>=◌
                (Exec.lift (required set key >>= λ k. ok (some k)))
                (λ key. write_frame_with_key g (ok nonce) m tx input flags key)
                w)
              (Stream.write_frame (as_codec g) (cell_of set key) nonce m tx input flags s)
      keyed true (some key) crypt = write_frame_with_key-Agrees key m tx input flags w s same
      keyed true none crypt =
          rw
            (build_panics (some none) key_is_none m tx input compressed flags header packed squeezed
              crypt refl)
            (refl, same)
      keyed false key crypt =
          rw
            (build_panics none key_not_configured m tx input compressed flags header packed squeezed
              crypt refl)
            (refl, same)

  -- Of an encrypted frame whose type takes more than five bits, or whose flags are not good, and
  -- before a key is configured, the two packages do not make the same: Go's `WriteFrame` panics for
  -- the key, and the crate's `write_frame` refuses the frame as invalid input. Neither sends
  -- anything.
  pub write_frame_order :
      (m tx : ℕ) (input : List ℕ) (flags : ℕ) (k : KeyState) (w : Writer) (s : Sink)
      → IsU8 flags
      → is_encrypted flags ≡ true
      → k.encrypt_key_set ≡ false
      → ¬ ((m < 32) × (flags < 8) × (flags % 4 ≢ 3))
      → (write_frame g k (ok nonce) m tx input flags w ≡ (panicked key_not_configured, w))
        × (e : IoError) × (Stream.write_frame (as_codec g) (as_cell k) nonce m tx input flags s
            ≡ (err e, s))
        × (e.kind ≡ invalid_input)
  unfolding write_frame require_encrypt_key
  write_frame_order m tx input flags k w s hf crypt unset bad =
      let (e, refused, kind) =
        write_frame_refused (as_codec g) (as_cell k) nonce m tx input flags s hf bad in
      (rw (crypt, unset), e, refused, kind)
