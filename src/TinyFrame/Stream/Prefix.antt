-- ===== src/TinyFrame/Stream/Prefix.antt =====
-- The readers on a stream that is cut short.
use proto.Base.{
  ℕ, zero, suc, ◌≤◌, ◌≡◌, refl, ap, ◌∙◌, ◌⊎◌, inl, inr, List, [], ◌∷◌, ◌++◌, length, length-append,
  take, drop, leb, Bool-cases, Outcome, ok, err, >>=-eq-ok, ◌>>=◌, arith,
}
use proto.TinyFrame.Types.{IoError}
use proto.TinyFrame.Bytes.{from_be_bytes}
use proto.TinyFrame.Stream.{Source, read_exact, read_payload, read_frame_header, first_byte}
use proto.TinyFrame.Stream.Framing.{source}

-- The stream with more bytes behind it.
abbrev pub extend : Source → List ℕ → Source
extend r more = source (r.arriving ++ more) r.ending

take-append_lt : (n : ℕ) (xs ys : List ℕ) → n ≤ length xs → take n (xs ++ ys) ≡ take n xs
take-append_lt zero xs ys h = refl
take-append_lt (suc n) [] ys h = absurd (omega arith)
take-append_lt (suc n) (x ∷ xs) ys h = ground (arith, take-append_lt n xs ys)

drop-append_lt : (n : ℕ) (xs ys : List ℕ) → n ≤ length xs → drop n (xs ++ ys) ≡ drop n xs ++ ys
drop-append_lt zero xs ys h = refl
drop-append_lt (suc n) [] ys h = absurd (omega arith)
drop-append_lt (suc n) (x ∷ xs) ys h = drop-append_lt n xs ys (omega arith)

-- A step that reads from the stream: it succeeds alike on a longer stream, or reports `ending`.
pub record Reads {A : Type 0} (step : Source → Outcome IoError (A × Source)) : Type 0 where
  pub extends :
      (r : Source) (more : List ℕ) (a : A) (r' : Source)
      → step r ≡ ok (a, r')
      → step (extend r more) ≡ ok (a, extend r' more)
  pub settles :
      (r : Source)
      → ((a : A) × (r' : Source) × (step r ≡ ok (a, r')) × (r'.ending ≡ r.ending))
        ⊎ (step r ≡ err r.ending)

read_exact-Reads : (n : ℕ) → Reads (read_exact n)
unfolding read_exact
read_exact-Reads n = record {
  extends = λ r more a r' e. ground (
    arith,
    length-append r.arriving more,
    take-append_lt n r.arriving more,
    drop-append_lt n r.arriving more,
  );
  settles = λ r. elim (Bool-cases (leb n (length r.arriving))) [
    | inl enough ↦ inl (take n r.arriving, source (drop n r.arriving) r.ending, rw enough, refl)
    | inr short ↦ inr (rw short)
  ];
}

read_payload-Reads : (n : ℕ) → Reads (read_payload n)
unfolding read_payload
read_payload-Reads zero = record {
  extends = λ r more a r' e. ground arith;
  settles = λ r. inl ([], r, refl, refl);
}
read_payload-Reads (suc n) = record {
  extends = λ r more a r' e. ground (arith, (read_exact-Reads (suc n)).extends r more a r');
  settles = λ r. elim ((read_exact-Reads (suc n)).settles r) [
    | inl (a, r', e, end) ↦ inl (a, r', ground arith, end)
    | inr failed ↦ inr (ground arith)
  ];
}

module _ {A B : Type 0} (step : Source → Outcome IoError (A × Source))
    (next : A → Source → Outcome IoError (B × Source)) where
  abbrev then_read : Source → Outcome IoError (B × Source)
  then_read r = step r >>= λ p. next p.0 p.1

  Reads-then : Reads step → ((a : A) → Reads (next a)) → Reads then_read
  Reads-then first second = record {
    extends = λ r more b r' e.
        let ((a, r₁), e₁, e₂) = >>=-eq-ok (step r) (λ p. next p.0 p.1) e in
        rw (first.extends r more a r₁ e₁) ((second a).extends r₁ more b r' e₂);
    settles = λ r. elim (first.settles r) [
      | inr failed ↦ inr (rw failed)
      | inl (a, r₁, e₁, end₁) ↦ elim ((second a).settles r₁) [
        | inl (b, r₂, e₂, end₂) ↦ inl (b, r₂, rw e₁ e₂, end₂ ∙ end₁)
        | inr failed ↦ inr (rw e₁ (failed ∙ ap err end₁))
      ]
    ];
  }

Reads-pure : {A : Type 0} (a : A) → Reads (λ r. ok (a, r))
Reads-pure a = record {
  extends = λ r more b r' e. ground arith;
  settles = λ r. inl (a, r, refl, refl);
}

pub read_frame_header-Reads : Reads read_frame_header
unfolding read_frame_header
read_frame_header-Reads = Reads-then _ _ (read_exact-Reads 1) λ header_buf.
    Reads-then _ _ (read_exact-Reads 8) λ tx_bytes. Reads-then _ _ (read_exact-Reads 2) λ len_bytes.
      Reads-then _ _ (read_payload-Reads (from_be_bytes len_bytes))
        λ payload. Reads-pure (first_byte header_buf, from_be_bytes tx_bytes, payload)
