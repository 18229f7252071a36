-- ===== src/Base/Exec.antt =====
-- Code that changes a state and may fail: what was changed before an error stays changed.
use proto.Base.Results.{Outcome, ok, err, panicked}
use mathlib.Core.Path.{◌≡◌, refl}

abbrev pub Exec {ℓ} : Type ℓ → Type ℓ → Type ℓ → Type ℓ
Exec E S A = S → Outcome E A × S

module _ {ℓ} {E S A : Type ℓ} where
  abbrev pub pure : A → Exec E S A
  pure a s = (ok a, s)

  abbrev pub raise : E → Exec E S A
  raise e s = (err e, s)

  abbrev pub lift : Outcome E A → Exec E S A
  lift r s = (r, s)

  abbrev pub gets : (S → A) → Exec E S A
  gets f s = (ok (f s), s)

module _ {ℓ} {E S A B : Type ℓ} where
  abbrev pub continue : Outcome E A → (A → Exec E S B) → Exec E S B
  continue (ok a) f s = f a s
  continue (err e) f s = (err e, s)
  continue (panicked p) f s = (panicked p, s)

  infixl 5 ◌>>=◌ ◌>>◌
  abbrev pub ◌>>=◌ : Exec E S A → (A → Exec E S B) → Exec E S B
  ◌>>=◌ m f s = let (r, s') = m s in continue r f s'

  abbrev pub ◌>>◌ : Exec E S A → Exec E S B → Exec E S B
  ◌>>◌ m k s = let (r, s') = m s in continue r (λ _. k) s'

  -- A block that succeeded: the value and the state in the middle.
  pub continue-eq-ok :
      (r : Outcome E A) (f : A → Exec E S B) (s : S) {b : B} {s' : S}
      → continue r f s ≡ (ok b, s')
      → (a : A) × (r ≡ ok a) × (f a s ≡ (ok b, s'))
  continue-eq-ok (ok a) f s e = (a, refl, e)
  continue-eq-ok (err x) f s e = cc
  continue-eq-ok (panicked p) f s e = cc
