-- ===== src/Base/Results.antt =====
-- Rust's `Result<A, E>` with a third case for a panic, and its `?` as a monad.
use mathlib.Core.Path.{◌≡◌, refl}
use mathlib.Core.Logic.{◌⊎◌, inl, inr}

-- The panics that the program can raise: `expect` on the key cell and on the snappy encoder, and a
-- slice of a text that cuts a character.
pub data Panic : Type 0 where
  key_already_configured key_not_configured key_is_none snappy_compress slice_boundary : Panic

pub data Outcome {ℓ} (E A : Type ℓ) : Type ℓ where
  ok : A → Outcome E A
  err : E → Outcome E A
  panicked : Panic → Outcome E A

module _ {ℓ} {E A B : Type ℓ} where
  infixl 5 ◌>>=◌ ◌>>◌
  abbrev pub ◌>>=◌ : Outcome E A → (A → Outcome E B) → Outcome E B
  panicked reason >>= next = panicked reason
  err problem >>= next = err problem
  ok value >>= next = next value

  abbrev pub ◌>>◌ : Outcome E A → Outcome E B → Outcome E B
  first >> second = first >>= λ _. second

  -- A chain that succeeded: the value in the middle, and the two steps.
  pub >>=-eq-ok :
      (first : Outcome E A) (next : A → Outcome E B) {result : B}
      → (first >>= next) ≡ ok result
      → (value : A) × (first ≡ ok value) × (next value ≡ ok result)
  >>=-eq-ok (panicked reason) next done = cc
  >>=-eq-ok (err problem) next done = cc
  >>=-eq-ok (ok value) next done = (value, refl, done)

-- `?` between two error types.
abbrev pub map_err {ℓ} : {E F A : Type ℓ} → (E → F) → Outcome E A → Outcome F A
map_err f (ok a) = ok a
map_err f (err e) = err (f e)
map_err f (panicked p) = panicked p

pub bind_assoc {ℓ} :
    {E A B C : Type ℓ} (m : Outcome E A) (f : A → Outcome E B) (g : B → Outcome E C)
    → (m >>= f >>= g) ≡ (m >>= λ a. f a >>= g)
bind_assoc (ok a) f g = refl
bind_assoc (err e) f g = refl
bind_assoc (panicked p) f g = refl

-- Two chains whose rest is the same, up to a step at the end.
pub bind-bind {ℓ} :
    {E A B C : Type ℓ} (m : Outcome E A) (f : A → Outcome E C) (g : A → Outcome E B)
    (h : B → Outcome E C)
    → ((a : A) → f a ≡ (g a >>= h))
    → (m >>= f) ≡ (m >>= g >>= h)
bind-bind (ok a) f g h same = same a
bind-bind (err e) f g h same = refl
bind-bind (panicked p) f g h same = refl

pub ok-injective {ℓ} : {E A : Type ℓ} {a b : A} → ◌≡◌ {A = Outcome E A} (ok a) (ok b) → a ≡ b
ok-injective e = cc

pub map_err-eq-ok {ℓ} :
    {E F A : Type ℓ} (f : E → F) (m : Outcome E A) {a : A} → map_err f m ≡ ok a → m ≡ ok a
map_err-eq-ok f (ok a) e = cc
map_err-eq-ok f (err x) e = cc
map_err-eq-ok f (panicked p) e = cc

-- What comes of a computation: a value, or no value.
pub Outcome-cases {ℓ} :
    {E A : Type ℓ} (m : Outcome E A)
    → ((a : A) × (m ≡ ok a)) ⊎ (((e : E) × (m ≡ err e)) ⊎ ((p : Panic) × (m ≡ panicked p)))
Outcome-cases (ok a) = inl (a, refl)
Outcome-cases (err e) = inr (inl (e, refl))
Outcome-cases (panicked p) = inr (inr (p, refl))
