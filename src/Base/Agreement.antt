-- ===== src/Base/Agreement.antt =====
-- Two programs with error types of their own, compared: they succeed together with related results,
-- fail together, and panic together for the same reason.
use proto.Base.Results.{Outcome, ok, err, panicked, ◌>>=◌, ok-injective}
use mathlib.Core.Path.{◌≡◌, refl, subst}

abbrev pub Agrees : {E F A B : Type 0} → (A → B → Type 0) → Outcome E A → Outcome F B → Type 0
Agrees Same (ok a) (ok b) = Same a b
Agrees Same (err e) (err f) = Unit
Agrees Same (panicked p) (panicked q) = p ≡ q
Agrees Same _ _ = ⊥

module _ {E F A B C D : Type 0} (Same : A → B → Type 0) (Next : C → D → Type 0) where
  -- Steps that agree on related values make chains that agree.
  pub Agrees-bind :
      (m : Outcome E A) (n : Outcome F B) (f : A → Outcome E C) (g : B → Outcome F D)
      → Agrees Same m n
      → ((a : A) (b : B) → Same a b → Agrees Next (f a) (g b))
      → Agrees Next (m >>= f) (n >>= g)
  Agrees-bind (ok a) (ok b) f g first next = next a b first
  Agrees-bind (err e) (err x) f g first next = tt
  Agrees-bind (panicked p) (panicked q) f g first next = first
  Agrees-bind (ok a) (err x) f g first next = absurd first
  Agrees-bind (ok a) (panicked q) f g first next = absurd first
  Agrees-bind (err e) (ok b) f g first next = absurd first
  Agrees-bind (err e) (panicked q) f g first next = absurd first
  Agrees-bind (panicked p) (ok b) f g first next = absurd first
  Agrees-bind (panicked p) (err x) f g first next = absurd first

  -- The same where the next steps need to know how they were reached.
  pub Agrees-bind_known :
      (m : Outcome E A) (n : Outcome F B) (f : A → Outcome E C) (g : B → Outcome F D)
      → Agrees Same m n
      → ((a : A) (b : B) → n ≡ ok b → Same a b → Agrees Next (f a) (g b))
      → Agrees Next (m >>= f) (n >>= g)
  Agrees-bind_known (ok a) (ok b) f g first next = next a b refl first
  Agrees-bind_known (err e) (err x) f g first next = tt
  Agrees-bind_known (panicked p) (panicked q) f g first next = first
  Agrees-bind_known (ok a) (err x) f g first next = absurd first
  Agrees-bind_known (ok a) (panicked q) f g first next = absurd first
  Agrees-bind_known (err e) (ok b) f g first next = absurd first
  Agrees-bind_known (err e) (panicked q) f g first next = absurd first
  Agrees-bind_known (panicked p) (ok b) f g first next = absurd first
  Agrees-bind_known (panicked p) (err x) f g first next = absurd first

-- What the second program returns, the first one does too.
pub Agrees-ok :
    {E F A B : Type 0} (Same : A → B → Type 0) (m : Outcome E A) (n : Outcome F B) (b : B)
    → Agrees Same m n
    → n ≡ ok b
    → (a : A) × (m ≡ ok a) × Same a b
Agrees-ok Same (ok a) (ok b') b same e = (a, refl, subst (Same a) (ok-injective e) same)
Agrees-ok Same (err e) (ok b') b same e' = absurd same
Agrees-ok Same (panicked p) (ok b') b same e = absurd same
Agrees-ok Same m (err x) b same e = cc
Agrees-ok Same m (panicked q) b same e = cc

-- And the other way.
pub ok-Agrees :
    {E F A B : Type 0} (Same : A → B → Type 0) (m : Outcome E A) (n : Outcome F B) (a : A)
    → Agrees Same m n
    → m ≡ ok a
    → (b : B) × (n ≡ ok b) × Same a b
ok-Agrees Same (ok a') (ok b) a same e = (b, refl, subst (λ x. Same x b) (ok-injective e) same)
ok-Agrees Same (ok a') (err x) a same e = absurd same
ok-Agrees Same (ok a') (panicked q) a same e = absurd same
ok-Agrees Same (err x) n a same e = cc
ok-Agrees Same (panicked q) n a same e = cc

abbrev pub Equal : {A : Type 0} → A → A → Type 0
Equal a b = a ≡ b

-- Where the first results are equal, the rest need only agree on each value.
pub Agrees-then :
    {E F A C D : Type 0} (Next : C → D → Type 0) (m : Outcome E A) (n : Outcome F A)
    (f : A → Outcome E C) (g : A → Outcome F D)
    → Agrees Equal m n
    → ((a : A) → Agrees Next (f a) (g a))
    → Agrees Next (m >>= f) (n >>= g)
Agrees-then Next m n f g first next =
    Agrees-bind Equal Next m n f g first (λ a b e. subst (λ x. Agrees Next (f a) (g x)) e (next a))
