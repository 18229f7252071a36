-- ===== src/Base/Maps.antt =====
-- Text keys: a map as a function of its keys, and membership in a list of texts.
use proto.Base.Tests.{if◌then◌else◌}
use Prim.Native.String.{String}
use mathlib.Core.Bool.{Bool, true, false, ◌||◌, ◌&&◌}
use mathlib.Core.Option.{Option, none, some}
use mathlib.Core.List.{List, [], ◌∷◌}
use text.Mathlib.Text.{◌==◌ as str_eq}

-- A `HashMap<String, V>` that is never iterated over.
abbrev pub HashMap {ℓ} : Type ℓ → Type ℓ
HashMap V = String → Option V

module _ {ℓ} {V : Type ℓ} where
  abbrev pub empty : HashMap V
  empty k = none

  abbrev pub insert : String → V → HashMap V → HashMap V
  insert k v m j = if str_eq k j then some v else m j

  abbrev pub remove : String → HashMap V → HashMap V
  remove k m j = if str_eq k j then none else m j

  -- `entry(k).or_insert(v)`: the value that stands there afterwards.
  abbrev pub entry_or : V → Option V → V
  entry_or v none = v
  entry_or v (some old) = old

module _ {ℓ} {A : Type ℓ} where
  -- `iter().all(test)`.
  abbrev pub all : (A → Bool) → List A → Bool
  all test [] = true
  all test (x ∷ xs) = test x && all test xs

  -- `iter().filter(test).collect()`; each element is kept or left out in turn.
  abbrev pub keep_if : Bool → A → List A → List A
  keep_if true x xs = x ∷ xs
  keep_if false x xs = xs

  abbrev pub filter : (A → Bool) → List A → List A
  filter test [] = []
  filter test (x ∷ xs) = keep_if (test x) x (filter test xs)

-- `Vec<String>::contains`.
abbrev pub contains : List String → String → Bool
contains [] s = false
contains (x ∷ xs) s = str_eq x s || contains xs s
