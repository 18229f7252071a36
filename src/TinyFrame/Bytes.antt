-- ===== src/TinyFrame/Bytes.antt =====
-- `to_be_bytes` and `from_be_bytes` of Rust's unsigned integers, for every width.
use proto.Base.{
  ℕ, zero, suc, ◌+◌, ◌*◌, ◌/◌, ◌%◌, ◌^◌, ◌<◌, ◌≡◌, refl, ◌∙◌, List, [], ◌∷◌, ◌++◌, length,
  length-append, All, All-append, All-append_left, All-append_right, split_last, ap, arith,
}
use native.Mathlib.Nat.{zero-add, add-zero, pow-suc}
use proto.TinyFrame.Types.{IsU8}

-- The `width` bytes of `v`, the most significant first.
unfoldable pub to_be_bytes : ℕ → ℕ → List ℕ
to_be_bytes zero v = []
to_be_bytes (suc width) v = to_be_bytes width (v / 256) ++ (v % 256 ∷ [])

unfoldable pub be_loop : ℕ → List ℕ → ℕ
be_loop acc [] = acc
be_loop acc (b ∷ bs) = be_loop (acc * 256 + b) bs

unfoldable pub from_be_bytes : List ℕ → ℕ
unfolding be_loop
from_be_bytes bs = be_loop 0 bs

pub length-to_be_bytes : (width v : ℕ) → length (to_be_bytes width v) ≡ width
unfolding to_be_bytes
length-to_be_bytes zero v = refl
length-to_be_bytes (suc width) v = omega (
  arith,
  length-append (to_be_bytes width (v / 256)) (v % 256 ∷ []),
  length-to_be_bytes width (v / 256),
)

pub to_be_bytes-IsU8 : (width v : ℕ) → All IsU8 (to_be_bytes width v)
unfolding to_be_bytes
to_be_bytes-IsU8 zero v = tt
to_be_bytes-IsU8 (suc width) v =
    All-append IsU8 (to_be_bytes width (v / 256)) (v % 256 ∷ []) (to_be_bytes-IsU8 width (v / 256))
      (omega arith, tt)

be_loop-append :
    (acc : ℕ) (xs : List ℕ) (b : ℕ) → be_loop acc (xs ++ b ∷ []) ≡ be_loop acc xs * 256 + b
unfolding be_loop
be_loop-append acc [] b = refl
be_loop-append acc (x ∷ xs) b = be_loop-append (acc * 256 + x) xs b

pub from_be_bytes-to_be_bytes :
    (width v : ℕ) → v < 256 ^ width → from_be_bytes (to_be_bytes width v) ≡ v
unfolding from_be_bytes to_be_bytes
from_be_bytes-to_be_bytes zero v h = omega arith
from_be_bytes-to_be_bytes (suc width) v h =
    be_loop-append 0 (to_be_bytes width (v / 256)) (v % 256)
    ∙ omega (arith, from_be_bytes-to_be_bytes width (v / 256) (omega arith))

be_loop-lt :
    (bs : List ℕ) (acc k : ℕ) → All IsU8 bs → acc < 256 ^ k → be_loop acc bs < 256 ^ (length bs + k)
unfolding be_loop
be_loop-lt [] acc k h lt = rw zero-add lt
be_loop-lt (b ∷ bs) acc k h lt =
    let shift : suc (length bs) + k ≡ length bs + suc k = omega arith in
    rw shift (be_loop-lt bs (acc * 256 + b) (suc k) h.1 (omega (arith, pow-suc 256 k)))

-- What is read from `width` bytes fits the integer's width.
pub from_be_bytes-lt :
    (bs : List ℕ) (width : ℕ) → All IsU8 bs → length bs ≡ width → from_be_bytes bs < 256 ^ width
unfolding from_be_bytes
from_be_bytes-lt bs width h e = rw (← e) (rw add-zero at (be_loop-lt bs 0 0 h (omega arith)))

pub to_be_bytes-from_be_bytes :
    (width : ℕ) (bs : List ℕ)
    → All IsU8 bs
    → length bs ≡ width
    → to_be_bytes width (from_be_bytes bs) ≡ bs
unfolding from_be_bytes to_be_bytes
to_be_bytes-from_be_bytes zero [] h e = refl
to_be_bytes-from_be_bytes zero (b ∷ bs) h e = absurd (omega arith)
to_be_bytes-from_be_bytes (suc width) bs h e =
    let (init, last, whole, size) = split_last width bs e in
    let bytes : All IsU8 (init ++ last ∷ []) = rw whole at h in
    let fits = (All-append_right IsU8 init (last ∷ []) bytes).0 in
    let ih =
      to_be_bytes-from_be_bytes width init (All-append_left IsU8 init (last ∷ []) bytes) size in
    let value = be_loop-append 0 init last in
    let high : be_loop 0 (init ++ last ∷ []) / 256 ≡ be_loop 0 init = omega (arith, value, fits) in
    let low : be_loop 0 (init ++ last ∷ []) % 256 ≡ last = omega (arith, value, fits) in
    rw whole (rw (high, low) (ap (λ xs. xs ++ last ∷ []) ih))
