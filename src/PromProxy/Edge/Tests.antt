-- ===== src/PromProxy/Edge/Tests.antt =====
-- The counters on a concrete hash.
use proto.Base.{
  ℕ, ◌+◌, ◌^◌, ◌-◌, ◌≡◌, refl, ap, ◌&&◌, ltb, if◌then◌else◌, [], ◌∷◌, str_eq, none, some, ok, arith,
}
use proto.Base.Integers.{pos, negsuc, as_i64}
use proto.PromProxy.Edge.{EdgeStoreBlocking, incr, totals, not_negative}
use proto.PromProxy.Edge.Totals.{lookup, counted, totals-incr, incr_wraps}
use proto.PromProxy.Samples.{one_hash, one_hash_laws, one_hash_value, edges, Fields}

abbrev seven : Fields
seven = ("a", pos 7) ∷ []

abbrev ten : Fields
ten = ("a", pos 10) ∷ seven

totals-seven : totals one_hash edges seven ≡ (ok (("a", 7) ∷ []), seven)
unfolding totals not_negative
totals-seven = refl

incr_three : incr one_hash edges "a" 3 seven ≡ (ok tt, ten)
unfolding incr as_i64
incr_three = refl

totals-ten : totals one_hash edges ten ≡ (ok (("a", 10) ∷ []), ten)
unfolding totals not_negative
totals-ten = refl

seven_value : counted (one_hash_laws.value seven "a") ≡ pos 7
seven_value = ap counted (one_hash_value seven "a")

totals-incr_example :
    some 10 ≡ (if str_eq "a" "a" && ltb 0 3 then some (7 + 3) else lookup "a" (("a", 7) ∷ []))
totals-incr_example =
    totals-incr one_hash edges one_hash_laws "a" 3 7 seven seven ten ten (("a", 7) ∷ [])
      (("a", 10) ∷ []) "a" (omega arith) seven_value totals-seven incr_three totals-ten

-- 2^63, which is the least i64, takes the total below zero.
abbrev sunk : Fields
sunk = ("a", negsuc (2 ^ 63 - 8)) ∷ seven

incr_large : incr one_hash edges "a" (2 ^ 63) seven ≡ (ok tt, sunk)
unfolding incr as_i64
incr_large = refl

totals-sunk : totals one_hash edges sunk ≡ (ok [], sunk)
unfolding totals not_negative
totals-sunk = refl

incr_wraps_example : lookup {V = ℕ} "a" [] ≡ none
incr_wraps_example =
    incr_wraps one_hash edges one_hash_laws "a" (2 ^ 63) 7 seven sunk sunk [] (omega arith)
      (omega arith) seven_value incr_large totals-sunk

abbrev blocking : EdgeStoreBlocking (Unit {0})
blocking = record { client = tt; hash_key = "edges" }
