-- ===== src/PromProxy/Edge/Totals.antt =====
-- src/prom_proxy/edge.rs: what the totals are after an increment.
use proto.Base.{
  ℕ, zero, suc, ◌+◌, ◌≤◌, ◌<◌, ◌^◌, ◌≡◌, refl, sym, ap, ◌∙◌, ◌&&◌, ltb, if◌then◌else◌, List, [],
  ◌∷◌, String, str_eq, eq_iff, Option, none, some, Outcome, ok, map_err, map_err-eq-ok,
  Outcome-cases, arith,
}
use proto.Base.Exec.{Exec, continue, continue-eq-ok}
use proto.Base.Integers.{ℤ, pos, negsuc, ◌+ℤ◌, as_i64, as_i64_small, as_i64_large}
use proto.PromProxy.Edge.{
  RedisError, EdgeError, redis, Redis, EdgeStore, not_negative, command, incr, totals,
}

abbrev pub lookup : {V : Type 0} → String → List (String × V) → Option V
lookup f [] = none
lookup f ((k, v) ∷ es) = if str_eq k f then some v else lookup f es

-- Every field stands once.
abbrev pub UniqueFields : List (String × ℤ) → Type 0
UniqueFields [] = Unit
UniqueFields ((k, v) ∷ es) = (lookup k es ≡ none) × UniqueFields es

-- The number that a field stands for.
abbrev pub counted : Option ℤ → ℤ
counted none = pos 0
counted (some v) = v

-- A value as the totals show it.
abbrev pub shown : Option ℤ → Option ℕ
shown none = none
shown (some (pos n)) = some n
shown (some (negsuc n)) = none

-- What Redis promises about the commands on one hash: HINCRBY adds to a field, which counts as
-- zero where it is missing; HGETALL returns every field once, and changes nothing,
-- also where it fails.
pub record RedisLaws {RedisClient Conn Db : Type 0} (server : Redis RedisClient Conn Db)
    (hash_key : String) : Type 0 where
  pub value : Db → String → Option ℤ
  pub increased :
      (conn : Conn) (key : String) (d v : ℤ) (s s' : Db) (f : String)
      → server.hincr conn hash_key key d s ≡ (ok v, s')
      → value s' f ≡ (if str_eq key f then some (counted (value s key) +ℤ d) else value s f)
  pub listed :
      (conn : Conn) (es : List (String × ℤ)) (s s' : Db) (f : String)
      → server.hgetall conn hash_key s ≡ (ok es, s')
      → (lookup f es ≡ value s f) × UniqueFields es × (s' ≡ s)
  pub unchanged : (conn : Conn) (s : Db) → (server.hgetall conn hash_key s).1 ≡ s

lookup-not_negative :
    (f : String) (es : List (String × ℤ))
    → UniqueFields es
    → lookup f (not_negative es) ≡ shown (lookup f es)
unfolding not_negative
lookup-not_negative f [] u = refl
lookup-not_negative f ((k, pos n) ∷ es) u = ground (arith, lookup-not_negative f es u.1)
lookup-not_negative f ((k, negsuc n) ∷ es) u =
    ground (arith, lookup-not_negative f es u.1, u.0, eq_iff k f)

-- A command that succeeded, and what came after it.
command-eq-ok :
    {S A B : Type 0} (run : Exec RedisError S A) (next : A → Exec EdgeError S B) (s s' : S) {b : B}
    → continue (command run s).0 next (command run s).1 ≡ (ok b, s')
    → (a : A) × (run s ≡ (ok a, (run s).1)) × (next a (run s).1 ≡ (ok b, s'))
command-eq-ok run next s s' e =
    let (a, fine, rest) = continue-eq-ok (map_err redis (run s).0) next (run s).1 e in
    let done = map_err-eq-ok redis (run s).0 fine in (a, λ i. (done i, (run s).1), rest)

module _ {RedisClient Conn Db : Type 0} (server : Redis RedisClient Conn Db)
    (store : EdgeStore Conn) (laws : RedisLaws server store.hash_key) where
  pub totals-shown :
      (s s' : Db) (ts : List (String × ℕ)) (f : String)
      → totals server store s ≡ (ok ts, s')
      → (lookup f ts ≡ shown (laws.value s f)) × (s' ≡ s)
  unfolding totals
  totals-shown s s' ts f e =
      let run = server.hgetall store.conn store.hash_key in
      let (es, got, rest) = command-eq-ok run _ s s' e in
      let (found, unique, same) = laws.listed store.conn es s (run s).1 f got in
      let ts_is : not_negative es ≡ ts = ground (arith, rest) in
      let s_is : (run s).1 ≡ s' =
        ap (λ (p : Outcome EdgeError (List (String × ℕ)) × Db). p.1) rest in
      (
        ap (lookup f) (sym ts_is) ∙ lookup-not_negative f es unique ∙ ap shown found,
        sym s_is ∙ same,
      )

  pub totals_unchanged : (s : Db) → (totals server store s).1 ≡ s
  unfolding totals
  totals_unchanged s = ground (
    arith,
    laws.unchanged store.conn s,
    Outcome-cases (server.hgetall store.conn store.hash_key s).0,
  )

  pub incr_value :
      (key : String) (delta : ℕ) (s s' : Db) (f : String)
      → 0 < delta
      → incr server store key delta s ≡ (ok tt, s')
      → laws.value s' f ≡ (
          if str_eq key f
          then some (counted (laws.value s key) +ℤ as_i64 delta)
          else laws.value s f)
  unfolding incr
  incr_value key zero s s' f positive e = absurd (omega arith)
  incr_value key (suc n) s s' f positive e =
      let run = server.hincr store.conn store.hash_key key (as_i64 (suc n)) in
      let (v, done, rest) = command-eq-ok run _ s s' e in
      let s_is : (run s).1 ≡ s' = ap (λ (p : Outcome EdgeError Unit × Db). p.1) rest in
      ap (λ t. laws.value t f) (sym s_is)
      ∙ laws.increased store.conn key (as_i64 (suc n)) v s (run s).1 f done

  incr-shown :
      (key : String) (delta t : ℕ) (s s' : Db) (f : String)
      → delta < 2 ^ 63
      → counted (laws.value s key) ≡ pos t
      → incr server store key delta s ≡ (ok tt, s')
      → shown (laws.value s' f)
        ≡ (if str_eq key f && ltb 0 delta then some (t + delta) else shown (laws.value s f))
  unfolding incr
  incr-shown key zero t s s' f small count done =
      let same = ap (λ (p : Outcome EdgeError Unit × Db). shown (laws.value p.1 f)) done in
      ground (arith, same)
  incr-shown key (suc n) t s s' f small count done =
      ap shown (incr_value key (suc n) s s' f (omega arith) done)
      ∙ ground (arith, eq_iff key f, count, as_i64_small (suc n) small)

  -- An increment by less than 2^63 that succeeded adds to the total of its key, and leaves the other
  -- totals as they were. (The field of the key is missing, which counts as zero, or not negative.)
  pub totals-incr :
      (key : String) (delta t : ℕ) (s₀ s s' s₁ : Db) (before after : List (String × ℕ)) (f : String)
      → delta < 2 ^ 63
      → counted (laws.value s key) ≡ pos t
      → totals server store s₀ ≡ (ok before, s)
      → incr server store key delta s ≡ (ok tt, s')
      → totals server store s' ≡ (ok after, s₁)
      → lookup f after ≡ (if str_eq key f && ltb 0 delta then some (t + delta) else lookup f before)
  totals-incr key delta t s₀ s s' s₁ before after f small count listed done listed' =
      let (old, same) = totals-shown s₀ s before f listed in
      let (now, _) = totals-shown s' s₁ after f listed' in
      let here : lookup f before ≡ shown (laws.value s f) =
        old ∙ ap (λ r. shown (laws.value r f)) (sym same) in
      now ∙ incr-shown key delta t s s' f small count done ∙ ground (arith, here)

  -- An increment by 2^63 or more, of a total that with it stays below 2^64, counts down: the key is
  -- no longer among the totals.
  pub incr_wraps :
      (key : String) (delta t : ℕ) (s s' s₁ : Db) (after : List (String × ℕ))
      → 2 ^ 63 ≤ delta
      → t + delta < 2 ^ 64
      → counted (laws.value s key) ≡ pos t
      → incr server store key delta s ≡ (ok tt, s')
      → totals server store s' ≡ (ok after, s₁)
      → lookup key after ≡ none
  incr_wraps key delta t s s' s₁ after large bounded count done listed =
      let (now, _) = totals-shown s' s₁ after key listed in
      let value = incr_value key delta s s' key (omega arith) done in
      now ∙ ap shown value ∙ ground (arith, eq_iff key key, count, as_i64_large delta large)
