-- ===== src/PromProxy/Samples.antt =====
-- A concrete Redis with one hash, and JSON coders, for the tests.
use proto.Base.{
  ℕ, ◌≡◌, refl, sym, ap, ◌∙◌, if◌then◌else◌, List, [], ◌∷◌, String, str_eq, eq_iff, none, some,
  Bool, ltb, Bool-cases, inl, inr, Outcome, ok, err, ok-injective, arith,
}
use mathlib.Core.Path.{subst}
use proto.Base.Integers.{ℤ, pos, negsuc, ◌+ℤ◌}
use proto.Base.Json.{JsonError, json_error}
use proto.PromProxy.Protocol.{Serde, SerdeLaws, RemoteWriteAck}
use proto.PromProxy.Edge.{RedisError, redis_error, Redis, EdgeStore}
use proto.PromProxy.Edge.Totals.{lookup, UniqueFields, counted, RedisLaws}

-- The fields of the hash; what stands first counts.
abbrev pub Fields : Type 0
Fields = List (String × ℤ)

abbrev pub without : String → Fields → Fields
without key [] = []
without key ((k, v) ∷ es) =
    let rest = without key es in if str_eq k key then rest else (k, v) ∷ rest

abbrev pub distinct : Fields → Fields
distinct [] = []
distinct ((k, v) ∷ es) = (k, v) ∷ without k (distinct es)

-- The values of a field are 64-bit numbers.
abbrev in_range : ℤ → Bool
in_range (pos n) = ltb n 0x8000000000000000
in_range (negsuc n) = ltb n 0x8000000000000000

-- HINCRBY, which refuses to leave the range.
abbrev pub hincrby : String → ℤ → Fields → Outcome RedisError ℤ × Fields
hincrby key d es =
    let v = counted (lookup key es) +ℤ d in
    if in_range v
    then (ok v, (key, v) ∷ es)
    else (err (redis_error "increment or decrement would overflow"), es)

abbrev pub one_hash : Redis (Unit {0}) (Unit {0}) Fields
one_hash = record {
  open_client = λ url. ok tt;
  manager = λ client. ok tt;
  get_connection = λ client. ok tt;
  hincr = λ conn hash_key key d es. hincrby key d es;
  hgetall = λ conn hash_key es. (ok (distinct es), es);
}

lookup-without :
    (key f : String) (es : Fields)
    → lookup f (without key es) ≡ (if str_eq key f then none else lookup f es)
lookup-without key f [] = ground arith
lookup-without key f ((k, v) ∷ es) =
    ground (arith, eq_iff k key, eq_iff k f, eq_iff key f, lookup-without key f es)

lookup-distinct : (f : String) (es : Fields) → lookup f (distinct es) ≡ lookup f es
lookup-distinct f [] = refl
lookup-distinct f ((k, v) ∷ es) =
    ground (arith, lookup-without k f (distinct es), lookup-distinct f es)

UniqueFields-without :
    (key : String) (es : Fields) → UniqueFields es → UniqueFields (without key es)
UniqueFields-without key [] u = tt
UniqueFields-without key ((k, v) ∷ es) u = elim (Bool-cases (str_eq k key)) [
  | inl same ↦ rw same (UniqueFields-without key es u.1)
  | inr differs ↦
      rw differs (ground (arith, lookup-without key k es, u.0), UniqueFields-without key es u.1)
]

UniqueFields-distinct : (es : Fields) → UniqueFields (distinct es)
UniqueFields-distinct [] = tt
UniqueFields-distinct ((k, v) ∷ es) = (
  ground (arith, lookup-without k k (distinct es), eq_iff k k),
  UniqueFields-without k (distinct es) (UniqueFields-distinct es),
)

hincrby-eq-ok :
    (key : String) (d v : ℤ) (s s' : Fields) (f : String)
    → hincrby key d s ≡ (ok v, s')
    → lookup f s' ≡ (if str_eq key f then some (counted (lookup key s) +ℤ d) else lookup f s)
hincrby-eq-ok key d v s s' f e = elim (Bool-cases (in_range (counted (lookup key s) +ℤ d))) [
  | inl fits ↦ ap (λ (p : Outcome RedisError ℤ × Fields). lookup f p.1) (sym (rw fits at e))
  | inr over ↦ cc (ap (λ (p : Outcome RedisError ℤ × Fields). p.0) (rw over at e))
]

pub one_hash_laws : RedisLaws one_hash "edges"
one_hash_laws = record {
  value = λ es f. lookup f es;
  increased = λ conn key d v s s' f e. hincrby-eq-ok key d v s s' f e;
  listed = λ conn es s s' f e.
      let list = ok-injective (ap (λ (p : Outcome RedisError Fields × Fields). p.0) e) in
      let kept = ap (λ (p : Outcome RedisError Fields × Fields). p.1) e in
      (
        ap (lookup f) (sym list) ∙ lookup-distinct f s,
        subst UniqueFields list (UniqueFields-distinct s),
        sym kept,
      );
  unchanged = λ conn s. refl;
}

pub one_hash_value : (es : Fields) (f : String) → one_hash_laws.value es f ≡ lookup f es
unfolding one_hash_laws
one_hash_value es f = refl

abbrev pub edges : EdgeStore (Unit {0})
edges = record { conn = tt; hash_key = "edges" }

-- A status is written as itself; of the messages, one is known.
abbrev first_status : List ℕ → Outcome JsonError RemoteWriteAck
first_status [] = err (json_error "no status")
first_status (b ∷ bs) = ok (record { status = b })

abbrev pub json_samples : Serde
json_samples = record {
  remote_write_ack = record { encode = λ a. ok (a.status ∷ []); decode = first_status };
  error_body = record {
    encode =
        λ b. if str_eq b.message "unknown" then ok (1 ∷ []) else err (json_error "unknown text");
    decode = λ bytes. ok (record { message = "unknown" });
  };
}

pub json_samples_laws : SerdeLaws json_samples
json_samples_laws = record {
  remote_write_ack = record { decode_encode = λ a b e. ap first_status (sym (ok-injective e)) };
  error_body = record {
    decode_encode = λ a b e. elim (Bool-cases (str_eq a.message "unknown")) [
      | inl known ↦
          ap (λ (text : String). ok (record { message = text }))
            (sym ((eq_iff a.message "unknown").0 known))
      | inr other ↦ cc (rw other at e)
    ];
  };
}
