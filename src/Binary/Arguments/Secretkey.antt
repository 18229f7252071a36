-- ===== src/Binary/Arguments/Secretkey.antt =====
-- src/bin/prom_proxy.rs: which of the arguments is the key's text.
use proto.Base.{
  ◌≡◌, ◌≢◌, refl, sym, ap, ◌∙◌, ◌⊎◌, inl, inr, Bool-cases, false, str_eq, eq_iff, Option, none,
  some, List, [], ◌∷◌, String, ok, err, ok-injective, arith,
}
use mathlib.Core.Path.{subst}
use proto.Binary.{
  Given, nothing_given, Flag, listen, prometheus_url, redis_url, secretkey, help, other, leave,
  flag_of, set_flag, parse_loop, or_usage,
}

-- No option `--secretkey` among the arguments, which are options and their values in turn.
abbrev pub NotGiven : List String → Type 0
NotGiven [] = Unit
NotGiven (option ∷ []) = Unit
NotGiven (option ∷ value ∷ args) = (option ≢ "--secretkey") × NotGiven args

-- The value of the last `--secretkey`.
pub data LastGiven (text : String) : List String → Type 0 where
  here : (args : List String) → NotGiven args → LastGiven text ("--secretkey" ∷ text ∷ args)
  behind :
      (option value : String) (args : List String)
      → LastGiven text args
      → LastGiven text (option ∷ value ∷ args)

-- A flag that is not the key's.
abbrev IsOther : Flag → Type 0
IsOther secretkey = ⊥
IsOther listen = Unit
IsOther prometheus_url = Unit
IsOther redis_url = Unit
IsOther help = Unit
IsOther other = Unit

some-injective : {A : Type 0} {a b : A} → some a ≡ some b → a ≡ b
some-injective e = cc

other_flag :
    (flag : Flag) (value : String) (given given' : Given)
    → IsOther flag
    → set_flag flag value given ≡ some given'
    → given'.secretkey ≡ given.secretkey
unfolding set_flag
other_flag listen value given given' o e = ap (λ (g : Given). g.secretkey) (sym (some-injective e))
other_flag prometheus_url value given given' o e =
    ap (λ (g : Given). g.secretkey) (sym (some-injective e))
other_flag redis_url value given given' o e =
    ap (λ (g : Given). g.secretkey) (sym (some-injective e))
other_flag secretkey value given given' o e = absurd o
other_flag help value given given' o e = cc
other_flag other value given given' o e = cc

flag_of-IsOther : (option : String) → str_eq option "--secretkey" ≡ false → IsOther (flag_of option)
unfolding flag_of
flag_of-IsOther option differs = ground (arith, differs)

-- What the loop's arm does to the key.
set_flag-secretkey :
    (option value : String) (given given' : Given)
    → set_flag (flag_of option) value given ≡ some given'
    → ((option ≡ "--secretkey") × (given'.secretkey ≡ some value))
      ⊎ ((option ≢ "--secretkey") × (given'.secretkey ≡ given.secretkey))
unfolding set_flag flag_of
set_flag-secretkey option value given given' e = elim (Bool-cases (str_eq option "--secretkey")) [
  | inl is ↦
      let named : option ≡ "--secretkey" = (eq_iff option "--secretkey").0 is in
      let set : some (record given { secretkey = some value }) ≡ some given' =
        sym (ap (λ o. set_flag (flag_of o) value given) named) ∙ e in
      inl (named, ap (λ (g : Given). g.secretkey) (sym (some-injective set)))
  | inr differs ↦ inr (
    (λ same. cc ((eq_iff option "--secretkey").1 same, differs)),
    other_flag (flag_of option) value given given' (flag_of-IsOther option differs) e,
  )
]

-- The loop over the arguments: what it knows of the key at its end.
parse_loop-secretkey :
    (args : List String) (given given' : Given)
    → parse_loop args given ≡ ok given'
    → ((text : String) × LastGiven text args × (given'.secretkey ≡ some text))
      ⊎ (NotGiven args × (given'.secretkey ≡ given.secretkey))
unfolding parse_loop
parse_loop-secretkey [] given given' e =
    inr (tt, ap (λ (g : Given). g.secretkey) (sym (ok-injective e)))
parse_loop-secretkey (option ∷ []) given given' e = cc
parse_loop-secretkey (option ∷ value ∷ args) given given' e =
    by_arm (set_flag (flag_of option) value given) (λ g. parse_loop-secretkey args g given') refl e
  where
    by_arm :
        (set : Option Given)
        → ((g : Given)
            → parse_loop args g ≡ ok given'
            → ((text : String) × LastGiven text args × (given'.secretkey ≡ some text))
              ⊎ (NotGiven args × (given'.secretkey ≡ g.secretkey)))
        → set_flag (flag_of option) value given ≡ set
        → (elim set [ some g ↦ parse_loop args g | none ↦ err (leave (flag_of option) option) ])
          ≡ ok given'
        → ((text : String) × LastGiven text (option ∷ value ∷ args)
            × (given'.secretkey ≡ some text))
          ⊎ (NotGiven (option ∷ value ∷ args) × (given'.secretkey ≡ given.secretkey))
    by_arm none later set rest = cc
    by_arm (some g) later set rest = elim (later g rest) [
      | inl (text, last, is) ↦ inl (text, behind option value args last, is)
      | inr (none_left, is) ↦ elim (set_flag-secretkey option value given g set) [
        | inl (named, put) ↦ inl (
          value,
          subst (λ o. LastGiven value (o ∷ value ∷ args)) (sym named) (here args none_left),
          is ∙ put,
        )
        | inr (differs, kept) ↦ inr ((differs, none_left), is ∙ kept)
      ]
    ]

-- The text that the key is read from.
pub chosen_text :
    (args : List String) (given : Given) (text : String) (variable : Option String)
    → parse_loop args nothing_given ≡ ok given
    → or_usage given.secretkey variable ≡ ok text
    → LastGiven text args ⊎ (NotGiven args × (variable ≡ some text))
chosen_text args given text variable looped chosen =
    elim (parse_loop-secretkey args nothing_given given looped) [
      | inl (value, last, is) ↦
          inl (subst (λ t. LastGiven t args) (ok-injective (rw is at chosen)) last)
      | inr (none_given, is) ↦ inr (none_given, from_variable variable (rw is at chosen))
    ]
  where
    from_variable :
        (variable : Option String) → or_usage none variable ≡ ok text → variable ≡ some text
    from_variable (some value) e = ap some (ok-injective e)
    from_variable none e = cc
