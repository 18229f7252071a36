-- ===== src/Go/Client/Ids.antt =====
-- promproxy/client.go: `nextTxID` called from many goroutines at once. The counter is an
-- `atomic.Uint64`; each `Load` and each `CompareAndSwap` is a step of its own.
use proto.Base.{
  ℕ, zero, suc, ◌+◌, ◌-◌, ◌%◌, ◌^◌, ◌<◌, ◌==◌, if◌then◌else◌, ◌≡◌, ◌≢◌, refl, sym, ap, ◌∙◌, List,
  [], ◌∷◌, ◌++◌, length, length-append, get_elem?-append_left, get_elem?-append_last, Bool-cases,
  ltb, ◌⊎◌, inl, inr, some, get_elem?, arith,
}
use proto.Base.Counter.{advance, nth_id, nth_id_lem}
use proto.Go.Client.{next_of}

-- Where a goroutine stands: before the `Load`, or behind it with the id that it got.
pub data Pc : Type 0 where
  start : Pc
  loaded : (id : ℕ) → Pc

-- `handed` are the ids that calls have returned, in the order of their swaps.
pub record Calls : Type 0 where
  pub next_tx : ℕ
  pub handed : List ℕ
  pub at : ℕ → Pc

abbrev pub move : (ℕ → Pc) → ℕ → Pc → ℕ → Pc
move pcs i pc j = if j == i then pc else pcs j

-- One step of goroutine `i`. After its swap the call has returned, and it may call again.
pub data Step (c : Calls) : Calls → Type 0 where
  load : (i : ℕ) → c.at i ≡ start → Step c (record c { at = move c.at i (loaded c.next_tx) })
  swap :
      (i id : ℕ)
      → c.at i ≡ loaded id
      → c.next_tx ≡ id
      → Step c
          (record { next_tx = next_of id; handed = c.handed ++ id ∷ []; at = move c.at i start })
  retry :
      (i id : ℕ)
      → c.at i ≡ loaded id
      → c.next_tx ≢ id
      → Step c (record c { at = move c.at i start })

-- `New` stores 1.
abbrev pub fresh : Calls
fresh = record { next_tx = 1; handed = []; at = λ _. start }

pub data Reach : Calls → Type 0 where
  begin : Reach fresh
  next : {c d : Calls} → Reach c → Step c d → Reach d

next_of-eq-advance : (id : ℕ) → next_of id ≡ advance id
unfolding next_of advance
next_of-eq-advance id = ground arith

nth_id-suc : (n id : ℕ) → nth_id (suc n) id ≡ advance (nth_id n id)
nth_id-suc zero id = refl
nth_id-suc (suc n) id = nth_id-suc n (advance id)

-- The counter stands at the id behind those that were handed out.
abbrev Counted : ℕ → List ℕ → Type 0
Counted next_tx handed =
    (next_tx ≡ nth_id (length handed) 1)
    × ((k : ℕ) → k < length handed → get_elem? handed k ≡ some (nth_id k 1))

Counted-swap :
    (id : ℕ) (handed : List ℕ) → Counted id handed → Counted (next_of id) (handed ++ id ∷ [])
Counted-swap id handed (stands, given) =
    let size : length (handed ++ id ∷ []) ≡ suc (length handed) =
      omega (arith, length-append handed (id ∷ [])) in
    (
      next_of-eq-advance id
          ∙ ap advance stands
          ∙ sym (nth_id-suc (length handed) 1)
          ∙ ap (λ n. nth_id n 1) (sym size),
      λ k below. elim (Bool-cases (ltb k (length handed))) [
        | inl old ↦
            get_elem?-append_left handed (id ∷ []) k (ground (arith, old))
            ∙ given k (ground (arith, old))
        | inr new ↦
            let last : k ≡ length handed = ground (arith, new, size) in
            rw last (get_elem?-append_last handed id ∙ ap some stands)
      ],
    )

Reach-Counted : {c : Calls} → Reach c → Counted c.next_tx c.handed
Reach-Counted begin = (refl, λ k h. elim h [ ])
Reach-Counted (next r (load i at)) = Reach-Counted r
Reach-Counted (next r (retry i id at moved)) = Reach-Counted r
Reach-Counted {c} (next {c = b} r (swap i id at same)) =
    Counted-swap id b.handed (rw same at (Reach-Counted r))

-- However the calls of `nextTxID` on one client interleave, the k-th id that is handed out, counted
-- from 0, is k + 1 until all 64-bit numbers but 0 have been used, and then the ids begin again.
pub handed-Reach :
    (c : Calls) (k : ℕ)
    → Reach c
    → k < length c.handed
    → get_elem? c.handed k ≡ some (k % (2 ^ 64 - 1) + 1)
handed-Reach c k r below = (Reach-Counted r).1 k below ∙ ap some (nth_id_lem k)

-- Steps of any goroutines, one after the other.
pub data Steps (b : Calls) : Calls → Type 0 where
  none_yet : Steps b b
  then_one : {c d : Calls} → Steps b c → Step c d → Steps b d

Step-grows :
    {c d : Calls}
    → Step c d
    → ((d.next_tx ≡ c.next_tx) × (length d.handed ≡ length c.handed))
      ⊎ (length c.handed < length d.handed)
Step-grows (load i at) = inl (refl, refl)
Step-grows (retry i id at moved) = inl (refl, refl)
Step-grows {c} (swap i id at same) = inr (omega (arith, length-append c.handed (id ∷ [])))

Steps-grows :
    {b c : Calls}
    → Steps b c
    → ((c.next_tx ≡ b.next_tx) × (length c.handed ≡ length b.handed))
      ⊎ (length b.handed < length c.handed)
Steps-grows none_yet = inl (refl, refl)
Steps-grows (then_one r s) = ground (arith, Steps-grows r, Step-grows s)

Steps-moved : {b c : Calls} → Steps b c → c.next_tx ≢ b.next_tx → length b.handed < length c.handed
Steps-moved steps moved = ground (arith, Steps-grows steps)

move-same : (at : ℕ → Pc) (i : ℕ) (pc : Pc) → move at i pc i ≡ pc
move-same at i pc = ground arith

move-other : (at : ℕ → Pc) (i j : ℕ) (pc : Pc) → i ≢ j → move at j pc i ≡ at i
move-other at i j pc differ = ground (arith, differ)

loaded-start : {id : ℕ} → loaded id ≢ start
loaded-start e = cc

loaded-injective : {a b : ℕ} → loaded a ≡ loaded b → a ≡ b
loaded-injective e = cc

nat_cases : (i j : ℕ) → (i ≡ j) ⊎ (i ≢ j)
nat_cases i j = elim (Bool-cases (i == j)) [
  | inl same ↦ inl (ground (arith, same))
  | inr differ ↦ inr (ground (arith, differ))
]

-- Neither a swap nor a retry makes any goroutine load.
never_loads : (b : Calls) (i j id : ℕ) → b.at i ≡ start → move b.at j start i ≡ loaded id → ⊥
never_loads b i j id was is = elim (nat_cases i j) [
  | inl same ↦ loaded-start (sym is ∙ ap (move b.at j start) same ∙ move-same b.at j start)
  | inr differ ↦ loaded-start (sym is ∙ move-other b.at i j start differ ∙ was)
]

-- The step in which a goroutine gets an id from the counter.
Step-loaded :
    {b c : Calls} (i id : ℕ)
    → Step b c
    → b.at i ≡ start
    → c.at i ≡ loaded id
    → (id ≡ b.next_tx) × (c.next_tx ≡ b.next_tx) × (length c.handed ≡ length b.handed)
Step-loaded {b} i id (load j at) was is = elim (nat_cases i j) [
  | inl same ↦ (
    loaded-injective
        (sym is ∙ ap (move b.at j (loaded b.next_tx)) same ∙ move-same b.at j (loaded b.next_tx)),
    refl,
    refl,
  )
  | inr differ ↦
      absurd (loaded-start (sym is ∙ move-other b.at i j (loaded b.next_tx) differ ∙ was))
]
Step-loaded {b} i id (swap j x at same) was is = absurd (never_loads b i j id was is)
Step-loaded {b} i id (retry j x at moved) was is = absurd (never_loads b i j id was is)

-- The step in which a goroutine gives an id up, and nothing is handed out.
Step-retried :
    {c d : Calls} (i id : ℕ)
    → Step c d
    → c.at i ≡ loaded id
    → d.at i ≡ start
    → d.handed ≡ c.handed
    → c.next_tx ≢ id
Step-retried {c} i id (load j at) was is kept = elim (nat_cases i j) [
  | inl same ↦ absurd (loaded-start (sym was ∙ ap c.at same ∙ at))
  | inr differ ↦
      absurd (loaded-start (sym was ∙ sym (move-other c.at i j (loaded c.next_tx) differ) ∙ is))
]
Step-retried {c} i id (swap j x at same) was is kept =
    absurd (omega (arith, length-append c.handed (x ∷ []), ap length kept))
Step-retried {c} i id (retry j x at moved) was is kept = elim (nat_cases i j) [
  | inl same ↦
      let mine : x ≡ id = loaded-injective (sym at ∙ ap c.at (sym same) ∙ was) in
      λ e. moved (e ∙ sym mine)
  | inr differ ↦ absurd (loaded-start (sym was ∙ sym (move-other c.at i j start differ) ∙ is))
]

-- The loop is lock-free: a goroutine that loads an id in one step, and gives the id up in a later
-- one without having been handed it, so that it repeats its loop, does so only because calls have
-- been handed ids in between, whatever steps they and it made.
pub retry-Steps :
    (b b₁ c d : Calls) (i id : ℕ)
    → b.at i ≡ start
    → Step b b₁
    → b₁.at i ≡ loaded id
    → Steps b₁ c
    → c.at i ≡ loaded id
    → Step c d
    → d.at i ≡ start
    → d.handed ≡ c.handed
    → length b₁.handed < length c.handed
retry-Steps b b₁ c d i id before first read steps still last again kept =
    let (own, same, _) = Step-loaded i id first before read in
    let moved = Step-retried i id last still again kept in
    Steps-moved steps (λ e. moved (e ∙ same ∙ sym own))
