-- ===== src/Syscall/Sem/Keys.antt =====
-- Which semaphore has which key.
use p.Prelude.{
  ℕ, zero, suc, ◌+◌, ◌<◌, ◌≡◌, refl, sym, ap, ◌∙◌, ◌≢◌, ◌⊎◌, inl, inr, true, false, ◌&&◌, Option,
  none, some, List, [], ◌∷◌, arith, ℕ_discrete, ◌==◌, Bool-cases, Option-cases, length, get_or, set,
  length-set, get_or-set_self, get_or-set_ne,
}
use p.Syscall.Word.{failed, int_of}
use p.Syscall.Sem.{
  Sem, unused, max_semaphores, find_key, find_unused, find_or_create, or_failed, semget, semctl,
}

-- The semaphore at an index, if it is in use.
abbrev pub at : List Sem → ℕ → Sem
at t i = get_or t i unused

-- No two semaphores in use have one key.
pub record Keyed (t : List Sem) : Type 0 where
  pub size : length t ≡ max_semaphores
  pub distinct :
      (i j : ℕ) → (at t i).used ≡ true → (at t j).used ≡ true → (at t i).key ≡ (at t j).key → i ≡ j

-- An index whose semaphore is in use with the key, `d` places after the start.
abbrev Found : ℕ → ℕ → List Sem → ℕ → Type 0
Found key i t k =
    (d : ℕ) × (k ≡ i + d) × (d < length t) × ((at t d).used ≡ true) × ((at t d).key ≡ key)

find_key-some : (key i k : ℕ) (t : List Sem) → find_key key i t ≡ some k → Found key i t k
unfolding find_key
find_key-some key i k [] h = cc
find_key-some key i k (s ∷ ss) h = elim (Bool-cases (s.used && s.key == key)) [
  | inl e ↦ (0, ground arith, omega arith, ground arith, ground arith)
  | inr e ↦
      let (d, at_d, lt, u, has) = find_key-some key (i + 1) k ss (rw e at h) in
      (suc d, omega arith, omega arith, u, has)
]

abbrev Vacant : ℕ → List Sem → ℕ → Type 0
Vacant i t k = (d : ℕ) × (k ≡ i + d) × (d < length t) × ((at t d).used ≡ false)

find_unused-some : (i k : ℕ) (t : List Sem) → find_unused i t ≡ some k → Vacant i t k
unfolding find_unused
find_unused-some i k [] h = cc
find_unused-some i k (s ∷ ss) h = elim (Bool-cases s.used) [
  | inl e ↦
      let (d, at_d, lt, u) = find_unused-some (i + 1) k ss (ground arith) in
      (suc d, omega arith, omega arith, u)
  | inr e ↦ (0, ground arith, omega arith, e)
]

find_key-none :
    (key i j : ℕ) (t : List Sem)
    → find_key key i t ≡ none
    → (at t j).used ≡ true
    → (at t j).key ≢ key
unfolding find_key
find_key-none key i j [] h u = cc
find_key-none key i zero (s ∷ ss) h u = ground arith
find_key-none key i (suc j) (s ∷ ss) h u = ground (arith, find_key-none key (i + 1) j ss)

find_unused-none :
    (i j : ℕ) (t : List Sem) → find_unused i t ≡ none → j < length t → (at t j).used ≡ true
unfolding find_unused
find_unused-none i j [] h lt = absurd (omega arith)
find_unused-none i zero (s ∷ ss) h lt = ground arith
find_unused-none i (suc j) (s ∷ ss) h lt = ground (arith, find_unused-none (i + 1) j ss)

-- What `semget` did with the table: the id has the key, and the other semaphores are untouched.
pub record Got (key : ℕ) (t : List Sem) (id : ℕ) (t' : List Sem) : Type 0 where
  pub in_table : id < max_semaphores
  pub in_use : (at t' id).used ≡ true
  pub has_key : (at t' id).key ≡ key
  pub others : (j : ℕ) → j ≢ id → at t' j ≡ at t j
  pub old : (at t id).used ≡ true → t' ≡ t
  pub fresh : (at t id).used ≡ false → (at t' id).value ≡ 0
  pub keyed : Keyed t'

-- No semaphore has the key, and none is free.
pub record Full (key : ℕ) (t : List Sem) : Type 0 where
  pub all_used : (j : ℕ) → j < max_semaphores → (at t j).used ≡ true
  pub no_key : (j : ℕ) → (at t j).used ≡ true → (at t j).key ≢ key

abbrev Outcome : ℕ → List Sem → Option (ℕ × List Sem) → Type 0
Outcome key t none = Full key t
Outcome key t (some (id, t')) = Got key t id t'

module _ (key : ℕ) (t : List Sem) (v : Keyed t) where
  Got-old : (k : ℕ) → find_key key 0 t ≡ some k → Got key t k t
  Got-old k e =
      let (d, at_d, lt, u, has) = find_key-some key 0 k t e in
      let same : k ≡ d = omega arith in
      rw same (record {
        in_table = omega (arith, v.size);
        in_use = u;
        has_key = has;
        others = λ j ne. refl;
        old = λ _. refl;
        fresh = λ w. cc;
        keyed = v;
      })

  module _ (k : ℕ) (none_has : find_key key 0 t ≡ none) (lt : k < length t)
      (u : (at t k).used ≡ false) where
    abbrev made : List Sem
    made = set t k (record { used = true; key = key; value = 0 })

    here : at made k ≡ record { used = true; key = key; value = 0 }
    here = get_or-set_self t k (record { used = true; key = key; value = 0 }) unused lt

    there : (j : ℕ) → j ≢ k → at made j ≡ at t j
    there j ne =
        get_or-set_ne t k j (record { used = true; key = key; value = 0 }) unused (λ e. ne (sym e))

    made-Keyed : Keyed made
    made-Keyed = record {
      size = length-set t k (record { used = true; key = key; value = 0 }) ∙ v.size;
      distinct = λ i j ui uj e. elim (ℕ_discrete i k) [
        | yes p ↦ elim (ℕ_discrete j k) [
          | yes q ↦ omega arith
          | no q ↦ absurd (
              find_key-none key 0 j t none_has (ground (arith, there j q))
                (ground (arith, there j q, here)))
        ]
        | no p ↦ elim (ℕ_discrete j k) [
          | yes q ↦ absurd (
              find_key-none key 0 i t none_has (ground (arith, there i p))
                (ground (arith, there i p, here)))
          | no q ↦
              v.distinct i j (ground (arith, there i p)) (ground (arith, there j q))
                (ground (arith, there i p, there j q))
        ]
      ];
    }

    Got-fresh : Got key t k made
    Got-fresh = record {
      in_table = omega (arith, v.size);
      in_use = ap (λ (s : Sem). s.used) here;
      has_key = ap (λ (s : Sem). s.key) here;
      others = there;
      old = λ w. cc;
      fresh = λ _. ap (λ (s : Sem). s.value) here;
      keyed = made-Keyed;
    }

  find_or_create-Outcome : Outcome key t (find_or_create key t)
  unfolding find_or_create
  find_or_create-Outcome = elim (Option-cases (find_key key 0 t)) [
    | inr (k, e) ↦ rw e (Got-old k e)
    | inl e ↦ rw e (elim (Option-cases (find_unused 0 t)) [
      | inl f ↦ rw f (record {
        all_used = λ j lt. find_unused-none 0 j t f (omega (arith, v.size));
        no_key = λ j u. find_key-none key 0 j t e u;
      })
      | inr (k, f) ↦
          let (d, at_d, lt, u) = find_unused-some 0 k t f in
          let same : k ≡ d = omega arith in rw (f, same) (Got-fresh d e lt u)
    ])
  ]

-- On a table whose keys are distinct, `semget` with a count of 1 returns the id of a semaphore in
-- use with the key: the one that has it, and then nothing changes, or a free one, made with value
-- 0, and the others are untouched; or it fails and changes nothing, and then all 64 are in use and
-- none has the key. Distinct semaphores keep distinct keys.
pub semget-Got :
    (rdi rsi : ℕ) (t : List Sem)
    → Keyed t
    → int_of rsi ≡ 1
    → let (id, t') = semget rdi rsi t in
      ((id ≡ failed) × (t' ≡ t) × Full (int_of rdi) t) ⊎ Got (int_of rdi) t id t'
unfolding semget
semget-Got rdi rsi t v one =
    let e : (int_of rsi == 1) ≡ true = ground arith in
    rw e (by_case (find_or_create (int_of rdi) t) (find_or_create-Outcome (int_of rdi) t v))
  where
    by_case :
        (o : Option (ℕ × List Sem))
        → Outcome (int_of rdi) t o
        → let (id, t') = or_failed t o in
          ((id ≡ failed) × (t' ≡ t) × Full (int_of rdi) t) ⊎ Got (int_of rdi) t id t'
    by_case none f = inl (refl, refl, f)
    by_case (some (id, t')) g = inr g

semctl-frees :
    (rdi rdx : ℕ) (t t' : List Sem)
    → semctl rdi rdx t ≡ (0, t')
    → (int_of rdi < max_semaphores)
      × ((at t (int_of rdi)).used ≡ true)
      × (t' ≡ set t (int_of rdi) unused)
unfolding semctl
semctl-frees rdi rdx t t' h = ground arith

module _ (t : List Sem) (k : ℕ) (v : Keyed t) (lt : k < max_semaphores) where
  freed : List Sem
  freed = set t k unused

  freed_here : at freed k ≡ unused
  unfolding freed
  freed_here = get_or-set_self t k unused unused (omega (arith, v.size))

  freed_there : (j : ℕ) → j ≢ k → at freed j ≡ at t j
  unfolding freed
  freed_there j ne = get_or-set_ne t k j unused unused (λ e. ne (sym e))

  freed-used : (j : ℕ) → (at freed j).used ≡ true → j ≢ k
  freed-used j u e = cc (ap (λ (s : Sem). s.used) freed_here, ap (λ i. (at freed i).used) e)

  freed-Keyed : Keyed freed
  unfolding freed
  freed-Keyed = record {
    size = length-set t k unused ∙ v.size;
    distinct = λ i j ui uj e.
        let a = freed_there i (freed-used i ui) in
        let b = freed_there j (freed-used j uj) in
        v.distinct i j (ground (arith, a)) (ground (arith, b)) (ground (arith, a, b));
  }

-- On a table whose keys are distinct, a `semctl` that succeeds was given a semaphore in use, frees
-- it and leaves the others; distinct semaphores keep distinct keys.
semctl-Keyed :
    (rdi rdx : ℕ) (t t' : List Sem)
    → Keyed t
    → semctl rdi rdx t ≡ (0, t')
    → Keyed t'
      × ((at t (int_of rdi)).used ≡ true)
      × (at t' (int_of rdi) ≡ unused)
      × ((j : ℕ) → j ≢ int_of rdi → at t' j ≡ at t j)
unfolding freed
semctl-Keyed rdi rdx t t' v h =
    let (lt, u, e) = semctl-frees rdi rdx t t' h in
    rw e (
      freed-Keyed t (int_of rdi) v lt,
      u,
      freed_here t (int_of rdi) v lt,
      freed_there t (int_of rdi) v lt,
    )
