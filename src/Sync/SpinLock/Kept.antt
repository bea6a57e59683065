-- ===== src/Sync/SpinLock/Kept.antt =====
-- The spin lock of kernel/spin_lock.cc keeps its promise.
use p.Prelude.{
  ℕ, ◌≡◌, refl, sym, ap, ◌∙◌, subst, inl, inr, Bool, true, false, ◌||◌, not, Option, none, some,
  List, [], ◌∷◌, arith, ℕ_discrete, ◌==◌, if◌then◌else◌, Bool-cases, Option-cases,
}
use mathlib.Core.Option.{some_inj}
use p.Sync.SpinLock.{
  Cores, put, exchanged, try_lock, set_free, restored, restore, Event, tries, frees, restores, sets,
  step, run, Promise, has, is_free, first, promised, promised_run, Represents,
}

-- A try that gets nothing leaves the flags as they were.
put_back : (c d : ℕ) (flags : ℕ → Bool) → put c (flags c) (put c true flags) d ≡ flags d
put_back c d flags = elim (ℕ_discrete d c) [
  | yes e ↦ ground (arith, ap flags e)
  | no ne ↦ ground arith
]

exchanged-Represents :
    (c : ℕ) (a : Promise) (s : Cores) (taken : Bool) (h : Option ℕ)
    → a.going c ≡ false
    → Represents a s
    → a.holder ≡ h
    → s.lock.taken ≡ taken
    → taken ≡ not (is_free h)
    → Represents (record a { holder = first c h }) (exchanged taken c s).1
exchanged-Represents c a s true none out r e t q = absurd cc
exchanged-Represents c a s false (some h) out r e t q = absurd cc
exchanged-Represents c a s false none out r e t q =
    let flags : (d : ℕ) → s.disabled d ≡ (a.going d || a.chosen d) =
      λ d. r.flags d ∙ ap (λ h. has d h || a.going d || a.chosen d) e in
    record {
      taken = refl;
      kept = λ d w.
          let me : d ≡ c = ground arith in
          flags c ∙ ap (λ b. b || a.chosen c) out ∙ ap a.chosen (sym me);
      apart = λ d w. let me : d ≡ c = ground arith in ap a.going me ∙ out;
      local = r.local;
      flags = λ d. ground (arith, flags d);
    }
exchanged-Represents c a s true (some h) out r e t q = record {
  taken = t;
  kept = λ d w. r.kept d (ap (has d) e ∙ w);
  apart = λ d w. r.apart d (ap (has d) e ∙ w);
  local = r.local;
  flags = λ d. put_back c d s.disabled ∙ r.flags d ∙ ap (λ h. has d h || a.going d || a.chosen d) e;
}

tries-Represents :
    (c : ℕ) (a : Promise) (s : Cores)
    → a.going c ≡ false
    → Represents a s
    → Represents (record a { holder = first c a.holder }) (try_lock c s).1
unfolding try_lock
tries-Represents c a s out r =
    exchanged-Represents c a s s.lock.taken a.holder out r refl refl r.taken

-- Only one core has the lock.
has_one : (c d : ℕ) (h : Option ℕ) → has c h ≡ true → has d h ≡ (d == c)
has_one c d none w = absurd cc
has_one c d (some x) w = ground arith

frees-Represents :
    (c : ℕ) (a : Promise) (s : Cores)
    → has c a.holder ≡ true
    → Represents a s
    → Represents (record a { holder = none; going = put c true a.going }) (set_free c s)
unfolding set_free
frees-Represents c a s mine r = record {
  taken = refl;
  kept = λ d w. absurd (cc w);
  apart = λ d w. absurd (cc w);
  local = λ d. elim (ℕ_discrete d c) [
    | yes e ↦ ground (arith, r.kept c mine, ap a.chosen e)
    | no ne ↦ ground (arith, r.local d)
  ];
  flags = λ d. elim (ℕ_discrete d c) [
    | yes e ↦ ground (arith, r.flags d, has_one c d a.holder mine)
    | no ne ↦ ground (arith, r.flags d, has_one c d a.holder mine)
  ];
}

restores-Represents :
    (c : ℕ) (a : Promise) (s : Cores)
    → a.going c ≡ true
    → Represents a s
    → Represents (record a { going = put c false a.going }) (restore c s)
unfolding restore
restores-Represents c a s going r =
    let was : s.left c ≡ some (a.chosen c) =
      r.local c ∙ ap (λ b. if b then some (a.chosen c) else none) going in
    let not_mine : has c a.holder ≡ false = elim (Bool-cases (has c a.holder)) [
      | inl w ↦ absurd (cc (sym going ∙ r.apart c w))
      | inr w ↦ w
    ] in
    subst (λ x. Represents (record a { going = put c false a.going }) (restored c x s)) (sym was)
      (record {
        taken = r.taken;
        kept = r.kept;
        apart = λ d w. ground (arith, r.apart d w);
        local =
            λ d. elim (ℕ_discrete d c) [ yes e ↦ ground arith | no ne ↦ ground (arith, r.local d) ];
        flags = λ d. elim (ℕ_discrete d c) [
          | yes e ↦ ground (arith, ap a.chosen e, ap (λ x. has x a.holder) e)
          | no ne ↦ ground (arith, r.flags d)
        ];
      })

sets-Represents :
    (c : ℕ) (b : Bool) (a : Promise) (s : Cores)
    → has c a.holder ≡ false
    → a.going c ≡ false
    → Represents a s
    → Represents
        (record a { chosen = put c b a.chosen })
        (record s { disabled = put c b s.disabled })
sets-Represents c b a s free out r = record {
  taken = r.taken;
  kept = λ d w. elim (ℕ_discrete d c) [
    | yes e ↦ absurd (cc (sym w ∙ ap (λ x. has x a.holder) e ∙ free))
    | no ne ↦ ground (arith, r.kept d w)
  ];
  apart = r.apart;
  local = λ d. elim (ℕ_discrete d c) [
    | yes e ↦ ground (arith, r.local d, ap a.going e)
    | no ne ↦ ground (arith, r.local d)
  ];
  flags = λ d. elim (ℕ_discrete d c) [
    | yes e ↦ ground (arith, ap a.going e, ap (λ x. has x a.holder) e)
    | no ne ↦ ground (arith, r.flags d)
  ];
}

step-Represents :
    (e : Event) (a a' : Promise) (s : Cores)
    → Represents a s
    → promised e a ≡ some a'
    → Represents a' (step e s)
unfolding promised step
step-Represents (tries c) a a' s r h = elim (Bool-cases (a.going c)) [
  | inl q ↦ absurd (cc (rw (promised, q) at h))
  | inr q ↦
      subst (λ x. Represents x (try_lock c s).1) (some_inj.0 (rw (promised, q) at h))
        (tries-Represents c a s q r)
]
step-Represents (frees c) a a' s r h = elim (Bool-cases (has c a.holder)) [
  | inl q ↦
      subst (λ x. Represents x (set_free c s)) (some_inj.0 (rw (promised, q) at h))
        (frees-Represents c a s q r)
  | inr q ↦ absurd (cc (rw (promised, q) at h))
]
step-Represents (restores c) a a' s r h = elim (Bool-cases (a.going c)) [
  | inl q ↦
      subst (λ x. Represents x (restore c s)) (some_inj.0 (rw (promised, q) at h))
        (restores-Represents c a s q r)
  | inr q ↦ absurd (cc (rw (promised, q) at h))
]
step-Represents (sets c b) a a' s r h = elim (Bool-cases (has c a.holder)) [
  | inl q ↦ absurd (cc (rw (promised, q) at h))
  | inr q ↦ elim (Bool-cases (a.going c)) [
    | inl p ↦ absurd (cc (rw (promised, q, p) at h))
    | inr p ↦
        subst (λ x. Represents x (record s { disabled = put c b s.disabled }))
          (some_inj.0 (rw (promised, q, p) at h)) (sets-Represents c b a s q p r)
  ]
]

answer : (c : ℕ) (s : Cores) (a : Promise) → Represents a s → (try_lock c s).0 ≡ is_free a.holder
unfolding try_lock
answer c s a r = by_taken s.lock.taken a.holder r.taken
  where
    by_taken :
        (taken : Bool) (h : Option ℕ)
        → taken ≡ not (is_free h)
        → (exchanged taken c s).0 ≡ is_free h
    by_taken true none q = absurd cc
    by_taken true (some d) q = refl
    by_taken false none q = refl
    by_taken false (some d) q = absurd cc

-- Over any tries, the two parts of any releases, and changes of interrupt flags by any cores, in
-- any order that is allowed, the lock does what it is to do: it is taken exactly when a core has it,
-- and never by two; a core that has it, or has set it free and not yet restored its flag, has its
-- interrupts disabled, and every other core has the flag that it chose itself, so that `unlock` puts
-- back the flag from before; and a further try gets the lock exactly when no core has it.
pub run-Represents :
    (es : List Event) (a a' : Promise) (s : Cores)
    → Represents a s
    → promised_run es a ≡ some a'
    → Represents a' (run es s) × ((c : ℕ) → (try_lock c (run es s)).0 ≡ is_free a'.holder)
unfolding run promised_run
run-Represents [] a a' s r h =
    let r' : Represents a' s = subst (λ x. Represents x s) (some_inj.0 h) r in
    (r', λ c. answer c s a' r')
run-Represents (e ∷ es) a a' s r h = elim (Option-cases (promised e a)) [
  | inl q ↦ absurd (cc (rw (promised_run, q) at h))
  | inr (b, q) ↦
      run-Represents es b a' (step e s) (step-Represents e a b s r q) (rw (promised_run, q) at h)
]
