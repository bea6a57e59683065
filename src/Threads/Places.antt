-- ===== src/Threads/Places.antt =====
-- The places of threads in kernel/thread.cc: the queues, the cores, and the switches.
use p.Prelude.{
  ℕ, zero, suc, ◌+◌, ◌≤◌, ◌<◌, ◌≡◌, refl, sym, ap, ◌≢◌, inl, inr, Option, none, some, List, [], ◌∷◌,
  ◌++◌, arith, ℕ_discrete, Option-cases,
}
use p.Threads.{Action, Core, Threads, put, pick}

module _ (f : ℕ → ℕ) where
  -- What the threads of a list, of a core and of all cores weigh.
  unfoldable pub tally : List ℕ → ℕ
  tally [] = 0
  tally (t ∷ ts) = f t + tally ts

  abbrev pub left_on : Option (ℕ × Action) → ℕ
  left_on none = 0
  left_on (some (t, action)) = f t

  abbrev pub run_on : Option ℕ → ℕ
  run_on none = 0
  run_on (some t) = f t

  abbrev pub on_core : Core → ℕ
  on_core core = run_on core.current + left_on core.leaving

  unfoldable pub on_cores : ℕ → (ℕ → Core) → ℕ
  on_cores zero cores = 0
  on_cores (suc n) cores = on_core (cores n) + on_cores n cores

  unfoldable pub below : ℕ → ℕ
  below zero = 0
  below (suc k) = f k + below k

  pub below-next : (k : ℕ) → below (k + 1) ≡ f k + below k
  unfolding below
  below-next k = let e : k + 1 ≡ suc k = omega arith in ap below e

  -- All places of a thread.
  abbrev pub weight : ℕ → Threads → ℕ
  weight n s =
      tally s.ready
      + tally s.reaper
      + tally s.waiting
      + tally s.hand
      + tally s.dead
      + on_cores n s.cores

  pub tally-append : (xs ys : List ℕ) → tally (xs ++ ys) ≡ tally xs + tally ys
  unfolding tally
  tally-append [] ys = omega arith
  tally-append (x ∷ xs) ys = omega (arith, tally-append xs ys)

  put_self : (c : ℕ) (x : Core) (cores : ℕ → Core) → put c x cores c ≡ x
  put_self c x cores = ground arith

  put_ne : (c d : ℕ) (x : Core) (cores : ℕ → Core) → d ≢ c → put c x cores d ≡ cores d
  put_ne c d x cores ne = ground arith

  on_cores-beyond :
      (n c : ℕ) (x : Core) (cores : ℕ → Core)
      → n ≤ c
      → on_cores n (put c x cores) ≡ on_cores n cores
  unfolding on_cores
  on_cores-beyond zero c x cores h = refl
  on_cores-beyond (suc n) c x cores h = omega (
    arith,
    ap on_core (put_ne c n x cores (λ e. absurd (omega (arith, h, e)))),
    on_cores-beyond n c x cores (omega (arith, h)),
  )

  pub on_cores-put :
      (n c : ℕ) (x : Core) (cores : ℕ → Core)
      → c < n
      → on_cores n (put c x cores) + on_core (cores c) ≡ on_cores n cores + on_core x
  unfolding on_cores
  on_cores-put zero c x cores h = absurd (omega (arith, h))
  on_cores-put (suc n) c x cores h = elim (ℕ_discrete c n) [
    | yes e ↦ omega (
      arith,
      on_cores-beyond n c x cores (omega (arith, e)),
      ap (λ k. on_core (cores k)) e,
      ap (λ k. on_core (put c x cores k)) e,
      ap on_core (put_self c x cores),
    )
    | no ne ↦ omega (
      arith,
      ap on_core (put_ne c n x cores (λ e. ne (sym e))),
      on_cores-put n c x cores (omega (arith, h, ne)),
    )
  ]

  pub pick-tally : (i t : ℕ) (xs ys : List ℕ) → pick i xs ≡ some (t, ys) → tally ys + f t ≡ tally xs
  unfolding pick tally
  pick-tally i t [] ys h = absurd (cc h)
  pick-tally zero t (x ∷ xs) ys h = ground arith
  pick-tally (suc i) t (x ∷ xs) ys h = elim (Option-cases (pick i xs)) [
    | inl e ↦ absurd (cc (rw e at h))
    | inr ((z, zs), e) ↦ ground (arith, e, pick-tally i z xs zs e)
  ]
