-- ===== src/Threads/Shutdown.antt =====
-- The count `n_active` of kernel/thread.cc, and the shutdown in `reap`.
use p.Prelude.{
  ℕ, zero, suc, ◌+◌, ◌^◌, ◌≤◌, ◌<◌, ◌≡◌, refl, sym, ap, ◌∙◌, subst, inl, inr, Bool, true, false,
  not, Option, none, some, List, [], ◌∷◌, arith, ltb, Option-cases, length, sub64,
}
use p.Prelude.{==_iff}
use mathlib.Core.Option.{some_inj}
use p.Threads.{
  Action, action_ready, action_wait, Core, Threads, Event, yields, stops, waits, idles,
  post_switches, notifies, readies, reaps, announces, adds, idle, pick, reap, announce, add, guard,
  step, run, start,
}
use p.Threads.Places.{tally, run_on, left_on, on_core, below, weight}
use p.Threads.Once.{one_core, idle_cores}
use p.Threads.Moves.{Moved, Moves, step-Moves}
use p.Threads.Quiet.{
  Quiet, Quiets, leave-Quiet, stop-Quiet, idle-Quiet, running-Quiet, idling-Quiet,
  after_switch-Quiet, notify-Quiet, make_ready-Quiet, guard-Quiet,
}

below-one : (k : ℕ) → below (λ t. 1) k ≡ k
unfolding below
below-one zero = refl
below-one (suc k) = omega (arith, below-one k)

tally-one : (ts : List ℕ) → tally (λ t. 1) ts ≡ length ts
unfolding tally
tally-one [] = refl
tally-one (t ∷ ts) = omega (arith, tally-one ts)

no_threads : (ts : List ℕ) → tally (λ t. 1) ts ≡ 0 → ts ≡ []
unfolding tally
no_threads [] h = refl
no_threads (t ∷ ts) h = absurd (omega (arith, h))

no_core : (core : Core) → on_core (λ t. 1) core ≡ 0 → (core.current ≡ none)
no_core core h = by_current core.current refl
  where
    by_current : (current : Option ℕ) → core.current ≡ current → core.current ≡ none
    by_current none e = e
    by_current (some t) e = absurd (omega (arith, h, ap (run_on (λ t. 1)) e))

none_leaving : (core : Core) → on_core (λ t. 1) core ≡ 0 → core.leaving ≡ none
none_leaving core h = by_leaving core.leaving refl
  where
    by_leaving : (leaving : Option (ℕ × Action)) → core.leaving ≡ leaving → core.leaving ≡ none
    by_leaving none e = e
    by_leaving (some t) e = absurd (omega (arith, h, ap (left_on (λ t. 1)) e))

module _ (n : ℕ) where
  -- `n_active` counts the threads that were made or are about to be, and not yet deallocated.
  record Counted (s : Threads) : Type 0 where
    counted : s.n_active + length s.dead ≡ s.created + s.announced
    placed : weight (λ t. 1) n s ≡ s.created
    last : s.off ≡ true → s.n_active ≡ 0

  quiet-Counted : (s s' : Threads) → Counted s → Moved (λ t. 1) n s s' → Quiet s s' → Counted s'
  quiet-Counted s s' inv moved (qa, qd, qc, qn, qo) = record {
    counted = omega (arith, qa, ap length qd, qc, qn, inv.counted);
    placed = omega (arith, moved, inv.placed, below-one s.created, below-one s'.created);
    last = λ o. omega (arith, qa, inv.last (sym qo ∙ o));
  }

  reap-Counted :
      (s : Threads) (ts : List ℕ)
      → Counted s
      → s.created + s.announced < 2 ^ 64
      → s.off ≡ false
      → s.reaper ≡ ts
      → Moved (λ t. 1) n s (reap ts s)
      → Counted (reap ts s)
  unfolding tally
  reap-Counted s [] inv small on e moved = inv
  reap-Counted s (t ∷ ts) inv small on e moved =
      let some_active : 1 ≤ s.n_active =
        omega (arith, inv.counted, inv.placed, tally-one s.dead, ap (tally (λ t. 1)) e) in
      record {
        counted = omega (arith, inv.counted, some_active, small);
        placed = omega (arith, moved, inv.placed);
        last = λ o. (==_iff (sub64 s.n_active 1) 0).0 o;
      }

  -- A step, with at most one thread more that is counted.
  abbrev Next : Threads → Option Threads → Type 0
  Next s none = Unit {0}
  Next s (some s') = Counted s' × (s'.created + s'.announced ≤ s.created + s.announced + 1)

  quiet-Next :
      (s : Threads) (o : Option Threads) → Counted s → Moves (λ t. 1) n s o → Quiets s o → Next s o
  quiet-Next s none inv moved q = tt
  quiet-Next s (some s') inv moved q = (quiet-Counted s s' inv moved q, omega (arith, q.2, q.3))

  announce-Next :
      (s : Threads)
      → Counted s
      → s.created + s.announced + 1 < 2 ^ 64
      → s.off ≡ false
      → Next s (some (announce s))
  announce-Next s inv small on = (
    record {
      counted = omega (arith, inv.counted, small);
      placed = inv.placed;
      last = λ o. absurd (cc (sym on ∙ o));
    },
    omega arith,
  )

  add-Next :
      (s : Threads) (k : ℕ)
      → Counted s
      → s.announced ≡ k
      → Moves (λ t. 1) n s (add s k)
      → Next s (add s k)
  add-Next s zero inv e moved = tt
  add-Next s (suc k) inv e moved = (
    record {
      counted = omega (arith, inv.counted, e);
      placed = omega (arith, moved, inv.placed, below-one s.created, below-one (s.created + 1));
      last = inv.last;
    },
    omega (arith, e),
  )

  reap-Next :
      (s : Threads) (ts : List ℕ)
      → Counted s
      → s.created + s.announced < 2 ^ 64
      → s.off ≡ false
      → s.reaper ≡ ts
      → Moved (λ t. 1) n s (reap ts s)
      → Next s (some (reap ts s))
  reap-Next s [] inv small on e moved = (reap-Counted s [] inv small on e moved, omega arith)
  reap-Next s (t ∷ ts) inv small on e moved =
      (reap-Counted s (t ∷ ts) inv small on e moved, omega arith)

  step-Next :
      (e : Event) (s : Threads)
      → Counted s
      → s.created + s.announced + 1 < 2 ^ 64
      → s.off ≡ false
      → Next s (step n e s)
  unfolding step
  step-Next (yields c) s inv small on =
      quiet-Next s (step n (yields c) s) inv (step-Moves (λ t. 1) n (yields c) s) (
        guard-Quiet s (ltb c n) _
          (running-Quiet (s.cores c) _ s (λ me. leave-Quiet c me action_ready s.ready s)))
  step-Next (waits c) s inv small on =
      quiet-Next s (step n (waits c) s) inv (step-Moves (λ t. 1) n (waits c) s) (
        guard-Quiet s (ltb c n) _
          (running-Quiet (s.cores c) _ s (λ me. leave-Quiet c me action_wait s.ready s)))
  step-Next (stops c) s inv small on =
      quiet-Next s (step n (stops c) s) inv (step-Moves (λ t. 1) n (stops c) s) (
        guard-Quiet s (ltb c n) _ (running-Quiet (s.cores c) _ s (λ me. stop-Quiet c me s.ready s)))
  step-Next (idles c) s inv small on =
      quiet-Next s (step n (idles c) s) inv (step-Moves (λ t. 1) n (idles c) s) (
        guard-Quiet s (ltb c n) _
          (idling-Quiet (s.cores c) s (idle c s.ready s) (idle-Quiet c s.ready s)))
  step-Next (post_switches c same) s inv small on =
      quiet-Next s (step n (post_switches c same) s) inv
        (step-Moves (λ t. 1) n (post_switches c same) s)
        (guard-Quiet s (ltb c n) _ (after_switch-Quiet c same (s.cores c) s))
  step-Next (notifies i) s inv small on =
      quiet-Next s (step n (notifies i) s) inv (step-Moves (λ t. 1) n (notifies i) s)
        (notify-Quiet s (pick i s.waiting))
  step-Next (readies i) s inv small on =
      quiet-Next s (step n (readies i) s) inv (step-Moves (λ t. 1) n (readies i) s)
        (make_ready-Quiet s (pick i s.hand))
  step-Next reaps s inv small on =
      reap-Next s s.reaper inv (omega (arith, small)) on refl (step-Moves (λ t. 1) n reaps s)
  step-Next announces s inv small on = announce-Next s inv small on
  step-Next adds s inv small on = add-Next s s.announced inv refl (step-Moves (λ t. 1) n adds s)

  guarded-Next :
      (s : Threads) (o : Option Threads) → (s.off ≡ false → Next s o) → Next s (guard (not s.off) o)
  guarded-Next s o h = by_off s.off refl
    where
      by_off : (off : Bool) → s.off ≡ off → Next s (guard (not off) o)
      by_off true e = tt
      by_off false e = h e

  run-Counted :
      (es : List Event) (s s' : Threads)
      → Counted s
      → s.created + s.announced + length es < 2 ^ 64
      → run n es s ≡ some s'
      → Counted s'
  unfolding run
  run-Counted [] s s' inv small e = subst Counted (some_inj.0 e) inv
  run-Counted (x ∷ es) s s' inv small e = elim (Option-cases (guard (not s.off) (step n x s))) [
    | inl q ↦ absurd (cc (rw (run, q) at e))
    | inr (s₁, q) ↦
        let first : Next s (some s₁) =
          subst (Next s) q
            (guarded-Next s (step n x s) (λ on. step-Next x s inv (omega (arith, small)) on)) in
        run-Counted es s₁ s' first.0 (omega (arith, small, first.1)) (rw (run, q) at e)
  ]

-- From the start, over fewer than 2 ^ 64 steps of any number of cores in any order that is
-- possible: once `reap` has shut the machine down, no thread is left that was not deallocated. No
-- queue has one, no core runs one or has left one that it has not put away, and none is about to be
-- made.
pub run-shutdown :
    (n : ℕ) (es : List Event) (s : Threads) (c : ℕ)
    → run n es start ≡ some s
    → length es < 2 ^ 64
    → s.off ≡ true
    → c < n
    → (s.ready ≡ [])
      × (s.reaper ≡ [])
      × (s.waiting ≡ [])
      × (s.hand ≡ [])
      × ((s.cores c).current ≡ none)
      × ((s.cores c).leaving ≡ none)
      × (s.announced ≡ 0)
unfolding tally
run-shutdown n es s c e small off h =
    let first : Counted n start = record {
      counted = refl;
      placed = omega (arith, idle_cores (λ t. 1) n);
      last = λ o. absurd (cc o);
    } in
    let inv = run-Counted n es start s first (omega (arith, small)) e in
    let none_active = inv.last off in
    let dead = tally-one s.dead in
    let core = one_core (λ t. 1) n c s.cores h in
    (
      no_threads s.ready (omega (arith, inv.counted, inv.placed, none_active, dead)),
      no_threads s.reaper (omega (arith, inv.counted, inv.placed, none_active, dead)),
      no_threads s.waiting (omega (arith, inv.counted, inv.placed, none_active, dead)),
      no_threads s.hand (omega (arith, inv.counted, inv.placed, none_active, dead)),
      no_core (s.cores c) (omega (arith, inv.counted, inv.placed, none_active, dead, core)),
      none_leaving (s.cores c) (omega (arith, inv.counted, inv.placed, none_active, dead, core)),
      omega (arith, inv.counted, inv.placed, none_active, dead),
    )
