-- ===== src/Threads/Moves.antt =====
-- The steps of kernel/thread.cc, by the places that threads leave and come to.
use p.Prelude.{
  ℕ, zero, suc, ◌+◌, ◌<◌, ◌≡◌, refl, ap, subst, inl, inr, Bool, true, false, not, Option, none,
  some, List, [], ◌∷◌, arith, ltb, Option-cases,
}
use mathlib.Core.Option.{some_inj}
use p.Prelude.{ltb→lt}
use p.Threads.{
  Action, action_ready, action_stop, action_wait, Core, Threads, Event, yields, stops, waits, idles,
  post_switches, notifies, readies, reaps, announces, adds, put, leave, stop, idle, post_switch,
  after_switch, running, idling, pick, notify, make_ready, reap, add, guard, step, run,
}
use p.Threads.Places.{
  tally, on_core, below, weight, tally-append, on_cores-put, pick-tally, below-next,
}

module _ (f : ℕ → ℕ) (n : ℕ) where
  abbrev pub Moved : Threads → Threads → Type 0
  Moved s s' = weight f n s' + below f s.created ≡ weight f n s + below f s'.created

  abbrev pub Moves : Threads → Option Threads → Type 0
  Moves s none = Unit {0}
  Moves s (some s') = Moved s s'

  module _ (c : ℕ) (s : Threads) (h : c < n) where
    left :
        (me : ℕ) (action : Action)
        → s.cores c ≡ (record { current = some me; leaving = none })
        → (rs : List ℕ) → s.ready ≡ rs
        → Moved s (leave c me action rs s)
    unfolding tally
    left me action e [] er = refl
    left me action e (next ∷ rest) er = omega (
      arith,
      on_cores-put f n c (record { current = some next; leaving = some (me, action) }) s.cores h,
      ap (on_core f) e,
      ap (tally f) er,
    )

    stopped :
        (me : ℕ)
        → s.cores c ≡ (record { current = some me; leaving = none })
        → (rs : List ℕ) → s.ready ≡ rs
        → Moved s (stop c me rs s)
    unfolding tally
    stopped me e [] er = omega (
      arith,
      on_cores-put f n c (record { current = none; leaving = some (me, action_stop) }) s.cores h,
      ap (on_core f) e,
    )
    stopped me e (next ∷ rest) er = omega (
      arith,
      on_cores-put f n c (record { current = some next; leaving = some (me, action_stop) }) s.cores
          h,
      ap (on_core f) e,
      ap (tally f) er,
    )

    idled :
        s.cores c ≡ (record { current = none; leaving = none })
        → (rs : List ℕ) → s.ready ≡ rs
        → Moved s (idle c rs s)
    unfolding tally
    idled e [] er = refl
    idled e (next ∷ rest) er = omega (
      arith,
      on_cores-put f n c (record { current = some next; leaving = none }) s.cores h,
      ap (on_core f) e,
      ap (tally f) er,
    )

    runs :
        (core : Core) (go : ℕ → Threads)
        → s.cores c ≡ core
        → ((me : ℕ) → s.cores c ≡ (record { current = some me; leaving = none }) → Moved s (go me))
        → Moves s (running core go)
    runs core go e step = by_core core.current core.leaving e
      where
        by_core :
            (current : Option ℕ) (leaving : Option (ℕ × Action))
            → s.cores c ≡ (record { current = current; leaving = leaving })
            → Moves s (running (record { current = current; leaving = leaving }) go)
        by_core none none e = tt
        by_core none (some x) e = tt
        by_core (some me) (some x) e = tt
        by_core (some me) none e = step me e

    rests :
        (core : Core)
        → s.cores c ≡ core
        → (s.cores c ≡ (record { current = none; leaving = none }) → Moved s (idle c s.ready s))
        → Moves s (idling core (idle c s.ready s))
    rests core e step = by_core core.current core.leaving e
      where
        by_core :
            (current : Option ℕ) (leaving : Option (ℕ × Action))
            → s.cores c ≡ (record { current = current; leaving = leaving })
            → Moves s (idling (record { current = current; leaving = leaving }) (idle c s.ready s))
        by_core none none e = step e
        by_core none (some x) e = tt
        by_core (some me) (some x) e = tt
        by_core (some me) none e = tt

    -- `post_switch`, with the core as it is after it.
    arrived :
        (current : Option ℕ) (t : ℕ) (action : Action) (same : Bool)
        → s.cores c ≡ (record { current = current; leaving = some (t, action) })
        → Moved s (
            post_switch t same action
              (record s { cores = put c (record { current = current; leaving = none }) s.cores }))
    unfolding tally
    arrived current t action_ready same e = omega (
      arith,
      on_cores-put f n c (record { current = current; leaving = none }) s.cores h,
      ap (on_core f) e,
      tally-append f s.ready (t ∷ []),
    )
    arrived current t action_stop same e = omega (
      arith,
      on_cores-put f n c (record { current = current; leaving = none }) s.cores h,
      ap (on_core f) e,
      tally-append f s.reaper (t ∷ []),
    )
    arrived current t action_wait true e = omega (
      arith,
      on_cores-put f n c (record { current = current; leaving = none }) s.cores h,
      ap (on_core f) e,
      tally-append f s.waiting (t ∷ []),
    )
    arrived current t action_wait false e = omega (
      arith,
      on_cores-put f n c (record { current = current; leaving = none }) s.cores h,
      ap (on_core f) e,
      tally-append f s.ready (t ∷ []),
    )

    arrives : (same : Bool) (core : Core) → s.cores c ≡ core → Moves s (after_switch c same core s)
    arrives same core e = by_core core.current core.leaving e
      where
        by_core :
            (current : Option ℕ) (leaving : Option (ℕ × Action))
            → s.cores c ≡ (record { current = current; leaving = leaving })
            → Moves s (after_switch c same (record { current = current; leaving = leaving }) s)
        by_core current none e = tt
        by_core current (some (t, action)) e = arrived current t action same e

  notified :
      (s : Threads) (o : Option (ℕ × List ℕ)) (i : ℕ) → pick i s.waiting ≡ o → Moves s (notify s o)
  unfolding tally
  notified s none i e = tt
  notified s (some (t, rest)) i e = omega (arith, pick-tally f i t s.waiting rest e)

  made_ready :
      (s : Threads) (o : Option (ℕ × List ℕ)) (i : ℕ) → pick i s.hand ≡ o → Moves s (make_ready s o)
  unfolding tally
  made_ready s none i e = tt
  made_ready s (some (t, rest)) i e =
      omega (arith, pick-tally f i t s.hand rest e, tally-append f s.ready (t ∷ []))

  reaped : (s : Threads) (ts : List ℕ) → s.reaper ≡ ts → Moved s (reap ts s)
  unfolding tally
  reaped s [] e = refl
  reaped s (t ∷ ts) e = omega (arith, ap (tally f) e)

  added : (s : Threads) (k : ℕ) → Moves s (add s k)
  unfolding tally
  added s zero = tt
  added s (suc k) = omega (arith, tally-append f s.ready (s.created ∷ []), below-next f s.created)

  pub guarded :
      (s : Threads) (b : Bool) (o : Option Threads) → (b ≡ true → Moves s o) → Moves s (guard b o)
  guarded s true o h = h refl
  guarded s false o h = tt

  pub step-Moves : (e : Event) (s : Threads) → Moves s (step n e s)
  unfolding step
  step-Moves (yields c) s = guarded s (ltb c n) _ (λ h.
      runs c s (ltb→lt c n h) (s.cores c) _ refl
        (λ me e. left c s (ltb→lt c n h) me action_ready e s.ready refl))
  step-Moves (waits c) s = guarded s (ltb c n) _ (λ h.
      runs c s (ltb→lt c n h) (s.cores c) _ refl
        (λ me e. left c s (ltb→lt c n h) me action_wait e s.ready refl))
  step-Moves (stops c) s = guarded s (ltb c n) _ (λ h.
      runs c s (ltb→lt c n h) (s.cores c) _ refl
        (λ me e. stopped c s (ltb→lt c n h) me e s.ready refl))
  step-Moves (idles c) s = guarded s (ltb c n) _ (λ h.
      rests c s (ltb→lt c n h) (s.cores c) refl (λ e. idled c s (ltb→lt c n h) e s.ready refl))
  step-Moves (post_switches c same) s =
      guarded s (ltb c n) _ (λ h. arrives c s (ltb→lt c n h) same (s.cores c) refl)
  step-Moves (notifies i) s = notified s (pick i s.waiting) i refl
  step-Moves (readies i) s = made_ready s (pick i s.hand) i refl
  step-Moves reaps s = reaped s s.reaper refl
  step-Moves announces s = refl
  step-Moves adds s = added s s.announced

  pub run-Moved : (es : List Event) (s s' : Threads) → run n es s ≡ some s' → Moved s s'
  unfolding run
  run-Moved [] s s' e = subst (Moved s) (some_inj.0 e) refl
  run-Moved (x ∷ es) s s' e = elim (Option-cases (guard (not s.off) (step n x s))) [
    | inl q ↦ absurd (cc (rw (run, q) at e))
    | inr (s₁, q) ↦
        let first : Moved s s₁ =
          subst (Moves s) q (guarded s (not s.off) (step n x s) (λ h. step-Moves x s)) in
        omega (arith, first, run-Moved es s₁ s' (rw (run, q) at e))
  ]
