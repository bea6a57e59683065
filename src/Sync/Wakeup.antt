-- ===== src/Sync/Wakeup.antt =====
-- The interleavings of threads at a condition: kernel/condition.h, with `post_switch` of
-- kernel/thread.cc.
use p.Prelude.{
  ℕ, ◌+◌, ◌^◌, ◌≤◌, ◌<◌, ◌≡◌, refl, subst, inl, inr, Option, none, some, List, [], ◌∷◌, arith,
  Option-cases, length, add64,
}
use mathlib.Core.Option.{some_inj}
use p.Sync.{
  Pc, outside, wants, captured, asleep, Signal, silent, one, all, Gate, Monitor, Event, enters,
  tests, gives_up, switches, calls, enter, give_up, test_round, post_switch_wait, call, notify,
  wake_first, notify_one, notify_all, step, run,
}
use p.Sync.Awake.{count}
use p.Sync.Invariant.{Sound, Inv, enters-Inv, gives_up-Inv, tests-Inv}
use p.Sync.Woken.{switches-Inv, notify-Inv}

-- The epoch and the size after a step.
abbrev Late : {State : Type 0} → (State → ℕ) → ℕ → ℕ → Option (Monitor State) → Type 0
Late size n k none = Unit {0}
Late size n k (some m) = (m.epoch ≤ n) × (size m.state ≤ k)

module _ {Op State : Type 0} (g : Gate Op State) (sound : Sound g) (threads : ℕ) where
  abbrev InStep : Monitor State → Option (Monitor State) → Type 0
  InStep m = Late sound.size (m.epoch + 1) (sound.size m.state + 1)

  enter-InStep : (t : ℕ) (m : Monitor State) (x : Pc) → InStep m (enter threads t m x)
  enter-InStep t m outside = ground arith
  enter-InStep t m wants = tt
  enter-InStep t m (captured e) = tt
  enter-InStep t m asleep = tt

  give_up-InStep : (t : ℕ) (m : Monitor State) (x : Pc) → InStep m (give_up t m x)
  give_up-InStep t m (captured e) = (omega arith, omega arith)
  give_up-InStep t m outside = tt
  give_up-InStep t m wants = tt
  give_up-InStep t m asleep = tt

  post_switch_wait-InStep : (t : ℕ) (m : Monitor State) (x : Pc) → InStep m (post_switch_wait t m x)
  post_switch_wait-InStep t m (captured e) = ground arith
  post_switch_wait-InStep t m outside = tt
  post_switch_wait-InStep t m wants = tt
  post_switch_wait-InStep t m asleep = tt

  test_round-InStep : (t : ℕ) (m : Monitor State) (x : Pc) → InStep m (test_round g t m x)
  test_round-InStep t m wants = elim (Option-cases (g.test m.state)) [
    | inl e ↦ rw e (omega arith, omega arith)
    | inr (s, e) ↦ rw e (omega arith, omega (arith, sound.shrinks m.state s e))
  ]
  test_round-InStep t m outside = tt
  test_round-InStep t m (captured e) = tt
  test_round-InStep t m asleep = tt

  notify-InStep :
      (signal : Signal) (m : Monitor State) (s : State)
      → m.epoch + 1 < 2 ^ 64
      → sound.size s ≤ sound.size m.state + 1
      → InStep m (some (notify signal (record m { state = s })))
  unfolding notify_one notify_all
  notify-InStep silent m s h k = (omega arith, k)
  notify-InStep one m s h k = first m.waiting
    where
      first :
          (ws : List ℕ)
          → InStep m
              (some (record (wake_first ws (record m { state = s })) { epoch = add64 m.epoch 1 }))
      first [] = (omega (arith, h), k)
      first (t ∷ ts) = (omega (arith, h), k)
  notify-InStep all m s h k = (omega (arith, h), k)

  call-InStep : (o : Op) (m : Monitor State) → m.epoch + 1 < 2 ^ 64 → InStep m (call g o m)
  call-InStep o m h = elim (Option-cases (g.op o m.state)) [
    | inl e ↦ rw (call, e) tt
    | inr ((s, signal), e) ↦
        rw (call, e) (notify-InStep signal m s h (sound.grows o m.state s signal e))
  ]

  step-InStep :
      (e : Event Op) (m : Monitor State) → m.epoch + 1 < 2 ^ 64 → InStep m (step g threads e m)
  unfolding step
  step-InStep (enters t) m h = enter-InStep t m (m.pc t)
  step-InStep (tests t) m h = test_round-InStep t m (m.pc t)
  step-InStep (gives_up t) m h = give_up-InStep t m (m.pc t)
  step-InStep (switches t) m h = post_switch_wait-InStep t m (m.pc t)
  step-InStep (calls o) m h = call-InStep o m h

  step-Inv :
      (e : Event Op) (m m' : Monitor State)
      → Inv g sound threads m
      → m.epoch + 1 < 2 ^ 64
      → sound.size m.state + 1 < 2 ^ 64
      → step g threads e m ≡ some m'
      → Inv g sound threads m'
  unfolding step
  step-Inv (enters t) m m' inv h k e = enters-Inv g sound threads t m m' inv e
  step-Inv (tests t) m m' inv h k e = tests-Inv g sound threads t m m' inv e
  step-Inv (gives_up t) m m' inv h k e = gives_up-Inv g sound threads t m m' inv e
  step-Inv (switches t) m m' inv h k e = switches-Inv g sound threads t m m' inv e
  step-Inv (calls o) m m' inv h k e = elim (Option-cases (g.op o m.state)) [
    | inl q ↦ absurd (cc (rw (call, q) at e))
    | inr ((s, signal), q) ↦
        let w = sound.wakes o m.state s signal k q in
        subst (Inv g sound threads) (some_inj.0 (rw (call, q) at e))
          (notify-Inv g sound threads m s signal inv h w.0 w.1)
  ]

  run-Inv :
      (es : List (Event Op)) (m m' : Monitor State)
      → Inv g sound threads m
      → m.epoch + length es < 2 ^ 64
      → sound.size m.state + length es < 2 ^ 64
      → run g threads es m ≡ some m'
      → Inv g sound threads m'
  unfolding run
  run-Inv [] m m' inv h k e = subst (Inv g sound threads) (some_inj.0 e) inv
  run-Inv (e ∷ es) m m' inv h k q = elim (Option-cases (step g threads e m)) [
    | inl r ↦ absurd (cc (rw (run, r) at q))
    | inr (m₁, r) ↦
        let small : m.epoch + 1 < 2 ^ 64 = omega (arith, h) in
        let bound : InStep m (some m₁) = subst (InStep m) r (step-InStep e m small) in
        run-Inv es m₁ m' (step-Inv e m m₁ inv small (omega (arith, k)) r)
          (omega (arith, h, bound.0)) (omega (arith, k, bound.1)) (rw (run, r) at q)
  ]

-- Before any thread has come.
abbrev pub start : {State : Type 0} → State → Monitor State
start s = record { state = s; pc = λ t. outside; waiting = []; epoch = 0 }

-- For a variable that keeps the promises of `Sound`, and any sequence of fewer than 2 ^ 64 critical
-- sections and steps of threads, counted with the variable's size, in any order that is possible
-- from the start, `Inv` holds: every thread that sleeps stands in the queue once, and nothing else
-- stands there; where the queue is not empty, there is room for no more threads than are awake and
-- still to test; and a thread about to sleep that captured the epoch of now finds no room.
pub run-wakes :
    {Op State : Type 0} (g : Gate Op State) (sound : Sound g) (threads : ℕ) (es : List (Event Op))
    (s : State) (m : Monitor State)
    → sound.size s + length es < 2 ^ 64
    → run g threads es (start s) ≡ some m
    → Inv g sound threads m
unfolding count
run-wakes g sound threads es s m h e =
    run-Inv g sound threads es (start s) m
      (record {
        queued = λ t. refl;
        bounded = λ t q. refl;
        past = λ t x q. absurd (cc q);
        current = λ t x q now. absurd (cc q);
        enough = λ w. absurd (w refl);
      })
      (omega (arith, h)) h e
