-- ===== src/Sync/Tests.antt =====
-- Two threads at a semaphore (kernel/semaphore.h), at a barrier (kernel/barrier.h), and at a spin
-- lock (kernel/spin_lock.cc).
use p.Prelude.{true, false, ℕ, ◌≡◌, refl, none, some, List, [], ◌∷◌, ◌++◌, arith}
use p.Sync.{
  Pc, outside, wants, captured, asleep, Monitor, Event, enters, tests, switches, calls, at,
  wake_all, notify_one, notify_all, step, run,
}
use p.Sync.SpinLock
use p.Sync.SpinLock.Kept.{run-Represents}
use p.Sync.Gates.{semaphore, barrier, arrival}
use p.Sync.Wakeup.{start, run-wakes}
use p.Sync.Invariant.{Inv}
use p.Sync.Promises.{semaphore-Sound}

-- Both go to sleep, and `up` wakes the first.
abbrev schedule : List (Event Unit)
schedule = enters 0 ∷ tests 0 ∷ switches 0 ∷ enters 1 ∷ tests 1 ∷ switches 1 ∷ calls tt ∷ []

abbrev both_asleep : ℕ → Pc
both_asleep =
    at 1 asleep
      (at 1 (captured 0) (at 1 wants (at 0 asleep (at 0 (captured 0) (at 0 wants (λ t. outside))))))

abbrev after_up : Monitor ℕ
after_up = record { state = 1; pc = at 0 wants both_asleep; waiting = 1 ∷ []; epoch = 1 }

run-schedule : run semaphore 2 schedule (start 0) ≡ some after_up
unfolding run step notify_one
run-schedule = refl

run-wakes_example : Inv semaphore semaphore-Sound 2 after_up
run-wakes_example =
    run-wakes semaphore semaphore-Sound 2 schedule 0 after_up (omega arith) run-schedule

-- A thread that captured the epoch before `up` does not go to sleep after it.
stale_thread :
    run semaphore 1 (enters 0 ∷ tests 0 ∷ calls tt ∷ switches 0 ∷ tests 0 ∷ []) (start 0)
    ≡ some (record {
      state = 0;
      pc = at 0 outside (at 0 wants (at 0 (captured 0) (at 0 wants (λ t. outside))));
      waiting = [];
      epoch = 1;
    })
unfolding run step notify_one
stale_thread = refl

-- The first of two threads sleeps, and the second wakes it.
abbrev arrivals : List (Event Unit)
arrivals = arrival 0 2 ++ (switches 0 ∷ []) ++ arrival 1 1

abbrev released : Monitor ℕ
released = record {
  state = 0;
  pc = at 0 wants (at 0 asleep (at 0 (captured 0) (at 0 wants (λ t. outside))));
  waiting = [];
  epoch = 1;
}

run-arrivals : run barrier 2 arrivals (start 2) ≡ some released
unfolding run step notify_all wake_all
run-arrivals = refl

-- Core 0 takes the lock, core 1 tries, core 0 sets it free, core 1 takes it, and core 0 restores its
-- flag.
abbrev idle_lock : SpinLock.Cores
idle_lock = record {
  lock = record { taken = false; was_disabled = false };
  disabled = λ c. false;
  left = λ c. none;
}

abbrev idle_promise : SpinLock.Promise
idle_promise = record { holder = none; going = λ c. false; chosen = λ c. false }

idle-Represents : SpinLock.Represents idle_promise idle_lock
idle-Represents = record {
  taken = refl;
  kept = λ c h. absurd (cc h);
  apart = λ c h. absurd (cc h);
  local = λ c. refl;
  flags = λ c. refl;
}

abbrev handed_over : List SpinLock.Event
handed_over =
    SpinLock.tries 0
    ∷ SpinLock.tries 1
    ∷ SpinLock.frees 0
    ∷ SpinLock.tries 1
    ∷ SpinLock.restores 0
    ∷ []

abbrev held_by_1 : SpinLock.Promise
held_by_1 = record {
  holder = some 1;
  going = SpinLock.put 0 false (SpinLock.put 0 true (λ c. false));
  chosen = λ c. false;
}

promised_over : SpinLock.promised_run handed_over idle_promise ≡ some held_by_1
unfolding SpinLock.promised_run SpinLock.promised
promised_over = refl

run-Represents_example :
    SpinLock.Represents held_by_1 (SpinLock.run handed_over idle_lock)
    × ((c : ℕ) → (SpinLock.try_lock c (SpinLock.run handed_over idle_lock)).0 ≡ false)
run-Represents_example =
    run-Represents handed_over idle_promise held_by_1 idle_lock idle-Represents promised_over
