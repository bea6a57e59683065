-- ===== src/Sync/Gates.antt =====
-- The variables that conditions guard: kernel/semaphore.h, kernel/blocking_lock.h,
-- kernel/count_down_latch.h, kernel/barrier.h and kernel/future.h.
use p.Prelude.{
  ℕ, ◌-◌, Bool, true, false, Option, none, some, List, [], ◌∷◌, ◌==◌, if◌then◌else◌, add64, sub64,
}
use p.Sync.{Signal, silent, one, all, Gate, Event, enters, tests, calls}

-- `Semaphore`: `down` waits, and `up` is the operation.
abbrev pub down : ℕ → Option ℕ
down count = if count == 0 then none else some (count - 1)

abbrev pub up : ℕ → Option (ℕ × Signal)
up count = some (add64 count 1, one)

abbrev pub semaphore : Gate Unit ℕ
semaphore = record { test = down; op = λ o. up }

-- `BlockingLock`, by whether it is locked.
abbrev pub lock : Bool → Option Bool
lock locked = if locked then none else some true

abbrev pub unlock : Bool → Option (Bool × Signal)
unlock locked = if locked then some (false, one) else none

abbrev pub blocking_lock : Gate Unit Bool
blocking_lock = record { test = lock; op = λ o. unlock }

-- `CountDownLatch`: `sync` waits, and `up` and `down` do not.
pub data LatchOp : Type 0 where
  latch_up : LatchOp
  latch_down : LatchOp

abbrev pub sync : ℕ → Option ℕ
sync count = if count == 0 then some count else none

abbrev pub latch_op : LatchOp → ℕ → Option (ℕ × Signal)
latch_op latch_up count = some (add64 count 1, silent)
latch_op latch_down count =
    if count == 0 then none else some (count - 1, if count == 1 then all else silent)

abbrev pub latch : Gate LatchOp ℕ
latch = record { test = sync; op = latch_op }

-- `Barrier::sync`: the last thread wakes the others, and any other one tests the count in the same
-- critical section.
abbrev pub arrive : ℕ → Option (ℕ × Signal)
arrive count = let left = sub64 count 1 in some (left, if left == 0 then all else silent)

abbrev pub barrier : Gate Unit ℕ
barrier = record { test = sync; op = λ o. arrive }

abbrev pub arrival : ℕ → ℕ → List (Event Unit)
arrival t count = if sub64 count 1 == 0 then calls tt ∷ [] else calls tt ∷ enters t ∷ tests t ∷ []

-- `Future`, by its value once it is set: `get` waits, and `set` is the operation.
abbrev pub get : Option ℕ → Option (Option ℕ)
get none = none
get (some value) = some (some value)

abbrev pub future : Gate ℕ (Option ℕ)
future = record { test = get; op = λ value old. some (some value, all) }
