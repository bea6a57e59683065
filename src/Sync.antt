-- ===== src/Sync.antt =====
-- Condition variables and what is built on them: kernel/condition.h, and `post_switch` of
-- kernel/thread.cc where a thread waits.
pub mod Gates
pub mod Awake
pub mod Invariant
pub mod Promises
pub mod Released
pub mod SpinLock
pub mod Woken
pub mod Wakeup
mod Tests
use p.Prelude.{ℕ, Option, none, some, List, [], ◌∷◌, ◌++◌, ltb, ◌==◌, if◌then◌else◌, add64}

-- Where a thread is: outside of the operation that can wait; about to take the lock and test;
-- past the release of the lock in `Condition::wait`, with the epoch that it read; or in the queue.
pub data Pc : Type 0 where
  outside : Pc
  wants : Pc
  captured : ℕ → Pc
  asleep : Pc

-- What an operation does before it releases the lock: nothing, `notify_one`, `notify_all`.
pub data Signal : Type 0 where
  silent : Signal
  one : Signal
  all : Signal

-- The variable that a lock guards. `test` is the loop's test and what follows it, with `none` to
-- wait; `op` is an operation that does not wait, with `none` for a failed assertion.
pub record Gate (Op State : Type 0) : Type 0 where
  pub test : State → Option State
  pub op : Op → State → Option (State × Signal)

-- The variable, the threads, and the fields of `Condition`.
pub record Monitor (State : Type 0) : Type 0 where
  pub state : State
  pub pc : ℕ → Pc
  pub waiting : List ℕ
  pub epoch : ℕ

pub data Event (Op : Type 0) : Type 0 where
  enters : ℕ → Event Op
  tests : ℕ → Event Op
  gives_up : ℕ → Event Op
  switches : ℕ → Event Op
  calls : Op → Event Op

abbrev pub at : ℕ → Pc → (ℕ → Pc) → ℕ → Pc
at t x pc u = if u == t then x else pc u

unfoldable pub wake_all : List ℕ → (ℕ → Pc) → ℕ → Pc
wake_all [] pc = pc
wake_all (t ∷ ts) pc = wake_all ts (at t wants pc)

module _ {State : Type 0} where
  -- `waiting.remove()`: the thread that has waited longest, if there is one.
  abbrev pub wake_first : List ℕ → Monitor State → Monitor State
  wake_first [] m = m
  wake_first (t ∷ ts) m = record m { pc = at t wants m.pc; waiting = ts }

  -- `Condition::notify_one`
  unfoldable pub notify_one : Monitor State → Monitor State
  notify_one m = record (wake_first m.waiting m) { epoch = add64 m.epoch 1 }

  -- `Condition::notify_all`
  unfoldable pub notify_all : Monitor State → Monitor State
  notify_all m = record m { pc = wake_all m.waiting m.pc; waiting = []; epoch = add64 m.epoch 1 }

  abbrev pub notify : Signal → Monitor State → Monitor State
  notify silent m = m
  notify one m = notify_one m
  notify all m = notify_all m

  -- `Condition::wait` up to the release of the lock.
  abbrev pub capture : ℕ → Monitor State → Monitor State
  capture t m = record m { pc = at t (captured m.epoch) m.pc }

  -- The end of `Condition::wait` where no other thread is ready.
  abbrev pub give_up : ℕ → Monitor State → Pc → Option (Monitor State)
  give_up t m (captured e) = some (record m { pc = at t wants m.pc })
  give_up t m x = none

  -- `post_switch`, where the action is `Wait`.
  abbrev pub post_switch_wait : ℕ → Monitor State → Pc → Option (Monitor State)
  post_switch_wait t m (captured e) = some (
      if m.epoch == e
      then record m { pc = at t asleep m.pc; waiting = m.waiting ++ (t ∷ []) }
      else record m { pc = at t wants m.pc })
  post_switch_wait t m x = none

  abbrev pub enter : ℕ → ℕ → Monitor State → Pc → Option (Monitor State)
  enter threads t m outside =
      if ltb t threads then some (record m { pc = at t wants m.pc }) else none
  enter threads t m x = none

module _ {Op State : Type 0} (g : Gate Op State) where
  -- One round of the loop that waits, with the lock held.
  abbrev pub test_round : ℕ → Monitor State → Pc → Option (Monitor State)
  test_round t m wants = some (elim (g.test m.state) [
    | none ↦ capture t m
    | some s ↦ record m { state = s; pc = at t outside m.pc }
  ])
  test_round t m x = none

  abbrev pub call : Op → Monitor State → Option (Monitor State)
  call o m = elim (g.op o m.state) [
    | none ↦ none
    | some (s, signal) ↦ some (notify signal (record m { state = s }))
  ]

  -- One critical section, or one step of a thread outside of them. `none`: not possible here.
  unfoldable pub step : ℕ → Event Op → Monitor State → Option (Monitor State)
  step threads (enters t) m = enter threads t m (m.pc t)
  step threads (tests t) m = test_round t m (m.pc t)
  step threads (gives_up t) m = give_up t m (m.pc t)
  step threads (switches t) m = post_switch_wait t m (m.pc t)
  step threads (calls o) m = call o m

  unfoldable pub run : ℕ → List (Event Op) → Monitor State → Option (Monitor State)
  run threads [] m = some m
  run threads (e ∷ es) m = elim (step threads e m) [ none ↦ none | some m' ↦ run threads es m' ]
