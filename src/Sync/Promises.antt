-- ===== src/Sync/Promises.antt =====
-- What the semaphore, the lock, the latch, the barrier and the future promise to the condition that
-- guards them: kernel/semaphore.h, kernel/blocking_lock.h, kernel/count_down_latch.h,
-- kernel/barrier.h and kernel/future.h.
use p.Prelude.{
  ℕ, ◌+◌, ◌^◌, ◌≤◌, ◌<◌, ◌≡◌, refl, sym, ap, ◌∙◌, Bool, Option, none, some, arith, ◌==◌,
  if◌then◌else◌,
}
use mathlib.Core.Option.{some_inj}
use p.Sync.{Signal, silent, one}
use p.Sync.Gates.{
  semaphore, blocking_lock, latch, barrier, future, latch_op, LatchOp, latch_up, latch_down, get,
}
use p.Sync.Invariant.{Sound}

abbrev pub semaphore-Sound : Sound semaphore
semaphore-Sound = record {
  room = λ count. count;
  share = 1;
  size = λ count. 0;
  shrinks = λ s s' e. omega arith;
  grows = λ o s s' signal e. omega arith;
  waits = λ s e. ground arith;
  passes = λ s s' e. ground arith;
  wakes = λ o s s' signal h e. ground arith;
}

abbrev pub open_01 : Bool → ℕ
open_01 locked = if locked then 0 else 1

abbrev pub blocking_lock-Sound : Sound blocking_lock
blocking_lock-Sound = record {
  room = open_01;
  share = 1;
  size = λ locked. 0;
  shrinks = λ s s' e. omega arith;
  grows = λ o s s' signal e. omega arith;
  waits = λ s e. ground arith;
  passes = λ s s' e. ground arith;
  wakes = λ o s s' signal h e. ground arith;
}

abbrev pub zero_01 : ℕ → ℕ
zero_01 count = if count == 0 then 1 else 0

abbrev pub barrier-Sound : Sound barrier
barrier-Sound = record {
  room = zero_01;
  share = 0;
  size = λ count. 0;
  shrinks = λ s s' e. omega arith;
  grows = λ o s s' signal e. omega arith;
  waits = λ s e. ground arith;
  passes = λ s s' e. ground arith;
  wakes = λ o s s' signal h e. ground arith;
}

pub latch_op-grows :
    (o : LatchOp) (s s' : ℕ) (signal : Signal) → latch_op o s ≡ some (s', signal) → s' ≤ s + 1
latch_op-grows latch_up s s' signal e = ground arith
latch_op-grows latch_down s s' signal e = ground arith

pub latch_op-wakes :
    (o : LatchOp) (s s' : ℕ) (signal : Signal)
    → s + 1 < 2 ^ 64
    → latch_op o s ≡ some (s', signal)
    → ((signal ≡ silent → zero_01 s' ≤ zero_01 s) × (signal ≡ one → zero_01 s' ≤ zero_01 s + 0))
latch_op-wakes latch_up s s' signal h e = ground arith
latch_op-wakes latch_down s s' signal h e = ground arith

abbrev pub latch-Sound : Sound latch
latch-Sound = record {
  room = zero_01;
  share = 0;
  size = λ count. count;
  shrinks = λ s s' e. ground arith;
  grows = latch_op-grows;
  waits = λ s e. ground arith;
  passes = λ s s' e. ground arith;
  wakes = latch_op-wakes;
}

abbrev pub set_01 : Option ℕ → ℕ
set_01 none = 0
set_01 (some value) = 1

pub get-waits : (s : Option ℕ) → get s ≡ none → set_01 s ≡ 0
get-waits none e = refl
get-waits (some value) e = absurd (cc e)

pub get-passes : (s s' : Option ℕ) → get s ≡ some s' → set_01 s' + 0 ≤ set_01 s
get-passes none s' e = absurd (cc e)
get-passes (some value) s' e = rw (sym (some_inj.0 e)) (omega arith)

abbrev pub future-Sound : Sound future
future-Sound = record {
  room = set_01;
  share = 0;
  size = λ s. 0;
  shrinks = λ s s' e. omega arith;
  grows = λ o s s' signal e. omega arith;
  waits = get-waits;
  passes = get-passes;
  wakes = λ o s s' signal h e. (
    λ q. absurd (cc (sym q ∙ sym (ap (λ x. x.1) (some_inj.0 e)))),
    λ q. absurd (cc (sym q ∙ sym (ap (λ x. x.1) (some_inj.0 e)))),
  );
}
