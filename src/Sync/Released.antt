-- ===== src/Sync/Released.antt =====
-- What the threads of a semaphore, a lock, a latch, a barrier and a future get from the condition:
-- kernel/semaphore.h, kernel/blocking_lock.h, kernel/count_down_latch.h, kernel/barrier.h and
-- kernel/future.h.
use p.Prelude.{
  ℕ, ◌+◌, ◌*◌, ◌^◌, ◌≤◌, ◌<◌, ◌≡◌, refl, sym, ap, ◌∙◌, ◌≢◌, Bool, false, Option, none, some, List,
  [], ◌∷◌, arith, length,
}
use p.Sync.{Gate, Monitor, Event, run}
use p.Sync.Awake.{awake}
use p.Sync.Gates.{semaphore, blocking_lock, latch, barrier, future, LatchOp}
use p.Sync.Invariant.{Sound}
use p.Sync.Wakeup.{start, run-wakes}
use p.Sync.Promises.{
  open_01, zero_01, set_01, semaphore-Sound, blocking_lock-Sound, latch-Sound, barrier-Sound,
  future-Sound,
}

-- Where passing takes nothing, room and a queue exclude each other.
opened :
    {Op State : Type 0} (g : Gate Op State) (sound : Sound g) (threads : ℕ) (es : List (Event Op))
    (s : State) (m : Monitor State)
    → sound.share ≡ 0
    → sound.size s + length es < 2 ^ 64
    → run g threads es (start s) ≡ some m
    → 0 < sound.room m.state
    → m.waiting ≡ []
opened g sound threads es s m free h e room = by_queue m.waiting refl
  where
    w : m.waiting ≢ [] → sound.room m.state ≤ sound.share * awake threads m.pc
    w = (run-wakes g sound threads es s m h e).enough

    by_queue : (ws : List ℕ) → m.waiting ≡ ws → m.waiting ≡ []
    by_queue [] q = q
    by_queue (t ∷ ts) q = absurd (
        omega
          (arith, room, w (λ q'. absurd (cc (sym q ∙ q'))), ap (λ k. k * awake threads m.pc) free))

-- From the start of a semaphore and over fewer than 2 ^ 64 steps, in any order: while a thread is
-- in its queue, the count is at most the number of threads that are awake and still to test. So a
-- positive count beside nothing but sleeping threads does not come about.
semaphore-awake :
    (threads : ℕ) (es : List (Event Unit)) (count : ℕ) (m : Monitor ℕ)
    → length es < 2 ^ 64
    → run semaphore threads es (start count) ≡ some m
    → m.waiting ≢ []
    → m.state ≤ awake threads m.pc
semaphore-awake threads es count m h e w =
    omega (
      arith,
      (run-wakes semaphore semaphore-Sound threads es count m (omega (arith, h)) e).enough w,
    )

-- The same of a lock: where it is free and a thread is in its queue, one is awake and still to
-- test.
pub blocking_lock-awake :
    (threads : ℕ) (es : List (Event Unit)) (m : Monitor Bool)
    → length es < 2 ^ 64
    → run blocking_lock threads es (start false) ≡ some m
    → m.waiting ≢ []
    → m.state ≡ false
    → 1 ≤ awake threads m.pc
blocking_lock-awake threads es m h e w free = omega (
  arith,
  (run-wakes blocking_lock blocking_lock-Sound threads es false m (omega (arith, h)) e).enough w,
  ap open_01 free,
)

-- A latch that has come to zero has an empty queue; its start counts with the steps, so that it
-- does not wrap around.
pub latch-opened :
    (threads : ℕ) (es : List (Event LatchOp)) (count : ℕ) (m : Monitor ℕ)
    → count + length es < 2 ^ 64
    → run latch threads es (start count) ≡ some m
    → m.state ≡ 0
    → m.waiting ≡ []
latch-opened threads es count m h e z =
    opened latch latch-Sound threads es count m refl h e (omega (arith, ap zero_01 z))

-- From the start of a barrier and over fewer than 2 ^ 64 steps, in any order: once its count has
-- come to zero, its queue is empty.
barrier-opened :
    (threads : ℕ) (es : List (Event Unit)) (count : ℕ) (m : Monitor ℕ)
    → length es < 2 ^ 64
    → run barrier threads es (start count) ≡ some m
    → m.state ≡ 0
    → m.waiting ≡ []
barrier-opened threads es count m h e z =
    opened barrier barrier-Sound threads es count m refl (omega (arith, h)) e
      (omega (arith, ap zero_01 z))

-- A future with a value has an empty queue.
pub future-opened :
    (threads : ℕ) (es : List (Event ℕ)) (m : Monitor (Option ℕ)) (value : ℕ)
    → length es < 2 ^ 64
    → run future threads es (start none) ≡ some m
    → m.state ≡ some value
    → m.waiting ≡ []
future-opened threads es m value h e z =
    opened future future-Sound threads es none m refl (omega (arith, h)) e
      (omega (arith, ap set_01 z))
