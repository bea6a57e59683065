-- ===== src/Threads/Once.antt =====
-- How often a thread stands in the queues and on the cores of kernel/thread.cc.
use p.Prelude.{
  ℕ, zero, suc, ◌+◌, ◌≤◌, ◌<◌, ◌≡◌, refl, ap, ◌∙◌, some, List, arith, dec_lt, ℕ_discrete, ltb, ◌==◌,
  if◌then◌else◌,
}
use p.Threads.{Core, Threads, Event, run, start}
use p.Threads.Places.{tally, run_on, on_core, on_cores, below, weight}
use p.Threads.Moves.{run-Moved}

abbrev is_thread : ℕ → ℕ → ℕ
is_thread t u = if u == t then 1 else 0

-- How often a thread stands in the queues, on the cores, among the threads that cores have left and
-- among those that were deallocated.
abbrev pub places : ℕ → ℕ → Threads → ℕ
places t n s = weight (is_thread t) n s

below-is_thread : (t k : ℕ) → below (is_thread t) k ≡ (if ltb t k then 1 else 0)
unfolding below
below-is_thread t zero = ground arith
below-is_thread t (suc k) = ground (arith, below-is_thread t k)

pub idle_cores : (f : ℕ → ℕ) (n : ℕ) → on_cores f n start.cores ≡ 0
unfolding on_cores
idle_cores f zero = refl
idle_cores f (suc n) = omega (arith, idle_cores f n)

from_start :
    (f : ℕ → ℕ) (n : ℕ) (es : List Event) (s : Threads)
    → run n es start ≡ some s
    → weight f n s ≡ below f s.created
unfolding tally below
from_start f n es s e = omega (arith, run-Moved f n es start s e, idle_cores f n)

-- From the start, over any steps of any number of cores in any order that is possible: each thread
-- that was made is in exactly one place, and no other thread is anywhere. The places are the ready
-- queue, the reaper's queue, the queues of the conditions, the hand of a thread that notifies,
-- running on a core, left by a core that has not finished its switch, and deallocated.
pub run-places :
    (n : ℕ) (es : List Event) (s : Threads) (t : ℕ)
    → run n es start ≡ some s
    → places t n s ≡ (if ltb t s.created then 1 else 0)
run-places n es s t e = from_start (is_thread t) n es s e ∙ below-is_thread t s.created

pub one_core :
    (f : ℕ → ℕ) (n c : ℕ) (cores : ℕ → Core) → c < n → on_core f (cores c) ≤ on_cores f n cores
unfolding on_cores
one_core f zero c cores h = absurd (omega (arith, h))
one_core f (suc n) c cores h = elim (ℕ_discrete c n) [
  | yes e ↦ omega (arith, ap (λ x. on_core f (cores x)) e)
  | no ne ↦ omega (arith, one_core f n c cores (omega (arith, ne, h)))
]

two_cores :
    (f : ℕ → ℕ) (n c d : ℕ) (cores : ℕ → Core)
    → c < d
    → d < n
    → on_core f (cores c) + on_core f (cores d) ≤ on_cores f n cores
unfolding on_cores
two_cores f zero c d cores h k = absurd (omega (arith, k))
two_cores f (suc n) c d cores h k = elim (ℕ_discrete d n) [
  | yes e ↦
      omega (arith, one_core f n c cores (omega (arith, e, h)), ap (λ x. on_core f (cores x)) e)
  | no ne ↦ omega (arith, two_cores f n c d cores h (omega (arith, ne, k)))
]

runs_it : (t : ℕ) (core : Core) → core.current ≡ some t → 1 ≤ on_core (is_thread t) core
runs_it t core e =
    let q : run_on (is_thread t) core.current ≡ 1 = ap (run_on (is_thread t)) e ∙ ground arith in
    omega (arith, q)

apart :
    (n : ℕ) (es : List Event) (s : Threads) (c d t : ℕ)
    → run n es start ≡ some s
    → c < d
    → d < n
    → (s.cores c).current ≡ some t
    → (s.cores d).current ≡ some t
    → ⊥
apart n es s c d t e h k rc rd =
    let most : places t n s ≤ 1 = ground (arith, run-places n es s t e) in
    omega (
      arith,
      most,
      two_cores (is_thread t) n c d s.cores h k,
      runs_it t (s.cores c) rc,
      runs_it t (s.cores d) rd,
    )

-- So no two cores run one thread.
pub run-exclusive :
    (n : ℕ) (es : List Event) (s : Threads) (c d t : ℕ)
    → run n es start ≡ some s
    → c < n
    → d < n
    → (s.cores c).current ≡ some t
    → (s.cores d).current ≡ some t
    → c ≡ d
run-exclusive n es s c d t e hc hd rc rd = elim (dec_lt c d) [
  | yes h ↦ absurd (apart n es s c d t e h hd rc rd)
  | no h ↦ elim (dec_lt d c) [
    | yes k ↦ absurd (apart n es s d c t e k hc rd rc)
    | no k ↦ omega arith
  ]
]
