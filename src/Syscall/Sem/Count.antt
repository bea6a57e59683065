-- ===== src/Syscall/Sem/Count.antt =====
-- What `semop` does to the values, over any interleaving of rounds.
use p.Prelude.{
  ℕ, ◌+◌, ◌-◌, ◌%◌, ◌^◌, ◌<◌, ◌≡◌, refl, ◌↔◌, true, not, ◌&&◌, ◌||◌, List, [], ◌∷◌, arith,
  ℕ_discrete, ◌==◌, if◌then◌else◌, length, get_or, length-set, get_or-set_self, get_or-set_ne,
}
use p.Syscall.Sem.{Sem, unused, takes, need_of, Turn, returns, again, semop_turn}

abbrev pub value : List Sem → ℕ → ℕ
value t i = (get_or t i unused).value

-- The round of a caller that finds the lock free: its table, and what it added and took.
abbrev pub table_after : List Sem → Turn → List Sem
table_after t again = t
table_after t (returns r t') = t'

abbrev pub added : Turn → ℕ → ℕ
added again op = 0
added (returns r t') op = if takes op || not (r == 0) then 0 else op

abbrev pub taken : Turn → ℕ → ℕ
taken again op = 0
taken (returns r t') op = if takes op && r == 0 then need_of op else 0

-- A schedule: who comes next, as the semaphore and the operation of its call. A caller that has to
-- come again stands in it once for every round.
abbrev pub Schedule : Type 0
Schedule = List (ℕ × ℕ)

unfoldable pub run : Schedule → List Sem → List Sem
run [] t = t
run ((i, op) ∷ r) t = run r (table_after t (semop_turn i op t))

unfoldable pub total_added : ℕ → Schedule → List Sem → ℕ
total_added k [] t = 0
total_added k ((i, op) ∷ r) t =
    let turn = semop_turn i op t in
    (if i == k then added turn op else 0) + total_added k r (table_after t turn)

unfoldable pub total_taken : ℕ → Schedule → List Sem → ℕ
total_taken k [] t = 0
total_taken k ((i, op) ∷ r) t =
    let turn = semop_turn i op t in
    (if i == k then taken turn op else 0) + total_taken k r (table_after t turn)

-- Operations are 16-bit patterns.
abbrev pub Words : Schedule → Type 0
Words [] = Unit {0}
Words ((i, op) ∷ r) = (op < 2 ^ 16) × Words r

abbrev InUse : List Sem → ℕ → Type 0
InUse t i = (i < length t) × ((get_or t i unused).used ≡ true)

module _ (t : List Sem) (k i op : ℕ) (small : op < 2 ^ 16) where
  abbrev turn : Turn
  turn = semop_turn i op t

  abbrev lowered : Sem
  lowered = let s = get_or t i unused in record s { value = s.value - need_of op }

  abbrev raised : Sem
  raised = let s = get_or t i unused in record s { value = (s.value + op) % 2 ^ 32 }

  turn-InUse : InUse t k → InUse (table_after t turn) k
  unfolding semop_turn
  turn-InUse u = elim (ℕ_discrete i k) [
    | yes e ↦ rw e (
        ground (
          arith,
          e,
          length-set t k lowered,
          length-set t k raised,
          get_or-set_self t k lowered unused,
          get_or-set_self t k raised unused,
        ))
    | no ne ↦ ground (
      arith,
      length-set t i lowered,
      length-set t i raised,
      get_or-set_ne t i k lowered unused ne,
      get_or-set_ne t i k raised unused ne,
    )
  ]

  turn-value :
      InUse t k
      → value t k + (if i == k then added turn op else 0) < 2 ^ 31
      → value (table_after t turn) k + (if i == k then taken turn op else 0)
        ≡ value t k + (if i == k then added turn op else 0)
  unfolding semop_turn
  turn-value u fits = elim (ℕ_discrete i k) [
    | yes e ↦
        ground (arith, e, get_or-set_self t i lowered unused, get_or-set_self t i raised unused)
    | no ne ↦
        ground (arith, get_or-set_ne t i k lowered unused ne, get_or-set_ne t i k raised unused ne)
  ]

-- Nothing is lost or made up: over any interleaving of rounds of `semop`, by any callers with
-- 16-bit operations, what was taken from a semaphore in use and what it still holds is what it
-- held and what was added, as long as that stays below 2 ^ 31. In particular no more is ever taken
-- than was there.
pub run-value :
    (k : ℕ) (sched : Schedule) (t : List Sem)
    → Words sched
    → InUse t k
    → value t k + total_added k sched t < 2 ^ 31
    → value (run sched t) k + total_taken k sched t ≡ value t k + total_added k sched t
unfolding run total_added total_taken
run-value k [] t w u fits = refl
run-value k ((i, op) ∷ r) t w u fits =
    let t' = table_after t (semop_turn i op t) in
    let now = turn-value t k i op w.0 u (omega arith) in
    let later = run-value k r t' w.1 (turn-InUse t k i op w.0 u) (omega (arith, now)) in
    omega (arith, now, later)

-- For a 16-bit operation and a value below 2 ^ 31, a round of a call on a semaphore in use has to
-- come again exactly when the operation takes more than the semaphore holds, and one on a semaphore
-- that is not in use never does.
semop_turn-again :
    (i op : ℕ) (t : List Sem)
    → op < 2 ^ 16
    → value t i < 2 ^ 31
    → (semop_turn i op t ≡ again)
      ↔ (((get_or t i unused).used ≡ true) × (takes op ≡ true) × (value t i < need_of op))
unfolding semop_turn
semop_turn-again i op t small fits = ground arith
