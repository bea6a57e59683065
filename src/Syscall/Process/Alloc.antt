-- ===== src/Syscall/Process/Alloc.antt =====
-- `allocate_pid_locked` goes round all the pids from 2 on.
use p.Prelude.{
  ℕ, zero, suc, ◌+◌, ◌-◌, ◌%◌, ◌≤◌, ◌<◌, ◌≡◌, refl, ◌↔◌, inl, inr, Bool, true, false, none, some,
  List, arith, Option-cases, get_or,
}
use p.Syscall.Process.{
  Entry, vacant, Processes, entry, max_processes, successor, alloc_loop, allocate_pid,
}

-- The pid that the loop tries in round `j`, from `next` on.
abbrev pub tried : ℕ → ℕ → ℕ
tried next j = 2 + (next - 2 + j) % 1022

abbrev pub used_at : List Entry → ℕ → Bool
used_at t pid = (get_or t pid vacant).used

-- `nextPid` is one of the pids that are handed out.
abbrev pub InRange : ℕ → Type 0
InRange next = (2 ≤ next) × (next < max_processes)

alloc_loop-InRange :
    (rounds next : ℕ) (t : List Entry) → InRange next → InRange (alloc_loop rounds next t).1
unfolding alloc_loop
alloc_loop-InRange zero next t r = r
alloc_loop-InRange (suc rounds) next t r =
    ground (arith, alloc_loop-InRange rounds (successor next) t)

alloc_loop-some :
    (rounds next pid : ℕ) (t : List Entry)
    → InRange next
    → (alloc_loop rounds next t).0 ≡ some pid
    → InRange pid × (used_at t pid ≡ false)
unfolding alloc_loop
alloc_loop-some zero next pid t r h = cc
alloc_loop-some (suc rounds) next pid t r h =
    ground (arith, alloc_loop-some rounds (successor next) pid t)

tried-successor : (next j : ℕ) → InRange next → tried next (suc j) ≡ tried (successor next) j
tried-successor next j r = ground arith

alloc_loop-none :
    (rounds next j : ℕ) (t : List Entry)
    → InRange next
    → (alloc_loop rounds next t).0 ≡ none
    → j < rounds
    → used_at t (tried next j) ≡ true
unfolding alloc_loop
alloc_loop-none zero next j t r h lt = absurd (omega arith)
alloc_loop-none (suc rounds) next zero t r h lt =
    let e : tried next 0 ≡ next = omega arith in rw e (ground arith)
alloc_loop-none (suc rounds) next (suc j) t r h lt =
    rw (tried-successor next j r)
      (alloc_loop-none rounds (successor next) j t (ground arith) (ground arith) (omega arith))

allocate_pid_shut :
    (ps : Processes)
    → allocate_pid ps ≡ (
        let (pid, next) = alloc_loop max_processes ps.next_pid ps.table in
        (pid, record ps { next_pid = next }))
unfolding allocate_pid
allocate_pid_shut ps = refl

-- With `nextPid` from 2 to 1023, `allocate_pid_locked` hands out a pid from 2 to 1023 that is not
-- in use, fails exactly when all of them are in use, leaves the table as it is and `nextPid` in
-- that range.
pub allocate_pid_lem :
    (ps : Processes)
    → InRange ps.next_pid
    → let (o, ps') = allocate_pid ps in
      ((pid : ℕ) → o ≡ some pid → InRange pid × ((entry ps pid).used ≡ false))
      × ((o ≡ none) ↔ ((pid : ℕ) → InRange pid → (entry ps pid).used ≡ true))
      × InRange ps'.next_pid
      × (ps' ≡ record ps { next_pid = ps'.next_pid })
allocate_pid_lem ps r = rw (allocate_pid_shut ps) (
  λ pid e. alloc_loop-some max_processes ps.next_pid pid ps.table r e,
  (
    λ e pid h.
        let j = (pid + 1022 - ps.next_pid) % 1022 in
        let at : tried ps.next_pid j ≡ pid = omega arith in
        rw at at (alloc_loop-none max_processes ps.next_pid j ps.table r e (omega arith)),
    λ all. elim (Option-cases (alloc_loop max_processes ps.next_pid ps.table).0) [
      | inl e ↦ e
      | inr (pid, e) ↦
          let (h, free) = alloc_loop-some max_processes ps.next_pid pid ps.table r e in
          cc (all pid h)
    ],
  ),
  alloc_loop-InRange max_processes ps.next_pid ps.table r,
  refl,
)
