-- ===== src/Vmm/UserRange.antt =====
-- `VMM::is_user_range_mapped` of kernel/vmm.cc.
pub mod Each
use p.Prelude.{
  ℕ, zero, suc, ◌+◌, ◌-◌, ◌*◌, ◌/◌, Bool, true, false, ◌||◌, Option, none, some, ltb, leb, ◌==◌,
  if◌then◌else◌, add64, sub64,
}
use p.Vmm.Vme.{user_top}

module _ {S : Type 0} (ensure : ℕ → S → Option (Bool × S)) where
  -- The loop over the pages, with the rounds that are left.
  unfoldable pub range_loop : ℕ → ℕ → ℕ → S → Option (Bool × S)
  range_loop zero va last_page s = none
  range_loop (suc rounds) va last_page s = elim (ensure va s) [
    | none ↦ none
    | some (false, s') ↦ some (false, s')
    | some (true, s') ↦
        let rest = range_loop rounds (add64 va 4096) last_page s' in
        if va == last_page then some (true, s') else rest
  ]

  -- `last / 4096 - start / 4096 + 1` rounds are enough.
  unfoldable pub is_user_range_mapped : ℕ → ℕ → S → Option (Bool × S)
  is_user_range_mapped start size s =
      let last = sub64 (add64 start size) 1 in
      if size == 0
      then some (true, s)
      else if ltb start 0x1000 || leb user_top start
      then some (false, s)
      else if ltb last start || leb user_top last
      then some (false, s)
      else range_loop (last / 4096 - start / 4096 + 1) (start / 4096 * 4096) (last / 4096 * 4096) s
