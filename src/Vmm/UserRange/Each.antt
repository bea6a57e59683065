-- ===== src/Vmm/UserRange/Each.antt =====
-- `is_user_range_mapped` of kernel/vmm.cc asks for every page of the range, in order.
use p.Prelude.{
  ℕ, zero, suc, ◌+◌, ◌-◌, ◌*◌, ◌/◌, ◌^◌, ◌<◌, ◌≡◌, inl, inr, Bool, true, false, ◌&&◌, Option, none,
  some, arith, Option-cases, leb, ◌==◌, if◌then◌else◌, add64,
}
use p.Vmm.Vme.{user_top}
use p.Vmm.UserRange.{range_loop, is_user_range_mapped}

module _ {S : Type 0} (ensure : ℕ → S → Option (Bool × S)) where
  -- `ensure` for a number of pages from an address on, up to the first that it refuses.
  unfoldable pub ensure_each : ℕ → ℕ → S → Option (Bool × S)
  ensure_each zero va s = some (true, s)
  ensure_each (suc n) va s = elim (ensure va s) [
    | none ↦ none
    | some (false, s') ↦ some (false, s')
    | some (true, s') ↦ ensure_each n (va + 4096) s'
  ]

  -- The last page is `n` pages on, and there is a round for each.
  range_loop-each :
      (n va last_page : ℕ) (s : S)
      → va + n * 4096 ≡ last_page
      → last_page < 2 ^ 47
      → range_loop ensure (suc n) va last_page s ≡ ensure_each (suc n) va s
  unfolding range_loop ensure_each
  range_loop-each zero va last_page s e small = elim (Option-cases (ensure va s)) [
    | inl q ↦ ground (arith, q)
    | inr ((false, t), q) ↦ ground (arith, q)
    | inr ((true, t), q) ↦ ground (arith, q)
  ]
  range_loop-each (suc n) va last_page s e small = elim (Option-cases (ensure va s)) [
    | inl q ↦ ground (arith, q)
    | inr ((false, t), q) ↦ ground (arith, q)
    | inr ((true, t), q) ↦
        let more : (va == last_page) ≡ false = ground arith in
        let next : add64 va 4096 ≡ va + 4096 = omega (arith, e, small) in
        ground
          (arith, q, more, next, range_loop-each n (va + 4096) last_page t (omega (arith, e)) small)
  ]

  -- For 64-bit arguments, the answer is yes for an empty range; no for one that begins in the first
  -- page, passes 2 ^ 64 or leaves user space; and else that of `ensure` for every page that the
  -- range touches, from the first to the last, up to the first that is refused. The loop has rounds
  -- enough.
  pub is_user_range_mapped_lem :
      (start size : ℕ) (s : S)
      → start < 2 ^ 64
      → size < 2 ^ 64
      → is_user_range_mapped ensure start size s ≡ (
          if size == 0
          then some (true, s)
          else if leb 0x1000 start && leb (start + size) user_top
          then ensure_each ((start + size - 1) / 4096 - start / 4096 + 1) (start / 4096 * 4096) s
          else some (false, s))
  unfolding is_user_range_mapped
  is_user_range_mapped_lem start size s a b = ground (
    arith,
    range_loop-each ((start + size - 1) / 4096 - start / 4096) (start / 4096 * 4096)
        ((start + size - 1) / 4096 * 4096) s,
  )
