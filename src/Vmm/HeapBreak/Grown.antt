-- ===== src/Vmm/HeapBreak/Grown.antt =====
-- A heap of kernel/vmm.cc that grows, on the page tables.
use p.Prelude.{
  ℕ, ◌+◌, ◌-◌, ◌*◌, ◌/◌, ◌^◌, ◌≤◌, ◌<◌, ◌≡◌, sym, subst, ap₂, ◌∙◌, true, ◌&&◌, ◌||◌, some, arith,
  dec_lt, ltb, leb,
}
use p.Vmm.Vme.{round_up_page, user_top}
use p.Vmm.Mmap.{Maps}
use p.Vmm.PageTable.{Mmu, translate}
use p.Vmm.PageTable.Placed.{Place, Tree, Stock}
use p.Vmm.PageTable.Mapped.{Kept}
use p.Vmm.PageTable.Enough.{room}
use p.Vmm.PageTable.Range.{map_range_lem}
use p.Vmm.PageTable.Round.{mapped, Stays, Stays-self}
use p.Vmm.HeapBreak.{resize, set_heap_break, brk}

-- What the tables are after the pages from one boundary to another were added.
abbrev pub Added : Place → ℕ → ℕ → ℕ → Mmu → Mmu → Type 0
Added place old_end new_end v m m' =
    (mapped v m' ≡ (mapped v m || (leb (old_end / 4096) v && ltb v (new_end / 4096))))
    × Stays (translate v m) (translate v m')
    × Kept place m'

module _ (place : Place) (m : Mmu) (tree : Tree place m) (stock : Stock place m) (v : ℕ)
    (hv : v < 2 ^ 36) where
  resize-Added :
      (p q : ℕ)
      → p ≤ q
      → q ≤ 2 ^ 35
      → 4 * (q - p) ≤ room m.phys
      → (m' : Mmu) × (resize (p * 4096) (q * 4096) m ≡ some m')
        × Added place (p * 4096) (q * 4096) v m m'
  unfolding resize
  resize-Added p q le top enough = elim (dec_lt p q) [
    | no same ↦ (
      m,
      ground arith,
      (
        ground arith,
        Stays-self (translate v m),
        record { place' = place; extends = λ f x h. h; tree = tree; stock = stock },
      ),
    )
    | yes lt ↦
        let size = q * 4096 - p * 4096 in
        let first : p * 4096 / 4096 ≡ p = omega arith in
        let last : (p * 4096 + size - 1) / 4096 ≡ q - 1 = omega (arith, lt) in
        let (m', e, shows, stays, kept) =
          map_range_lem (p * 4096) size v true true place m tree stock (omega (arith, lt))
            (omega (arith, le, top)) (omega (arith, first, last, enough, lt)) hv in
        let more : ltb (p * 4096) (q * 4096) ≡ true = ground arith in
        (m', rw more e, (ground (arith, shows), stays, kept))
  ]

  -- `brk` to a target from the break on, in user space, where the heap has been set up and its
  -- bounds are in order, the page tables are a tree and the allocator is as `map` requires it, and
  -- four frames for each new page are left: it returns the target, which is the new break, and
  -- changes no other mapping; a page is mapped exactly if it was before or lies between the old and
  -- the new end of the heap, both rounded up to pages; what was mapped translates as before; and
  -- the tables and the allocator are again as required.
  pub brk-Added :
      (maps : Maps) (target : ℕ)
      → 0x1000 ≤ maps.heap_start
      → maps.heap_start ≤ maps.heap_break
      → maps.heap_break ≤ target
      → target < user_top
      → 4 * (round_up_page target / 4096 - round_up_page maps.heap_break / 4096) ≤ room m.phys
      → (m' : Mmu) × (brk target maps m ≡ some (target, record maps { heap_break = target }, m'))
        × Added place (round_up_page maps.heap_break) (round_up_page target) v m m'
  unfolding brk set_heap_break round_up_page
  brk-Added maps target set_up in_order up in_user enough =
      let p = (maps.heap_break + 4095) / 4096 in
      let q = (target + 4095) / 4096 in
      let old : round_up_page maps.heap_break ≡ p * 4096 = omega (arith, up, in_user) in
      let new : round_up_page target ≡ q * 4096 = omega (arith, in_user) in
      let (m', e, added) =
        resize-Added p q (omega (arith, up)) (omega (arith, in_user))
          (omega (arith, old, new, enough)) in
      let e' : resize (round_up_page maps.heap_break) (round_up_page target) m ≡ some m' =
        ap₂ (λ a b. resize a b m) old new ∙ e in
      (
        m',
        ground (arith, e'),
        subst (λ a. Added place a (round_up_page target) v m m') (sym old)
            (subst (λ b. Added place (p * 4096) b v m m') (sym new) added),
      )
