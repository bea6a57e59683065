-- ===== src/Vmm/PageTable/Enough.antt =====
-- The frames that `map` of kernel/vmm.cc takes from the allocator of kernel/physmem.cc.
use p.Prelude.{
  ℕ, zero, suc, ◌+◌, ◌/◌, ◌≤◌, ◌<◌, ◌≡◌, refl, sym, subst, inl, inr, Bool, true, false, some, List,
  [], ◌∷◌, arith, Bool-cases, length,
}
use p.PhysMem.{Range, PhysMem, ppn_of, split, alloc}
use p.PhysMem.Held.{Pages, alloc-Took}
use p.Vmm.PageTable.{
  Mmu, present, entry_ppn, vpn_index, write, table_of, cleared, alloc_frame, map_at, map_page,
  leaf_of,
}

-- The frames that the allocator can still hand out.
unfoldable pub pages_in : List Range → ℕ
pages_in [] = 0
pages_in (r ∷ rs) = r.length / 4096 + pages_in rs

abbrev pub room : PhysMem → ℕ
room p = length p.avail + pages_in p.free_ranges

pages_in-split :
    (r : Range) (rs : List Range) → Pages (r ∷ rs) → pages_in (split r rs) + 1 ≡ pages_in (r ∷ rs)
unfolding pages_in
pages_in-split r rs h = ground arith

none_left : (0 < length {A = ℕ} [] + pages_in []) → ⊥
unfolding pages_in
none_left h = omega (arith, h)

alloc-room :
    (p : PhysMem)
    → Pages p.free_ranges
    → 0 < room p
    → (x : ℕ × Bool × PhysMem) × (alloc p ≡ some x) × (room x.2 + 1 ≡ room p)
unfolding alloc pages_in
alloc-room p h pos = by_case p.avail p.free_ranges refl refl
  where
    by_case :
        (a : List ℕ) (rs : List Range)
        → p.avail ≡ a
        → p.free_ranges ≡ rs
        → (x : ℕ × Bool × PhysMem) × (alloc p ≡ some x) × (room x.2 + 1 ≡ room p)
    by_case (x ∷ xs) rs ea er =
        ((x, false, record p { avail = xs }), rw ea refl, rw ea (omega arith))
    by_case [] [] ea er = absurd (none_left (rw (ea, er) at pos))
    by_case [] (r ∷ rs) ea er = (
      (ppn_of r.base, true, record p { free_ranges = split r rs }),
      rw (ea, er) refl,
      rw (ea, er) (omega (arith, pages_in-split r rs (rw er at h))),
    )

cleared-phys : (x : ℕ) (clear : Bool) (m : Mmu) → (cleared x clear m).phys ≡ m.phys
cleared-phys x true m = refl
cleared-phys x false m = refl

pub alloc_frame-room :
    (m : Mmu)
    → Pages m.phys.free_ranges
    → 0 < room m.phys
    → (child : ℕ) × (m' : Mmu) × (alloc_frame m ≡ some (child, m'))
      × Pages m'.phys.free_ranges
      × (room m'.phys + 1 ≡ room m.phys)
unfolding alloc_frame
alloc_frame-room m h pos =
    let ((x, clear, phys), e, r) = alloc-room m.phys h pos in
    let t = alloc-Took m.phys phys x clear h e in
    let same = sym (cleared-phys x clear (record m { phys = phys })) in
    (
      x,
      cleared x clear (record m { phys = phys }),
      rw e refl,
      subst (λ (p : PhysMem). Pages p.free_ranges) same t.pages,
      subst (λ (p : PhysMem). room p + 1 ≡ room m.phys) same r,
    )

pub map_at-some :
    (l t v leaf : ℕ) (m : Mmu)
    → Pages m.phys.free_ranges
    → l ≤ room m.phys
    → (m' : Mmu) × (map_at l t v leaf m ≡ some m') × (room m.phys ≤ room m'.phys + l)
unfolding map_at
map_at-some zero t v leaf m h enough = (write t (vpn_index 0 v) leaf m, refl, omega arith)
map_at-some (suc l) t v leaf m h enough =
    let i = vpn_index (suc l) v in
    elim (Bool-cases (present (m.entries t i))) [
      | inl e ↦
          let (m', q, r) =
            map_at-some l (entry_ppn (m.entries t i)) v leaf m h (omega (arith, enough)) in
          (m', rw e q, omega (arith, r))
      | inr e ↦
          let (child, m₁, q, h₁, r₁) = alloc_frame-room m h (omega (arith, enough)) in
          let (m', q', r) =
            map_at-some l (entry_ppn (table_of child)) v leaf (write t i (table_of child) m₁) h₁
              (omega (arith, enough, r₁)) in
          (m', rw (e, q) q', omega (arith, r, r₁))
    ]

pub map_page-some :
    (vpn ppn : ℕ) (user writable : Bool) (m : Mmu)
    → Pages m.phys.free_ranges
    → 3 ≤ room m.phys
    → (m' : Mmu) × (map_page vpn ppn user writable m ≡ some m') × (room m.phys ≤ room m'.phys + 3)
unfolding map_page
map_page-some vpn ppn user writable m h enough =
    map_at-some 3 m.cr3 vpn (leaf_of ppn user writable) m h enough
