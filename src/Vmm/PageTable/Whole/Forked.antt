-- ===== src/Vmm/PageTable/Whole/Forked.antt =====
-- What parent and child translate after snapshot_for_fork of kernel/vmm.cc.
use p.Prelude.{ℕ, ◌^◌, ◌<◌, ◌≡◌, sym, ap, ap₂, ◌∙◌, subst, Option, some, arith}
use p.PhysMem.Held.{held}
use p.Vmm.PageTable.{Mmu, entry_ppn, vpn_index, translate_at, translate}
use p.Vmm.PageTable.Prefix.{translate_at-suc, same_below}
use p.Vmm.PageTable.Whole.{blank, clone_table, snapshot_tables}
use p.Vmm.PageTable.Whole.Copied.{
  EntryCopied, EntryCopied-map, CopyOf, CopyOf-same, Over, Unheld, Given, Over-write,
}
use p.Vmm.PageTable.Whole.Cloned.{source-Below, source_ne, given_ne}
use p.Vmm.PageTable.Whole.Subtree.{clone_table-Clones}
use p.Vmm.PageTable.Whole.Snapshot.{
  Twin, Apart, Halves, halves, frames, entry_twin, copy_twin, translate_at-Below, lower_index,
}

module _ (m : Mmu) (apart : Apart m) (dst : ℕ) (m' : Mmu) (s : Halves m dst m') where
  after-Over : Over m m'
  after-Over =
      Over-write m s.m₄ m' dst s.row.over s.handed.given.0 s.upper.same_phys s.upper.same_cr3
        s.upper.others

  -- An entry of the lower half and its copy, when the upper half is shared too.
  entry_copied :
      (k : ℕ)
      → k < 256
      → EntryCopied (λ a d. CopyOf (Given m m') 3 a d m') (m'.entries m.cr3 k) (m'.entries dst k)
  entry_copied k lt =
      let fr = frames m apart dst s.m₁ s.handed in
      let src_ne =
        source_ne 3 m.cr3 dst 256 m (blank dst s.m₁) (clone_table 2) (clone_table-Clones 2) fr in
      EntryCopied-map (λ a d. CopyOf (Given (blank dst s.m₁) s.m₄) 3 a d s.m₄)
        (λ a d. CopyOf (Given m m') 3 a d m') (s.m₄.entries m.cr3 k) (s.m₄.entries dst k)
        (m'.entries m.cr3 k) (m'.entries dst k) (s.upper.others m.cr3 k (src_ne m.cr3 apart.top))
        (s.upper.lower k lt)
        (λ child hp c.
          CopyOf-same (Unheld m) (Given (blank dst s.m₁) s.m₄) (Given m m') 3
            (entry_ppn (s.m₄.entries m.cr3 k)) child s.m₄ m'
            (λ f j q. s.upper.others f j (src_ne f q))
            (λ f j g. s.upper.others f j (
              given_ne 3 m.cr3 dst 256 m (blank dst s.m₁) (clone_table 2) (clone_table-Clones 2) fr
                s.m₄ f g))
            (λ f g. (
              omega (arith, g.0, s.handed.over.spent f),
              omega (arith, g.1, ap (held f) s.upper.same_phys),
            ))
            (source-Below 3 m.cr3 dst 256 m (blank dst s.m₁) (clone_table 2) (clone_table-Clones 2)
              fr k s.m₄ s.row.over lt hp)
            c)
        (s.row.copied k lt)

  top_kept : (k : ℕ) → m'.entries m.cr3 k ≡ m.entries m.cr3 k
  top_kept k = after-Over.kept m.cr3 k apart.top

  parent_kept : (v : ℕ) → v < 2 ^ 35 → translate v m' ≡ translate v m
  parent_kept v lt =
      let k = vpn_index 3 v in
      ap (λ t. translate_at 3 t v m') after-Over.same_cr3
      ∙ same_below 2 m.cr3 v m m' (top_kept k) (λ hp.
        translate_at-Below (Unheld m) 2 (entry_ppn (m.entries m.cr3 k)) v m m' after-Over.kept
          (apart.lower k (lower_index v lt) hp))

  child_twin :
      (v : ℕ)
      → v < 2 ^ 35
      → Twin (Given m m') m' (translate_at 3 m.cr3 v m') (translate_at 3 dst v m')
  child_twin v lt =
      let k = vpn_index 3 v in
      let small = λ (f : ℕ) (g : Given m m' f). apart.ready.small f g.0 in
      subst (λ (o : Option ℕ × Option ℕ). Twin (Given m m') m' o.0 o.1)
        (ap₂ (λ a b. (a, b)) (sym (translate_at-suc 2 m.cr3 v m'))
          (sym (translate_at-suc 2 dst v m')))
        (entry_twin (Given m m') m' small 2 (m'.entries m.cr3 k) (m'.entries dst k) v
          (λ a d. CopyOf (Given m m') 3 a d m')
          (λ child hp c.
            copy_twin (Given m m') m' small 2 (entry_ppn (m'.entries m.cr3 k)) child v c)
          (λ child c. c.0) (entry_copied k (lower_index v lt)))

-- After the page tables are copied for a fork, where the tables and pages of the lower half are in
-- frames that the allocator does not hold, and for a page of the lower half and any frame that the
-- allocator did not hold:
-- the parent's translation of the page is as it was; the child translates the page exactly if the
-- parent does, with the same flags, to a frame that was given for it, so that no frame of the parent
-- is in the child, and that has the same words; and the words of the other frame are as they were.
pub snapshot_tables-isolates :
    (m : Mmu) (dst : ℕ) (m' : Mmu) (v f i : ℕ)
    → Apart m
    → snapshot_tables m ≡ some (dst, m')
    → v < 2 ^ 35
    → held f m.phys ≡ 0
    → (translate v m' ≡ translate v m)
      × Twin (Given m m') m' (translate v m) (translate_at 3 dst v m')
      × (m'.entries f i ≡ m.entries f i)
snapshot_tables-isolates m dst m' v f i apart e lt free =
    let s = halves m apart dst m' e in
    let o = after-Over m apart dst m' s in
    let kept = parent_kept m apart dst m' s v lt in
    (
      kept,
      subst (λ x. Twin (Given m m') m' x (translate_at 3 dst v m'))
          (ap (λ t. translate_at 3 t v m') (sym o.same_cr3) ∙ kept)
          (child_twin m apart dst m' s v lt),
      o.kept f i free,
    )

pub snapshot_tables-small :
    (m : Mmu) (dst : ℕ) (m' : Mmu) → Apart m → snapshot_tables m ≡ some (dst, m') → dst < 2 ^ 40
snapshot_tables-small m dst m' apart e =
    apart.ready.small dst (halves m apart dst m' e).handed.given.0
