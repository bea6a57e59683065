-- ===== src/Vmm/PageTable/Whole/Snapshot.antt =====
-- The page tables of a child process: snapshot_for_fork of kernel/vmm.cc.
use p.Prelude.{
  ℕ, zero, suc, ◌^◌, ◌<◌, ◌≡◌, refl, sym, ap, ap₂, ◌∙◌, subst, inl, inr, true, Option, none, some,
  arith, ◌==◌, if◌then◌else◌, Bool-cases, Option-cases,
}
use mathlib.Core.Option.{some_inj}
use p.PhysMem.Held.{held}
use p.Vmm.PageTable.{
  Mmu, present, entry_ppn, flags_of, prefix, vpn_index, walk, translate_at, alloc_frame,
}
use p.Vmm.PageTable.Prefix.{translate_at-suc, same_below}
use p.Vmm.PageTable.Whole.{
  each, blank, copied_entry, clone_entry, clone_table, share_upper, clone_halves, snapshot_tables,
}
use p.Vmm.PageTable.Whole.Copied.{
  Below, EntryCopied, CopyOf, Ready, Unheld, Handed, alloc_frame-Handed,
}
use p.Vmm.PageTable.Whole.Cloned.{Row, Frames, loop-Row}
use p.Vmm.PageTable.Whole.Subtree.{clone_table-Clones, start-Row, Shared, share_loop}

-- What a page is translated to by the copy: nothing, or a frame that was given, with the same flags
-- and the same contents.
pub record SamePage (N : ℕ → Type 0) (m : Mmu) (entry entry' : ℕ) : Type 0 where
  pub given : N (entry_ppn entry')
  pub same_flags : flags_of entry' ≡ flags_of entry
  pub same_words : (j : ℕ) → m.entries (entry_ppn entry') j ≡ m.entries (entry_ppn entry) j

abbrev pub Twin : (ℕ → Type 0) → Mmu → Option ℕ → Option ℕ → Type 0
Twin N m none none = Unit
Twin N m (some entry) (some entry') = SamePage N m entry entry'
Twin N m _ _ = ⊥

copied_entry-parts :
    (child entry : ℕ)
    → child < 2 ^ 40
    → (entry_ppn (copied_entry child entry) ≡ child)
      × (flags_of (copied_entry child entry) ≡ flags_of entry)
      × (present (copied_entry child entry) ≡ present entry)
copied_entry-parts child entry lt = (omega arith, omega arith, ap (λ b. b == 1) (omega arith))

-- What stands below an entry, and below its copy.
module _ (N : ℕ → Type 0) (m : Mmu) (small : (f : ℕ) → N f → f < 2 ^ 40) where
  pub entry_twin :
      (h : ℕ) (e e' v : ℕ) (P : ℕ → ℕ → Type 0)
      → ((child : ℕ)
          → present e ≡ true
          → P (entry_ppn e) child
          → Twin N m (translate_at h (entry_ppn e) v m) (translate_at h child v m))
      → ((child : ℕ) → P (entry_ppn e) child → N child)
      → EntryCopied P e e'
      → Twin N m
          (if present e then translate_at h (entry_ppn e) v m else none)
          (if present e' then translate_at h (entry_ppn e') v m else none)
  entry_twin h e e' v P twin top c = elim (Bool-cases (present e)) [
    | inr off ↦ rw (off, c.1 off) tt
    | inl hp ↦
        let (child, q, pc) = c.0 hp in
        let parts = copied_entry-parts child e (small child (top child pc)) in
        let on : present e' ≡ true = ap present q ∙ parts.2 ∙ hp in
        let at : entry_ppn e' ≡ child = ap entry_ppn q ∙ parts.0 in
        rw (hp, on, at) (twin child hp pc)
  ]

  leaf_twin :
      (e e' : ℕ)
      → EntryCopied (λ s d. CopyOf N 0 s d m) e e'
      → Twin N m (if present e then some e else none) (if present e' then some e' else none)
  leaf_twin e e' c = elim (Bool-cases (present e)) [
    | inr off ↦ rw (off, c.1 off) tt
    | inl hp ↦
        let (child, q, pc) = c.0 hp in
        let parts = copied_entry-parts child e (small child pc.0) in
        let on : present e' ≡ true = ap present q ∙ parts.2 ∙ hp in
        let at : entry_ppn e' ≡ child = ap entry_ppn q ∙ parts.0 in
        rw (hp, on)
          (record {
            given = subst N (sym at) pc.0;
            same_flags = ap flags_of q ∙ parts.1;
            same_words = λ j. ap (λ f. m.entries f j) at ∙ pc.1 j;
          })
  ]

  pub copy_twin :
      (l s d v : ℕ)
      → CopyOf N (suc l) s d m
      → Twin N m (translate_at l s v m) (translate_at l d v m)
  unfolding walk
  copy_twin zero s d v c = leaf_twin _ _ (c.1 (vpn_index 0 v) (omega arith))
  copy_twin (suc l) s d v c =
      let i = vpn_index (suc l) v in
      subst (λ (o : Option ℕ × Option ℕ). Twin N m o.0 o.1)
        (ap₂ (λ a b. (a, b)) (sym (translate_at-suc l s v m)) (sym (translate_at-suc l d v m)))
        (entry_twin l (m.entries s i) (m.entries d i) v (λ s d. CopyOf N (suc l) s d m)
          (λ child hp k. copy_twin l (entry_ppn (m.entries s i)) child v k) (λ child k. k.0)
          (c.1 i (omega arith)))

pub translate_at-Below :
    (Q : ℕ → Type 0) (l t v : ℕ) (m m' : Mmu)
    → ((f i : ℕ) → Q f → m'.entries f i ≡ m.entries f i)
    → Below Q (suc l) t m
    → translate_at l t v m' ≡ translate_at l t v m
unfolding walk
translate_at-Below Q zero t v m m' same b =
    ap (λ x. if present x then some x else none) (same t (vpn_index 0 v) b.0)
translate_at-Below Q (suc l) t v m m' same b =
    let i = vpn_index (suc l) v in
    same_below l t v m m' (same t i b.0) (λ hp.
      translate_at-Below Q l (entry_ppn (m.entries t i)) v m m' same (b.1 i (omega arith) hp))

pub lower_index : (v : ℕ) → v < 2 ^ 35 → vpn_index 3 v < 256
unfolding prefix
lower_index v h = omega arith

-- The two loops of a snapshot.
pub record Halves (m : Mmu) (dst : ℕ) (m' : Mmu) : Type 0 where
  pub m₁ : Mmu
  pub m₄ : Mmu
  pub handed : Handed m dst m₁
  pub row : Row 3 m.cr3 dst 256 m (blank dst m₁) 256 m₄
  pub upper : Shared m.cr3 dst 512 m₄ m'

-- The tables of the lower half and their pages are in frames that the allocator does not hold.
pub record Apart (m : Mmu) : Type 0 where
  pub ready : Ready m
  pub top : held m.cr3 m.phys ≡ 0
  pub lower :
      (k : ℕ)
      → k < 256
      → present (m.entries m.cr3 k) ≡ true
      → Below (Unheld m) 3 (entry_ppn (m.entries m.cr3 k)) m

module _ (m : Mmu) (apart : Apart m) where
  pub frames : (dst : ℕ) (m₁ : Mmu) → Handed m dst m₁ → Frames 3 m.cr3 dst 256 m (blank dst m₁)
  frames dst m₁ t = record {
    source = apart.top;
    rows = apart.lower;
    given = t.given.0;
    taken = t.given.1;
  }

  pub halves : (dst : ℕ) (m' : Mmu) → snapshot_tables m ≡ some (dst, m') → Halves m dst m'
  unfolding snapshot_tables
  halves dst m' e = elim (Option-cases (alloc_frame m)) [
    | inl q ↦ absurd (cc (rw (q, snapshot_tables) at e))
    | inr ((d, m₁), q) ↦
        elim (Option-cases (each 256 0 (clone_entry m.cr3 d (clone_table 2)) (blank d m₁))) [
          | inl q' ↦ absurd (cc (rw (q, snapshot_tables, clone_halves, q') at e))
          | inr (m₄, q') ↦ elim (Option-cases (each 256 256 (share_upper m.cr3 d) m₄)) [
            | inl q'' ↦ absurd (cc (rw (q, snapshot_tables, clone_halves, q', q'') at e))
            | inr (m₅, q'') ↦
                subst (λ (y : ℕ × Mmu). Halves m y.0 y.1)
                  (some_inj.0 (rw (q, snapshot_tables, clone_halves, q', q'') at e))
                  (of d m₁ m₄ m₅ (alloc_frame-Handed m m₁ d apart.ready q) q' q'')
          ]
        ]
  ]
    where
      of :
          (d : ℕ) (m₁ m₄ m₅ : Mmu)
          → Handed m d m₁
          → each 256 0 (clone_entry m.cr3 d (clone_table 2)) (blank d m₁) ≡ some m₄
          → each 256 256 (share_upper m.cr3 d) m₄ ≡ some m₅
          → Halves m d m₅
      of d m₁ m₄ m₅ t q q' = record {
        m₁ = m₁;
        m₄ = m₄;
        handed = t;
        row =
            loop-Row 3 m.cr3 d 256 m (blank d m₁) (clone_table 2) (clone_table-Clones 2)
              (frames d m₁ t) 256 0 (blank d m₁) m₄ (omega arith) (start-Row 3 m.cr3 d 256 m m₁ t)
              q;
        upper =
            share_loop m.cr3 d m₄
              (λ e. absurd (omega (arith, apart.top, t.given.0, ap (λ f. held f m.phys) e))) 256 256
              512 m₄ m₅ (omega arith) (omega arith)
              (record {
                same_phys = refl;
                same_cr3 = refl;
                others = λ f k ne. refl;
                lower = λ k lt. refl;
                shared = λ k ge lt. absurd (omega arith);
              })
              q';
      }
