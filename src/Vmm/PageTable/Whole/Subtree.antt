-- ===== src/Vmm/PageTable/Whole/Subtree.antt =====
-- cloneTableSubtree of kernel/vmm.cc at every level, and the loops of snapshot_for_fork.
use p.Prelude.{
  ℕ, zero, suc, ◌+◌, ◌≤◌, ◌<◌, ◌≡◌, refl, sym, ap, ◌∙◌, subst, ◌≢◌, inl, inr, some, arith,
  ℕ_discrete, Option-cases,
}
use mathlib.Core.Option.{some_inj}
use p.Vmm.PageTable.{Mmu, entry_ppn, write, alloc_frame}
use p.Vmm.PageTable.Placed.{write_ne, write_beside, write_self}
use p.Vmm.PageTable.Whole.{
  each, blank, copy_frame, clone_entry, clone_page, clone_with, clone_table, share_upper,
}
use p.Vmm.PageTable.Whole.Copied.{
  EntryCopied, EntryCopied-map, CopyOf, CopyOf-map, Given, Over-write, Handed, alloc_frame-Handed,
}
use p.Vmm.PageTable.Whole.Cloned.{Copy, Cloned, Clones, Row, loop-Row}

clone_page-Clones : Clones 0 clone_page
clone_page-Clones src m dst m' ready below e = elim (Option-cases (alloc_frame m)) [
  | inl q ↦ absurd (cc (rw (q, clone_page) at e))
  | inr ((d, m₁), q) ↦
      subst (λ (y : ℕ × Mmu). Cloned 0 src m y.0 y.1) (some_inj.0 (rw (q, clone_page) at e))
        (of d m₁ (alloc_frame-Handed m m₁ d ready q))
]
  where
    of : (d : ℕ) (m₁ : Mmu) → Handed m d m₁ → Cloned 0 src m d (copy_frame src d m₁)
    of d m₁ t = record {
      over =
          Over-write m m₁ (copy_frame src d m₁) d t.over t.given.0 refl refl
            (λ f i ne. ground arith);
      copied = (t.given, λ j. ground arith);
    }

-- The new table before the loop.
pub start-Row :
    (h src dst bound : ℕ) (m m₁ : Mmu)
    → Handed m dst m₁
    → Row h src dst bound m (blank dst m₁) 0 (blank dst m₁)
start-Row h src dst bound m m₁ t = record {
  over = Over-write m m₁ (blank dst m₁) dst t.over t.given.0 refl refl (λ f i ne. ground arith);
  spent = λ f. omega arith;
  copied = λ k lt. absurd (omega (arith, lt));
  left = λ k le. ground arith;
}

pub row_copied :
    (h src dst bound : ℕ) (m m₁ m' : Mmu)
    → Handed m dst m₁
    → Row h src dst bound m (blank dst m₁) bound m'
    → (k : ℕ) → k < bound
    → EntryCopied (λ s d. CopyOf (Given m m') h s d m') (m'.entries src k) (m'.entries dst k)
row_copied h src dst bound m m₁ m' t r k lt =
    EntryCopied-map (λ s d. CopyOf (Given (blank dst m₁) m') h s d m')
      (λ s d. CopyOf (Given m m') h s d m') (m'.entries src k) (m'.entries dst k) (m'.entries src k)
      (m'.entries dst k) refl refl
      (λ child hp c.
        CopyOf-map (Given (blank dst m₁) m') (Given m m') h (entry_ppn (m'.entries src k)) child m'
          (λ f g. (omega (arith, g.0, t.over.spent f), g.1)) c)
      (r.copied k lt)

clone_with-Clones : (h : ℕ) (copy : Copy) → Clones h copy → Clones (suc h) (clone_with copy)
clone_with-Clones h copy clones src m dst m' ready below e = elim (Option-cases (alloc_frame m)) [
  | inl q ↦ absurd (cc (rw (q, clone_with) at e))
  | inr ((d, m₁), q) ↦ elim (Option-cases (each 512 0 (clone_entry src d copy) (blank d m₁))) [
    | inl q' ↦ absurd (cc (rw (q, q', clone_with) at e))
    | inr (m₄, q') ↦
        subst (λ (y : ℕ × Mmu). Cloned (suc h) src m y.0 y.1)
          (some_inj.0 (rw (q, q', clone_with) at e))
          (of d m₁ m₄ (alloc_frame-Handed m m₁ d ready q) q')
  ]
]
  where
    of :
        (d : ℕ) (m₁ m₄ : Mmu)
        → Handed m d m₁
        → each 512 0 (clone_entry src d copy) (blank d m₁) ≡ some m₄
        → Cloned (suc h) src m d m₄
    of d m₁ m₄ t q =
        let r =
          loop-Row h src d 512 m (blank d m₁) copy clones
            (record { source = below.0; rows = below.1; given = t.given.0; taken = t.given.1 }) 512
            0 (blank d m₁) m₄ (omega arith) (start-Row h src d 512 m m₁ t) q in
        record {
          over = r.over;
          copied = (
            (t.given.0, omega (arith, r.spent d, t.given.1)),
            row_copied h src d 512 m m₁ m₄ t r,
          );
        }

-- The copy of a table in frames that it is given.
pub clone_table-Clones : (l : ℕ) → Clones (suc l) (clone_table l)
unfolding clone_table
clone_table-Clones zero = clone_with-Clones 0 clone_page clone_page-Clones
clone_table-Clones (suc l) = clone_with-Clones (suc l) (clone_table l) (clone_table-Clones l)

-- The loop over the upper half.
pub record Shared (src dst i : ℕ) (m m' : Mmu) : Type 0 where
  pub same_phys : m'.phys ≡ m.phys
  pub same_cr3 : m'.cr3 ≡ m.cr3
  pub others : (f k : ℕ) → f ≢ dst → m'.entries f k ≡ m.entries f k
  pub lower : (k : ℕ) → k < 256 → m'.entries dst k ≡ m.entries dst k
  pub shared : (k : ℕ) → 256 ≤ k → k < i → m'.entries dst k ≡ m.entries src k

pub share_loop :
    (src dst : ℕ) (m : Mmu)
    → src ≢ dst
    → (n i j : ℕ) (m₃ m₄ : Mmu) → i + n ≡ j
    → 256 ≤ i
    → Shared src dst i m m₃
    → each n i (share_upper src dst) m₃ ≡ some m₄
    → Shared src dst j m m₄
unfolding each
share_loop src dst m ne zero i j m₃ m₄ eq le s e =
    subst (λ x. Shared src dst x m m₄) (omega (arith, eq))
      (subst (Shared src dst i m) (some_inj.0 e) s)
share_loop src dst m ne (suc n) i j m₃ m₄ eq le s e =
    share_loop src dst m ne n (i + 1) j (write dst i (m₃.entries src i) m₃) m₄ (omega arith)
      (omega arith)
      (record {
        same_phys = s.same_phys;
        same_cr3 = s.same_cr3;
        others = λ f k nf. write_ne dst i (m₃.entries src i) f k m₃ nf ∙ s.others f k nf;
        lower = λ k lt.
            write_beside dst i (m₃.entries src i) dst k m₃ (λ q. absurd (omega (arith, q)))
            ∙ s.lower k lt;
        shared = λ k ge lt. elim (ℕ_discrete k i) [
          | yes q ↦
              ap (λ x. (write dst i (m₃.entries src i) m₃).entries dst x) q
              ∙ write_self dst i (m₃.entries src i) m₃
              ∙ s.others src i ne
              ∙ ap (m.entries src) (sym q)
          | no nq ↦ write_beside dst i (m₃.entries src i) dst k m₃ nq ∙ s.shared k ge (omega arith)
        ];
      })
      e
