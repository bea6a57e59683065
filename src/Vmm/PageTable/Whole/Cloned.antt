-- ===== src/Vmm/PageTable/Whole/Cloned.antt =====
-- cloneTableSubtree of kernel/vmm.cc makes a copy in frames that it is given.
use p.Prelude.{
  ℕ, zero, suc, ◌+◌, ◌≤◌, ◌<◌, ◌≡◌, refl, sym, ap, ◌∙◌, subst, ◌≢◌, inl, inr, true, false, Option,
  some, arith, ℕ_discrete, Bool-cases, Option-cases,
}
use mathlib.Core.Option.{some_inj}
use p.PhysMem.Held.{held}
use p.Vmm.PageTable.{Mmu, present, entry_ppn, write}
use p.Vmm.PageTable.Placed.{write_ne, write_beside, write_self}
use p.Vmm.PageTable.Whole.{each, copied_entry, clone_entry}
use p.Vmm.PageTable.Whole.Copied.{
  Below, EntryCopied, CopyOf, Below-same, EntryCopied-map, CopyOf-same, Ready, Over, Unheld, Given,
  Over-trans, Over-write,
}

abbrev pub Copy : Type 0
Copy = ℕ → Mmu → Option (ℕ × Mmu)

-- What the copy of one tree of height `h` does.
pub record Cloned (h src : ℕ) (m : Mmu) (dst : ℕ) (m' : Mmu) : Type 0 where
  pub over : Over m m'
  pub copied : CopyOf (Given m m') h src dst m'

abbrev pub Clones : ℕ → Copy → Type 0
Clones h copy =
    (src : ℕ) (m : Mmu) (dst : ℕ) (m' : Mmu)
    → Ready m
    → Below (Unheld m) h src m
    → copy src m ≡ some (dst, m')
    → Cloned h src m dst m'

-- The loop over the entries: `m` is the memory when the copy was asked for, `m₂` that where the loop
-- starts, and `m₃` that before entry `i`.
pub record Row (h src dst bound : ℕ) (m m₂ : Mmu) (i : ℕ) (m₃ : Mmu) : Type 0 where
  pub over : Over m m₃
  pub spent : (f : ℕ) → held f m₃.phys ≤ held f m₂.phys
  pub copied :
      (k : ℕ)
      → k < i
      → EntryCopied (λ s d. CopyOf (Given m₂ m₃) h s d m₃) (m₃.entries src k) (m₃.entries dst k)
  pub left : (k : ℕ) → i ≤ k → present (m₃.entries dst k) ≡ false

-- The tables that the loop reads, and the new one.
pub record Frames (h src dst bound : ℕ) (m m₂ : Mmu) : Type 0 where
  pub source : held src m.phys ≡ 0
  pub rows :
      (k : ℕ)
      → k < bound
      → present (m.entries src k) ≡ true
      → Below (Unheld m) h (entry_ppn (m.entries src k)) m
  pub given : 0 < held dst m.phys
  pub taken : held dst m₂.phys ≡ 0

module _ (h src dst bound : ℕ) (m m₂ : Mmu) (copy : Copy) (clones : Clones h copy)
    (frames : Frames h src dst bound m m₂) where
  pub source_ne : (f : ℕ) → held f m.phys ≡ 0 → f ≢ dst
  source_ne f q e = absurd (omega (arith, frames.given, ap (λ x. held x m.phys) e))

  pub given_ne : (m₃ : Mmu) (f : ℕ) → Given m₂ m₃ f → f ≢ dst
  given_ne m₃ f g e = absurd (omega (arith, frames.taken, g.0, ap (λ x. held x m₂.phys) e))

  pub source-Below :
      (k : ℕ) (m₃ : Mmu)
      → Over m m₃
      → k < bound
      → present (m₃.entries src k) ≡ true
      → Below (Unheld m) h (entry_ppn (m₃.entries src k)) m₃
  source-Below k m₃ o lt hp =
      let old = o.kept src k frames.source in
      Below-same (Unheld m) (Unheld m) h (entry_ppn (m₃.entries src k)) m m₃ o.kept (λ f q. q)
        (subst (λ x. Below (Unheld m) h (entry_ppn x) m) (sym old)
          (frames.rows k lt (ap present (sym old) ∙ hp)))

  -- An entry that is copied stays so over a step that touches only `dst` and what is held.
  row_kept :
      (i : ℕ) (m₃ m₅ : Mmu)
      → Row h src dst bound m m₂ i m₃
      → ((f j : ℕ) → held f m₃.phys ≡ 0 → f ≢ dst → m₅.entries f j ≡ m₃.entries f j)
      → ((f : ℕ) → held f m₅.phys ≤ held f m₃.phys)
      → (k : ℕ) → k < i
      → i ≤ bound
      → m₅.entries dst k ≡ m₃.entries dst k
      → EntryCopied (λ s d. CopyOf (Given m₂ m₅) h s d m₅) (m₅.entries src k) (m₅.entries dst k)
  row_kept i m₃ m₅ r same less k lt le e =
      let src_kept =
        same src k (omega (arith, r.over.spent src, frames.source)) (source_ne src frames.source) in
      EntryCopied-map (λ s d. CopyOf (Given m₂ m₃) h s d m₃) (λ s d. CopyOf (Given m₂ m₅) h s d m₅)
        (m₃.entries src k) (m₃.entries dst k) (m₅.entries src k) (m₅.entries dst k) src_kept e
        (λ child hp c.
          CopyOf-same (Unheld m) (Given m₂ m₃) (Given m₂ m₅) h (entry_ppn (m₃.entries src k)) child
            m₃ m₅ (λ f j q. same f j (omega (arith, r.over.spent f)) (source_ne f q))
            (λ f j g. same f j g.1 (given_ne m₃ f g)) (λ f g. (g.0, omega (arith, less f, g.1)))
            (source-Below k m₃ r.over (omega arith) hp) c)
        (r.copied k lt)

  skipped :
      (i : ℕ) (m₃ : Mmu)
      → Row h src dst bound m m₂ i m₃
      → present (m₃.entries src i) ≡ false
      → Row h src dst bound m m₂ (i + 1) m₃
  skipped i m₃ r off = record {
    over = r.over;
    spent = r.spent;
    copied = λ k lt. elim (ℕ_discrete k i) [
      | yes e ↦
          subst
            (λ x.
              EntryCopied (λ s d. CopyOf (Given m₂ m₃) h s d m₃) (m₃.entries src x)
                (m₃.entries dst x))
            (sym e) (λ hp. absurd (cc (hp, off)), λ q. r.left i (omega arith))
      | no ne ↦ r.copied k (omega arith)
    ];
    left = λ k le. r.left k (omega arith);
  }

  entered :
      (i : ℕ) (m₃ m₄ : Mmu) (child : ℕ)
      → Row h src dst bound m m₂ i m₃
      → i < bound
      → present (m₃.entries src i) ≡ true
      → Cloned h (entry_ppn (m₃.entries src i)) m₃ child m₄
      → Row h src dst bound m m₂ (i + 1) (write dst i (copied_entry child (m₃.entries src i)) m₄)
  entered i m₃ m₄ child r lt hp c = record {
    over =
        Over-write m m₄ m₅ dst (Over-trans r.over c.over) frames.given refl refl
          (λ f j ne. write_ne dst i x f j m₄ ne);
    spent = λ f. omega (arith, c.over.spent f, r.spent f);
    copied = λ k below. elim (ℕ_discrete k i) [
      | yes e ↦
          subst
            (λ y.
              EntryCopied (λ s d. CopyOf (Given m₂ m₅) h s d m₅) (m₅.entries src y)
                (m₅.entries dst y))
            (sym e) new
      | no ne ↦
          row_kept i m₃ m₅ r same (λ f. c.over.spent f) k (omega arith) (omega arith)
            (write_beside dst i x dst k m₄ ne ∙ c.over.kept dst k dst_taken)
    ];
    left = λ k le.
        ap present (
          write_beside dst i x dst k m₄ (λ e. absurd (omega (arith, e)))
          ∙ c.over.kept dst k dst_taken)
        ∙ r.left k (omega arith);
  }
    where
      x : ℕ
      x = copied_entry child (m₃.entries src i)

      m₅ : Mmu
      m₅ = write dst i x m₄

      dst_taken : held dst m₃.phys ≡ 0
      dst_taken = omega (arith, r.spent dst, frames.taken)

      same : (f j : ℕ) → held f m₃.phys ≡ 0 → f ≢ dst → m₅.entries f j ≡ m₃.entries f j
      same f j q ne = write_ne dst i x f j m₄ ne ∙ c.over.kept f j q

      src_kept : m₅.entries src i ≡ m₃.entries src i
      src_kept =
          same src i (omega (arith, r.over.spent src, frames.source)) (source_ne src frames.source)

      below : Below (Unheld m) h (entry_ppn (m₃.entries src i)) m₄
      below =
          Below-same (Unheld m) (Unheld m) h (entry_ppn (m₃.entries src i)) m₃ m₄
            (λ f j q. c.over.kept f j (omega (arith, r.over.spent f))) (λ f q. q)
            (source-Below i m₃ r.over lt hp)

      new : EntryCopied (λ s d. CopyOf (Given m₂ m₅) h s d m₅) (m₅.entries src i) (m₅.entries dst i)
      new =
          subst (λ y. EntryCopied (λ s d. CopyOf (Given m₂ m₅) h s d m₅) y (m₅.entries dst i))
            (sym src_kept)
            (
              λ hp'. (
                child,
                write_self dst i x m₄,
                CopyOf-same (Unheld m) (Given m₃ m₄) (Given m₂ m₅) h (entry_ppn (m₃.entries src i))
                    child m₄ m₅ (λ f j q. write_ne dst i x f j m₄ (source_ne f q))
                    (λ f j g.
                      write_ne dst i x f j m₄
                        (λ e. absurd (omega (arith, dst_taken, g.0, ap (λ y. held y m₃.phys) e))))
                    (λ f g. (omega (arith, g.0, r.spent f), g.1)) below c.copied,
              ),
              λ off. absurd (cc (hp, off)),
            )

  step-Row :
      (i : ℕ) (m₃ m₅ : Mmu)
      → Row h src dst bound m m₂ i m₃
      → i < bound
      → clone_entry src dst copy i m₃ ≡ some m₅
      → Row h src dst bound m m₂ (i + 1) m₅
  step-Row i m₃ m₅ r lt e = elim (Bool-cases (present (m₃.entries src i))) [
    | inr off ↦
        subst (Row h src dst bound m m₂ (i + 1)) (some_inj.0 (rw off at e)) (skipped i m₃ r off)
    | inl hp ↦ elim (Option-cases (copy (entry_ppn (m₃.entries src i)) m₃)) [
      | inl q ↦ absurd (cc (rw (hp, q) at e))
      | inr ((child, m₄), q) ↦
          subst (Row h src dst bound m m₂ (i + 1)) (some_inj.0 (rw (hp, q) at e)) (
            entered i m₃ m₄ child r lt hp (
              clones (entry_ppn (m₃.entries src i)) m₃ child m₄ r.over.ready
                (Below-same (Unheld m) (Unheld m₃) h (entry_ppn (m₃.entries src i)) m₃ m₃
                  (λ f j q. refl) (λ f q. omega (arith, r.over.spent f))
                  (source-Below i m₃ r.over lt hp))
                q))
    ]
  ]

  pub loop-Row :
      (n i : ℕ) (m₃ m₄ : Mmu)
      → i + n ≡ bound
      → Row h src dst bound m m₂ i m₃
      → each n i (clone_entry src dst copy) m₃ ≡ some m₄
      → Row h src dst bound m m₂ bound m₄
  unfolding each
  loop-Row zero i m₃ m₄ eq r e =
      subst (λ j. Row h src dst bound m m₂ j m₄) (omega (arith, eq))
        (subst (Row h src dst bound m m₂ i) (some_inj.0 e) r)
  loop-Row (suc n) i m₃ m₄ eq r e = elim (Option-cases (clone_entry src dst copy i m₃)) [
    | inl q ↦ absurd (cc (rw (each, q) at e))
    | inr (m₅, q) ↦
        loop-Row n (i + 1) m₅ m₄ (omega arith) (step-Row i m₃ m₅ r (omega arith) q)
          (rw (each, q) at e)
  ]
