-- ===== src/Vmm/PageTable/Whole/Copied.antt =====
-- What it is for one tree of page tables in kernel/vmm.cc to be a copy of another.
use p.Prelude.{
  ℕ, zero, suc, ◌^◌, ◌≤◌, ◌<◌, ◌≡◌, refl, sym, ap, ap₂, ◌∙◌, subst, ◌≢◌, inl, inr, Bool, true,
  false, some, arith, Option-cases,
}
use mathlib.Core.Option.{some_inj}
use p.PhysMem.{PhysMem, alloc}
use p.PhysMem.Held.{Pages, Took, held, alloc-Took}
use p.Vmm.PageTable.{Mmu, present, entry_ppn, cleared, alloc_frame}
use p.Vmm.PageTable.Whole.{copied_entry}

-- Every frame that a tree of tables leads to, the tree's own and its pages: a page is of height 0,
-- and a table of level `l` of height `l + 1`.
abbrev pub Below : (ℕ → Type 0) → ℕ → ℕ → Mmu → Type 0
Below Q zero t m = Q t
Below Q (suc h) t m =
    Q t
    × ((i : ℕ) → i < 512 → present (m.entries t i) ≡ true → Below Q h (entry_ppn (m.entries t i)) m)

-- An entry and its copy: a child of the one is copied in the child of the other.
abbrev pub EntryCopied : (ℕ → ℕ → Type 0) → ℕ → ℕ → Type 0
EntryCopied P e e' =
    (present e ≡ true → (child : ℕ) × (e' ≡ copied_entry child e) × P (entry_ppn e) child)
    × (present e ≡ false → present e' ≡ false)

-- The tree at `dst` is a copy of the one at `src`, in frames of which `N` holds.
abbrev pub CopyOf : (ℕ → Type 0) → ℕ → ℕ → ℕ → Mmu → Type 0
CopyOf N zero src dst m = N dst × ((j : ℕ) → m.entries dst j ≡ m.entries src j)
CopyOf N (suc h) src dst m =
    N dst
    × ((i : ℕ)
        → i < 512
        → EntryCopied (λ s d. CopyOf N h s d m) (m.entries src i) (m.entries dst i))

pub Below-top : (Q : ℕ → Type 0) (h t : ℕ) (m : Mmu) → Below Q h t m → Q t
Below-top Q zero t m b = b
Below-top Q (suc h) t m b = b.0

pub CopyOf-top : (N : ℕ → Type 0) (h s d : ℕ) (m : Mmu) → CopyOf N h s d m → N d
CopyOf-top N zero s d m c = c.0
CopyOf-top N (suc h) s d m c = c.0

-- The frames of the tree are the same in another memory, and are of another kind there.
pub Below-same :
    (Q Q' : ℕ → Type 0) (h t : ℕ) (m m' : Mmu)
    → ((f i : ℕ) → Q f → m'.entries f i ≡ m.entries f i)
    → ((f : ℕ) → Q f → Q' f)
    → Below Q h t m
    → Below Q' h t m'
Below-same Q Q' zero t m m' same to b = to t b
Below-same Q Q' (suc h) t m m' same to b = (
  to t b.0,
  λ i lt hp.
      let e = same t i b.0 in
      subst (λ x. Below Q' h (entry_ppn x) m') (sym e)
        (Below-same Q Q' h (entry_ppn (m.entries t i)) m m' same to
          (b.1 i lt (ap present (sym e) ∙ hp))),
)

pub EntryCopied-map :
    (P P' : ℕ → ℕ → Type 0) (e e' x x' : ℕ)
    → x ≡ e
    → x' ≡ e'
    → ((child : ℕ) → present e ≡ true → P (entry_ppn e) child → P' (entry_ppn e) child)
    → EntryCopied P e e'
    → EntryCopied P' x x'
EntryCopied-map P P' e e' x x' q q' to c =
    subst (λ (y : ℕ × ℕ). EntryCopied P' y.0 y.1) (ap₂ (λ a b. (a, b)) (sym q) (sym q'))
      (λ hp. let (child, r, p) = c.0 hp in (child, r, to child hp p), c.1)

pub CopyOf-same :
    (Q N N' : ℕ → Type 0) (h s d : ℕ) (m m' : Mmu)
    → ((f i : ℕ) → Q f → m'.entries f i ≡ m.entries f i)
    → ((f i : ℕ) → N f → m'.entries f i ≡ m.entries f i)
    → ((f : ℕ) → N f → N' f)
    → Below Q h s m
    → CopyOf N h s d m
    → CopyOf N' h s d m'
CopyOf-same Q N N' zero s d m m' old new to b c =
    (to d c.0, λ j. new d j c.0 ∙ c.1 j ∙ sym (old s j b))
CopyOf-same Q N N' (suc h) s d m m' old new to b c = (
  to d c.0,
  λ i lt.
      EntryCopied-map (λ s d. CopyOf N h s d m) (λ s d. CopyOf N' h s d m') (m.entries s i)
        (m.entries d i) (m'.entries s i) (m'.entries d i) (old s i b.0) (new d i c.0)
        (λ child hp k.
          CopyOf-same Q N N' h (entry_ppn (m.entries s i)) child m m' old new to (b.1 i lt hp) k)
        (c.1 i lt),
)

-- An allocator that works, and what a step may do beside: the frames that the allocator does not
-- hold stay as they are.
pub record Ready (m : Mmu) : Type 0 where
  pub pages : Pages m.phys.free_ranges
  pub once : (f : ℕ) → held f m.phys ≤ 1
  pub small : (f : ℕ) → 0 < held f m.phys → f < 2 ^ 40

pub record Over (m m' : Mmu) : Type 0 where
  pub ready : Ready m'
  pub kept : (f i : ℕ) → held f m.phys ≡ 0 → m'.entries f i ≡ m.entries f i
  pub spent : (f : ℕ) → held f m'.phys ≤ held f m.phys
  pub same_cr3 : m'.cr3 ≡ m.cr3

abbrev pub Unheld : Mmu → ℕ → Type 0
Unheld m f = held f m.phys ≡ 0

-- A frame that was handed out between two states.
abbrev pub Given : Mmu → Mmu → ℕ → Type 0
Given m m' f = (0 < held f m.phys) × (held f m'.phys ≡ 0)

pub Over-trans : {m m' m'' : Mmu} → Over m m' → Over m' m'' → Over m m''
Over-trans o o' = record {
  ready = o'.ready;
  kept = λ f i h. o'.kept f i (omega (arith, o.spent f)) ∙ o.kept f i h;
  spent = λ f. omega (arith, o.spent f, o'.spent f);
  same_cr3 = o'.same_cr3 ∙ o.same_cr3;
}

pub Over-refl : (m : Mmu) → Ready m → Over m m
Over-refl m r = record {
  ready = r;
  kept = λ f i h. refl;
  spent = λ f. omega arith;
  same_cr3 = refl;
}

-- A step that writes to a frame that was handed out since.
pub Over-write :
    (m m₁ m₂ : Mmu) (dst : ℕ)
    → Over m m₁
    → 0 < held dst m.phys
    → m₂.phys ≡ m₁.phys
    → m₂.cr3 ≡ m₁.cr3
    → ((f i : ℕ) → f ≢ dst → m₂.entries f i ≡ m₁.entries f i)
    → Over m m₂
Over-write m m₁ m₂ dst o given ep ec same = record {
  ready = record {
    pages = rw ep o.ready.pages;
    once = λ f. omega (arith, ap (held f) ep, o.ready.once f);
    small = λ f h. o.ready.small f (omega (arith, ap (held f) ep));
  };
  kept = λ f i h. same f i (λ e. absurd (omega (arith, ap (λ x. held x m.phys) e))) ∙ o.kept f i h;
  spent = λ f. omega (arith, ap (held f) ep, o.spent f);
  same_cr3 = ec ∙ o.same_cr3;
}

-- One frame handed out.
pub record Handed (m : Mmu) (dst : ℕ) (m' : Mmu) : Type 0 where
  pub over : Over m m'
  pub given : Given m m' dst

pub alloc_frame-Handed :
    (m m' : Mmu) (dst : ℕ) → Ready m → alloc_frame m ≡ some (dst, m') → Handed m dst m'
unfolding alloc_frame
alloc_frame-Handed m m' dst r e = elim (Option-cases (alloc m.phys)) [
  | inl q ↦ absurd (cc (rw q at e))
  | inr ((x, clear, phys), q) ↦
      subst (λ (y : ℕ × Mmu). Handed m y.0 y.1) (some_inj.0 (rw q at e))
        (of x clear phys (alloc-Took m.phys phys x clear r.pages q))
]
  where
    given : (x : ℕ) (phys : PhysMem) → Took m.phys x phys → (0 < held x m.phys) × (held x phys ≡ 0)
    given x phys t = (ground (arith, t.moved x), ground (arith, t.moved x, r.once x))

    working : (x : ℕ) (phys : PhysMem) (m₁ : Mmu) → Took m.phys x phys → m₁.phys ≡ phys → Ready m₁
    working x phys m₁ t e = record {
      pages = rw e t.pages;
      once = λ f. rw e (omega (arith, t.moved f, r.once f));
      small = λ f h. r.small f (omega (arith, t.moved f, ap (held f) e));
    }

    of :
        (x : ℕ) (clear : Bool) (phys : PhysMem)
        → Took m.phys x phys
        → Handed m x (cleared x clear (record m { phys = phys }))
    of x false phys t = record {
      over = record {
        ready = working x phys (record m { phys = phys }) t refl;
        kept = λ f i h. refl;
        spent = λ f. omega (arith, t.moved f);
        same_cr3 = refl;
      };
      given = given x phys t;
    }
    of x true phys t = record {
      over = record {
        ready = working x phys (cleared x true (record m { phys = phys })) t refl;
        kept = λ f i h. ground (arith, (given x phys t).0, t.moved f);
        spent = λ f. omega (arith, t.moved f);
        same_cr3 = refl;
      };
      given = given x phys t;
    }

pub CopyOf-map :
    (N N' : ℕ → Type 0) (h s d : ℕ) (m : Mmu)
    → ((f : ℕ) → N f → N' f)
    → CopyOf N h s d m
    → CopyOf N' h s d m
CopyOf-map N N' zero s d m to c = (to d c.0, c.1)
CopyOf-map N N' (suc h) s d m to c = (
  to d c.0,
  λ i lt.
      EntryCopied-map (λ s d. CopyOf N h s d m) (λ s d. CopyOf N' h s d m) (m.entries s i)
        (m.entries d i) (m.entries s i) (m.entries d i) refl refl
        (λ child hp k. CopyOf-map N N' h (entry_ppn (m.entries s i)) child m to k) (c.1 i lt),
)
