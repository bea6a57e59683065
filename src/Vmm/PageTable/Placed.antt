-- ===== src/Vmm/PageTable/Placed.antt =====
-- Which frames are tables, and of which addresses: the frames of a tree of page tables, and the
-- frames that the allocator holds beside them.
use p.Prelude.{
  ℕ, suc, ◌+◌, ◌*◌, ◌^◌, ◌≤◌, ◌<◌, ◌≡◌, refl, sym, ap, ◌∙◌, subst, ◌≢◌, inl, inr, Bool, true, false,
  Option, none, some, List, [], ◌∷◌, arith, ◌==◌, if◌then◌else◌, Option-cases,
}
use mathlib.Core.Option.{some_inj}
use p.PhysMem.{Range, PhysMem, Allocated, alloc}
use p.PhysMem.Held.{Pages, Took, alloc-Took, count, held}
use p.Vmm.PageTable.{Mmu, present, entry_ppn, write, cleared, alloc_frame}

-- The level of a table, and the part of the page numbers that all its pages share.
abbrev pub Place : Type 0
Place = ℕ → Option (ℕ × ℕ)

abbrev pub placed : ℕ → ℕ × ℕ → Place → Place
placed child at place f = if f == child then some at else place f

pub same_place :
    (place : Place) (f t l l' q q' : ℕ)
    → place f ≡ some (l', q')
    → place t ≡ some (l, q)
    → f ≡ t
    → Path (ℕ × ℕ) (l', q') (l, q)
same_place place f t l l' q q' hf ht e = some_inj.0 (sym hf ∙ ap place e ∙ ht)

pub level_ne :
    (place : Place) (f t l l' q q' : ℕ)
    → place f ≡ some (l', q')
    → place t ≡ some (l, q)
    → l' ≢ l
    → f ≢ t
level_ne place f t l l' q q' hf ht ne e =
    ne (ap (λ x. x.0) (same_place place f t l l' q q' hf ht e))

pub prefix_ne :
    (place : Place) (f t l q q' : ℕ)
    → place f ≡ some (l, q')
    → place t ≡ some (l, q)
    → q' ≢ q
    → f ≢ t
prefix_ne place f t l q q' hf ht ne e = ne (ap (λ x. x.1) (same_place place f t l l q q' hf ht e))

pub unplaced_ne : (place : Place) (f t : ℕ) (x : ℕ × ℕ) → place f ≡ none → place t ≡ some x → f ≢ t
unplaced_ne place f t x hf ht e = absurd (cc (hf, ht, ap place e))

pub write_ne : (t i x f j : ℕ) (m : Mmu) → f ≢ t → (write t i x m).entries f j ≡ m.entries f j
write_ne t i x f j m ne = ground arith

pub write_beside : (t i x f j : ℕ) (m : Mmu) → j ≢ i → (write t i x m).entries f j ≡ m.entries f j
write_beside t i x f j m ne = ground arith

pub write_self : (t i x : ℕ) (m : Mmu) → (write t i x m).entries t i ≡ x
write_self t i x m = ground arith

-- The frames that are reached from the top table stand at their place, so no table has two entries
-- that lead to it.
pub record Tree (place : Place) (m : Mmu) : Type 0 where
  pub root : place m.cr3 ≡ some (3, 0)
  pub links :
      (f l q i : ℕ)
      → place f ≡ some (suc l, q)
      → i < 512
      → present (m.entries f i) ≡ true
      → place (entry_ppn (m.entries f i)) ≡ some (l, q * 512 + i)

-- No frame that the allocator holds is a table, and those that it hands out uncleared have no
-- entry that is present.
pub record Stock (place : Place) (m : Mmu) : Type 0 where
  pub pages : Pages m.phys.free_ranges
  pub apart : (f : ℕ) → 0 < held f m.phys → place f ≡ none
  pub once : (f : ℕ) → held f m.phys ≤ 1
  pub small : (f : ℕ) → 0 < held f m.phys → f < 2 ^ 40
  pub blank : (f i : ℕ) → 0 < count f m.phys.avail → present (m.entries f i) ≡ false

-- One frame handed out.
pub record Fresh (place : Place) (m : Mmu) (child : ℕ) (m' : Mmu) : Type 0 where
  pub free_place : place child ≡ none
  pub small : child < 2 ^ 40
  pub others : (f i : ℕ) → f ≢ child → m'.entries f i ≡ m.entries f i
  pub blank : (i : ℕ) → present (m'.entries child i) ≡ false
  pub gone : held child m'.phys ≡ 0
  pub same_cr3 : m'.cr3 ≡ m.cr3
  pub stock : Stock place m'

abbrev Lent : PhysMem → Allocated → Type 0
Lent p none = Unit {0}
Lent p (some (x, c, q)) =
    ((f : ℕ) → count f q.avail ≤ count f p.avail) × (c ≡ false → 0 < count x p.avail)

alloc-Lent : (p : PhysMem) → Lent p (alloc p)
unfolding alloc count
alloc-Lent p = by_case p.avail p.free_ranges refl refl
  where
    by_case : (a : List ℕ) (rs : List Range) → p.avail ≡ a → p.free_ranges ≡ rs → Lent p (alloc p)
    by_case (x ∷ xs) rs ea er = rw ea (λ f. ground arith, λ h. ground arith)
    by_case [] [] ea er = rw (ea, er) tt
    by_case [] (r ∷ rs) ea er = rw (ea, er) (λ f. omega arith, λ h. absurd (cc))

pub alloc_frame-Fresh :
    (place : Place) (m m' : Mmu) (child : ℕ)
    → Stock place m
    → alloc_frame m ≡ some (child, m')
    → Fresh place m child m'
unfolding alloc_frame
alloc_frame-Fresh place m m' child h e = elim (Option-cases (alloc m.phys)) [
  | inl q ↦ absurd (cc (rw q at e))
  | inr ((x, clear, phys), q) ↦
      let t = alloc-Took m.phys phys x clear h.pages q in
      let lent = subst (Lent m.phys) q (alloc-Lent m.phys) in
      subst (λ (y : ℕ × Mmu). Fresh place m y.0 y.1) (some_inj.0 (rw q at e))
        (of x clear phys t lent.0 lent.1)
]
  where
    of :
        (x : ℕ) (clear : Bool) (phys : PhysMem)
        → Took m.phys x phys
        → ((f : ℕ) → count f phys.avail ≤ count f m.phys.avail)
        → (clear ≡ false → 0 < count x m.phys.avail)
        → Fresh place m x (cleared x clear (record m { phys = phys }))
    of x true phys t less lent = record {
      free_place = h.apart x (ground (arith, t.moved x));
      small = h.small x (ground (arith, t.moved x));
      others = λ f i ne. ground arith;
      blank = λ i. ground arith;
      gone = ground (arith, t.moved x, h.once x);
      same_cr3 = refl;
      stock = record {
        pages = t.pages;
        apart = λ f q. h.apart f (ground (arith, t.moved f));
        once = λ f. ground (arith, t.moved f, h.once f);
        small = λ f q. h.small f (ground (arith, t.moved f));
        blank = λ f i q. ground (arith, h.blank f i, less f);
      };
    }
    of x false phys t less lent = record {
      free_place = h.apart x (ground (arith, t.moved x));
      small = h.small x (ground (arith, t.moved x));
      others = λ f i ne. refl;
      blank = λ i. h.blank x i (lent refl);
      gone = ground (arith, t.moved x, h.once x);
      same_cr3 = refl;
      stock = record {
        pages = t.pages;
        apart = λ f q. h.apart f (ground (arith, t.moved f));
        once = λ f. ground (arith, t.moved f, h.once f);
        small = λ f q. h.small f (ground (arith, t.moved f));
        blank = λ f i q. h.blank f i (omega (arith, less f));
      };
    }
