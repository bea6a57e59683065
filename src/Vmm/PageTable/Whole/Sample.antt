-- ===== src/Vmm/PageTable/Whole/Sample.antt =====
-- Page tables with one page and eight free frames, for the tests.
use p.Prelude.{
  ℕ, ◌≡◌, refl, sym, subst, ◌≢◌, true, false, ◌&&◌, [], ◌∷◌, arith, ◌==◌, if◌then◌else◌, ℕ_discrete,
}
use p.PhysMem.Held.{count, in_ranges}
use p.Vmm.PageTable.{Mmu, present, entry_ppn, table_of, leaf_of}
use p.Vmm.PageTable.Whole.Copied.{Below, Unheld}
use p.Vmm.PageTable.Whole.Snapshot.{Apart}

-- Page 5 is in frame 5, under the tables 1 to 4. The frames from 6 to 13 are free.
abbrev pub tables : ℕ → ℕ → ℕ
tables t i =
    if t == 1 && i == 0
    then table_of 2
    else if t == 2 && i == 0
    then table_of 3
    else if t == 3 && i == 0
    then table_of 4
    else if t == 4 && i == 5
    then leaf_of 5 true true
    else if t == 5 && i == 7
    then 42
    else 0

abbrev pub parent : Mmu
parent = record {
  entries = tables;
  phys = record {
    avail = [];
    free_ranges = (record { base = 24576; length = 32768 }) ∷ [];
    total_memory = 32768;
  };
  cr3 = 1;
  hhdm_offset = 0;
}

-- A table with one entry.
one_entry :
    (h t i₀ : ℕ)
    → ((i : ℕ) → i ≢ i₀ → present (tables t i) ≡ false)
    → Below (Unheld parent) h (entry_ppn (tables t i₀)) parent
    → (i : ℕ) → present (tables t i) ≡ true
    → Below (Unheld parent) h (entry_ppn (tables t i)) parent
one_entry h t i₀ others b i hp = elim (ℕ_discrete i i₀) [
  | yes e ↦ subst (λ j. Below (Unheld parent) h (entry_ppn (tables t j)) parent) (sym e) b
  | no ne ↦ absurd (cc (others i ne, hp))
]

pub parent-Apart : Apart parent
unfolding count in_ranges
parent-Apart = record {
  ready = record {
    pages = (refl, refl, omega arith, omega arith, tt);
    once = λ f. ground arith;
    small = λ f h. ground arith;
  };
  top = refl;
  lower = λ k lt hp.
      one_entry 3 1 0 (λ i ne. ground arith)
        (
          refl,
          λ i lt.
              one_entry 2 2 0 (λ i ne. ground arith)
                (
                  refl,
                  λ i lt.
                      one_entry 1 3 0 (λ i ne. ground arith)
                        (refl, λ i lt. one_entry 0 4 5 (λ i ne. ground arith) refl i) i,
                )
                i,
        )
        k hp;
}
