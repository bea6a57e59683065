-- ===== src/Vmm/PageTable/Grown.antt =====
-- A new table below a table that has no entry there: `map` in kernel/vmm.cc, where the entry is not
-- present.
use p.Prelude.{
  ℕ, suc, ◌+◌, ◌*◌, ◌^◌, ◌<◌, ◌≡◌, sym, ap, ap₂, ◌∙◌, subst, ◌≢◌, true, false, none, some, arith,
  ℕ_discrete,
}
use mathlib.Core.Option.{some_inj}
use p.PhysMem.Held.{held}
use p.Vmm.PageTable.{Mmu, present, entry_ppn, write, table_of}
use p.Vmm.PageTable.Placed.{Place, placed, Tree, Stock, Fresh}

pub entry_ppn-table_of : (child : ℕ) → child < 2 ^ 40 → entry_ppn (table_of child) ≡ child
entry_ppn-table_of child h = omega arith

pub placed_self : (child : ℕ) (at : ℕ × ℕ) (place : Place) → placed child at place child ≡ some at
placed_self child at place = ground arith

pub placed_ne :
    (child f : ℕ) (at : ℕ × ℕ) (place : Place) → f ≢ child → placed child at place f ≡ place f
placed_ne child f at place ne = ground arith

pub placed_kept :
    (child f : ℕ) (at x : ℕ × ℕ) (place : Place)
    → place child ≡ none
    → place f ≡ some x
    → placed child at place f ≡ some x
placed_kept child f at x place e h = ground arith

module _ (place : Place) (m m' : Mmu) (child t l q i : ℕ) (tree : Tree place m)
    (fresh : Fresh place m child m') (ht : place t ≡ some (suc l, q)) where
  apart_table : t ≢ child
  apart_table e = absurd (cc (ht, fresh.free_place, ap place e))

  link_kept :
      (f l' q' j entry : ℕ)
      → entry ≡ m.entries f j
      → place f ≡ some (suc l', q')
      → j < 512
      → present entry ≡ true
      → placed child (l, q * 512 + i) place (entry_ppn entry) ≡ some (l', q' * 512 + j)
  link_kept f l' q' j entry e hf hj hp =
      placed_kept child (entry_ppn entry) (l, q * 512 + i) (l', q' * 512 + j) place fresh.free_place
        (subst (λ x. place (entry_ppn x) ≡ some (l', q' * 512 + j)) (sym e)
          (tree.links f l' q' j hf hj (ap present (sym e) ∙ hp)))

  link_new :
      (f l' q' j entry : ℕ)
      → entry ≡ table_of child
      → f ≡ t
      → j ≡ i
      → place f ≡ some (suc l', q')
      → placed child (l, q * 512 + i) place (entry_ppn entry) ≡ some (l', q' * 512 + j)
  link_new f l' q' j entry e ef ej hf =
      let at : (suc l', q') ≡ (suc l, q) = some_inj.0 (sym hf ∙ ap place ef ∙ ht) in
      let el : suc l' ≡ suc l = ap (λ x. x.0) at in
      let eq : q' ≡ q = ap (λ x. x.1) at in
      ap (placed child (l, q * 512 + i) place)
        (ap entry_ppn e ∙ entry_ppn-table_of child fresh.small)
      ∙ placed_self child (l, q * 512 + i) place
      ∙ ap₂ (λ a b. some (a, b)) (omega (arith, el)) (omega (arith, eq, ej))

  pub grown-others :
      (f j : ℕ) → f ≢ child → f ≢ t → (write t i (table_of child) m').entries f j ≡ m.entries f j
  grown-others f j ne ne' = ground (arith, fresh.others f j ne)

  pub grown-beside : (j : ℕ) → j ≢ i → (write t i (table_of child) m').entries t j ≡ m.entries t j
  grown-beside j ne = ground (arith, fresh.others t j apart_table)

  pub grown-entry : (write t i (table_of child) m').entries t i ≡ table_of child
  grown-entry = ground arith

  pub grown-child : (j : ℕ) → present ((write t i (table_of child) m').entries child j) ≡ false
  grown-child j = ground (arith, fresh.blank j, apart_table)

  pub grown-Tree : Tree (placed child (l, q * 512 + i) place) (write t i (table_of child) m')
  grown-Tree = record {
    root =
        placed_kept child m'.cr3 (l, q * 512 + i) (3, 0) place fresh.free_place
          (rw fresh.same_cr3 tree.root);
    links = links;
  }
    where
      links :
          (f l' q' j : ℕ)
          → placed child (l, q * 512 + i) place f ≡ some (suc l', q')
          → j < 512
          → present ((write t i (table_of child) m').entries f j) ≡ true
          → placed child
              (l, q * 512 + i)
              place
              (entry_ppn ((write t i (table_of child) m').entries f j))
            ≡ some (l', q' * 512 + j)
      links f l' q' j hf hj hp = elim (ℕ_discrete f child) [
        | yes e ↦ absurd (
            cc (
              hp,
              ap (λ x. present ((write t i (table_of child) m').entries x j)) e,
              grown-child j,
            ))
        | no ne ↦
            let hf' = sym (placed_ne child f (l, q * 512 + i) place ne) ∙ hf in
            elim (ℕ_discrete f t) [
              | yes e ↦ elim (ℕ_discrete j i) [
                | yes e' ↦
                    link_new f l' q' j ((write t i (table_of child) m').entries f j)
                      (ap₂ (λ a b. (write t i (table_of child) m').entries a b) e e' ∙ grown-entry)
                      e e' hf'
                | no ne' ↦
                    link_kept f l' q' j ((write t i (table_of child) m').entries f j)
                      (ap (λ a. (write t i (table_of child) m').entries a j) e
                        ∙ grown-beside j ne'
                        ∙ ap (λ a. m.entries a j) (sym e))
                      hf' hj hp
              ]
              | no ne' ↦
                  link_kept f l' q' j ((write t i (table_of child) m').entries f j)
                    (grown-others f j ne ne') hf' hj hp
            ]
      ]

  fresh_entry :
      (f j : ℕ)
      → present (m'.entries f j) ≡ false
      → f ≢ t
      → present ((write t i (table_of child) m').entries f j) ≡ false
  fresh_entry f j h ne = ground arith

  pub grown-Stock : Stock (placed child (l, q * 512 + i) place) (write t i (table_of child) m')
  grown-Stock = record {
    pages = fresh.stock.pages;
    apart = λ f h.
        (placed_ne child f (l, q * 512 + i) place
            (λ e. absurd (omega (arith, fresh.gone, ap (λ x. held x m'.phys) e)))
          ∙ fresh.stock.apart f h);
    once = fresh.stock.once;
    small = fresh.stock.small;
    blank = λ f j h.
        fresh_entry f j (fresh.stock.blank f j h)
          (λ e. absurd (cc (ht, ap place e, fresh.stock.apart f (omega (arith, h)))));
  }
