-- ===== src/Vmm/PageTable/Mapped.antt =====
-- What `map` of kernel/vmm.cc does to the translation of every page.
use p.Prelude.{
  ℕ, zero, suc, ◌+◌, ◌*◌, ◌^◌, ◌<◌, ◌≡◌, sym, ap, ◌∙◌, subst, inl, inr, Bool, true, some, arith,
  ◌==◌, if◌then◌else◌, Bool-cases, Option-cases,
}
use mathlib.Core.Option.{some_inj}
use p.Vmm.PageTable.{
  Mmu, present, entry_ppn, prefix, vpn_index, translate_at, translate, write, table_of, alloc_frame,
  map_at, leaf_of, map_page,
}
use p.Vmm.PageTable.Placed.{Place, placed, Tree, Stock, alloc_frame-Fresh}
use p.Vmm.PageTable.Grown.{entry_ppn-table_of, placed_self, grown-Tree, grown-Stock}
use p.Vmm.PageTable.Prefix.{prefix-split, prefix-top}
use p.Vmm.PageTable.Entry.{Mapped, leaf-Mapped, down-Mapped, grow-Mapped}

pub map_at-Mapped :
    (l v leaf t : ℕ) (place : Place) (m m' : Mmu)
    → present leaf ≡ true
    → Tree place m
    → Stock place m
    → place t ≡ some (l, prefix (suc l) v)
    → map_at l t v leaf m ≡ some m'
    → Mapped l v leaf t place m m'
unfolding map_at
map_at-Mapped zero v leaf t place m m' hl tree stock ht e =
    subst (Mapped zero v leaf t place m) (some_inj.0 e)
      (leaf-Mapped v leaf t place m hl tree stock ht)
map_at-Mapped (suc l) v leaf t place m m' hl tree stock ht e =
    let i = vpn_index (suc l) v in
    let q₀ = prefix (suc (suc l)) v in
    elim (Bool-cases (present (m.entries t i))) [
      | inl hp ↦ down-Mapped l v leaf t place m m' tree ht hp (
          map_at-Mapped l v leaf (entry_ppn (m.entries t i)) place m m' hl tree stock
            (tree.links t l q₀ i ht (omega arith) hp
              ∙ ap (λ x. some (l, x)) (prefix-split (suc l) v))
            (rw (map_at, hp) at e))
      | inr hp ↦ elim (Option-cases (alloc_frame m)) [
        | inl q ↦ absurd (cc (rw (map_at, hp, q) at e))
        | inr ((child, m₁), q) ↦
            let fresh = alloc_frame-Fresh place m m₁ child stock q in
            grow-Mapped l v leaf t child place m m₁ m' tree fresh ht hp (
              map_at-Mapped l v leaf (entry_ppn (table_of child))
                (placed child (l, q₀ * 512 + i) place) (write t i (table_of child) m₁) m' hl
                (grown-Tree place m m₁ child t l q₀ i tree fresh ht)
                (grown-Stock place m m₁ child t l q₀ i tree fresh ht)
                (ap (placed child (l, q₀ * 512 + i) place) (entry_ppn-table_of child fresh.small)
                  ∙ placed_self child (l, q₀ * 512 + i) place
                  ∙ ap (λ x. some (l, x)) (prefix-split (suc l) v))
                (rw (map_at, hp, q) at e))
      ]
    ]

present-leaf_of : (ppn : ℕ) (user writable : Bool) → present (leaf_of ppn user writable) ≡ true
present-leaf_of ppn user writable = ground arith

-- The frames of the page tables, as they stand after a call.
pub record Kept (place : Place) (m : Mmu) : Type 0 where
  pub place' : Place
  pub extends : (f : ℕ) (x : ℕ × ℕ) → place f ≡ some x → place' f ≡ some x
  pub tree : Tree place' m
  pub stock : Stock place' m

pub map_page-translate :
    (vpn ppn : ℕ) (user writable : Bool) (place : Place) (m m' : Mmu)
    → Tree place m
    → Stock place m
    → vpn < 2 ^ 36
    → map_page vpn ppn user writable m ≡ some m'
    → ((v : ℕ)
        → v < 2 ^ 36
        → translate v m' ≡ (if v == vpn then some (leaf_of ppn user writable) else translate v m))
      × Kept place m'
unfolding map_page
map_page-translate vpn ppn user writable place m m' tree stock hv e =
    let leaf = leaf_of ppn user writable in
    let r =
      map_at-Mapped 3 vpn leaf m.cr3 place m m' (present-leaf_of ppn user writable) tree stock
        (tree.root ∙ ap (λ x. some (3, x)) (sym (prefix-top vpn hv))) e in
    (
      λ v h.
          ap (λ t. translate_at 3 t v m') r.same_cr3
          ∙ r.inside v (prefix-top v h ∙ sym (prefix-top vpn hv)),
      record { place' = r.place'; extends = r.kept; tree = r.tree; stock = r.stock },
    )
