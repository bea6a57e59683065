-- ===== src/Vmm/PageTable/Entry.antt =====
-- One table on the way of `map` in kernel/vmm.cc, and what becomes of the translation of its pages.
use p.Prelude.{
  ℕ, zero, suc, ◌+◌, ◌*◌, ◌<◌, ◌≡◌, refl, sym, ap, ◌∙◌, subst, ◌≢◌, true, false, some, arith,
  ℕ_discrete, ◌==◌, if◌then◌else◌,
}
use p.Vmm.PageTable.{
  Mmu, present, entry_ppn, prefix, vpn_index, walk, translate_at, write, table_of,
}
use p.Vmm.PageTable.Placed.{
  Place, placed, Tree, Stock, Fresh, same_place, level_ne, unplaced_ne, write_ne,
}
use p.Vmm.PageTable.Grown.{
  entry_ppn-table_of, placed_kept, grown-others, grown-beside, grown-entry, grown-child,
}
use p.Vmm.PageTable.Prefix.{
  prefix-split, prefix-same, prefix-index, prefix-ne, translate_at-blank, translate_at-elsewhere,
  same_below, translate_at-follow, translate_at-stop,
}

-- A table of level `l` after a page below it is mapped.
pub record Mapped (l v leaf t : ℕ) (place : Place) (m m' : Mmu) : Type 0 where
  pub place' : Place
  pub kept : (f : ℕ) (x : ℕ × ℕ) → place f ≡ some x → place' f ≡ some x
  pub tree : Tree place' m'
  pub stock : Stock place' m'
  pub same_cr3 : m'.cr3 ≡ m.cr3
  pub beside :
      (f l' q i : ℕ)
      → place f ≡ some (l', q)
      → q ≢ prefix (suc l') v
      → m'.entries f i ≡ m.entries f i
  pub above : (f l' q i : ℕ) → place f ≡ some (l', q) → l < l' → m'.entries f i ≡ m.entries f i
  pub inside :
      (v' : ℕ)
      → prefix (suc l) v' ≡ prefix (suc l) v
      → translate_at l t v' m' ≡ (if v' == v then some leaf else translate_at l t v' m)

-- The pages of a table, from those of the entry that is followed.
inside-step :
    (place : Place) (m m' : Mmu) (l v leaf t v' : ℕ)
    → Tree place m
    → place t ≡ some (suc l, prefix (suc (suc l)) v)
    → ((f l' q i : ℕ)
        → place f ≡ some (l', q)
        → q ≢ prefix (suc l') v
        → m'.entries f i ≡ m.entries f i)
    → ((i : ℕ) → i ≢ vpn_index (suc l) v → m'.entries t i ≡ m.entries t i)
    → (prefix (suc l) v' ≡ prefix (suc l) v
        → translate_at (suc l) t v' m'
          ≡ (if v' == v then some leaf else translate_at (suc l) t v' m))
    → prefix (suc (suc l)) v' ≡ prefix (suc (suc l)) v
    → translate_at (suc l) t v' m' ≡ (if v' == v then some leaf else translate_at (suc l) t v' m)
inside-step place m m' l v leaf t v' tree ht beside row here hv =
    elim (ℕ_discrete (vpn_index (suc l) v') (vpn_index (suc l) v)) [
      | yes e ↦ here (prefix-same (suc l) v v' hv e)
      | no ne ↦ ground (
        arith,
        prefix-ne (suc l) v v' (prefix-index (suc l) v v' ne),
        same_below l t v' m m' (row (vpn_index (suc l) v') ne) (λ hp.
            translate_at-elsewhere place m m' v l (entry_ppn (m.entries t (vpn_index (suc l) v')))
              v' tree beside
              (tree.links t l (prefix (suc (suc l)) v) (vpn_index (suc l) v') ht (omega arith) hp
                ∙ ap (λ x. some (l, x)) (omega (arith, hv, prefix-split (suc l) v')))
              (prefix-index (suc l) v v' ne)),
      )
    ]

beside_ne :
    (place : Place) (f t l l' q v : ℕ)
    → place f ≡ some (l', q)
    → place t ≡ some (l, prefix (suc l) v)
    → q ≢ prefix (suc l') v
    → f ≢ t
beside_ne place f t l l' q v hf ht ne e =
    let at = same_place place f t l l' (prefix (suc l) v) q hf ht e in
    ne (ap (λ x. x.1) at ∙ ap (λ x. prefix (suc x) v) (sym (ap (λ x. x.0) at)))

present-table_of : (child : ℕ) → present (table_of child) ≡ true
present-table_of child = ground arith

-- One entry of a table of level 0.
pub leaf-Mapped :
    (v leaf t : ℕ) (place : Place) (m : Mmu)
    → present leaf ≡ true
    → Tree place m
    → Stock place m
    → place t ≡ some (0, prefix 1 v)
    → Mapped zero v leaf t place m (write t (vpn_index 0 v) leaf m)
unfolding prefix walk
leaf-Mapped v leaf t place m hl tree stock ht = record {
  place' = place;
  kept = λ f x h. h;
  tree = record {
    root = tree.root;
    links = λ f l q i h hi hp.
        let at = vpn_index 0 v in
        let same =
          write_ne t at leaf f i m
            (level_ne place f t 0 (suc l) (prefix 1 v) q h ht (λ e. absurd (omega (arith, e)))) in
        subst (λ x. place (entry_ppn x) ≡ some (l, q * 512 + i)) (sym same)
          (tree.links f l q i h hi (ap present (sym same) ∙ hp));
  };
  stock = record {
    pages = stock.pages;
    apart = stock.apart;
    once = stock.once;
    small = stock.small;
    blank = λ f i h.
        ap present (
          write_ne t (vpn_index 0 v) leaf f i m
            (unplaced_ne place f t (0, prefix 1 v) (stock.apart f (omega (arith, h))) ht))
        ∙ stock.blank f i h;
  };
  same_cr3 = refl;
  beside = λ f l' q' i h ne.
      write_ne t (vpn_index 0 v) leaf f i m (λ e. beside_ne place f t 0 l' q' v h ht ne e);
  above = λ f l' q' i h hl'.
      write_ne t (vpn_index 0 v) leaf f i m
        (level_ne place f t 0 l' (prefix 1 v) q' h ht (λ e. absurd (omega (arith, e, hl'))));
  inside = λ v' h. ground (arith, hl, h);
}

-- A table whose entry leads to the table below.
pub down-Mapped :
    (l v leaf t : ℕ) (place : Place) (m m' : Mmu)
    → Tree place m
    → place t ≡ some (suc l, prefix (suc (suc l)) v)
    → present (m.entries t (vpn_index (suc l) v)) ≡ true
    → Mapped l v leaf (entry_ppn (m.entries t (vpn_index (suc l) v))) place m m'
    → Mapped (suc l) v leaf t place m m'
down-Mapped l v leaf t place m m' tree ht hp below = record {
  place' = below.place';
  kept = below.kept;
  tree = below.tree;
  stock = below.stock;
  same_cr3 = below.same_cr3;
  beside = below.beside;
  above = λ f l' q i h hl. below.above f l' q i h (omega (arith, hl));
  inside = λ v'.
      inside-step place m m' l v leaf t v' tree ht below.beside
        (λ i ne. below.above t (suc l) (prefix (suc (suc l)) v) i ht (omega arith))
        (λ h.
          let entry = m.entries t (vpn_index (suc l) v) in
          translate_at-follow l t v v' entry m' h
            (below.above t (suc l) (prefix (suc (suc l)) v) (vpn_index (suc l) v) ht (omega arith))
            hp
          ∙ below.inside v' h
          ∙ ap (λ x. if v' == v then some leaf else x)
              (sym (translate_at-follow l t v v' entry m h refl hp)));
}

-- A table that gets a new table below it.
pub grow-Mapped :
    (l v leaf t child : ℕ) (place : Place) (m m₁ m' : Mmu)
    → Tree place m
    → Fresh place m child m₁
    → place t ≡ some (suc l, prefix (suc (suc l)) v)
    → present (m.entries t (vpn_index (suc l) v)) ≡ false
    → Mapped l v leaf
        (entry_ppn (table_of child))
        (placed child (l, prefix (suc (suc l)) v * 512 + vpn_index (suc l) v) place)
        (write t (vpn_index (suc l) v) (table_of child) m₁)
        m'
    → Mapped (suc l) v leaf t place m m'
grow-Mapped l v leaf t child place m m₁ m' tree fresh ht hp below = record {
  place' = below.place';
  kept = λ f x h. below.kept f x (placed_kept child f at x place fresh.free_place h);
  tree = below.tree;
  stock = below.stock;
  same_cr3 = below.same_cr3 ∙ fresh.same_cr3;
  beside = beside;
  above = λ f l' q k h hl.
      old f l' q k h
        (λ e.
          absurd (omega (arith, hl, ap (λ x. x.0) (same_place place f t (suc l) l' q₀ q h ht e))))
        (below.above f l' q k (placed_kept child f at (l', q) place fresh.free_place h)
          (omega (arith, hl)));
  inside = λ v'. inside-step place m m' l v leaf t v' tree ht beside row (here v');
}
  where
    q₀ : ℕ
    q₀ = prefix (suc (suc l)) v

    i : ℕ
    i = vpn_index (suc l) v

    at : ℕ × ℕ
    at = (l, q₀ * 512 + i)

    m₂ : Mmu
    m₂ = write t i (table_of child) m₁

    ht' : placed child at place t ≡ some (suc l, q₀)
    ht' = placed_kept child t at (suc l, q₀) place fresh.free_place ht

    old :
        (f l' q k : ℕ)
        → place f ≡ some (l', q)
        → f ≢ t
        → m'.entries f k ≡ m₂.entries f k
        → m'.entries f k ≡ m.entries f k
    old f l' q k h ne e =
        e
        ∙ grown-others place m m₁ child t l q₀ i tree fresh ht f k
            (λ e'. absurd (cc (h, fresh.free_place, ap place e'))) ne

    beside :
        (f l' q k : ℕ)
        → place f ≡ some (l', q)
        → q ≢ prefix (suc l') v
        → m'.entries f k ≡ m.entries f k
    beside f l' q k h ne =
        old f l' q k h (beside_ne place f t (suc l) l' q v h ht ne)
          (below.beside f l' q k (placed_kept child f at (l', q) place fresh.free_place h) ne)

    top : (k : ℕ) → m'.entries t k ≡ m₂.entries t k
    top k = below.above t (suc l) q₀ k ht' (omega arith)

    row : (k : ℕ) → k ≢ i → m'.entries t k ≡ m.entries t k
    row k ne = top k ∙ grown-beside place m m₁ child t l q₀ i tree fresh ht k ne

    here :
        (v' : ℕ)
        → prefix (suc l) v' ≡ prefix (suc l) v
        → translate_at (suc l) t v' m'
          ≡ (if v' == v then some leaf else translate_at (suc l) t v' m)
    here v' h =
        translate_at-follow l t v v' (table_of child) m' h
          (top i ∙ grown-entry place m m₁ child t l q₀ i tree fresh ht) (present-table_of child)
        ∙ below.inside v' h
        ∙ ap (λ x. if v' == v then some leaf else x)
            (translate_at-blank l (entry_ppn (table_of child)) v' m₂ (λ k.
                ap (λ x. present (m₂.entries x k)) (entry_ppn-table_of child fresh.small)
                ∙ grown-child place m m₁ child t l q₀ i tree fresh ht k)
              ∙ sym (translate_at-stop l t v v' m h hp))
