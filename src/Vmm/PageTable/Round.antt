-- ===== src/Vmm/PageTable/Round.antt =====
-- One round of `map_range` in kernel/vmm.cc.
use p.Prelude.{
  ℕ, suc, ◌+◌, ◌*◌, ◌/◌, ◌^◌, ◌≤◌, ◌<◌, ◌≡◌, refl, sym, ap, ◌∙◌, subst, inl, inr, Bool, true, false,
  ◌||◌, Option, none, some, arith, ◌==◌, if◌then◌else◌, Option-cases,
}
use p.Prelude.{==_iff}
use p.Vmm.PageTable.{
  Mmu, present, entry_ppn, prefix, translate_at, translate, leaf_of, ensure_frame,
}
use p.Vmm.PageTable.Placed.{Place, Tree, Stock, Fresh, alloc_frame-Fresh, unplaced_ne}
use p.Vmm.PageTable.Prefix.{prefix-top, translate_at-elsewhere}
use p.Vmm.PageTable.Mapped.{map_page-translate}
use p.Vmm.PageTable.Enough.{room, alloc_frame-room, map_page-some}

-- Whether a page is mapped, and that it stays as it is if it was mapped before.
abbrev pub is_some : Option ℕ → Bool
is_some none = false
is_some (some entry) = true

abbrev pub mapped : ℕ → Mmu → Bool
mapped v m = is_some (translate v m)

abbrev pub Stays : Option ℕ → Option ℕ → Type 0
Stays none new = Unit {0}
Stays (some entry) new = new ≡ some entry

-- A frame that the allocator hands out is in no table.
Fresh-same :
    (place : Place) (m m' : Mmu) (child f l q i : ℕ)
    → Fresh place m child m'
    → place f ≡ some (l, q)
    → m'.entries f i ≡ m.entries f i
Fresh-same place m m' child f l q i fresh h =
    fresh.others f i (λ e. unplaced_ne place child f (l, q) fresh.free_place h (sym e))

Fresh-Tree :
    (place : Place) (m m' : Mmu) (child : ℕ) → Fresh place m child m' → Tree place m → Tree place m'
Fresh-Tree place m m' child fresh tree = record {
  root = ap place fresh.same_cr3 ∙ tree.root;
  links = λ f l q i h hi hp.
      let same = Fresh-same place m m' child f (suc l) q i fresh h in
      subst (λ x. place (entry_ppn x) ≡ some (l, q * 512 + i)) (sym same)
        (tree.links f l q i h hi (ap present (sym same) ∙ hp));
}

Fresh-translate :
    (place : Place) (m m' : Mmu) (child v : ℕ)
    → Fresh place m child m'
    → Tree place m
    → v < 2 ^ 36
    → translate v m' ≡ translate v m
unfolding prefix
Fresh-translate place m m' child v fresh tree hv =
    ap (λ t. translate_at 3 t v m') fresh.same_cr3
    ∙ translate_at-elsewhere place m m' (2 ^ 36) 3 m.cr3 v tree
        (λ f l q i h ne. Fresh-same place m m' child f l q i fresh h)
        (tree.root ∙ ap (λ x. some (3, x)) (sym (prefix-top v hv))) (omega (arith, hv))

-- The tables after pages were added, with what is said of one page.
pub record Grew (v : ℕ) (place : Place) (m : Mmu) (inside : Bool) (spent : ℕ) (m' : Mmu)
    : Type 0 where
  pub place' : Place
  pub extends : (f : ℕ) (x : ℕ × ℕ) → place f ≡ some x → place' f ≡ some x
  pub tree : Tree place' m'
  pub stock : Stock place' m'
  pub spending : room m.phys ≤ room m'.phys + spent
  pub shows : mapped v m' ≡ (mapped v m || inside)
  pub before : Stays (translate v m) (translate v m')

pub Stays-self : (o : Option ℕ) → Stays o o
Stays-self none = tt
Stays-self (some entry) = refl

pub shows_old :
    (o : Option ℕ) (b : Bool) → (b ≡ true → is_some o ≡ true) → is_some o ≡ (is_some o || b)
shows_old none false h = refl
shows_old none true h = h refl
shows_old (some entry) b h = refl

shows_new :
    (o o' : Option ℕ) (b : Bool) (leaf : ℕ)
    → o' ≡ (if b then some leaf else o)
    → (b ≡ true → o ≡ none)
    → (is_some o' ≡ (is_some o || b)) × Stays o o'
shows_new none o' true leaf e h = (ap is_some e, tt)
shows_new none o' false leaf e h = (ap is_some e, tt)
shows_new (some entry) o' true leaf e h = absurd (cc (h refl))
shows_new (some entry) o' false leaf e h = (ap is_some e, e)

pub one_page :
    (va v : ℕ) (user writable : Bool) (place : Place) (m : Mmu)
    → Tree place m
    → Stock place m
    → va < 2 ^ 47
    → v < 2 ^ 36
    → 4 ≤ room m.phys
    → (m' : Mmu) × (ensure_frame va user writable m ≡ some m')
      × Grew v place m (v == va / 2 ^ 12) 4 m'
unfolding ensure_frame
one_page va v user writable place m tree stock h hv enough =
    elim (Option-cases (translate (va / 2 ^ 12) m)) [
      | inr (entry, e) ↦ (
        m,
        ground (arith, e),
        record {
          place' = place;
          extends = λ f x q. q;
          tree = tree;
          stock = stock;
          spending = omega arith;
          shows =
              shows_old (translate v m) (v == va / 2 ^ 12)
                (λ q. ap is_some (ap (λ x. translate x m) ((==_iff v (va / 2 ^ 12)).0 q) ∙ e));
          before = Stays-self (translate v m);
        },
      )
      | inl e ↦
          let (frame, m₁, q, pages, r) = alloc_frame-room m stock.pages (omega (arith, enough)) in
          let fresh = alloc_frame-Fresh place m m₁ frame stock q in
          let leaf = leaf_of frame user writable in
          let (m', q', r') =
            map_page-some (va / 2 ^ 12) frame user writable m₁ pages (omega (arith, enough, r)) in
          let t =
            map_page-translate (va / 2 ^ 12) frame user writable place m₁ m'
              (Fresh-Tree place m m₁ frame fresh tree) fresh.stock (omega (arith, h)) q' in
          let kept = t.1 in
          let s =
            shows_new (translate v m) (translate v m') (v == va / 2 ^ 12) leaf
              (t.0 v hv
                ∙ ap (λ o. if v == va / 2 ^ 12 then some leaf else o)
                    (Fresh-translate place m m₁ frame v fresh tree hv))
              (λ b. ap (λ x. translate x m) ((==_iff v (va / 2 ^ 12)).0 b) ∙ e) in
          (
            m',
            ground (arith, e, q, q'),
            record {
              place' = kept.place';
              extends = kept.extends;
              tree = kept.tree;
              stock = kept.stock;
              spending = omega (arith, r, r');
              shows = s.0;
              before = s.1;
            },
          )
    ]
