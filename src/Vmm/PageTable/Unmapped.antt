-- ===== src/Vmm/PageTable/Unmapped.antt =====
-- What `unmapPage` of kernel/vmm.cc does to the translation of every page.
use p.Prelude.{
  ℕ, zero, suc, ◌+◌, ◌*◌, ◌/◌, ◌^◌, ◌<◌, ◌≡◌, refl, sym, ap, ap₂, ◌∙◌, subst, ◌≢◌, inl, inr, Bool,
  true, false, Option, none, some, arith, ℕ_discrete, ◌==◌, if◌then◌else◌, Bool-cases,
}
use mathlib.Core.Option.{some_inj}
use p.Vmm.PageTable.{
  Mmu, present, entry_ppn, prefix, vpn_index, walk, leaf_entry, translate_at, translate, write,
  free_frame, unmap_leaf, unmap_page, link_of,
}
use p.Vmm.PageTable.Placed.{Place, Tree, same_place, write_ne, write_beside, write_self}
use p.Vmm.PageTable.Prefix.{prefix-split, prefix-top, same_below}

-- The entries of the tables but that of one page.
abbrev Beside : Place → ℕ → Mmu → Mmu → Type 0
Beside place v m m' =
    (f l q i : ℕ)
    → place f ≡ some (l, q)
    → i < 512
    → (l ≡ 0 → q * 512 + i ≢ v)
    → m'.entries f i ≡ m.entries f i

below :
    (place : Place) (m : Mmu) (l t v : ℕ)
    → Tree place m
    → place t ≡ some (suc l, prefix (suc (suc l)) v)
    → present (m.entries t (vpn_index (suc l) v)) ≡ true
    → place (entry_ppn (m.entries t (vpn_index (suc l) v))) ≡ some (l, prefix (suc l) v)
below place m l t v tree ht hp =
    tree.links t l (prefix (suc (suc l)) v) (vpn_index (suc l) v) ht (omega arith) hp
    ∙ ap (λ x. some (l, x)) (prefix-split (suc l) v)

upper :
    (place : Place) (m m' : Mmu) (l t v v' : ℕ)
    → Beside place v m m'
    → place t ≡ some (suc l, prefix (suc (suc l)) v')
    → m'.entries t (vpn_index (suc l) v') ≡ m.entries t (vpn_index (suc l) v')
upper place m m' l t v v' beside ht =
    beside t (suc l) (prefix (suc (suc l)) v') (vpn_index (suc l) v') ht (omega arith)
      (λ e. absurd (omega (arith, e)))

other_page :
    (place : Place) (m m' : Mmu) (v l t v' : ℕ)
    → Tree place m
    → Beside place v m m'
    → place t ≡ some (l, prefix (suc l) v')
    → v' ≢ v
    → translate_at l t v' m' ≡ translate_at l t v' m
unfolding walk prefix
other_page place m m' v zero t v' tree beside ht ne =
    ap (λ entry. if present entry then some entry else none)
      (beside t zero (prefix 1 v') (vpn_index 0 v') ht (omega arith)
        (λ z e. ne (sym (prefix-split 0 v') ∙ e)))
other_page place m m' v (suc l) t v' tree beside ht ne =
    same_below l t v' m m' (upper place m m' l t v v' beside ht) (λ hp.
      other_page place m m' v l (entry_ppn (m.entries t (vpn_index (suc l) v'))) v' tree beside
        (below place m l t v' tree ht hp) ne)

-- The walk to a page does not read the page's own entry.
same_walk :
    (place : Place) (m m' : Mmu) (v l t : ℕ)
    → Tree place m
    → Beside place v m m'
    → place t ≡ some (l, prefix (suc l) v)
    → walk l t v m'.entries ≡ walk l t v m.entries
unfolding walk
same_walk place m m' v zero t tree beside ht = refl
same_walk place m m' v (suc l) t tree beside ht =
    let i = vpn_index (suc l) v in
    ap (λ x. if present x then walk l (entry_ppn x) v m'.entries else none)
      (upper place m m' l t v v beside ht)
    ∙ elim (Bool-cases (present (m.entries t i))) [
      | inl hp ↦
          ap (λ x. if present (m.entries t i) then x else none)
            (same_walk place m m' v l (entry_ppn (m.entries t i)) tree beside
              (below place m l t v tree ht hp))
      | inr hp ↦ rw hp refl
    ]

walk-place :
    (place : Place) (m : Mmu) (v l t t₀ : ℕ)
    → Tree place m
    → place t ≡ some (l, prefix (suc l) v)
    → walk l t v m.entries ≡ some t₀
    → place t₀ ≡ some (0, prefix 1 v)
unfolding walk
walk-place place m v zero t t₀ tree ht h = ap place (sym (some_inj.0 h)) ∙ ht
walk-place place m v (suc l) t t₀ tree ht h =
    elim (Bool-cases (present (m.entries t (vpn_index (suc l) v)))) [
      | inl hp ↦
          walk-place place m v l (entry_ppn (m.entries t (vpn_index (suc l) v))) t₀ tree
            (below place m l t v tree ht hp) (rw (walk, hp) at h)
      | inr hp ↦ absurd (cc (rw (walk, hp) at h))
    ]

-- The entry of a page, and then its frame, given back.
gone :
    (place : Place) (m : Mmu) (v t₀ frame : ℕ)
    → place t₀ ≡ some (0, prefix 1 v)
    → place frame ≡ none
    → Beside place v m (free_frame frame (write t₀ (vpn_index 0 v) 0 m))
      × ((free_frame frame (write t₀ (vpn_index 0 v) 0 m)).entries t₀ (vpn_index 0 v) ≡ 0)
unfolding free_frame prefix
gone place m v t₀ frame ht hd = (
  λ f l q i h hi ne.
      write_ne frame 0 (link_of m.hhdm_offset m.phys.avail) f i (write t₀ (vpn_index 0 v) 0 m)
        (λ e. absurd (cc (hd, h, ap place e)))
      ∙ elim (ℕ_discrete f t₀) [
        | no d ↦ write_ne t₀ (vpn_index 0 v) 0 f i m d
        | yes e ↦
            let at = same_place place f t₀ 0 l (prefix 1 v) q h ht e in
            write_beside t₀ (vpn_index 0 v) 0 f i m (λ e'.
              ne (ap (λ x. x.0) at)
                (ap₂ (λ a b. a * 512 + b) (ap (λ x. x.1) at) e' ∙ prefix-split 0 v))
      ],
  write_ne frame 0 (link_of m.hhdm_offset m.phys.avail) t₀ (vpn_index 0 v)
        (write t₀ (vpn_index 0 v) 0 m) (λ e. absurd (cc (hd, ht, ap place e)))
      ∙ write_self t₀ (vpn_index 0 v) 0 m,
)

translate_at-gone :
    (place : Place) (m m' : Mmu) (v l t t₀ : ℕ)
    → Tree place m
    → Beside place v m m'
    → place t ≡ some (l, prefix (suc l) v)
    → walk l t v m.entries ≡ some t₀
    → m'.entries t₀ (vpn_index 0 v) ≡ 0
    → translate_at l t v m' ≡ none
translate_at-gone place m m' v l t t₀ tree beside ht hw h0 =
    ap (leaf_entry v m') (same_walk place m m' v l t tree beside ht ∙ hw) ∙ rw h0 refl

Beside-Tree :
    (place : Place) (m m' : Mmu) (v : ℕ)
    → m'.cr3 ≡ m.cr3
    → Tree place m
    → Beside place v m m'
    → Tree place m'
Beside-Tree place m m' v ec tree beside = record {
  root = ap place ec ∙ tree.root;
  links = λ f l q i h hi hp.
      let same = beside f (suc l) q i h hi (λ e. absurd (omega (arith, e))) in
      subst (λ x. place (entry_ppn x) ≡ some (l, q * 512 + i)) (sym same)
        (tree.links f l q i h hi (ap present (sym same) ∙ hp));
}

-- The pages after one is taken away.
abbrev Without : Place → ℕ → Mmu → Mmu → Type 0
Without place v m m' =
    ((v' : ℕ) → v' < 2 ^ 36 → translate v' m' ≡ (if v' == v then none else translate v' m))
    × Tree place m'

absent :
    (place : Place) (m : Mmu) (v : ℕ) → Tree place m → translate v m ≡ none → Without place v m m
absent place m v tree e = (λ v' h. at v' (ℕ_discrete v' v), tree)
  where
    at : (v' : ℕ) → Dec (v' ≡ v) → translate v' m ≡ (if v' == v then none else translate v' m)
    at v' (yes d) = ap (λ x. translate x m) d ∙ e ∙ ground (arith, d)
    at v' (no d) = ground arith

present_page :
    (place : Place) (m m' : Mmu) (v t₀ : ℕ)
    → Tree place m
    → v < 2 ^ 36
    → walk 3 m.cr3 v m.entries ≡ some t₀
    → m'.cr3 ≡ m.cr3
    → Beside place v m m'
    → m'.entries t₀ (vpn_index 0 v) ≡ 0
    → Without place v m m'
present_page place m m' v t₀ tree hv hw ec beside h0 =
    (λ v' h. at v' h (ℕ_discrete v' v), Beside-Tree place m m' v ec tree beside)
  where
    root : (v' : ℕ) → v' < 2 ^ 36 → place m.cr3 ≡ some (3, prefix 4 v')
    root v' h = tree.root ∙ ap (λ x. some (3, x)) (sym (prefix-top v' h))

    at :
        (v' : ℕ)
        → v' < 2 ^ 36
        → Dec (v' ≡ v)
        → translate v' m' ≡ (if v' == v then none else translate v' m)
    at v' h (yes d) =
        ap (λ t. translate_at 3 t v' m') ec
        ∙ ap (λ x. translate_at 3 m.cr3 x m') d
        ∙ translate_at-gone place m m' v 3 m.cr3 t₀ tree beside (root v hv) hw h0
        ∙ ground (arith, d)
    at v' h (no d) =
        ap (λ t. translate_at 3 t v' m') ec
        ∙ other_page place m m' v 3 m.cr3 v' tree beside (root v' h) d
        ∙ ground (arith, d)

-- Where the walk ends: no table, a table without the page, or the page's own entry.
unmap_leaf-Without :
    (place : Place) (m : Mmu) (v : ℕ) (o : Option ℕ)
    → Tree place m
    → v < 2 ^ 36
    → ((entry : ℕ) → translate v m ≡ some entry → place (entry_ppn entry) ≡ none)
    → walk 3 m.cr3 v m.entries ≡ o
    → Without place v m (unmap_leaf v m o)
unfolding free_frame
unmap_leaf-Without place m v none tree hv hd hw = absent place m v tree (rw hw refl)
unmap_leaf-Without place m v (some t₀) tree hv hd hw =
    let entry = m.entries t₀ (vpn_index 0 v) in by_entry (present entry) refl
  where
    by_entry :
        (b : Bool)
        → present (m.entries t₀ (vpn_index 0 v)) ≡ b
        → Without place v m (
            if b
            then free_frame
                (entry_ppn (m.entries t₀ (vpn_index 0 v)))
                (write t₀ (vpn_index 0 v) 0 m)
            else m)
    by_entry true e =
        let ht =
          walk-place place m v 3 m.cr3 t₀ tree
            (tree.root ∙ ap (λ x. some (3, x)) (sym (prefix-top v hv))) hw in
        let g =
          gone place m v t₀ (entry_ppn (m.entries t₀ (vpn_index 0 v))) ht
            (hd (m.entries t₀ (vpn_index 0 v)) (rw (hw, e) refl)) in
        present_page place m
          (free_frame (entry_ppn (m.entries t₀ (vpn_index 0 v))) (write t₀ (vpn_index 0 v) 0 m)) v
          t₀ tree hv hw refl g.0 g.1
    by_entry false e = absent place m v tree (rw (hw, e) refl)

-- Let the frames reached from the top table form a tree, and let an address below 2 ^ 47 lie in a
-- page whose frame, if it is mapped, is not one of the tree's tables. Then `unmapPage` succeeds;
-- afterwards that page translates to nothing and every other page as before, and the tables form
-- the same tree, though the frame was given back to the allocator and written to.
pub unmap_page-translate :
    (va : ℕ) (place : Place) (m : Mmu)
    → Tree place m
    → va < 2 ^ 47
    → ((entry : ℕ) → translate (va / 2 ^ 12) m ≡ some entry → place (entry_ppn entry) ≡ none)
    → (v : ℕ) → v < 2 ^ 36
    → (m' : Mmu) × (unmap_page va m ≡ some m')
      × (translate v m' ≡ (if v == va / 2 ^ 12 then none else translate v m))
      × Tree place m'
unfolding unmap_page
unmap_page-translate va place m tree h hd v' hv' =
    let v = va / 2 ^ 12 in
    let w =
      unmap_leaf-Without place m v (walk 3 m.cr3 v m.entries) tree (omega (arith, h)) hd refl in
    (unmap_leaf v m (walk 3 m.cr3 v m.entries), ground arith, w.0 v' hv', w.1)
