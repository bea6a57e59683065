-- ===== src/Vmm/PageTable/Prefix.antt =====
-- What the tables below an entry translate: the walk of `leafPte` in kernel/vmm.cc, by prefixes of
-- the page number.
use p.Prelude.{
  ℕ, zero, suc, ◌+◌, ◌*◌, ◌/◌, ◌%◌, ◌^◌, ◌<◌, ◌≡◌, refl, sym, ap, ◌∙◌, ◌≢◌, inl, inr, Bool, true,
  false, Option, none, some, arith, if◌then◌else◌, Bool-cases,
}
use p.Vmm.PageTable.{Mmu, present, entry_ppn, prefix, vpn_index, walk, translate_at}
use p.Vmm.PageTable.Placed.{Place, Tree}

pub prefix-split : (l v : ℕ) → prefix (suc l) v * 512 + vpn_index l v ≡ prefix l v
unfolding prefix
prefix-split l v = omega arith

-- Two page numbers with the same prefix above a level differ there if they have another index.
pub prefix-same :
    (l v v' : ℕ)
    → prefix (suc l) v' ≡ prefix (suc l) v
    → vpn_index l v' ≡ vpn_index l v
    → prefix l v' ≡ prefix l v
prefix-same l v v' h e = omega (arith, prefix-split l v, prefix-split l v')

pub prefix-index : (l v v' : ℕ) → vpn_index l v' ≢ vpn_index l v → prefix l v' ≢ prefix l v
prefix-index l v v' ne e = ne (ap (λ x. x % 2 ^ 9) e)

pub prefix-up : (l v v' : ℕ) → prefix (suc l) v' ≢ prefix (suc l) v → prefix l v' ≢ prefix l v
unfolding prefix
prefix-up l v v' ne e = ne (ap (λ x. x / 2 ^ 9) e)

pub prefix-ne : (l v v' : ℕ) → prefix l v' ≢ prefix l v → v' ≢ v
prefix-ne l v v' ne e = ne (ap (prefix l) e)

pub translate_at-suc :
    (l t v : ℕ) (m : Mmu)
    → translate_at (suc l) t v m ≡ (
        if present (m.entries t (vpn_index (suc l) v))
        then translate_at l (entry_ppn (m.entries t (vpn_index (suc l) v))) v m
        else none)
unfolding walk
translate_at-suc l t v m = elim (Bool-cases (present (m.entries t (vpn_index (suc l) v)))) [
  | inl e ↦ rw e refl
  | inr e ↦ rw e refl
]

pub translate_at-blank :
    (l t v : ℕ) (m : Mmu)
    → ((i : ℕ) → present (m.entries t i) ≡ false)
    → translate_at l t v m ≡ none
unfolding walk
translate_at-blank zero t v m h = rw (h (vpn_index 0 v)) refl
translate_at-blank (suc l) t v m h = translate_at-suc l t v m ∙ rw (h (vpn_index (suc l) v)) refl

off : (b : Bool) (o o' : Option ℕ) → b ≡ false → (if b then o else none) ≡ (if b then o' else none)
off b o o' e = rw e refl

-- The same entry, and the same below it.
pub same_below :
    (l t v : ℕ) (m m' : Mmu)
    → m'.entries t (vpn_index (suc l) v) ≡ m.entries t (vpn_index (suc l) v)
    → (present (m.entries t (vpn_index (suc l) v)) ≡ true
        → translate_at l (entry_ppn (m.entries t (vpn_index (suc l) v))) v m'
          ≡ translate_at l (entry_ppn (m.entries t (vpn_index (suc l) v))) v m)
    → translate_at (suc l) t v m' ≡ translate_at (suc l) t v m
same_below l t v m m' same below =
    let entry = m.entries t (vpn_index (suc l) v) in
    let here = λ (x : ℕ). if present x then translate_at l (entry_ppn x) v m' else none in
    translate_at-suc l t v m'
    ∙ ap here same
    ∙ elim (Bool-cases (present entry)) [
      | inl e ↦ ap (λ x. if present entry then x else none) (below e)
      | inr e ↦
          off (present entry) (translate_at l (entry_ppn entry) v m')
            (translate_at l (entry_ppn entry) v m) e
    ]
    ∙ sym (translate_at-suc l t v m)

-- A table is not read beside its own pages: the same entries there translate the same.
pub translate_at-elsewhere :
    (place : Place) (m m' : Mmu) (v l t v' : ℕ)
    → Tree place m
    → ((f l' q i : ℕ)
        → place f ≡ some (l', q)
        → q ≢ prefix (suc l') v
        → m'.entries f i ≡ m.entries f i)
    → place t ≡ some (l, prefix (suc l) v')
    → prefix (suc l) v' ≢ prefix (suc l) v
    → translate_at l t v' m' ≡ translate_at l t v' m
unfolding walk
translate_at-elsewhere place m m' v zero t v' tree beside ht ne =
    ap (λ entry. if present entry then some entry else none)
      (beside t zero (prefix 1 v') (vpn_index 0 v') ht ne)
translate_at-elsewhere place m m' v (suc l) t v' tree beside ht ne =
    let i = vpn_index (suc l) v' in
    same_below l t v' m m' (beside t (suc l) (prefix (suc (suc l)) v') i ht ne) (λ e.
      translate_at-elsewhere place m m' v l (entry_ppn (m.entries t i)) v' tree beside
        (tree.links t l (prefix (suc (suc l)) v') i ht (omega arith) e
          ∙ ap (λ x. some (l, x)) (prefix-split (suc l) v'))
        (prefix-up (suc l) v v' ne))

-- The entry that all pages below it go through.
pub translate_at-follow :
    (l t v v' entry : ℕ) (m : Mmu)
    → prefix (suc l) v' ≡ prefix (suc l) v
    → m.entries t (vpn_index (suc l) v) ≡ entry
    → present entry ≡ true
    → translate_at (suc l) t v' m ≡ translate_at l (entry_ppn entry) v' m
translate_at-follow l t v v' entry m h e hp =
    translate_at-suc l t v' m
    ∙ ap (λ x. if present x then translate_at l (entry_ppn x) v' m else none)
        (ap (λ x. m.entries t (x % 2 ^ 9)) h ∙ e)
    ∙ ap (λ b. if b then translate_at l (entry_ppn entry) v' m else none) hp

pub translate_at-stop :
    (l t v v' : ℕ) (m : Mmu)
    → prefix (suc l) v' ≡ prefix (suc l) v
    → present (m.entries t (vpn_index (suc l) v)) ≡ false
    → translate_at (suc l) t v' m ≡ none
translate_at-stop l t v v' m h e =
    translate_at-suc l t v' m
    ∙ ap
        (λ b.
          if b then translate_at l (entry_ppn (m.entries t (vpn_index (suc l) v'))) v' m else none)
        (ap (λ x. present (m.entries t (x % 2 ^ 9))) h ∙ e)

pub prefix-top : (v : ℕ) → v < 2 ^ 36 → prefix 4 v ≡ 0
unfolding prefix
prefix-top v h = omega arith
