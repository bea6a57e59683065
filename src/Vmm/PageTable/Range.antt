-- ===== src/Vmm/PageTable/Range.antt =====
-- The loop of `map_range` in kernel/vmm.cc, and the pages of its range.
use p.Prelude.{
  ℕ, zero, suc, ◌+◌, ◌-◌, ◌*◌, ◌/◌, ◌^◌, ◌≤◌, ◌<◌, ◌≡◌, refl, ap, ap₂, ◌∙◌, subst, Bool, true,
  false, not, ◌&&◌, ◌||◌, Option, none, some, arith, ltb, leb, ◌==◌, if◌then◌else◌, add64, sub64,
}
use p.Prelude.{lt→ltb}
use p.Vmm.PageTable.{Mmu, canonical, translate, map_loop, map_from, map_range}
use p.Vmm.PageTable.Placed.{Place, Tree, Stock}
use p.Vmm.PageTable.Mapped.{Kept}
use p.Vmm.PageTable.Enough.{room}
use p.Vmm.PageTable.Round.{mapped, Stays, Grew, Stays-self, shows_old, one_page}

Stays-trans : (o o' o'' : Option ℕ) → Stays o o' → Stays o' o'' → Stays o o''
Stays-trans none o' o'' h k = tt
Stays-trans (some entry) o' o'' h k = subst (λ x. Stays x o'') h k

widened :
    (a b c : Bool) (p r v : ℕ)
    → b ≡ (a || (v == p))
    → c ≡ (b || (leb (p + 1) v && ltb v (p + 1 + r)))
    → c ≡ (a || (leb p v && ltb v (p + suc r)))
widened a b c p r v h k = ground (arith, h, k)

pages :
    (rounds p v : ℕ) (user writable : Bool) (place : Place) (m : Mmu)
    → Tree place m
    → Stock place m
    → p + rounds ≤ 2 ^ 35
    → v < 2 ^ 36
    → 4 * rounds ≤ room m.phys
    → (m' : Mmu) × (map_loop (suc rounds) (p * 4096) ((p + rounds) * 4096) user writable m
        ≡ some m')
      × Grew v place m (leb p v && ltb v (p + rounds)) (4 * rounds) m'
unfolding map_loop
pages zero p v user writable place m tree stock h hv enough = (
  m,
  let done : ltb (p * 4096) ((p + 0) * 4096) ≡ false = ground arith in rw done refl,
  record {
    place' = place;
    extends = λ f x q. q;
    tree = tree;
    stock = stock;
    spending = omega arith;
    shows = shows_old (translate v m) (leb p v && ltb v (p + 0)) (λ q. absurd (ground (arith, q)));
    before = Stays-self (translate v m);
  },
)
pages (suc r) p v user writable place m tree stock h hv enough =
    let (m₁, e₁, g₁) =
      one_page (p * 4096) v user writable place m tree stock (omega (arith, h)) hv
        (omega (arith, enough)) in
    let (m', e, g) =
      pages r (p + 1) v user writable g₁.place' m₁ g₁.tree g₁.stock (omega (arith, h)) hv
        (omega (arith, enough, g₁.spending)) in
    let more : ltb (p * 4096) ((p + suc r) * 4096) ≡ true =
      lt→ltb (p * 4096) ((p + suc r) * 4096) (omega arith) in
    let next : add64 (p * 4096) 4096 ≡ (p + 1) * 4096 = omega (arith, h) in
    let end : (p + suc r) * 4096 ≡ (p + 1 + r) * 4096 = omega arith in
    let here : v == p * 4096 / 2 ^ 12 ≡ v == p = ground arith in
    (
      m',
      rw (more, e₁) (ap₂ (λ a b. map_loop (suc r) a b user writable m₁) next end ∙ e),
      record {
        place' = g.place';
        extends = λ f x q. g.extends f x (g₁.extends f x q);
        tree = g.tree;
        stock = g.stock;
        spending = omega (arith, g₁.spending, g.spending);
        shows =
            widened (mapped v m) (mapped v m₁) (mapped v m') p r v
              (g₁.shows ∙ ap (λ b. mapped v m || b) here) g.shows;
        before = Stays-trans (translate v m) (translate v m₁) (translate v m') g₁.before g.before;
      },
    )

map_from-loop :
    (start size p r : ℕ) (user writable : Bool) (m : Mmu)
    → 0 < size
    → start + size ≤ 2 ^ 47
    → p ≡ start / 4096
    → r ≡ (start + size - 1) / 4096 + 1 - p
    → map_from start (p * 4096) (start + size - 1) ((p + r) * 4096) user writable m
      ≡ map_loop (suc r) (p * 4096) ((p + r) * 4096) user writable m
map_from-loop start size p r user writable m pos top hp hr =
    let guards : (not (canonical start)
          || ltb (start + size - 1) start
          || ltb ((p + r) * 4096) (p * 4096))
        ≡ false =
      ground arith in
    let rounds : ((p + r) * 4096 - p * 4096) / 4096 + 1 ≡ suc r = omega arith in
    ap
      (λ b.
        if b
        then none
        else map_loop (((p + r) * 4096 - p * 4096) / 4096 + 1) (p * 4096) ((p + r) * 4096) user
            writable m)
      guards
    ∙ ap (λ k. map_loop k (p * 4096) ((p + r) * 4096) user writable m) rounds

map_range-loop :
    (start size : ℕ) (user writable : Bool) (m : Mmu)
    → 0 < size
    → start + size ≤ 2 ^ 47
    → let p = start / 4096 in
      let r = (start + size - 1) / 4096 + 1 - p in
      map_range start size user writable m
      ≡ map_loop (suc r) (p * 4096) ((p + r) * 4096) user writable m
unfolding map_range
map_range-loop start size user writable m pos top =
    let p = start / 4096 in
    let r = (start + size - 1) / 4096 + 1 - p in
    let last : sub64 (add64 start size) 1 ≡ start + size - 1 = omega (arith, pos, top) in
    let end : add64 ((start + size - 1) / 4096 * 4096) 4096 ≡ (p + r) * 4096 =
      omega (arith, pos, top) in
    let at_end : add64 (sub64 (add64 start size) 1 / 4096 * 4096) 4096 ≡ (p + r) * 4096 =
      ap (λ x. add64 (x / 4096 * 4096) 4096) last ∙ end in
    let some_size : (size == 0) ≡ false = ground arith in
    ap
      (λ b.
        if b
        then some m
        else map_from start (p * 4096) (sub64 (add64 start size) 1)
            (add64 (sub64 (add64 start size) 1 / 4096 * 4096) 4096) user writable m)
      some_size
    ∙ ap₂ (λ l e. map_from start (p * 4096) l e user writable m) last at_end
    ∙ map_from-loop start size p r user writable m pos top refl refl

-- Let the tables be a tree and the allocator as `map` requires it, let a range be not empty and end
-- at 2 ^ 47 or below, and let four frames for each of its pages be left. Then the loop of
-- `map_range` ends and returns; afterwards a page is mapped exactly if it was before or the range
-- touches it, what was mapped translates as before, and the tables and the allocator are again as
-- required.
pub map_range_lem :
    (start size v : ℕ) (user writable : Bool) (place : Place) (m : Mmu)
    → Tree place m
    → Stock place m
    → 0 < size
    → start + size ≤ 2 ^ 47
    → 4 * ((start + size - 1) / 4096 + 1 - start / 4096) ≤ room m.phys
    → v < 2 ^ 36
    → (m' : Mmu) × (map_range start size user writable m ≡ some m')
      × (mapped v m' ≡ (mapped v m || (leb (start / 4096) v && leb v ((start + size - 1) / 4096))))
      × Stays (translate v m) (translate v m')
      × Kept place m'
unfolding map_range
map_range_lem start size v user writable place m tree stock pos top enough hv =
    let p = start / 4096 in
    let q = (start + size - 1) / 4096 in
    let r = q + 1 - p in
    let (m', e, g) =
      pages r p v user writable place m tree stock (omega (arith, top, pos)) hv enough in
    (
      m',
      map_range-loop start size user writable m pos top ∙ e,
      g.shows ∙ ap (λ b. mapped v m || b) (ground arith),
      g.before,
      record { place' = g.place'; extends = g.extends; tree = g.tree; stock = g.stock },
    )
