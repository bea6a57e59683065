-- ===== src/RefCount/Counted.antt =====
-- The invariant of reference counts: they count the variables.
use p.Prelude.{
  ℕ, zero, suc, ◌+◌, ◌^◌, ◌≤◌, ◌<◌, ◌≡◌, ◌≢◌, ◌↔◌, Option, none, some, List, [], ◌∷◌, arith, ◌==◌,
  if◌then◌else◌, length, get_or, set,
}
use p.RefCount.{Middle, Refs}

abbrev pub points : ℕ → Option ℕ → ℕ
points m none = 0
points m (some k) = if k == m then 1 else 0

-- How many variables refer to a middle.
unfoldable pub count : ℕ → List (Option ℕ) → ℕ
count m [] = 0
count m (x ∷ xs) = points m x + count m xs

pub count-set :
    (m i : ℕ) (v : Option ℕ) (l : List (Option ℕ))
    → i < length l
    → count m (set l i v) + points m (get_or l i none) ≡ count m l + points m v
unfolding count
count-set m i v [] h = absurd (omega arith)
count-set m zero v (x ∷ xs) h = omega arith
count-set m (suc i) v (x ∷ xs) h = omega (arith, count-set m i v xs (omega arith))

pub count-le : (m : ℕ) (l : List (Option ℕ)) → count m l ≤ length l
unfolding count
count-le m [] = omega arith
count-le m (x ∷ xs) = ground (arith, count-le m xs)

pub count-pos : (m i : ℕ) (l : List (Option ℕ)) → get_or l i none ≡ some m → 0 < count m l
unfolding count
count-pos m i [] h = cc
count-pos m zero (x ∷ xs) h = rw h (ground arith)
count-pos m (suc i) (x ∷ xs) h = omega (arith, count-pos m i xs h)

-- A middle with its two counts: it is allocated as long as one is not 0, and has its object as
-- long as the strong one is not.
abbrev pub Good : Option Middle → ℕ → ℕ → Type 0
Good none strongs weaks = (strongs ≡ 0) × (weaks ≡ 0)
Good (some d) strongs weaks =
    (d.strong_count ≡ strongs)
    × (d.weak_count ≡ weaks)
    × (0 < strongs + weaks)
    × ((0 < strongs) ↔ (d.ptr ≢ none))

pub record Counted (r : Refs) : Type 0 where
  pub good : (m : ℕ) → Good (r.store.middle m) (count m r.strong) (count m r.weak)
  pub unused : (m : ℕ) → r.fresh ≤ m → r.store.middle m ≡ none
  pub few_strong : length r.strong < 2 ^ 63
  pub few_weak : length r.weak < 2 ^ 63
