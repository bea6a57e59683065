-- ===== src/RefCount/Owned.antt =====
-- Every object of a program with references is in one place at most.
use p.Prelude.{ℕ, ◌+◌, ◌≤◌, ◌<◌, ◌≡◌, refl, ap, Option, none, some, arith, length}
use p.RefCount.{Refs}
use p.RefCount.Unique.{
  Owners, Operation, drops_strong, drops_weak, drops_unique, strong_strong, strong_weak,
  strong_unique, weak_weak, weak_strong, weak_unique, unique_unique, makes_strong, makes_weak,
  makes_unique, with_refs,
}
use p.RefCount.Counted.{points, count, Counted}
use p.RefCount.Places.{places}
use p.RefCount.Make.{Moved}

-- How often an object is in an allocated middle, deleted, or in a UniqueRef.
unfoldable pub total : ℕ → Owners → ℕ
total o w = places o w.refs.store w.refs.fresh + count o w.unique

-- The counts are those of the variables, and no object is in two places.
pub record Sound (w : Owners) : Type 0 where
  pub counted : Counted w.refs
  pub once : (o : ℕ) → total o w ≤ 1

abbrev pub new_object : Operation → Option ℕ
new_object (makes_strong i o) = some o
new_object (makes_weak o) = some o
new_object (makes_unique u o) = some o
new_object _ = none

-- The object is in no place yet.
abbrev pub Unplaced : Option ℕ → Owners → Type 0
Unplaced none w = Unit
Unplaced (some o) w = total o w ≡ 0

-- The variables that an operation assigns or moves from.
abbrev pub InRange : Operation → ℕ → ℕ → ℕ → Type 0
InRange (drops_strong i) s w u = i < s
InRange (drops_weak i) s w u = i < w
InRange (drops_unique i) s w u = i < u
InRange (strong_strong i j) s w u = i < s
InRange (strong_weak i j) s w u = i < s
InRange (strong_unique i j) s w u = (i < s) × (j < u)
InRange (weak_weak i j) s w u = i < w
InRange (weak_strong i j) s w u = i < w
InRange (weak_unique i j) s w u = (i < w) × (j < u)
InRange (unique_unique i j) s w u = (i < u) × (j < u)
InRange (makes_strong i o) s w u = i < s
InRange (makes_weak o) s w u = Unit
InRange (makes_unique i o) s w u = i < u

-- An operation whose variables exist, and whose new object is in no place.
pub record Allowed (op : Operation) (w : Owners) : Type 0 where
  pub in_range : InRange op (length w.refs.strong) (length w.refs.weak) (length w.unique)
  pub unplaced : Unplaced (new_object op) w

-- What an operation does: it returns, its state is sound, and every object is in as many places as
-- before, but for the new one.
pub record Stepped (w : Owners) (new : Option ℕ) (q : Option Owners) : Type 0 where
  pub after : Owners
  pub returns : q ≡ some after
  pub counted : Counted after.refs
  pub totals : (o : ℕ) → total o after ≡ points o new + total o w
  pub strong_size : length after.refs.strong ≡ length w.refs.strong
  pub weak_size : length after.refs.weak ≡ length w.refs.weak
  pub unique_size : length after.unique ≡ length w.unique

pub Moved-Stepped :
    (w : Owners) (new : Option ℕ) (o : Option Refs)
    → Moved w.refs new o
    → Stepped w new (with_refs w o)
unfolding total
Moved-Stepped w new o m = record {
  after = record w { refs = m.safe.refs };
  returns = ap (with_refs w) m.safe.returns;
  counted = m.safe.counted;
  totals = λ k. omega (arith, m.counts k);
  strong_size = m.safe.strong_size;
  weak_size = m.safe.weak_size;
  unique_size = refl;
}
