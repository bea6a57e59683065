-- ===== src/RefCount/Tests.antt =====
-- Steps on reference counts at concrete inputs.
use p.Prelude.{
  ◌+◌, ◌≤◌, Option, List, ℕ, ◌≡◌, refl, none, some, [], ◌∷◌, arith, ◌==◌, if◌then◌else◌,
}
use p.RefCount.{
  drop_strong, drop_weak, strong_make, remove_strong, remove_weak, weak_of_strong, add_weak,
}
use p.RefCount.Unique.{
  Owners, makes_strong, makes_weak, makes_unique, strong_unique, weak_strong, drops_strong,
  drops_unique, apply, run, strong_deref, replace, strong_of_unique, drop_unique, weak_make,
}
use p.RefCount.Places.{places, held, times}
use p.RefCount.Owned.{total, Sound, Allowed}
use p.RefCount.Once.{Reaches, start, next, Reaches-strong_deref, Reaches-deleted_once}
use p.RefCount.Counted.{count}

-- Two strong variables, a weak one and a unique one, all null.
abbrev initial : Owners
initial = record {
  refs = record {
    store = record { middle = λ m. none; deleted = [] };
    strong = none ∷ none ∷ [];
    weak = none ∷ [];
    fresh = 0;
  };
  unique = none ∷ [];
}

initial-Sound : Sound initial
unfolding total places held times count
initial-Sound = record {
  counted = record {
    good = λ m. (refl, refl);
    unused = λ m le. refl;
    few_strong = omega arith;
    few_weak = omega arith;
  };
  once = λ o. omega arith;
}

-- The first strong variable has the object 9.
abbrev one_made : Owners
one_made = record initial {
  refs = record {
    store = record {
      middle = λ m.
          if 0 == m then some (record { ptr = some 9; strong_count = 1; weak_count = 0 }) else none;
      deleted = [];
    };
    strong = some 0 ∷ none ∷ [];
    weak = none ∷ [];
    fresh = 1;
  };
}

making-Allowed : Allowed (makes_strong 0 9) initial
unfolding total places held times count
making-Allowed = record { in_range = omega arith; unplaced = refl }

one_made-Reaches : Reaches initial one_made
unfolding apply strong_make drop_strong remove_strong
one_made-Reaches = next start (makes_strong 0 9) making-Allowed refl

Reaches-strong_deref_example :
    (o : ℕ) × (strong_deref 0 one_made.refs ≡ some o) × (times o one_made.refs.store.deleted ≡ 0)
Reaches-strong_deref_example =
    Reaches-strong_deref initial one_made 0 0 initial-Sound one_made-Reaches refl

Reaches-deleted_once_example : times 9 one_made.refs.store.deleted + count 9 one_made.unique ≤ 1
Reaches-deleted_once_example =
    Reaches-deleted_once initial one_made 9 initial-Sound one_made-Reaches

-- The object 7 moves from the unique variable to a strong one and is deleted with it, and 8 is
-- deleted at once, since no weak reference keeps an object.
abbrev deleted_after : Option Owners → Option (List ℕ)
deleted_after none = none
deleted_after (some w) = some w.refs.store.deleted

moved_and_deleted :
    deleted_after (
      run
        (makes_unique 0 7
          ∷ strong_unique 0 0
          ∷ weak_strong 0 0
          ∷ drops_unique 0
          ∷ makes_weak 8
          ∷ drops_strong 0
          ∷ [])
        initial)
    ≡ some (7 ∷ 8 ∷ [])
unfolding run apply replace strong_of_unique weak_of_strong add_weak drop_unique weak_make
    drop_strong drop_weak remove_strong remove_weak strong_make
moved_and_deleted = refl
