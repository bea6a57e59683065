-- ===== src/RefCount/Unique.antt =====
-- UniqueRef of kernel/shared.h, and the operations of all three kinds of reference.
use p.Prelude.{ℕ, Option, none, some, List, [], ◌∷◌, if◌then◌else◌, get_or, set}
use p.RefCount.{
  Refs, delete, same, drop_strong, drop_weak, strong_of_strong, strong_of_weak, weak_of_weak,
  weak_of_strong, strong_make, strong_at, ◌>>=◌,
}

-- The variables of a program, each UniqueRef by its `ptr`.
pub record Owners : Type 0 where
  pub refs : Refs
  pub unique : List (Option ℕ)

abbrev pub unique_at : Owners → ℕ → Option ℕ
unique_at w u = get_or w.unique u none

-- `delete` of a pointer, if it is not null.
abbrev pub destroy : Option ℕ → Refs → Refs
destroy x r = record r { store = delete x r.store }

-- `UniqueRef::replace`
unfoldable pub replace : ℕ → Option ℕ → Owners → Owners
replace u x w = record { refs = destroy (unique_at w u) w.refs; unique = set w.unique u x }

-- The destructor of a UniqueRef and the assignment of `nullptr`.
unfoldable pub drop_unique : ℕ → Owners → Owners
unfolding replace
drop_unique u w = replace u none w

-- UniqueRef = UniqueRef, and the copy constructor on a null variable.
unfoldable pub unique_of_unique : ℕ → ℕ → Owners → Owners
unfolding replace
unique_of_unique u v w =
    if same (unique_at w u) (unique_at w v)
    then w
    else (let w' = replace u (unique_at w v) w in record w' { unique = set w'.unique v none })

-- StrongRef = UniqueRef
unfoldable pub strong_of_unique : ℕ → ℕ → Owners → Option Owners
strong_of_unique i u w =
    elim (unique_at w u) [ none ↦ drop_strong i w.refs | some o ↦ strong_make i o w.refs ] >>= λ r.
    some (record { refs = r; unique = set w.unique u none })

-- WeakRef = UniqueRef
unfoldable pub weak_of_unique : ℕ → ℕ → Owners → Option Owners
weak_of_unique i u w = drop_weak i w.refs >>= λ r.
    some (record { refs = destroy (unique_at w u) r; unique = set w.unique u none })

-- `WeakRef::make` and the constructor of a WeakRef from a pointer, on a null variable.
unfoldable pub weak_make : ℕ → Owners → Owners
weak_make o w = record w { refs = destroy (some o) w.refs }

-- `StrongRef::operator->`: null is a fault, and so is an object that is gone.
unfoldable pub strong_deref : ℕ → Refs → Option ℕ
strong_deref i r = strong_at r i >>= λ m. r.store.middle m >>= λ d. d.ptr

pub data Operation : Type 0 where
  drops_strong : ℕ → Operation
  drops_weak : ℕ → Operation
  drops_unique : ℕ → Operation
  strong_strong : ℕ → ℕ → Operation
  strong_weak : ℕ → ℕ → Operation
  strong_unique : ℕ → ℕ → Operation
  weak_weak : ℕ → ℕ → Operation
  weak_strong : ℕ → ℕ → Operation
  weak_unique : ℕ → ℕ → Operation
  unique_unique : ℕ → ℕ → Operation
  makes_strong : ℕ → ℕ → Operation
  makes_weak : ℕ → Operation
  makes_unique : ℕ → ℕ → Operation

abbrev pub with_refs : Owners → Option Refs → Option Owners
with_refs w none = none
with_refs w (some r) = some (record w { refs = r })

-- One operation of a program.
unfoldable pub apply : Operation → Owners → Option Owners
apply (drops_strong i) w = with_refs w (drop_strong i w.refs)
apply (drops_weak i) w = with_refs w (drop_weak i w.refs)
apply (drops_unique u) w = some (drop_unique u w)
apply (strong_strong i j) w = with_refs w (strong_of_strong i j w.refs)
apply (strong_weak i j) w = with_refs w (strong_of_weak i j w.refs)
apply (strong_unique i u) w = strong_of_unique i u w
apply (weak_weak i j) w = with_refs w (weak_of_weak i j w.refs)
apply (weak_strong i j) w = with_refs w (weak_of_strong i j w.refs)
apply (weak_unique i u) w = weak_of_unique i u w
apply (unique_unique u v) w = some (unique_of_unique u v w)
apply (makes_strong i o) w = with_refs w (strong_make i o w.refs)
apply (makes_weak o) w = some (weak_make o w)
apply (makes_unique u o) w = some (replace u (some o) w)

unfoldable pub run : List Operation → Owners → Option Owners
run [] w = some w
run (op ∷ ops) w = apply op w >>= run ops
