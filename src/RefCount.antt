-- ===== src/RefCount.antt =====
-- Reference counts: impl::Middle, StrongRef and WeakRef of kernel/shared.h.
pub mod Counted
pub mod Step
pub mod Safe
pub mod Assign
pub mod Weak
pub mod WeakAssign
pub mod Unique
pub mod Places
pub mod Tracks
pub mod Make
pub mod Owned
pub mod Stepped
pub mod Once
mod Tests
use p.Prelude.{
  ℕ, ◌+◌, ◌-◌, ◌%◌, ◌^◌, Bool, true, false, not, ◌&&◌, Option, none, some, List, ◌∷◌, ltb, ◌==◌,
  if◌then◌else◌, get_or, set,
}

-- `impl::Middle`: the object, or the null pointer once it is deleted, and the two counts.
pub record Middle : Type 0 where
  pub ptr : Option ℕ
  pub strong_count : ℕ
  pub weak_count : ℕ

-- The allocated middles, and the objects that have been deleted, latest first.
pub record Store : Type 0 where
  pub middle : ℕ → Option Middle
  pub deleted : List ℕ

abbrev pub write : Store → ℕ → Option Middle → Store
write s m d = record s { middle = λ k. if m == k then d else s.middle k }

-- A fault (`none`) is an access to a middle that is not allocated, or an assertion that fails.
abbrev pub Result : Type 0
Result = Option (Option ℕ × Store)

-- `Middle::add_strong`
abbrev pub add_strong_to : ℕ → Store → Option Middle → Result
add_strong_to m s none = none
add_strong_to m s (some d) =
    if ltb 0 d.strong_count
    then some (some m, write s m (some (record d { strong_count = (d.strong_count + 1) % 2 ^ 64 })))
    else some (none, s)

unfoldable pub add_strong : Option ℕ → Store → Result
add_strong none s = some (none, s)
add_strong (some m) s = add_strong_to m s (s.middle m)

-- `delete del_ptr`, of an object that holds no references, so that its destructor runs no operation
-- of this file.
abbrev pub delete : Option ℕ → Store → Store
delete none s = s
delete (some o) s = record s { deleted = o ∷ s.deleted }

-- `Middle::remove_strong`
abbrev pub remove_strong_from : ℕ → Store → Option Middle → Option Store
remove_strong_from m s none = none
remove_strong_from m s (some d) =
    if d.strong_count == 0
    then none
    else if not (d.strong_count - 1 == 0)
    then some (write s m (some (record d { strong_count = d.strong_count - 1 })))
    else if d.weak_count == 0
    then some (delete d.ptr (write s m none))
    else some (
        delete d.ptr
          (write s m (some (record { ptr = none; strong_count = 0; weak_count = d.weak_count }))))

unfoldable pub remove_strong : Option ℕ → Store → Option Store
remove_strong none s = some s
remove_strong (some m) s = remove_strong_from m s (s.middle m)

-- `Middle::add_weak`
abbrev pub add_weak_to : ℕ → Store → Option Middle → Result
add_weak_to m s none = none
add_weak_to m s (some d) = elim d.ptr [
  | none ↦ some (none, s)
  | some o ↦ some (some m, write s m (some (record d { weak_count = (d.weak_count + 1) % 2 ^ 64 })))
]

unfoldable pub add_weak : Option ℕ → Store → Result
add_weak none s = some (none, s)
add_weak (some m) s = add_weak_to m s (s.middle m)

-- `Middle::remove_weak`
abbrev pub remove_weak_from : ℕ → Store → Option Middle → Option Store
remove_weak_from m s none = none
remove_weak_from m s (some d) =
    if d.weak_count == 0
    then none
    else if d.weak_count - 1 == 0 && d.strong_count == 0
    then some (write s m none)
    else some (write s m (some (record d { weak_count = d.weak_count - 1 })))

unfoldable pub remove_weak : Option ℕ → Store → Option Store
remove_weak none s = some s
remove_weak (some m) s = remove_weak_from m s (s.middle m)

-- The variables of a program: each StrongRef and each WeakRef by its `middle`. A variable that is
-- not constructed yet is null, and so is one that is destroyed. `fresh` is the address that `new`
-- returns next.
pub record Refs : Type 0 where
  pub store : Store
  pub strong : List (Option ℕ)
  pub weak : List (Option ℕ)
  pub fresh : ℕ

abbrev pub strong_at : Refs → ℕ → Option ℕ
strong_at r i = get_or r.strong i none

abbrev pub weak_at : Refs → ℕ → Option ℕ
weak_at r i = get_or r.weak i none

abbrev pub set_strong : ℕ → Refs → Result → Option Refs
set_strong i r none = none
set_strong i r (some (x, s)) = some (record r { store = s; strong = set r.strong i x })

abbrev pub set_weak : ℕ → Refs → Result → Option Refs
set_weak i r none = none
set_weak i r (some (x, s)) = some (record r { store = s; weak = set r.weak i x })

infixl 5 ◌>>=◌
abbrev pub ◌>>=◌ {ℓ κ} : {A : Type ℓ} {B : Type κ} → Option A → (A → Option B) → Option B
none >>= f = none
some a >>= f = f a

abbrev pub same : Option ℕ → Option ℕ → Bool
same none none = true
same (some a) (some b) = a == b
same _ _ = false

-- The destructor of a StrongRef and the assignment of `nullptr`: what `i` refers to is let go.
unfoldable pub drop_strong : ℕ → Refs → Option Refs
drop_strong i r = remove_strong (strong_at r i) r.store >>= λ s.
    some (record r { store = s; strong = set r.strong i none })

-- The destructor of a WeakRef and the assignment of `nullptr`.
unfoldable pub drop_weak : ℕ → Refs → Option Refs
drop_weak i r = remove_weak (weak_at r i) r.store >>= λ s.
    some (record r { store = s; weak = set r.weak i none })

-- StrongRef = StrongRef, and the copy constructor on a null variable.
unfoldable pub strong_of_strong : ℕ → ℕ → Refs → Option Refs
strong_of_strong i j r =
    let assigned =
      drop_strong i r >>= λ r'. set_strong i r' (add_strong (strong_at r j) r'.store) in
    if same (strong_at r i) (strong_at r j) then some r else assigned

-- StrongRef = WeakRef
unfoldable pub strong_of_weak : ℕ → ℕ → Refs → Option Refs
strong_of_weak i j r =
    let assigned = drop_strong i r >>= λ r'. set_strong i r' (add_strong (weak_at r j) r'.store) in
    if same (strong_at r i) (weak_at r j) then some r else assigned

-- WeakRef = WeakRef
unfoldable pub weak_of_weak : ℕ → ℕ → Refs → Option Refs
weak_of_weak i j r =
    let assigned = drop_weak i r >>= λ r'. set_weak i r' (add_weak (weak_at r j) r'.store) in
    if same (weak_at r i) (weak_at r j) then some r else assigned

-- WeakRef = StrongRef
unfoldable pub weak_of_strong : ℕ → ℕ → Refs → Option Refs
weak_of_strong i j r =
    let assigned = drop_weak i r >>= λ r'. set_weak i r' (add_weak (strong_at r j) r'.store) in
    if same (weak_at r i) (strong_at r j) then some r else assigned

-- StrongRef = UniqueRef, `StrongRef::make` and the constructor from a pointer that is not null:
-- `mm` makes a middle for the object.
unfoldable pub strong_make : ℕ → ℕ → Refs → Option Refs
strong_make i object r = drop_strong i r >>= λ r'. some (record r' {
  store =
      write r'.store r'.fresh
        (some (record { ptr = some object; strong_count = 1; weak_count = 0 }));
  strong = set r'.strong i (some r'.fresh);
  fresh = r'.fresh + 1;
})
