-- ===== src/RefCount/Once.antt =====
-- Programs with references.
use p.Prelude.{
  ℕ, ◌+◌, ◌≤◌, ◌<◌, ◌≡◌, refl, sym, ap, ◌∙◌, ◌≢◌, Option, none, some, arith, ℕ_discrete, subst,
}
use p.RefCount.{strong_at}
use p.RefCount.Unique.{
  Owners, drop_unique, strong_deref, Operation, drops_strong, drops_weak, drops_unique,
  strong_strong, strong_weak, strong_unique, weak_weak, weak_strong, weak_unique, unique_unique,
  makes_strong, makes_weak, makes_unique, apply,
}
use p.RefCount.Counted.{points, count, count-pos, Good}
use p.RefCount.Places.{holds, times, places, held-pos}
use p.RefCount.Safe.{Good-some, drop_strong-Safe}
use p.RefCount.Assign.{strong_of_strong-Safe, strong_of_weak-Safe}
use p.RefCount.Weak.{drop_weak-Safe}
use p.RefCount.WeakAssign.{weak_of_weak-Safe, weak_of_strong-Safe}
use p.RefCount.Tracks.{
  drop_strong-Tracks, drop_weak-Tracks, strong_of_strong-Tracks, strong_of_weak-Tracks,
  weak_of_strong-Tracks, weak_of_weak-Tracks, allocated-lt-fresh,
}
use p.RefCount.Make.{Tracks-Moved, strong_make-Moved}
use p.RefCount.Owned.{total, Sound, new_object, Unplaced, Allowed, Stepped, Moved-Stepped}
use p.RefCount.Stepped.{
  replace-Stepped, strong_unique-Stepped, weak_unique-Stepped, weak_make-Stepped,
  unique_unique-Stepped,
}
use mathlib.Core.Option.{some_inj}

apply-Stepped :
    (op : Operation) (w : Owners) → Sound w → Allowed op w → Stepped w (new_object op) (apply op w)
unfolding apply drop_unique
apply-Stepped (drops_strong i) w s a = Moved-Stepped w none _ (
    Tracks-Moved w.refs _ (drop_strong-Safe w.refs s.counted i a.in_range)
      (drop_strong-Tracks w.refs s.counted i))
apply-Stepped (drops_weak i) w s a = Moved-Stepped w none _ (
    Tracks-Moved w.refs _ (drop_weak-Safe w.refs s.counted i a.in_range)
      (drop_weak-Tracks w.refs s.counted i))
apply-Stepped (drops_unique u) w s a = replace-Stepped w s.counted u none a.in_range
apply-Stepped (strong_strong i j) w s a = Moved-Stepped w none _ (
    Tracks-Moved w.refs _ (strong_of_strong-Safe w.refs s.counted i a.in_range j)
      (strong_of_strong-Tracks w.refs s.counted i j a.in_range))
apply-Stepped (strong_weak i j) w s a = Moved-Stepped w none _ (
    Tracks-Moved w.refs _ (strong_of_weak-Safe w.refs s.counted i a.in_range j)
      (strong_of_weak-Tracks w.refs s.counted i j a.in_range))
apply-Stepped (strong_unique i u) w s a =
    strong_unique-Stepped w s.counted i u a.in_range.0 a.in_range.1
apply-Stepped (weak_weak i j) w s a = Moved-Stepped w none _ (
    Tracks-Moved w.refs _ (weak_of_weak-Safe w.refs s.counted i a.in_range j)
      (weak_of_weak-Tracks w.refs s.counted i j a.in_range))
apply-Stepped (weak_strong i j) w s a = Moved-Stepped w none _ (
    Tracks-Moved w.refs _ (weak_of_strong-Safe w.refs s.counted i a.in_range j)
      (weak_of_strong-Tracks w.refs s.counted i j a.in_range))
apply-Stepped (weak_unique i u) w s a =
    weak_unique-Stepped w s.counted i u a.in_range.0 a.in_range.1
apply-Stepped (unique_unique u v) w s a =
    unique_unique-Stepped w s.counted u v a.in_range.0 a.in_range.1
apply-Stepped (makes_strong i o) w s a =
    Moved-Stepped w (some o) _ (strong_make-Moved w.refs s.counted i o a.in_range)
apply-Stepped (makes_weak o) w s a = weak_make-Stepped w s.counted o
apply-Stepped (makes_unique u o) w s a = replace-Stepped w s.counted u (some o) a.in_range

-- The states that a program reaches.
pub data Reaches (w : Owners) : Owners → Type 0 where
  start : Reaches w w
  next :
      {v v' : Owners}
      → Reaches w v
      → (op : Operation) → Allowed op v
      → apply op v ≡ some v'
      → Reaches w v'

placed_once :
    (new : Option ℕ) (w : Owners) (o : ℕ)
    → Unplaced new w
    → total o w ≤ 1
    → points o new + total o w ≤ 1
placed_once none w o f h = omega arith
placed_once (some x) w o f h = elim (ℕ_discrete x o) [
  | yes e ↦ ground (arith, ap (λ k. total k w) e)
  | no ne ↦ ground arith
]

apply-Sound :
    (op : Operation) (w : Owners)
    → Sound w
    → (a : Allowed op w) → (w' : Owners) × (apply op w ≡ some w') × Sound w'
apply-Sound op w s a =
    let x = apply-Stepped op w s a in
    (
      x.after,
      x.returns,
      record {
        counted = x.counted;
        once =
            λ o. omega (arith, x.totals o, placed_once (new_object op) w o a.unplaced (s.once o));
      },
    )

Reaches-Sound : {w w' : Owners} → Sound w → Reaches w w' → Sound w'
Reaches-Sound s start = s
Reaches-Sound s (next {v} {v'} r op a e) =
    let (x, returns, sound) = apply-Sound op v (Reaches-Sound s r) a in
    subst Sound (some_inj.0 (sym returns ∙ e)) sound

some_of_ne : (x : Option ℕ) → x ≢ none → (o : ℕ) × (x ≡ some o)
some_of_ne none h = absurd (h refl)
some_of_ne (some o) h = (o, refl)

points_self : (o : ℕ) (x : Option ℕ) → x ≡ some o → points o x ≡ 1
points_self o x e = rw e (ground arith)

deref_live :
    (w : Owners) (i m : ℕ)
    → Sound w
    → strong_at w.refs i ≡ some m
    → (o : ℕ) × (strong_deref i w.refs ≡ some o) × (times o w.refs.store.deleted ≡ 0)
unfolding strong_deref total places
deref_live w i m s e =
    let pos : 0 < count m w.refs.strong = count-pos m i w.refs.strong e in
    let (d, here) =
      Good-some (w.refs.store.middle m) (count m w.refs.strong) (count m w.refs.weak)
        (s.counted.good m) (omega arith) in
    let g : Good (some d) (count m w.refs.strong) (count m w.refs.weak) =
      subst (λ x. Good x (count m w.refs.strong) (count m w.refs.weak)) here (s.counted.good m) in
    let (o, p) = some_of_ne d.ptr (g.3.0 pos) in
    (
      o,
      rw e (rw here p),
      omega (
        arith,
        s.once o,
        held-pos o w.refs.store w.refs.fresh m (allocated-lt-fresh w.refs s.counted m d here),
        ap (holds o) here,
        points_self o d.ptr p,
      ),
    )

-- In every state that a program with sound references reaches, a StrongRef that is not null gives
-- an object when it is dereferenced, and that object has not been deleted.
pub Reaches-strong_deref :
    (w w' : Owners) (i m : ℕ)
    → Sound w
    → Reaches w w'
    → strong_at w'.refs i ≡ some m
    → (o : ℕ) × (strong_deref i w'.refs ≡ some o) × (times o w'.refs.store.deleted ≡ 0)
Reaches-strong_deref w w' i m s r e = deref_live w' i m (Reaches-Sound s r) e

-- In every state that a program with sound references reaches, an object has been deleted once at
-- most, and not at all while a UniqueRef has it, which is then the only one that does.
pub Reaches-deleted_once :
    (w w' : Owners) (o : ℕ)
    → Sound w
    → Reaches w w'
    → times o w'.refs.store.deleted + count o w'.unique ≤ 1
unfolding total places
Reaches-deleted_once w w' o s r = omega (arith, (Reaches-Sound s r).once o)
