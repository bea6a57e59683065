-- ===== src/RefCount/Stepped.antt =====
-- The operations with a UniqueRef: where they leave the objects.
use p.Prelude.{
  ℕ, ◌<◌, ◌≡◌, refl, ap, ◌∙◌, ◌≢◌, inl, inr, true, Option, none, some, arith, Bool-cases, length,
  set, length-set, get_or-set_ne,
}
use p.RefCount.{Refs, same, drop_strong, drop_weak, strong_make, ◌>>=◌}
use p.RefCount.Unique.{
  Owners, unique_at, destroy, replace, unique_of_unique, strong_of_unique, weak_of_unique,
  weak_make,
}
use p.RefCount.Counted.{points, count-set, Counted}
use p.RefCount.Places.{places-delete}
use p.RefCount.Safe.{drop_strong-Safe}
use p.RefCount.Weak.{drop_weak-Safe}
use p.RefCount.Tracks.{drop_strong-Tracks, drop_weak-Tracks}
use p.RefCount.Make.{Moved, Tracks-Moved, strong_make-Moved}
use p.RefCount.Owned.{total, Stepped}

destroy-Counted : (x : Option ℕ) (r : Refs) → Counted r → Counted (destroy x r)
destroy-Counted none r c = record {
  good = c.good;
  unused = c.unused;
  few_strong = c.few_strong;
  few_weak = c.few_weak;
}
destroy-Counted (some o) r c = record {
  good = c.good;
  unused = c.unused;
  few_strong = c.few_strong;
  few_weak = c.few_weak;
}

module _ (w : Owners) (c : Counted w.refs) where
  pub replace-Stepped :
      (u : ℕ) (x : Option ℕ) → u < length w.unique → Stepped w x (some (replace u x w))
  unfolding total replace
  replace-Stepped u x lt = record {
    after = replace u x w;
    returns = refl;
    counted = destroy-Counted (unique_at w u) w.refs c;
    totals = λ k. omega (
      arith,
      places-delete k (unique_at w u) w.refs.store w.refs.fresh,
      count-set k u x w.unique lt,
    );
    strong_size = refl;
    weak_size = refl;
    unique_size = length-set w.unique u x;
  }

  -- A UniqueRef is emptied, and what it had is elsewhere.
  emptied :
      (u : ℕ) (o : Option Refs)
      → u < length w.unique
      → Moved w.refs (unique_at w u) o
      → Stepped w none (o >>= λ r. some (record { refs = r; unique = set w.unique u none }))
  unfolding total
  emptied u o lt m = record {
    after = record { refs = m.safe.refs; unique = set w.unique u none };
    returns =
        ap (λ p. p >>= λ r. some (record { refs = r; unique = set w.unique u none }))
          m.safe.returns;
    counted = m.safe.counted;
    totals = λ k. omega (arith, m.counts k, count-set k u none w.unique lt);
    strong_size = m.safe.strong_size;
    weak_size = m.safe.weak_size;
    unique_size = length-set w.unique u none;
  }

  pub strong_unique-Stepped :
      (i u : ℕ)
      → i < length w.refs.strong
      → u < length w.unique
      → Stepped w none (strong_of_unique i u w)
  unfolding strong_of_unique
  strong_unique-Stepped i u lt lt' = emptied u _ lt' (by_case (unique_at w u))
    where
      by_case :
          (x : Option ℕ)
          → Moved w.refs x
              (elim x [ none ↦ drop_strong i w.refs | some o ↦ strong_make i o w.refs ])
      by_case none =
          Tracks-Moved w.refs _ (drop_strong-Safe w.refs c i lt) (drop_strong-Tracks w.refs c i)
      by_case (some o) = strong_make-Moved w.refs c i o lt

  pub weak_unique-Stepped :
      (i u : ℕ)
      → i < length w.refs.weak
      → u < length w.unique
      → Stepped w none (weak_of_unique i u w)
  unfolding weak_of_unique total
  weak_unique-Stepped i u lt lt' = record {
    after = record { refs = destroy (unique_at w u) m.safe.refs; unique = set w.unique u none };
    returns =
        ap
          (λ o. o >>= λ r.
            some (record { refs = destroy (unique_at w u) r; unique = set w.unique u none }))
          m.safe.returns;
    counted = destroy-Counted (unique_at w u) m.safe.refs m.safe.counted;
    totals = λ k. omega (
      arith,
      m.counts k,
      places-delete k (unique_at w u) m.safe.refs.store m.safe.refs.fresh,
      count-set k u none w.unique lt',
    );
    strong_size = m.safe.strong_size;
    weak_size = m.safe.weak_size;
    unique_size = length-set w.unique u none;
  }
    where
      m : Moved w.refs none (drop_weak i w.refs)
      m = Tracks-Moved w.refs _ (drop_weak-Safe w.refs c i lt) (drop_weak-Tracks w.refs c i)

  pub weak_make-Stepped : (o : ℕ) → Stepped w (some o) (some (weak_make o w))
  unfolding weak_make total
  weak_make-Stepped o = record {
    after = weak_make o w;
    returns = refl;
    counted = destroy-Counted (some o) w.refs c;
    totals = λ k. omega (arith, places-delete k (some o) w.refs.store w.refs.fresh);
    strong_size = refl;
    weak_size = refl;
    unique_size = refl;
  }

same_self : (x : Option ℕ) → same x x ≡ true
same_self none = refl
same_self (some o) = ground arith

module _ (w : Owners) (c : Counted w.refs) (u v : ℕ) (lt : u < length w.unique)
    (lt' : v < length w.unique) where
  moved_over :
      u ≢ v
      → Stepped w none (
          let w' = replace u (unique_at w v) w in
          some (record w' { unique = set w'.unique v none }))
  unfolding total replace
  moved_over ne =
      let w' = replace u (unique_at w v) w in
      record {
        after = record w' { unique = set w'.unique v none };
        returns = refl;
        counted = destroy-Counted (unique_at w u) w.refs c;
        totals = λ k. omega (
          arith,
          places-delete k (unique_at w u) w.refs.store w.refs.fresh,
          count-set k u (unique_at w v) w.unique lt,
          count-set k v none (set w.unique u (unique_at w v))
              (omega (arith, length-set w.unique u (unique_at w v))),
          ap (points k) (get_or-set_ne w.unique u v (unique_at w v) none ne),
        );
        strong_size = refl;
        weak_size = refl;
        unique_size =
            length-set (set w.unique u (unique_at w v)) v none
            ∙ length-set w.unique u (unique_at w v);
      }

  pub unique_unique-Stepped : Stepped w none (some (unique_of_unique u v w))
  unfolding unique_of_unique
  unique_unique-Stepped = elim (Bool-cases (same (unique_at w u) (unique_at w v))) [
    | inl e ↦ rw e (record {
      after = w;
      returns = refl;
      counted = c;
      totals = λ k. omega arith;
      strong_size = refl;
      weak_size = refl;
      unique_size = refl;
    })
    | inr e ↦ rw e (
        moved_over
          (λ q. cc (same_self (unique_at w u), ap (λ k. same (unique_at w u) (unique_at w k)) q)))
  ]
