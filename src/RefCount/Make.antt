-- ===== src/RefCount/Make.antt =====
-- A StrongRef that takes a new middle: mm of kernel/shared.h.
use p.Prelude.{
  ℕ, suc, ◌+◌, ◌<◌, ◌≡◌, sym, ap, ◌∙◌, subst, Option, none, some, arith, ℕ_discrete, length, set,
  get_or, length-set, get_or-set_self,
}
use p.RefCount.{Middle, Refs, write, drop_strong, strong_make, ◌>>=◌}
use p.RefCount.Counted.{points, count, count-set, Good, Counted}
use p.RefCount.Places.{holds, held, places, held-write, write_self}
use p.RefCount.Safe.{Safe, drop_strong-Safe, points-eq, points-ne}
use p.RefCount.Assign.{drop_strong-variables}
use p.RefCount.Tracks.{Tracks, drop_strong-Tracks}

-- The state with the new middle.
abbrev made : ℕ → ℕ → Refs → Refs
made i object r = record r {
  store =
      write r.store r.fresh (some (record { ptr = some object; strong_count = 1; weak_count = 0 }));
  strong = set r.strong i (some r.fresh);
  fresh = r.fresh + 1;
}

module _ (r : Refs) (c : Counted r) (i object : ℕ) (lt : i < length r.strong)
    (null : get_or r.strong i none ≡ none) where
  none_counted : (count r.fresh r.strong ≡ 0) × (count r.fresh r.weak ≡ 0)
  none_counted =
      subst (λ d. Good d (count r.fresh r.strong) (count r.fresh r.weak))
        (c.unused r.fresh (omega arith)) (c.good r.fresh)

  strongs :
      (k : ℕ) → count k (set r.strong i (some r.fresh)) ≡ count k r.strong + points k (some r.fresh)
  strongs k = omega (arith, count-set k i (some r.fresh) r.strong lt, ap (points k) null)

  good :
      (k : ℕ)
      → Good
          ((made i object r).store.middle k)
          (count k (set r.strong i (some r.fresh)))
          (count k r.weak)
  good k = elim (ℕ_discrete r.fresh k) [
    | yes e ↦
        subst
          (λ k.
            Good ((made i object r).store.middle k) (count k (set r.strong i (some r.fresh)))
              (count k r.weak))
          e
          (rw
            (
              write_self r.store r.fresh
                  (some (record { ptr = some object; strong_count = 1; weak_count = 0 })),
              strongs r.fresh,
              none_counted.0,
              none_counted.1,
              points-eq r.fresh,
            )
            (ground arith))
    | no ne ↦
        let q : (made i object r).store.middle k ≡ r.store.middle k = ground arith in
        let n : count k (set r.strong i (some r.fresh)) ≡ count k r.strong =
          omega (arith, strongs k, points-ne r.fresh k (λ e. ne (sym e))) in
        rw (q, n) (c.good k)
  ]

  made-Counted : Counted (made i object r)
  made-Counted = record {
    good = good;
    unused = λ k le. ground (arith, c.unused k (omega arith));
    few_strong = omega (arith, length-set r.strong i (some r.fresh), c.few_strong);
    few_weak = c.few_weak;
  }

  made-places :
      (k : ℕ)
      → places k (made i object r).store (r.fresh + 1)
        ≡ points k (some object) + places k r.store r.fresh
  unfolding places held
  made-places k =
      let d : Option Middle =
        some (record { ptr = some object; strong_count = 1; weak_count = 0 }) in
      omega (
        arith,
        held-write k r.store (suc r.fresh) r.fresh d (omega arith),
        ap (holds k) (c.unused r.fresh (omega arith)),
        ap (held k (write r.store r.fresh d)) {x = r.fresh + 1} {y = suc r.fresh} (omega arith),
      )

-- What an operation on references does: it returns, in a state that is counted again, and the
-- objects stay where they are or move, but for the one that is made.
pub record Moved (r : Refs) (new : Option ℕ) (o : Option Refs) : Type 0 where
  pub safe : Safe (length r.strong) (length r.weak) o
  pub counts :
      (k : ℕ) → places k safe.refs.store safe.refs.fresh ≡ points k new + places k r.store r.fresh

pub Tracks-Moved :
    (r : Refs) (o : Option Refs)
    → Safe (length r.strong) (length r.weak) o
    → Tracks r o
    → Moved r none o
Tracks-Moved r o safe t = record { safe = safe; counts = λ k. omega (arith, tracked.1 k) }
  where
    tracked : Tracks r (some safe.refs)
    tracked = rw safe.returns at t

pub strong_make-Moved :
    (r : Refs) (c : Counted r) (i object : ℕ)
    → i < length r.strong
    → Moved r (some object) (strong_make i object r)
unfolding strong_make
strong_make-Moved r c i object lt = record {
  safe = record {
    refs = made i object d.refs;
    returns = ap (λ o. o >>= λ r'. some (made i object r')) d.returns;
    counted = made-Counted d.refs d.counted i object lt' null;
    strong_size = length-set d.refs.strong i (some d.refs.fresh) ∙ d.strong_size;
    weak_size = d.weak_size;
  };
  counts = λ k. omega (arith, made-places d.refs d.counted i object lt' null k, tracked.1 k);
}
  where
    d : Safe (length r.strong) (length r.weak) (drop_strong i r)
    d = drop_strong-Safe r c i lt

    lt' : i < length d.refs.strong
    lt' = omega (arith, d.strong_size)

    null : get_or d.refs.strong i none ≡ none
    null =
        ap (λ l. get_or l i none) (drop_strong-variables r c i lt d.refs d.returns).0
        ∙ get_or-set_self r.strong i none none lt

    tracked : Tracks r (some d.refs)
    tracked = rw d.returns at (drop_strong-Tracks r c i)
