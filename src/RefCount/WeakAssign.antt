-- ===== src/RefCount/WeakAssign.antt =====
-- The assignments to a WeakRef.
use p.Prelude.{
  ℕ, ◌+◌, ◌<◌, ◌≡◌, refl, sym, ap, ◌∙◌, inl, inr, Option, none, some, arith, Bool-cases, length,
  get_or, set, length-set, get_or-set_self,
}
use p.RefCount.{
  Store, Refs, strong_at, weak_at, add_weak, remove_weak, set_weak, same, drop_weak, weak_of_weak,
  weak_of_strong, ◌>>=◌,
}
use p.RefCount.Counted.{count, count-set, count-pos, Counted}
use p.RefCount.Safe.{Safe, bind-Safe}
use p.RefCount.Assign.{same-points, unchanged}
use p.RefCount.Weak.{drop_weak-Safe, null_kept, taken}
use mathlib.Core.Option.{some_inj}

add_weak_null : (s : Store) → add_weak none s ≡ some (none, s)
unfolding add_weak
add_weak_null s = refl

module _ (r : Refs) (c : Counted r) (i : ℕ) (lt : i < length r.weak) where
  pub drop_weak-variables :
      (r' : Refs) → drop_weak i r ≡ some r' → (r'.weak ≡ set r.weak i none) × (r'.strong ≡ r.strong)
  unfolding drop_weak
  drop_weak-variables r' e = by_case (remove_weak (get_or r.weak i none) r.store) refl
    where
      by_case :
          (o : Option Store)
          → remove_weak (get_or r.weak i none) r.store ≡ o
          → (r'.weak ≡ set r.weak i none) × (r'.strong ≡ r.strong)
      by_case none q = absurd (cc (rw q at e))
      by_case (some s) q =
          let t : record r { store = s; weak = set r.weak i none } ≡ r' = some_inj.0 (rw q at e) in
          (ap (λ (x : Refs). x.weak) (sym t), ap (λ (x : Refs). x.strong) (sym t))

  -- The assignment of a reference that the variable does not hold already, and that some variable
  -- still holds when the old one is gone.
  assigned :
      (x : Option ℕ)
      → ((m : ℕ) → x ≡ some m → 0 < count m r.strong + count m (set r.weak i none))
      → Safe
          (length r.strong)
          (length r.weak)
          (drop_weak i r >>= λ r'. set_weak i r' (add_weak x r'.store))
  assigned x held =
      bind-Safe (drop_weak i r) (λ r'. set_weak i r' (add_weak x r'.store)) d (by_case x refl)
    where
      d : Safe (length r.strong) (length r.weak) (drop_weak i r)
      d = drop_weak-Safe r c i lt

      vars : (d.refs.weak ≡ set r.weak i none) × (d.refs.strong ≡ r.strong)
      vars = drop_weak-variables d.refs d.returns

      null : get_or d.refs.weak i none ≡ none
      null = ap (λ l. get_or l i none) vars.0 ∙ get_or-set_self r.weak i none none lt

      lt' : i < length d.refs.weak
      lt' = omega (arith, d.weak_size)

      by_case :
          (y : Option ℕ)
          → x ≡ y
          → Safe
              (length d.refs.strong)
              (length d.refs.weak)
              (set_weak i d.refs (add_weak x d.refs.store))
      by_case none e = rw e (
          rw (add_weak_null d.refs.store) (record {
            refs = record d.refs { weak = set d.refs.weak i none };
            returns = refl;
            counted = null_kept d.refs d.counted i lt' null;
            strong_size = refl;
            weak_size = length-set d.refs.weak i none;
          }))
      by_case (some m) e = rw e (
          taken d.refs d.counted i lt' m null
            (omega (arith, held m e, ap (count m) vars.0, ap (count m) vars.1)))

  -- When the counts of every middle are those of the variables that refer to it, the assignment of
  -- any strong variable to a weak one returns, that is, it touches no freed middle and fails no
  -- assertion, and the counts are again those of the variables.
  pub weak_of_strong-Safe : (j : ℕ) → Safe (length r.strong) (length r.weak) (weak_of_strong i j r)
  unfolding weak_of_strong
  weak_of_strong-Safe j = elim (Bool-cases (same (weak_at r i) (strong_at r j))) [
    | inl e ↦ rw e (unchanged r c)
    | inr e ↦ rw e (assigned (strong_at r j) (λ m q. omega (arith, count-pos m j r.strong q)))
  ]

  -- When the counts of every middle are those of the variables that refer to it, the assignment of
  -- any weak variable to a weak one returns, that is, it touches no freed middle and fails no
  -- assertion, and the counts are again those of the variables.
  pub weak_of_weak-Safe : (j : ℕ) → Safe (length r.strong) (length r.weak) (weak_of_weak i j r)
  unfolding weak_of_weak
  weak_of_weak-Safe j = elim (Bool-cases (same (weak_at r i) (weak_at r j))) [
    | inl e ↦ rw e (unchanged r c)
    | inr e ↦ rw e (
        assigned (weak_at r j) (λ m q. omega (
          arith,
          count-pos m j r.weak q,
          count-set m i none r.weak lt,
          same-points m (weak_at r i) (sym (ap (same (weak_at r i)) q) ∙ e),
        )))
  ]
