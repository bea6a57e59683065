-- ===== src/RefCount/Assign.antt =====
-- The assignments to a StrongRef.
use p.Prelude.{
  ℕ, ◌+◌, ◌<◌, ◌≡◌, refl, sym, ap, ◌∙◌, inl, inr, false, Option, none, some, arith, Bool-cases,
  length, get_or, set, length-set, get_or-set_self,
}
use p.RefCount.{
  Store, Refs, strong_at, weak_at, add_strong, remove_strong, set_strong, same, drop_strong,
  strong_of_strong, strong_of_weak, ◌>>=◌,
}
use p.RefCount.Counted.{points, count, count-set, count-pos, Counted}
use p.RefCount.Safe.{Safe, bind-Safe, drop_strong-Safe, null_kept, taken}
use mathlib.Core.Option.{some_inj}

pub same-points : (m : ℕ) (o : Option ℕ) → same o (some m) ≡ false → points m o ≡ 0
same-points m none e = refl
same-points m (some k) e = ground arith

pub add_strong_null : (s : Store) → add_strong none s ≡ some (none, s)
unfolding add_strong
add_strong_null s = refl

pub unchanged : (r : Refs) → Counted r → Safe (length r.strong) (length r.weak) (some r)
unchanged r c = record {
  refs = r;
  returns = refl;
  counted = c;
  strong_size = refl;
  weak_size = refl;
}

module _ (r : Refs) (c : Counted r) (i : ℕ) (lt : i < length r.strong) where
  pub drop_strong-variables :
      (r' : Refs)
      → drop_strong i r ≡ some r'
      → (r'.strong ≡ set r.strong i none) × (r'.weak ≡ r.weak)
  unfolding drop_strong
  drop_strong-variables r' e = by_case (remove_strong (get_or r.strong i none) r.store) refl
    where
      by_case :
          (o : Option Store)
          → remove_strong (get_or r.strong i none) r.store ≡ o
          → (r'.strong ≡ set r.strong i none) × (r'.weak ≡ r.weak)
      by_case none q = absurd (cc (rw q at e))
      by_case (some s) q =
          let t : record r { store = s; strong = set r.strong i none } ≡ r' =
            some_inj.0 (rw q at e) in
          (ap (λ (x : Refs). x.strong) (sym t), ap (λ (x : Refs). x.weak) (sym t))

  -- The assignment of a reference that the variable does not hold already, and that some variable
  -- still holds when the old one is gone.
  assigned :
      (x : Option ℕ)
      → ((m : ℕ) → x ≡ some m → 0 < count m (set r.strong i none) + count m r.weak)
      → Safe
          (length r.strong)
          (length r.weak)
          (drop_strong i r >>= λ r'. set_strong i r' (add_strong x r'.store))
  assigned x held =
      bind-Safe (drop_strong i r) (λ r'. set_strong i r' (add_strong x r'.store)) d (by_case x refl)
    where
      d : Safe (length r.strong) (length r.weak) (drop_strong i r)
      d = drop_strong-Safe r c i lt

      vars : (d.refs.strong ≡ set r.strong i none) × (d.refs.weak ≡ r.weak)
      vars = drop_strong-variables d.refs d.returns

      null : get_or d.refs.strong i none ≡ none
      null = ap (λ l. get_or l i none) vars.0 ∙ get_or-set_self r.strong i none none lt

      lt' : i < length d.refs.strong
      lt' = omega (arith, d.strong_size)

      by_case :
          (y : Option ℕ)
          → x ≡ y
          → Safe
              (length d.refs.strong)
              (length d.refs.weak)
              (set_strong i d.refs (add_strong x d.refs.store))
      by_case none e = rw e (
          rw (add_strong_null d.refs.store) (record {
            refs = record d.refs { strong = set d.refs.strong i none };
            returns = refl;
            counted = null_kept d.refs d.counted i lt' null;
            strong_size = length-set d.refs.strong i none;
            weak_size = refl;
          }))
      by_case (some m) e = rw e (
          taken d.refs d.counted i lt' m null
            (omega (arith, held m e, ap (count m) vars.0, ap (count m) vars.1)))

  -- When the counts of every middle are those of the variables that refer to it, the assignment of
  -- any weak variable to a strong one returns, that is, it touches no freed middle and fails no
  -- assertion, and the counts are again those of the variables.
  pub strong_of_weak-Safe : (j : ℕ) → Safe (length r.strong) (length r.weak) (strong_of_weak i j r)
  unfolding strong_of_weak
  strong_of_weak-Safe j = elim (Bool-cases (same (strong_at r i) (weak_at r j))) [
    | inl e ↦ rw e (unchanged r c)
    | inr e ↦ rw e (assigned (weak_at r j) (λ m q. omega (arith, count-pos m j r.weak q)))
  ]

  -- When the counts of every middle are those of the variables that refer to it, the assignment of
  -- any strong variable to a strong one returns, that is, it touches no freed middle and fails no
  -- assertion, and the counts are again those of the variables.
  pub strong_of_strong-Safe :
      (j : ℕ) → Safe (length r.strong) (length r.weak) (strong_of_strong i j r)
  unfolding strong_of_strong
  strong_of_strong-Safe j = elim (Bool-cases (same (strong_at r i) (strong_at r j))) [
    | inl e ↦ rw e (unchanged r c)
    | inr e ↦ rw e (
        assigned (strong_at r j) (λ m q. omega (
          arith,
          count-pos m j r.strong q,
          count-set m i none r.strong lt,
          same-points m (strong_at r i) (sym (ap (same (strong_at r i)) q) ∙ e),
        )))
  ]
