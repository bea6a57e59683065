-- ===== src/RefCount/Weak.antt =====
-- A WeakRef lets its reference go or takes one.
use p.Prelude.{
  ℕ, ◌+◌, ◌-◌, ◌^◌, ◌<◌, ◌≡◌, ◌≢◌, refl, ap, ◌∙◌, subst, Option, none, some, arith, ltb,
  if◌then◌else◌, length, get_or, set, length-set,
}
use p.RefCount.{Middle, Store, Refs, add_weak, remove_weak, set_weak, drop_weak, ◌>>=◌}
use p.RefCount.Counted.{points, count, count-set, count-le, count-pos, Good, Counted}
use p.RefCount.Step.{Differs, remove_weak-Removed, add_weak-Added}
use p.RefCount.Safe.{Safe, Good-some, changed, points-ne, points-eq}

module _ (r : Refs) (c : Counted r) (i : ℕ) (lt : i < length r.weak) where
  weak_changed :
      (m : ℕ) (d : Middle) (after : Option Middle) (v : Option ℕ) (s : Store)
      → r.store.middle m ≡ some d
      → Differs m after r.store s
      → Good after (count m r.strong) (count m (set r.weak i v))
      → ((k : ℕ) → k ≢ m → points k (get_or r.weak i none) ≡ points k v)
      → Counted (record r { store = s; weak = set r.weak i v })
  weak_changed m d after v s here diff good rest =
      changed r c m d after s r.strong (set r.weak i v) here diff good (λ k ne. refl)
        (λ k ne. omega (arith, count-set k i v r.weak lt, rest k ne)) refl (length-set r.weak i v)

  -- A variable that is null stays null.
  pub null_kept : get_or r.weak i none ≡ none → Counted (record r { weak = set r.weak i none })
  null_kept e = record {
    good = λ k.
        let n : count k (set r.weak i none) ≡ count k r.weak =
          omega (arith, count-set k i none r.weak lt, ap (points k) e) in
        rw n (c.good k);
    unused = c.unused;
    few_strong = c.few_strong;
    few_weak = omega (arith, length-set r.weak i none, c.few_weak);
  }

  dropped :
      (o : Option ℕ)
      → get_or r.weak i none ≡ o
      → Safe
          (length r.strong)
          (length r.weak)
          (remove_weak o r.store >>= λ s. some (record r { store = s; weak = set r.weak i none }))
  unfolding remove_weak
  dropped none e = record {
    refs = record r { weak = set r.weak i none };
    returns = refl;
    counted = null_kept e;
    strong_size = refl;
    weak_size = length-set r.weak i none;
  }
  dropped (some m) e =
      let pos : 0 < count m r.weak = count-pos m i r.weak e in
      let (d, here) =
        Good-some (r.store.middle m) (count m r.strong) (count m r.weak) (c.good m) (omega arith) in
      let g : Good (some d) (count m r.strong) (count m r.weak) =
        subst (λ o. Good o (count m r.strong) (count m r.weak)) here (c.good m) in
      let x = remove_weak-Removed m r.store d (count m r.strong) (count m r.weak) g pos in
      let n : count m (set r.weak i none) ≡ count m r.weak - 1 =
        omega (arith, count-set m i none r.weak lt, ap (points m) e, points-eq m) in
      record {
        refs = record r { store = x.store; weak = set r.weak i none };
        returns = rw (here, x.returns) refl;
        counted =
            weak_changed m d x.after none x.store here x.differs (rw n x.good)
              (λ k ne. ap (points k) e ∙ points-ne m k ne);
        strong_size = refl;
        weak_size = length-set r.weak i none;
      }

  -- When the counts of every middle are those of the variables that refer to it, letting the
  -- reference of a weak variable go returns, that is, it touches no freed middle and fails no
  -- assertion, and the counts are again those of the variables.
  pub drop_weak-Safe : Safe (length r.strong) (length r.weak) (drop_weak i r)
  unfolding drop_weak
  drop_weak-Safe = dropped (get_or r.weak i none) refl

  -- A null variable takes a reference to a middle that some variable refers to.
  pub taken :
      (m : ℕ)
      → get_or r.weak i none ≡ none
      → 0 < count m r.strong + count m r.weak
      → Safe (length r.strong) (length r.weak) (set_weak i r (add_weak (some m) r.store))
  unfolding add_weak
  taken m e pos =
      let (d, here) =
        Good-some (r.store.middle m) (count m r.strong) (count m r.weak) (c.good m) pos in
      let g : Good (some d) (count m r.strong) (count m r.weak) =
        subst (λ o. Good o (count m r.strong) (count m r.weak)) here (c.good m) in
      let few : count m r.weak < 2 ^ 63 = omega (arith, count-le m r.weak, c.few_weak) in
      let x = add_weak-Added m r.store d (count m r.strong) (count m r.weak) g here few in
      let v : Option ℕ = if ltb 0 (count m r.strong) then some m else none in
      let n : count m (set r.weak i v)
          ≡ (if ltb 0 (count m r.strong) then count m r.weak + 1 else count m r.weak) =
        ground (arith, count-set m i v r.weak lt, ap (points m) e, points-eq m) in
      let w : (if ltb 0 (count m r.strong) then count m r.strong else count m r.strong)
          ≡ count m r.strong =
        ground arith in
      record {
        refs = record r { store = x.store; weak = set r.weak i v };
        returns = rw (here, x.returns) refl;
        counted =
            weak_changed m d (some x.after) v x.store here x.differs (rw n (rw w at x.good))
              (λ k ne. ap (points k) e ∙ ground (arith, points-ne m k ne));
        strong_size = refl;
        weak_size = length-set r.weak i v;
      }
