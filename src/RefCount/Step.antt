-- ===== src/RefCount/Step.antt =====
-- What one operation on a middle does to its counts.
use p.Prelude.{
  ℕ, ◌+◌, ◌-◌, ◌%◌, ◌^◌, ◌<◌, ◌≡◌, refl, sym, ap, ◌∙◌, inl, inr, true, Option, none, some, arith,
  dec_lt, ℕ_discrete, ltb, ◌==◌, if◌then◌else◌, Option-cases,
}
use p.RefCount.{
  Middle, Store, write, delete, add_strong_to, remove_strong_from, add_weak_to, remove_weak_from,
}
use p.RefCount.Counted.{Good}

-- A store that differs at one middle.
abbrev pub Differs : ℕ → Option Middle → Store → Store → Type 0
Differs m d s s' = (k : ℕ) → s'.middle k ≡ (if m == k then d else s.middle k)

delete-middle : (o : Option ℕ) (s : Store) (k : ℕ) → (delete o s).middle k ≡ s.middle k
delete-middle none s k = refl
delete-middle (some x) s k = refl

module _ (m : ℕ) (s : Store) (d : Middle) (a b : ℕ) (g : Good (some d) a b) where
  -- The outcome of a removal.
  pub record Removed (a' b' : ℕ) (o : Option Store) : Type 0 where
    pub after : Option Middle
    pub store : Store
    pub returns : o ≡ some store
    pub differs : Differs m after s store
    pub good : Good after a' b'

  -- On a middle that is counted, with a strong reference left, `remove_strong` returns: the strong
  -- count is one less, the object goes with the last strong reference, the middle is freed with
  -- the last of both kinds, and no other middle changes.
  pub remove_strong-Removed : 0 < a → Removed (a - 1) b (remove_strong_from m s (some d))
  remove_strong-Removed pos = elim (dec_lt 1 a) [
    | yes more ↦
        let left = record d { strong_count = d.strong_count - 1 } in
        record {
          after = some left;
          store = write s m (some left);
          returns = ground arith;
          differs = λ k. refl;
          good = ground arith;
        }
    | no last ↦ elim (ℕ_discrete b 0) [
      | yes none_weak ↦ record {
        after = none;
        store = delete d.ptr (write s m none);
        returns = ground arith;
        differs = λ k. delete-middle d.ptr (write s m none) k;
        good = omega arith;
      }
      | no some_weak ↦
          let left : Middle = record { ptr = none; strong_count = 0; weak_count = d.weak_count } in
          record {
            after = some left;
            store = delete d.ptr (write s m (some left));
            returns = ground arith;
            differs = λ k. delete-middle d.ptr (write s m (some left)) k;
            good = ground arith;
          }
    ]
  ]

  -- On a middle that is counted, with a weak reference left, `remove_weak` returns: the weak count
  -- is one less, the middle is freed with the last of both kinds, and no other middle changes.
  pub remove_weak-Removed : 0 < b → Removed a (b - 1) (remove_weak_from m s (some d))
  remove_weak-Removed pos = elim (dec_lt 1 (a + b)) [
    | yes more ↦
        let left = record d { weak_count = d.weak_count - 1 } in
        record {
          after = some left;
          store = write s m (some left);
          returns = ground arith;
          differs = λ k. refl;
          good = ground arith;
        }
    | no last ↦ record {
      after = none;
      store = write s m none;
      returns = ground arith;
      differs = λ k. refl;
      good = omega arith;
    }
  ]

  -- The outcome of an addition: a null reference if the object is gone, and else one more.
  pub record Added (a' b' : ℕ) (o : Option (Option ℕ × Store)) : Type 0 where
    pub after : Middle
    pub store : Store
    pub returns : o ≡ some (if ltb 0 a then some m else none, store)
    pub differs : Differs m (some after) s store
    pub good : Good (some after) (if ltb 0 a then a' else a) (if ltb 0 a then b' else b)

  unchanged : s.middle m ≡ some d → Differs m (some d) s s
  unchanged here k = elim (ℕ_discrete m k) [
    | yes e ↦ rw (e, ==-self k) (ap s.middle (sym e) ∙ here)
    | no ne ↦ ground arith
  ]
    where
      ==-self : (k : ℕ) → (k == k) ≡ true
      ==-self k = ground arith

  -- On an allocated middle that is counted, with fewer than 2 ^ 63 strong references, `add_strong`
  -- gives the middle with one more strong reference if there is one, and null without a change if
  -- the object is gone.
  pub add_strong-Added :
      s.middle m ≡ some d → a < 2 ^ 63 → Added (a + 1) b (add_strong_to m s (some d))
  add_strong-Added here small = elim (dec_lt 0 a) [
    | yes alive ↦
        let more = record d { strong_count = (d.strong_count + 1) % 2 ^ 64 } in
        record {
          after = more;
          store = write s m (some more);
          returns = ground arith;
          differs = λ k. refl;
          good = ground arith;
        }
    | no gone ↦ record {
      after = d;
      store = s;
      returns = ground arith;
      differs = unchanged here;
      good = ground arith;
    }
  ]

  -- On an allocated middle that is counted, with fewer than 2 ^ 63 weak references, `add_weak`
  -- gives the middle with one more weak reference while there is a strong one, and null without a
  -- change if the object is gone.
  pub add_weak-Added : s.middle m ≡ some d → b < 2 ^ 63 → Added a (b + 1) (add_weak_to m s (some d))
  add_weak-Added here small = elim (Option-cases d.ptr) [
    | inr (o, e) ↦
        let more = record d { weak_count = (d.weak_count + 1) % 2 ^ 64 } in
        record {
          after = more;
          store = write s m (some more);
          returns = ground (arith, e);
          differs = λ k. refl;
          good = ground (arith, e);
        }
    | inl e ↦ record {
      after = d;
      store = s;
      returns = ground (arith, e);
      differs = unchanged here;
      good = ground (arith, e);
    }
  ]
