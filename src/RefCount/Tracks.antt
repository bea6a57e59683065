-- ===== src/RefCount/Tracks.antt =====
-- The operations on references lose and double no object.
use p.Prelude.{
  ℕ, ◌<◌, ◌≡◌, refl, ◌∙◌, inl, inr, Option, none, some, List, arith, dec_lt, Bool-cases,
  Option-cases, length, set,
}
use p.RefCount.{
  Middle, Store, Refs, strong_at, weak_at, add_strong, remove_strong, remove_strong_from,
  add_strong_to, remove_weak_from, add_weak_to, add_weak, remove_weak, set_strong, set_weak, same,
  drop_strong, drop_weak, strong_of_strong, strong_of_weak, weak_of_weak, weak_of_strong, ◌>>=◌,
}
use p.RefCount.Counted.{count, Good, Counted}
use p.RefCount.Places.{
  places, Keeps, KeepsResult, remove_strong_from-Keeps, remove_weak_from-Keeps, add_strong_to-Keeps,
  add_weak_to-Keeps,
}
use p.RefCount.Safe.{drop_strong-Safe}
use p.RefCount.Weak.{drop_weak-Safe}

abbrev pub Tracks : Refs → Option Refs → Type 0
Tracks r none = Unit
Tracks r (some r') =
    (r'.fresh ≡ r.fresh) × ((o : ℕ) → places o r'.store r'.fresh ≡ places o r.store r.fresh)

bind-Tracks :
    (r r' : Refs) (o : Option Refs) (k : Refs → Option Refs)
    → o ≡ some r'
    → Tracks r o
    → Tracks r' (k r')
    → Tracks r (o >>= k)
bind-Tracks r r' o k e t u = rw e (joined (k r') (rw e at t) u)
  where
    joined : (p : Option Refs) → Tracks r (some r') → Tracks r' p → Tracks r p
    joined none t u = tt
    joined (some r'') t u = (u.0 ∙ t.0, λ o. u.1 o ∙ t.1 o)

Good-gone : (d : Middle) (a b : ℕ) → Good (some d) a b → d.strong_count ≡ 0 → d.ptr ≡ none
Good-gone d a b g e = elim (Option-cases d.ptr) [
  | inl p ↦ p
  | inr (o, p) ↦ absurd (omega (arith, g.3.1 (λ q. cc)))
]

module _ (r : Refs) (c : Counted r) where
  pub allocated-lt-fresh : (m : ℕ) (d : Middle) → r.store.middle m ≡ some d → m < r.fresh
  allocated-lt-fresh m d e = elim (dec_lt m r.fresh) [
    | yes h ↦ h
    | no h ↦ absurd (cc (c.unused m (omega arith)))
  ]

  removed-Tracks :
      (o : Option Store) (strong weak : List (Option ℕ))
      → Keeps r.store r.fresh o
      → Tracks r (o >>= λ s. some (record r { store = s; strong = strong; weak = weak }))
  removed-Tracks none strong weak k = tt
  removed-Tracks (some s) strong weak k = (refl, k)

  remove_strong-Keeps : (x : Option ℕ) → Keeps r.store r.fresh (remove_strong x r.store)
  unfolding remove_strong
  remove_strong-Keeps none = λ o. refl
  remove_strong-Keeps (some m) = by_case (r.store.middle m) refl
    where
      by_case :
          (d : Option Middle)
          → r.store.middle m ≡ d
          → Keeps r.store r.fresh (remove_strong_from m r.store d)
      by_case none e = tt
      by_case (some d) e = remove_strong_from-Keeps m r.store r.fresh d e (allocated-lt-fresh m d e)

  remove_weak-Keeps : (x : Option ℕ) → Keeps r.store r.fresh (remove_weak x r.store)
  unfolding remove_weak
  remove_weak-Keeps none = λ o. refl
  remove_weak-Keeps (some m) = by_case (r.store.middle m) refl (c.good m)
    where
      by_case :
          (d : Option Middle)
          → r.store.middle m ≡ d
          → Good d (count m r.strong) (count m r.weak)
          → Keeps r.store r.fresh (remove_weak_from m r.store d)
      by_case none e g = tt
      by_case (some d) e g =
          remove_weak_from-Keeps m r.store r.fresh d e (allocated-lt-fresh m d e)
            (Good-gone d (count m r.strong) (count m r.weak) g)

  pub drop_strong-Tracks : (i : ℕ) → Tracks r (drop_strong i r)
  unfolding drop_strong
  drop_strong-Tracks i =
      removed-Tracks (remove_strong (strong_at r i) r.store) (set r.strong i none) r.weak
        (remove_strong-Keeps (strong_at r i))

  pub drop_weak-Tracks : (i : ℕ) → Tracks r (drop_weak i r)
  unfolding drop_weak
  drop_weak-Tracks i =
      removed-Tracks (remove_weak (weak_at r i) r.store) r.strong (set r.weak i none)
        (remove_weak-Keeps (weak_at r i))

  set_strong-Tracks : (i : ℕ) (x : Option ℕ) → Tracks r (set_strong i r (add_strong x r.store))
  unfolding add_strong
  set_strong-Tracks i none = (refl, λ o. refl)
  set_strong-Tracks i (some m) = by_case (r.store.middle m) refl
    where
      result :
          (o : Option (Option ℕ × Store))
          → KeepsResult r.store r.fresh o
          → Tracks r (set_strong i r o)
      result none k = tt
      result (some (x, s)) k = (refl, k)

      by_case :
          (d : Option Middle)
          → r.store.middle m ≡ d
          → Tracks r (set_strong i r (add_strong_to m r.store d))
      by_case none e = tt
      by_case (some d) e =
          result (add_strong_to m r.store (some d))
            (add_strong_to-Keeps m r.store r.fresh d e (allocated-lt-fresh m d e))

  set_weak-Tracks : (i : ℕ) (x : Option ℕ) → Tracks r (set_weak i r (add_weak x r.store))
  unfolding add_weak
  set_weak-Tracks i none = (refl, λ o. refl)
  set_weak-Tracks i (some m) = by_case (r.store.middle m) refl
    where
      result :
          (o : Option (Option ℕ × Store))
          → KeepsResult r.store r.fresh o
          → Tracks r (set_weak i r o)
      result none k = tt
      result (some (x, s)) k = (refl, k)

      by_case :
          (d : Option Middle)
          → r.store.middle m ≡ d
          → Tracks r (set_weak i r (add_weak_to m r.store d))
      by_case none e = tt
      by_case (some d) e =
          result (add_weak_to m r.store (some d))
            (add_weak_to-Keeps m r.store r.fresh d e (allocated-lt-fresh m d e))

module _ (r : Refs) (c : Counted r) (i : ℕ) where
  assign_strong-Tracks :
      (x : Option ℕ)
      → i < length r.strong
      → Tracks r (drop_strong i r >>= λ r'. set_strong i r' (add_strong x r'.store))
  assign_strong-Tracks x lt =
      let d = drop_strong-Safe r c i lt in
      bind-Tracks r d.refs (drop_strong i r) (λ r'. set_strong i r' (add_strong x r'.store))
        d.returns (drop_strong-Tracks r c i) (set_strong-Tracks d.refs d.counted i x)

  assign_weak-Tracks :
      (x : Option ℕ)
      → i < length r.weak
      → Tracks r (drop_weak i r >>= λ r'. set_weak i r' (add_weak x r'.store))
  assign_weak-Tracks x lt =
      let d = drop_weak-Safe r c i lt in
      bind-Tracks r d.refs (drop_weak i r) (λ r'. set_weak i r' (add_weak x r'.store)) d.returns
        (drop_weak-Tracks r c i) (set_weak-Tracks d.refs d.counted i x)

  pub strong_of_strong-Tracks : (j : ℕ) → i < length r.strong → Tracks r (strong_of_strong i j r)
  unfolding strong_of_strong
  strong_of_strong-Tracks j lt = elim (Bool-cases (same (strong_at r i) (strong_at r j))) [
    | inl e ↦ rw e (refl, λ o. refl)
    | inr e ↦ rw e (assign_strong-Tracks (strong_at r j) lt)
  ]

  pub strong_of_weak-Tracks : (j : ℕ) → i < length r.strong → Tracks r (strong_of_weak i j r)
  unfolding strong_of_weak
  strong_of_weak-Tracks j lt = elim (Bool-cases (same (strong_at r i) (weak_at r j))) [
    | inl e ↦ rw e (refl, λ o. refl)
    | inr e ↦ rw e (assign_strong-Tracks (weak_at r j) lt)
  ]

  pub weak_of_strong-Tracks : (j : ℕ) → i < length r.weak → Tracks r (weak_of_strong i j r)
  unfolding weak_of_strong
  weak_of_strong-Tracks j lt = elim (Bool-cases (same (weak_at r i) (strong_at r j))) [
    | inl e ↦ rw e (refl, λ o. refl)
    | inr e ↦ rw e (assign_weak-Tracks (strong_at r j) lt)
  ]

  pub weak_of_weak-Tracks : (j : ℕ) → i < length r.weak → Tracks r (weak_of_weak i j r)
  unfolding weak_of_weak
  weak_of_weak-Tracks j lt = elim (Bool-cases (same (weak_at r i) (weak_at r j))) [
    | inl e ↦ rw e (refl, λ o. refl)
    | inr e ↦ rw e (assign_weak-Tracks (weak_at r j) lt)
  ]
