-- ===== src/RefCount/Places.antt =====
-- Where the objects of a store are: in an allocated middle, or among the deleted ones.
use p.Prelude.{
  ℕ, zero, suc, ◌+◌, ◌-◌, ◌%◌, ◌^◌, ◌≤◌, ◌<◌, ◌≡◌, refl, sym, ap, ◌≢◌, inl, inr, ◌&&◌, Option, none,
  some, List, [], ◌∷◌, arith, ℕ_discrete, ltb, ◌==◌, Bool-cases, Option-cases,
}
use p.RefCount.{
  Middle, Store, write, delete, add_strong_to, remove_strong_from, add_weak_to, remove_weak_from,
}
use p.RefCount.Counted.{points}

abbrev pub holds : ℕ → Option Middle → ℕ
holds o none = 0
holds o (some d) = points o d.ptr

-- The middles below `n` that have the object.
unfoldable pub held : ℕ → Store → ℕ → ℕ
held o s zero = 0
held o s (suc n) = holds o (s.middle n) + held o s n

unfoldable pub times : ℕ → List ℕ → ℕ
times o [] = 0
times o (x ∷ xs) = points o (some x) + times o xs

-- How often the object is in a middle below `n` or deleted.
unfoldable pub places : ℕ → Store → ℕ → ℕ
places o s n = held o s n + times o s.deleted

held-same :
    (o : ℕ) (s s' : Store) (n : ℕ)
    → ((k : ℕ) → k < n → holds o (s'.middle k) ≡ holds o (s.middle k))
    → held o s' n ≡ held o s n
unfolding held
held-same o s s' zero h = refl
held-same o s s' (suc n) h =
    omega (arith, h n (omega arith), held-same o s s' n (λ k lt. h k (omega arith)))

-- One middle has changed.
pub held-changed :
    (o : ℕ) (s s' : Store) (n m : ℕ)
    → ((k : ℕ) → k ≢ m → s'.middle k ≡ s.middle k)
    → m < n
    → held o s' n + holds o (s.middle m) ≡ held o s n + holds o (s'.middle m)
unfolding held
held-changed o s s' zero m h lt = absurd (omega arith)
held-changed o s s' (suc n) m h lt = elim (ℕ_discrete m n) [
  | yes e ↦ omega (
    arith,
    ap (λ k. holds o (s.middle k)) e,
    ap (λ k. holds o (s'.middle k)) e,
    held-same o s s' n (λ k below. ap (holds o) (h k (λ q. omega arith))),
  )
  | no ne ↦
      omega (arith, ap (holds o) (h n (λ q. ne (sym q))), held-changed o s s' n m h (omega arith))
]

pub held-pos : (o : ℕ) (s : Store) (n m : ℕ) → m < n → holds o (s.middle m) ≤ held o s n
unfolding held
held-pos o s zero m lt = absurd (omega arith)
held-pos o s (suc n) m lt = elim (ℕ_discrete m n) [
  | yes e ↦ omega (arith, ap (λ k. holds o (s.middle k)) e)
  | no ne ↦ omega (arith, held-pos o s n m (omega arith))
]

delete-middle : (x : Option ℕ) (s : Store) → (delete x s).middle ≡ s.middle
delete-middle none s = refl
delete-middle (some o) s = refl

pub times-delete :
    (o : ℕ) (x : Option ℕ) (s : Store)
    → times o (delete x s).deleted ≡ points o x + times o s.deleted
unfolding times
times-delete o none s = omega arith
times-delete o (some k) s = refl

pub held-delete : (o : ℕ) (x : Option ℕ) (s : Store) (n : ℕ) → held o (delete x s) n ≡ held o s n
held-delete o x s n =
    held-same o s (delete x s) n (λ k lt. ap (λ f. holds o (f k)) (delete-middle x s))

pub places-delete :
    (o : ℕ) (x : Option ℕ) (s : Store) (n : ℕ) → places o (delete x s) n ≡ points o x + places o s n
unfolding places
places-delete o x s n = omega (arith, times-delete o x s, held-delete o x s n)

pub write_self : (s : Store) (m : ℕ) (d : Option Middle) → (write s m d).middle m ≡ d
write_self s m d = ground arith

pub held-write :
    (o : ℕ) (s : Store) (n m : ℕ) (d : Option Middle)
    → m < n
    → held o (write s m d) n + holds o (s.middle m) ≡ held o s n + holds o d
held-write o s n m d lt = omega (
  arith,
  held-changed o s (write s m d) n m (λ k ne. ground arith) lt,
  ap (holds o) (write_self s m d),
)

-- The operations on a middle move objects, and none is lost or doubled.
abbrev pub Keeps : Store → ℕ → Option Store → Type 0
Keeps s n none = Unit
Keeps s n (some s') = (o : ℕ) → places o s' n ≡ places o s n

abbrev pub KeepsResult : Store → ℕ → Option (Option ℕ × Store) → Type 0
KeepsResult s n none = Unit
KeepsResult s n (some (x, s')) = (o : ℕ) → places o s' n ≡ places o s n

module _ (m : ℕ) (s : Store) (n : ℕ) (d : Middle) (here : s.middle m ≡ some d) (lt : m < n) where
  written-Keeps : (d' : Middle) → d'.ptr ≡ d.ptr → Keeps s n (some (write s m (some d')))
  unfolding places
  written-Keeps d' e o =
      omega (arith, held-write o s n m (some d') lt, ap (holds o) here, ap (points o) e)

  freed-Keeps : d.ptr ≡ none → Keeps s n (some (write s m none))
  unfolding places
  freed-Keeps e o = omega (arith, held-write o s n m none lt, ap (holds o) here, ap (points o) e)

  moved-Keeps :
      (after : Option Middle)
      → ((o : ℕ) → holds o after ≡ 0)
      → Keeps s n (some (delete d.ptr (write s m after)))
  unfolding places
  moved-Keeps after e o = omega (
    arith,
    held-write o s n m after lt,
    times-delete o d.ptr (write s m after),
    held-delete o d.ptr (write s m after) n,
    ap (holds o) here,
    e o,
  )

  pub remove_strong_from-Keeps : Keeps s n (remove_strong_from m s (some d))
  remove_strong_from-Keeps = elim (Bool-cases (d.strong_count == 0)) [
    | inl e ↦ rw e tt
    | inr e ↦ rw e (elim (Bool-cases (d.strong_count - 1 == 0)) [
      | inr f ↦ rw f (written-Keeps (record d { strong_count = d.strong_count - 1 }) refl)
      | inl f ↦ rw f (elim (Bool-cases (d.weak_count == 0)) [
        | inl g ↦ rw g (moved-Keeps none (λ o. refl))
        | inr g ↦ rw g (
            moved-Keeps (some (record { ptr = none; strong_count = 0; weak_count = d.weak_count }))
              (λ o. refl))
      ])
    ])
  ]

  pub remove_weak_from-Keeps :
      (d.strong_count ≡ 0 → d.ptr ≡ none) → Keeps s n (remove_weak_from m s (some d))
  remove_weak_from-Keeps gone = elim (Bool-cases (d.weak_count == 0)) [
    | inl e ↦ rw e tt
    | inr e ↦ rw e (elim (Bool-cases (d.weak_count - 1 == 0 && d.strong_count == 0)) [
      | inr f ↦ rw f (written-Keeps (record d { weak_count = d.weak_count - 1 }) refl)
      | inl f ↦ rw f (freed-Keeps (gone (ground arith)))
    ])
  ]

  pub add_strong_to-Keeps : KeepsResult s n (add_strong_to m s (some d))
  add_strong_to-Keeps = elim (Bool-cases (ltb 0 d.strong_count)) [
    | inl e ↦ rw e (written-Keeps (record d { strong_count = (d.strong_count + 1) % 2 ^ 64 }) refl)
    | inr e ↦ rw e (λ o. refl)
  ]

  pub add_weak_to-Keeps : KeepsResult s n (add_weak_to m s (some d))
  add_weak_to-Keeps = elim (Option-cases d.ptr) [
    | inl e ↦ rw e (λ o. refl)
    | inr (p, e) ↦ rw e (written-Keeps (record d { weak_count = (d.weak_count + 1) % 2 ^ 64 }) refl)
  ]
