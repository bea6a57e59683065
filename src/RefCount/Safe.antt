-- ===== src/RefCount/Safe.antt =====
-- No sequence of operations on references touches a freed middle or fails an assertion.
use p.Prelude.{
  ℕ, ◌+◌, ◌-◌, ◌^◌, ◌<◌, ◌≡◌, refl, sym, ap, ◌∙◌, subst, ◌≢◌, Option, none, some, arith, ℕ_discrete,
  ltb, if◌then◌else◌, List, length, get_or, set, length-set,
}
use p.RefCount.{Middle, Store, Refs, add_strong, remove_strong, set_strong, drop_strong, ◌>>=◌}
use p.RefCount.Counted.{points, count, count-set, count-le, count-pos, Good, Counted}
use p.RefCount.Step.{Differs, remove_strong-Removed, add_strong-Added}

-- An operation that returns, in a state that is counted again. `strongs` and `weaks` say which
-- variables there are: their number stays.
pub record Safe (strongs weaks : ℕ) (o : Option Refs) : Type 0 where
  pub refs : Refs
  pub returns : o ≡ some refs
  pub counted : Counted refs
  pub strong_size : length refs.strong ≡ strongs
  pub weak_size : length refs.weak ≡ weaks

pub bind-Safe :
    {strongs weaks : ℕ} (o : Option Refs) (k : Refs → Option Refs) (d : Safe strongs weaks o)
    → Safe (length d.refs.strong) (length d.refs.weak) (k d.refs)
    → Safe strongs weaks (o >>= k)
bind-Safe o k d s = record {
  refs = s.refs;
  returns = ap (λ p. p >>= k) d.returns ∙ s.returns;
  counted = s.counted;
  strong_size = s.strong_size ∙ d.strong_size;
  weak_size = s.weak_size ∙ d.weak_size;
}

-- A middle that a variable refers to is allocated.
pub Good-some : (o : Option Middle) (a b : ℕ) → Good o a b → 0 < a + b → (d : Middle) × (o ≡ some d)
Good-some none a b g pos = absurd (omega arith)
Good-some (some d) a b g pos = (d, refl)

-- The state after one middle and some variables have changed, where those for the other middles
-- have not.
pub changed :
    (r : Refs) (c : Counted r) (m : ℕ) (d : Middle) (after : Option Middle) (s : Store)
    (strong weak : List (Option ℕ))
    → r.store.middle m ≡ some d
    → Differs m after r.store s
    → Good after (count m strong) (count m weak)
    → ((k : ℕ) → k ≢ m → count k strong ≡ count k r.strong)
    → ((k : ℕ) → k ≢ m → count k weak ≡ count k r.weak)
    → length strong ≡ length r.strong
    → length weak ≡ length r.weak
    → Counted (record r { store = s; strong = strong; weak = weak })
changed r c m d after s strong weak here diff good strongs weaks l l' = record {
  good = λ k. elim (ℕ_discrete m k) [
    | yes e ↦
        let q : s.middle m ≡ after = ground (arith, diff m) in
        subst (λ x. Good (s.middle x) (count x strong) (count x weak)) e (rw q good)
    | no ne ↦
        let q : s.middle k ≡ r.store.middle k = ground (arith, diff k) in
        rw (q, strongs k (λ e. ne (sym e)), weaks k (λ e. ne (sym e))) (c.good k)
  ];
  unused = λ k le. ground (arith, diff k, c.unused k le, ap r.store.middle {x = m} {y = k}, here);
  few_strong = omega (arith, l, c.few_strong);
  few_weak = omega (arith, l', c.few_weak);
}

-- One strong variable has changed.
strong_changed :
    (r : Refs) (c : Counted r) (i : ℕ) (lt : i < length r.strong) (m : ℕ) (d : Middle)
    (after : Option Middle) (v : Option ℕ) (s : Store)
    → r.store.middle m ≡ some d
    → Differs m after r.store s
    → Good after (count m (set r.strong i v)) (count m r.weak)
    → ((k : ℕ) → k ≢ m → points k (get_or r.strong i none) ≡ points k v)
    → Counted (record r { store = s; strong = set r.strong i v })
strong_changed r c i lt m d after v s here diff good rest =
    changed r c m d after s (set r.strong i v) r.weak here diff good
      (λ k ne. omega (arith, count-set k i v r.strong lt, rest k ne)) (λ k ne. refl)
      (length-set r.strong i v) refl

pub points-ne : (m k : ℕ) → k ≢ m → points k (some m) ≡ 0
points-ne m k ne = ground arith

pub points-eq : (m : ℕ) → points m (some m) ≡ 1
points-eq m = ground arith

module _ (r : Refs) (c : Counted r) (i : ℕ) (lt : i < length r.strong) where
  -- A variable that is null stays null.
  pub null_kept :
      get_or r.strong i none ≡ none → Counted (record r { strong = set r.strong i none })
  null_kept e = record {
    good = λ k.
        let n : count k (set r.strong i none) ≡ count k r.strong =
          omega (arith, count-set k i none r.strong lt, ap (points k) e) in
        rw n (c.good k);
    unused = c.unused;
    few_strong = omega (arith, length-set r.strong i none, c.few_strong);
    few_weak = c.few_weak;
  }

  dropped :
      (o : Option ℕ)
      → get_or r.strong i none ≡ o
      → Safe (length r.strong) (length r.weak) (
          remove_strong o r.store >>= λ s.
          some (record r { store = s; strong = set r.strong i none }))
  unfolding remove_strong
  dropped none e = record {
    refs = record r { strong = set r.strong i none };
    returns = refl;
    counted = null_kept e;
    strong_size = length-set r.strong i none;
    weak_size = refl;
  }
  dropped (some m) e =
      let pos : 0 < count m r.strong = count-pos m i r.strong e in
      let (d, here) =
        Good-some (r.store.middle m) (count m r.strong) (count m r.weak) (c.good m) (omega arith) in
      let g : Good (some d) (count m r.strong) (count m r.weak) =
        subst (λ o. Good o (count m r.strong) (count m r.weak)) here (c.good m) in
      let x = remove_strong-Removed m r.store d (count m r.strong) (count m r.weak) g pos in
      let n : count m (set r.strong i none) ≡ count m r.strong - 1 =
        omega (arith, count-set m i none r.strong lt, ap (points m) e, points-eq m) in
      record {
        refs = record r { store = x.store; strong = set r.strong i none };
        returns = rw (here, x.returns) refl;
        counted =
            strong_changed r c i lt m d x.after none x.store here x.differs (rw n x.good)
              (λ k ne. ap (points k) e ∙ points-ne m k ne);
        strong_size = length-set r.strong i none;
        weak_size = refl;
      }

  -- When the counts of every middle are those of the variables that refer to it, letting the
  -- reference of a strong variable go returns, that is, it touches no freed middle and fails no
  -- assertion, and the counts are again those of the variables.
  pub drop_strong-Safe : Safe (length r.strong) (length r.weak) (drop_strong i r)
  unfolding drop_strong
  drop_strong-Safe = dropped (get_or r.strong i none) refl

  -- A null variable takes a reference to a middle that some variable refers to.
  pub taken :
      (m : ℕ)
      → get_or r.strong i none ≡ none
      → 0 < count m r.strong + count m r.weak
      → Safe (length r.strong) (length r.weak) (set_strong i r (add_strong (some m) r.store))
  unfolding add_strong
  taken m e pos =
      let (d, here) =
        Good-some (r.store.middle m) (count m r.strong) (count m r.weak) (c.good m) pos in
      let g : Good (some d) (count m r.strong) (count m r.weak) =
        subst (λ o. Good o (count m r.strong) (count m r.weak)) here (c.good m) in
      let few : count m r.strong < 2 ^ 63 = omega (arith, count-le m r.strong, c.few_strong) in
      let x = add_strong-Added m r.store d (count m r.strong) (count m r.weak) g here few in
      let v : Option ℕ = if ltb 0 (count m r.strong) then some m else none in
      let n : count m (set r.strong i v)
          ≡ (if ltb 0 (count m r.strong) then count m r.strong + 1 else count m r.strong) =
        ground (arith, count-set m i v r.strong lt, ap (points m) e, points-eq m) in
      let w : (if ltb 0 (count m r.strong) then count m r.weak else count m r.weak)
          ≡ count m r.weak =
        ground arith in
      record {
        refs = record r { store = x.store; strong = set r.strong i v };
        returns = rw (here, x.returns) refl;
        counted =
            strong_changed r c i lt m d (some x.after) v x.store here x.differs
              (rw n (rw w at x.good)) (λ k ne. ap (points k) e ∙ ground (arith, points-ne m k ne));
        strong_size = length-set r.strong i v;
        weak_size = refl;
      }
