-- ===== src/Queue/Fifo.antt =====
-- The queue is a list: things leave it in the order in which they came.
use p.Prelude.{
  ℕ, ◌-◌, ◌^◌, ◌<◌, ◌≡◌, refl, sym, ap, ◌∙◌, subst, ◌≢◌, Option, none, some, List, [], ◌∷◌, ◌++◌,
  arith, length, length-append, add64,
}
use p.Queue.{Queue, link, add, add_to, behind, counted, after, remove, remove_from}

-- From `o` on, the links run through the list to the null pointer.
abbrev pub Chain : Option ℕ → (ℕ → Option ℕ) → List ℕ → Type 0
Chain o next [] = o ≡ none
Chain o next (x ∷ xs) = (o ≡ some x) × Chain (next x) next xs

abbrev pub Absent : ℕ → List ℕ → Type 0
Absent t [] = Unit {0}
Absent t (x ∷ xs) = (t ≢ x) × Absent t xs

abbrev pub Distinct : List ℕ → Type 0
Distinct [] = Unit {0}
Distinct (x ∷ xs) = Absent x xs × Distinct xs

-- The last thing of a list that starts with `x`.
abbrev pub last_of : ℕ → List ℕ → ℕ
last_of x [] = x
last_of x (y ∷ ys) = last_of y ys

abbrev pub Last : Option ℕ → List ℕ → Type 0
Last o [] = o ≡ none
Last o (x ∷ xs) = o ≡ some (last_of x xs)

pub record Represents (q : Queue) (xs : List ℕ) : Type 0 where
  pub chain : Chain q.first q.next xs
  pub distinct : Distinct xs
  pub last : Last q.last xs
  pub count : q.size_count ≡ length xs

Absent-last : (t x : ℕ) (xs : List ℕ) → t ≢ x → Absent t xs → t ≢ last_of x xs
Absent-last t x [] ne a = ne
Absent-last t x (y ∷ ys) ne a = Absent-last t y ys a.0 a.1

Absent-append : (t u : ℕ) (xs : List ℕ) → Absent t xs → t ≢ u → Absent t (xs ++ (u ∷ []))
Absent-append t u [] a ne = (ne, tt)
Absent-append t u (x ∷ xs) a ne = (a.0, Absent-append t u xs a.1 ne)

Distinct-append : (t : ℕ) (xs : List ℕ) → Distinct xs → Absent t xs → Distinct (xs ++ (t ∷ []))
Distinct-append t [] d a = (tt, tt)
Distinct-append t (x ∷ xs) d a =
    (Absent-append x t xs d.0 (λ e. a.0 (sym e)), Distinct-append t xs d.1 a.1)

last_of-append : (t x : ℕ) (xs : List ℕ) → last_of x (xs ++ (t ∷ [])) ≡ t
last_of-append t x [] = refl
last_of-append t x (y ∷ ys) = last_of-append t y ys

link-ne : (next : ℕ → Option ℕ) (t k : ℕ) (v : Option ℕ) → t ≢ k → link next t v k ≡ next k
link-ne next t k v ne = ground arith

link-eq : (next : ℕ → Option ℕ) (t : ℕ) (v : Option ℕ) → link next t v t ≡ v
link-eq next t v = ground arith

-- The links after `t` has been put behind the list.
Chain-append :
    (next : ℕ → Option ℕ) (t x : ℕ) (xs : List ℕ) (o : Option ℕ)
    → Chain o next (x ∷ xs)
    → Distinct (x ∷ xs)
    → Absent t (x ∷ xs)
    → Chain o (link (link next t none) (last_of x xs) (some t)) ((x ∷ xs) ++ (t ∷ []))
Chain-append next t x [] o c d a = (
  c.0,
  (
    link-eq (link next t none) x (some t),
    link-ne (link next t none) x t (some t) (λ e. a.0 (sym e)) ∙ link-eq next t none,
  ),
)
Chain-append next t x (y ∷ ys) o c d a = (
  c.0,
  subst (λ v. Chain v (link (link next t none) (last_of y ys) (some t)) ((y ∷ ys) ++ (t ∷ [])))
      (sym (
        link-ne (link next t none) (last_of y ys) x (some t)
          (λ e. Absent-last x y ys d.0.0 d.0.1 (sym e))
        ∙ link-ne next t x none a.0))
      (Chain-append next t y ys (next x) c.1 d.1 a.1),
)

-- On a queue that represents a list, for a thing that is not in it, and a size that does not wrap:
-- `add` meets no null pointer, and gives a queue that represents the list with the thing at its
-- end.
pub add-Represents :
    (t : ℕ) (q : Queue) (xs : List ℕ)
    → Represents q xs
    → Absent t xs
    → length xs < 2 ^ 64 - 1
    → (q' : Queue) × (add t q ≡ some q') × Represents q' (xs ++ (t ∷ []))
unfolding add
add-Represents t q [] r a few = (
  record {
    first = some t;
    last = some t;
    size_count = add64 q.size_count 1;
    next = link q.next t none;
  },
  ap (add_to t (counted t q)) r.chain,
  record {
    chain = (refl, link-eq q.next t none);
    distinct = (tt, tt);
    last = refl;
    count = omega (arith, r.count);
  },
)
add-Represents t q (x ∷ xs) r a few = (
  record {
    first = q.first;
    last = some t;
    size_count = add64 q.size_count 1;
    next = link (link q.next t none) (last_of x xs) (some t);
  },
  ap (add_to t (counted t q)) r.chain.0 ∙ ap (behind t (counted t q)) r.last,
  record {
    chain = Chain-append q.next t x xs q.first r.chain r.distinct a;
    distinct = Distinct-append t (x ∷ xs) r.distinct a;
    last = ap some (sym (last_of-append t x xs));
    count = omega (arith, r.count, length-append xs (t ∷ []));
  },
)

-- On a queue that represents a list that is not empty, of fewer than 2 ^ 64 things, `remove` gives
-- the first of them, and leaves a queue that represents the others.
pub remove-Represents :
    (q : Queue) (x : ℕ) (xs : List ℕ)
    → Represents q (x ∷ xs)
    → length xs < 2 ^ 64 - 1
    → ((remove q).0 ≡ some x) × Represents (remove q).1 xs
unfolding remove
remove-Represents q x xs r few =
    subst (λ (t : Option ℕ × Queue). (t.0 ≡ some x) × Represents t.1 xs)
      (sym (ap (remove_from q) r.chain.0))
      (
        refl,
        record {
          chain = r.chain.1;
          distinct = r.distinct.1;
          last = last xs r.chain.1 r.last;
          count = omega (arith, r.count);
        },
      )
  where
    last :
        (xs : List ℕ)
        → Chain (q.next x) q.next xs
        → q.last ≡ some (last_of x xs)
        → Last (after q (q.next x)) xs
    last [] c l = ap (after q) c
    last (y ∷ ys) c l = ap (after q) c.0 ∙ l
