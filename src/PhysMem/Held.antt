-- ===== src/PhysMem/Held.antt =====
-- Frames are neither lost nor handed out twice.
use p.Prelude.{
  ℕ, zero, suc, ◌+◌, ◌*◌, ◌%◌, ◌^◌, ◌≤◌, ◌<◌, ◌≡◌, refl, sym, ◌∙◌, subst, inl, inr, Bool, true,
  false, ◌&&◌, Option, none, some, List, [], ◌∷◌, arith, ltb, leb, ◌==◌, if◌then◌else◌,
  Option-cases,
}
use mathlib.Core.Option.{some_inj}
use p.PhysMem.{Range, PhysMem, Allocated, ppn_of, split, alloc, free}

abbrev is_page : ℕ → Range → Bool
is_page f r = leb r.base (f * 4096) && ltb (f * 4096) (r.base + r.length)

-- How often a frame stands in a list of frames, and in a list of ranges.
unfoldable pub count : ℕ → List ℕ → ℕ
count f [] = 0
count f (x ∷ xs) = (if x == f then 1 else 0) + count f xs

unfoldable pub in_ranges : ℕ → List Range → ℕ
in_ranges f [] = 0
in_ranges f (r ∷ rs) = (if is_page f r then 1 else 0) + in_ranges f rs

-- How often the allocator holds a frame.
abbrev pub held : ℕ → PhysMem → ℕ
held f p = count f p.avail + in_ranges f p.free_ranges

-- Ranges of whole pages, not empty, below 2 ^ 52.
abbrev pub Pages : List Range → Type 0
Pages [] = Unit {0}
Pages (r ∷ rs) =
    (r.base % 4096 ≡ 0)
    × (r.length % 4096 ≡ 0)
    × (0 < r.length)
    × (r.base + r.length ≤ 2 ^ 52)
    × Pages rs

split-Pages : (r : Range) (rs : List Range) → Pages (r ∷ rs) → Pages (split r rs)
split-Pages r rs h = ground arith

split-in_ranges :
    (f : ℕ) (r : Range) (rs : List Range)
    → Pages (r ∷ rs)
    → in_ranges f (split r rs) + (if ppn_of r.base == f then 1 else 0) ≡ in_ranges f (r ∷ rs)
unfolding in_ranges
split-in_ranges f r rs h = ground arith

moved_avail :
    (p : PhysMem) (f x : ℕ) (xs : List ℕ)
    → count f xs + in_ranges f p.free_ranges + (if x == f then 1 else 0)
      ≡ count f (x ∷ xs) + in_ranges f p.free_ranges
unfolding count
moved_avail p f x xs = omega arith

-- One allocation.
pub record Took (p : PhysMem) (frame : ℕ) (p' : PhysMem) : Type 0 where
  pub moved : (f : ℕ) → held f p' + (if frame == f then 1 else 0) ≡ held f p
  pub pages : Pages p'.free_ranges

pub alloc-Took :
    (p p' : PhysMem) (frame : ℕ) (cleared : Bool)
    → Pages p.free_ranges
    → alloc p ≡ some (frame, cleared, p')
    → Took p frame p'
unfolding alloc
alloc-Took p p' frame cleared h e = by_case p.avail p.free_ranges refl refl
  where
    at : {x : ℕ × Bool × PhysMem} → alloc p ≡ some x → Took p x.0 x.2 → Took p frame p'
    at q t = subst (λ (y : ℕ × Bool × PhysMem). Took p y.0 y.2) (some_inj.0 (sym q ∙ e)) t

    by_case : (a : List ℕ) (rs : List Range) → p.avail ≡ a → p.free_ranges ≡ rs → Took p frame p'
    by_case (x ∷ xs) rs ea er =
        at {x = (x, false, record p { avail = xs })} (rw ea refl)
          (record { moved = λ f. rw ea (moved_avail p f x xs); pages = h })
    by_case [] [] ea er = absurd (cc (rw (ea, er) at e))
    by_case [] (r ∷ rs) ea er =
        at {x = (ppn_of r.base, true, record p { free_ranges = split r rs })} (rw (ea, er) refl)
          (record {
            moved = λ f. rw er (omega (arith, split-in_ranges f r rs (rw er at h)));
            pages = split-Pages r rs (rw er at h);
          })

-- What the rest of the kernel does: it takes frames, and gives back one of those that it has.
pub data Event : Type 0 where
  takes : Event
  gives : ℕ → Event

-- A frame given back, and those that are left.
unfoldable pub pick : ℕ → List ℕ → Option (ℕ × List ℕ)
pick i [] = none
pick zero (x ∷ xs) = some (x, xs)
pick (suc i) (x ∷ xs) = elim (pick i xs) [ none ↦ none | some (y, ys) ↦ some (y, x ∷ ys) ]

abbrev took : List ℕ → Allocated → Option (PhysMem × List ℕ)
took owned none = none
took owned (some (frame, cleared, p)) = some (p, frame ∷ owned)

abbrev gave : PhysMem → List ℕ → Option (ℕ × List ℕ) → PhysMem × List ℕ
gave p owned none = (p, owned)
gave p owned (some (frame, rest)) = (free frame p, rest)

unfoldable pub run : List Event → PhysMem → List ℕ → Option (PhysMem × List ℕ)
run [] p owned = some (p, owned)
run (takes ∷ es) p owned = elim (took owned (alloc p)) [
  | none ↦ none
  | some (p', owned') ↦ run es p' owned'
]
run (gives i ∷ es) p owned = let (p', owned') = gave p owned (pick i owned) in run es p' owned'

pick-count :
    (f i y : ℕ) (xs ys : List ℕ)
    → pick i xs ≡ some (y, ys)
    → count f ys + (if y == f then 1 else 0) ≡ count f xs
unfolding pick count
pick-count f i y [] ys h = cc
pick-count f zero y (x ∷ xs) ys h = ground arith
pick-count f (suc i) y (x ∷ xs) ys h = elim (Option-cases (pick i xs)) [
  | inl e ↦ absurd (ground (arith, e))
  | inr ((z, zs), e) ↦ ground (arith, e, pick-count f i z xs zs e)
]

gave-held :
    (f i : ℕ) (p : PhysMem) (owned : List ℕ)
    → let (p', owned') = gave p owned (pick i owned) in
      (held f p' + count f owned' ≡ held f p + count f owned) × (p'.free_ranges ≡ p.free_ranges)
unfolding free count
gave-held f i p owned = elim (Option-cases (pick i owned)) [
  | inl e ↦ rw e (refl, refl)
  | inr ((y, ys), e) ↦ rw e (omega (arith, pick-count f i y owned ys e), refl)
]

-- Over any sequence of allocations and frees in which only frames are freed that were handed out
-- and not freed since, starting from ranges of whole pages below 2 ^ 52, and that does not run out
-- of frames: how often a frame stands with the allocator and with the rest of the kernel together
-- does not change. So a frame that the memory map has once never has two owners, and none is lost.
pub run-held :
    (es : List Event) (p p' : PhysMem) (owned owned' : List ℕ) (f : ℕ)
    → Pages p.free_ranges
    → run es p owned ≡ some (p', owned')
    → held f p' + count f owned' ≡ held f p + count f owned
unfolding run count
run-held [] p p' owned owned' f h e =
    subst (λ (t : PhysMem × List ℕ). held f t.0 + count f t.1 ≡ held f p + count f owned)
      (some_inj.0 e) refl
run-held (takes ∷ es) p p' owned owned' f h e = elim (Option-cases (alloc p)) [
  | inl q ↦ absurd (cc (rw (run, q) at e))
  | inr ((frame, cleared, p₁), q) ↦
      let t = alloc-Took p p₁ frame cleared h q in
      omega
        (arith, t.moved f, run-held es p₁ p' (frame ∷ owned) owned' f t.pages (rw (run, q) at e))
]
run-held (gives i ∷ es) p p' owned owned' f h e =
    let g = gave-held f i p owned in
    omega (
      arith,
      g.0,
      run-held es (gave p owned (pick i owned)).0 p' (gave p owned (pick i owned)).1 owned' f
          (subst Pages (sym g.1) h) e,
    )
