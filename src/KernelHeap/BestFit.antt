-- ===== src/KernelHeap/BestFit.antt =====
-- The search of `malloc` in kernel/heap.cc finds a best fit.
use p.Prelude.{
  ℕ, zero, suc, ◌+◌, ◌-◌, ◌^◌, ◌≤◌, ◌<◌, ◌≡◌, refl, sym, ◌∙◌, ◌≢◌, ◌⊎◌, inl, inr, true, false, ◌||◌,
  Option, some, List, [], ◌∷◌, arith, dec_lt, ℕ_discrete, ltb, ◌==◌, if◌then◌else◌, length,
}
use p.KernelHeap.{Heap, is_taken, size, next, search}

module _ (h : Heap) where
  -- The list of available blocks from `p` on.
  abbrev pub Links : ℕ → List ℕ → Type 0
  Links p [] = p ≡ 0
  Links p (b ∷ bs) =
      (p ≡ b) × (b ≢ 0) × (is_taken h b ≡ false) × (size h b < 2 ^ 64 - 1) × Links (next h b) bs

  abbrev pub Among : ℕ → List ℕ → Type 0
  Among b [] = ⊥
  Among b (c ∷ cs) = (b ≡ c) ⊎ Among b cs

  module _ (wanted : ℕ) where
    -- No block that fits is smaller than `m`.
    abbrev pub Bound : ℕ → List ℕ → Type 0
    Bound m [] = Unit {0}
    Bound m (b ∷ bs) = ((size h b < wanted) ⊎ (m ≤ size h b)) × Bound m bs

    -- No block fits.
    abbrev pub Small : List ℕ → Type 0
    Small [] = Unit {0}
    Small (b ∷ bs) = (size h b < wanted) × Small bs

    Bound-exact : (m : ℕ) (bs : List ℕ) → m ≤ wanted → Bound m bs
    Bound-exact m [] le = tt
    Bound-exact m (b ∷ bs) le = (
      elim (dec_lt (size h b) wanted) [ yes lt ↦ inl lt | no ge ↦ inr (omega arith) ],
      Bound-exact m bs le,
    )

    Bound-Small : (m p : ℕ) (bs : List ℕ) → 2 ^ 64 - 1 ≤ m → Links p bs → Bound m bs → Small bs
    Bound-Small m p [] le l b = tt
    Bound-Small m p (c ∷ cs) le l b = (ground arith, Bound-Small m (next h c) cs le l.4 b.1)

    Among-Links : (b p : ℕ) (bs : List ℕ) → Links p bs → Among b bs → b ≢ 0
    Among-Links b p [] l a = absurd a
    Among-Links b p (c ∷ cs) l (inl e) = λ z. l.1 (sym e ∙ z)
    Among-Links b p (c ∷ cs) l (inr a) = Among-Links b (next h c) cs l.4 a

    -- What the search returns, from a best size and block so far.
    pub record Best (blocks : List ℕ) (mx it : ℕ) (o : Option (ℕ × ℕ)) : Type 0 where
      pub best : ℕ
      pub block : ℕ
      pub returns : o ≡ some (best, block)
      pub smaller : best ≤ mx
      pub bound : Bound best blocks
      pub chosen :
          ((block ≡ it) × (best ≡ mx))
          ⊎ (Among block blocks × (size h block ≡ best) × (wanted ≤ best))

    search-Best :
        (rounds p : ℕ) (blocks : List ℕ) (mx it count_down : ℕ)
        → Links p blocks
        → length blocks < rounds
        → length blocks < count_down
        → Best blocks mx it (search rounds wanted h p mx it count_down)
    unfolding search
    search-Best zero p blocks mx it count_down l lt few = absurd (omega arith)
    search-Best (suc rounds) p [] mx it count_down l lt few = record {
      best = mx;
      block = it;
      returns = ground arith;
      smaller = omega arith;
      bound = tt;
      chosen = inl (refl, refl);
    }
    search-Best (suc rounds) p (b ∷ bs) mx it count_down l lt few =
        rw (l.0, not_null, l.2)
          (elim (dec_lt (size h b) wanted) [
            | yes lt' ↦
                let e : ltb (size h b) wanted ≡ true = ground arith in
                rw e (
                  skip
                    (search-Best rounds (next h b) bs mx it count_down l.4 (omega arith)
                      (omega arith))
                    lt')
            | no ge ↦
                let e : ltb (size h b) wanted ≡ false = ground arith in
                rw e (elim (ℕ_discrete (size h b) wanted) [
                  | yes q ↦
                      let f : (count_down - 1 == 0 || size h b == wanted) ≡ true = ground arith in
                      rw f (exact q)
                  | no ne ↦
                      let f : (count_down - 1 == 0 || size h b == wanted) ≡ false = ground arith in
                      rw f (
                        goes_on
                          (search-Best rounds (next h b) bs mx' it' (count_down - 1) l.4
                            (omega arith) (omega arith))
                          (omega arith))
                ])
          ])
      where
        mx' : ℕ
        mx' = if ltb (size h b) mx then size h b else mx

        it' : ℕ
        it' = if ltb (size h b) mx then b else it

        not_null : (b == 0) ≡ false
        not_null = ground (arith, l.1)

        skip : {o : Option (ℕ × ℕ)} → Best bs mx it o → size h b < wanted → Best (b ∷ bs) mx it o
        skip r lt' = record {
          best = r.best;
          block = r.block;
          returns = r.returns;
          smaller = r.smaller;
          bound = (inl lt', r.bound);
          chosen = elim r.chosen [ inl c ↦ inl c | inr (a, s, w) ↦ inr (inr a, s, w) ];
        }

        exact : size h b ≡ wanted → Best (b ∷ bs) mx it (some (mx', it'))
        exact q = record {
          best = mx';
          block = it';
          returns = refl;
          smaller = ground arith;
          bound = Bound-exact mx' (b ∷ bs) (ground arith);
          chosen = elim (dec_lt (size h b) mx) [ yes lt' ↦ ground arith | no ge ↦ ground arith ];
        }

        goes_on :
            {o : Option (ℕ × ℕ)} → Best bs mx' it' o → wanted ≤ size h b → Best (b ∷ bs) mx it o
        goes_on r fits = record {
          best = r.best;
          block = r.block;
          returns = r.returns;
          smaller = ground (arith, r.smaller);
          bound = (inr (ground (arith, r.smaller)), r.bound);
          chosen = elim r.chosen [
            | inr (a, s, w) ↦ inr (inr a, s, w)
            | inl (c, d) ↦ elim (dec_lt (size h b) mx) [
              | yes lt' ↦ inr (inl (ground arith), ground arith, ground arith)
              | no ge ↦ inl (ground arith, ground arith)
            ]
          ];
        }

    -- On a list of fewer than 20 available blocks, and no more than the heap has words, the search
    -- of `malloc` returns, and finds a best fit: a block of the list that is large enough, such
    -- that none that is large enough is smaller; or none (0), and then no block of the list is
    -- large enough.
    pub search-best :
        (blocks : List ℕ)
        → Links h.avail blocks
        → length blocks < 20
        → length blocks ≤ h.len
        → (best : ℕ) × (block : ℕ) × (search (h.len + 1) wanted h h.avail (2 ^ 64 - 1) 0 20
            ≡ some (best, block))
          × (((block ≡ 0) × Small blocks)
              ⊎ (Among block blocks × (size h block ≡ best) × (wanted ≤ best) × Bound best blocks))
    search-best blocks l few fits =
        let r = search-Best (h.len + 1) h.avail blocks (2 ^ 64 - 1) 0 20 l (omega arith) few in
        (
          r.best,
          r.block,
          r.returns,
          elim r.chosen [
            | inl (c, d) ↦ inl (c, Bound-Small r.best h.avail blocks (omega arith) l r.bound)
            | inr (a, s, w) ↦ inr (a, s, w, r.bound)
          ],
        )
