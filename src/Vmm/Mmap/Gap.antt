-- ===== src/Vmm/Mmap/Gap.antt =====
-- The gap that the loop of `VMM::mmap` finds, and the list with a record put there.
use p.Prelude.{
  ℕ, ◌+◌, ◌%◌, ◌^◌, ◌≤◌, ◌<◌, ◌≡◌, refl, none, some, List, [], ◌∷◌, ◌++◌, if◌then◌else◌, arith,
}
use p.Vmm.Vme.{Vme, Source, source_of, backing, Layout, covers, backing-below}
use p.Prelude.{dec_lt}
use p.Vmm.Mmap.{search_gap}

abbrev pub gap : ℕ → ℕ → List Vme → ℕ
gap lo len l = (search_gap lo len l).0

-- The list with `v` between what the search passed and what it did not.
abbrev pub put : ℕ → ℕ → Vme → List Vme → List Vme
put lo len v l = let (c, passed, rest) = search_gap lo len l in passed ++ (v ∷ rest)

module _ (len : ℕ) where
  pub search_gap-append :
      (lo : ℕ) (l : List Vme) → (search_gap lo len l).1 ++ (search_gap lo len l).2 ≡ l
  unfolding search_gap
  search_gap-append lo [] = refl
  search_gap-append lo (v ∷ vs) = ground (arith, search_gap-append v.end vs)

  pub le-gap : (lo : ℕ) (l : List Vme) → Layout lo l → lo ≤ gap lo len l
  unfolding search_gap
  le-gap lo [] h = omega arith
  le-gap lo (v ∷ vs) h = ground (arith, le-gap v.end vs)

  pub gap-aligned : (lo : ℕ) (l : List Vme) → lo % 4096 ≡ 0 → Layout lo l → gap lo len l % 4096 ≡ 0
  unfolding search_gap
  gap-aligned lo [] e h = e
  gap-aligned lo (v ∷ vs) e h = ground (arith, gap-aligned v.end vs)

  -- The record that fills the gap.
  pub record Fills (v : Vme) (c : ℕ) : Type 0 where
    pub starts : v.start ≡ c
    pub ends : v.end ≡ c + len
    pub fits : c + len < 2 ^ 64
    pub some_page : 0 < len
    pub aligned : len % 4096 ≡ 0

  pub put-Layout :
      (lo : ℕ) (l : List Vme) (v : Vme)
      → lo % 4096 ≡ 0
      → Layout lo l
      → Fills v (gap lo len l)
      → Layout lo (put lo len v l)
  unfolding search_gap
  put-Layout lo [] v e h f = ground arith
  put-Layout lo (w ∷ ws) v e h f =
      ground (arith, put-Layout w.end ws v, gap-aligned w.end ws, le-gap w.end ws)

  -- The gap was free.
  pub gap-free :
      (lo : ℕ) (l : List Vme) (va : ℕ)
      → Layout lo l
      → gap lo len l + len < 2 ^ 64
      → gap lo len l ≤ va
      → va < gap lo len l + len
      → backing va l ≡ none
  unfolding search_gap backing
  gap-free lo [] va h f le lt = refl
  gap-free lo (w ∷ ws) va h f le lt =
      ground (arith, gap-free w.end ws va, le-gap w.end ws, backing-below va w.end ws)

  -- The new record answers for its own range, and every other address is answered as before.
  pub backing-put :
      (lo : ℕ) (l : List Vme) (v : Vme) (va : ℕ)
      → Layout lo l
      → Fills v (gap lo len l)
      → backing va (put lo len v l) ≡ (if covers v va then some (source_of v va) else backing va l)
  unfolding search_gap backing
  backing-put lo [] v va h f = refl
  backing-put lo (w ∷ ws) v va h f = ground (arith, backing-put w.end ws v va, le-gap w.end ws)

  -- No lower address would do: the range from it meets a mapped byte.
  pub gap-lowest :
      (lo : ℕ) (l : List Vme) (b : ℕ)
      → Layout lo l
      → 0 < len
      → lo ≤ b
      → b < gap lo len l
      → (va : ℕ) × (b ≤ va) × (va < b + len) × (source : Source) × (backing va l ≡ some source)
  unfolding search_gap backing
  gap-lowest lo [] b h pos le lt = absurd (omega arith)
  gap-lowest lo (v ∷ vs) b h pos le lt = elim (dec_lt b v.start) [
    | yes below ↦ (v.start, omega arith, ground arith, source_of v v.start, ground arith)
    | no above ↦ elim (dec_lt b v.end) [
      | yes in_v ↦ (b, omega arith, omega arith, source_of v b, ground arith)
      | no past ↦
          let (va, ge, under, source, found) =
            gap-lowest v.end vs b h.5 pos (omega arith) (ground arith) in
          (va, ge, under, source, ground arith)
    ]
  ]
