-- ===== src/Vmm/PageIn/Found.antt =====
-- What a page that is brought in holds, and which pages can be brought in.
use p.Prelude.{
  ltb→lt, take-nil, slice, ℕ, zero, suc, ◌-◌, ◌^◌, ◌<◌, ◌≡◌, refl, sym, ap, ◌∙◌, inl, inr, Bool,
  true, false, ◌&&◌, Option, none, some, List, [], ◌∷◌, ◌++◌, arith, ltb, if◌then◌else◌,
  Option-cases, length,
}
use p.BlockIo.{Device, error, got}
use p.BlockIo.Slice.{Holds, read_all_lem}
use p.Vmm.Vme.{Vme, Source, find_vme, source_of, backing}
use p.Vmm.Mmap.{Maps}
use p.Vmm.PageIn.{
  Entries, over_zeros, file_offset, from_node, page_bytes, put, zeros, map_page_from_vme,
  ensure_mapped_page,
}

-- `backing` is the walk of `ensureMappedPage`.
find_vme-backing :
    (va : ℕ) (l : List Vme)
    → backing va l ≡ elim (find_vme va l) [ none ↦ none | some v ↦ some (source_of v va) ]
unfolding find_vme backing
find_vme-backing va [] = refl
find_vme-backing va (v ∷ vs) = ground (arith, find_vme-backing va vs)

-- The bytes of a file padded with zeros to a page.
abbrev pub padded : List ℕ → List ℕ
padded bytes = bytes ++ zeros (4096 - length bytes)

-- What the page of a source holds: zeros if it has no file, and else the file's bytes from its
-- place on, with zeros behind the file's end.
abbrev pub contents : (ℕ → List ℕ) → Source → List ℕ
contents file src = elim src.node [
  | none ↦ zeros 4096
  | some i ↦ padded (slice src.offset 4096 (file i))
]

slice-past : (off n : ℕ) (xs : List ℕ) → length xs < off → slice off n xs ≡ []
slice-past zero n xs h = absurd (omega arith)
slice-past (suc off) n [] h = take-nil n
slice-past (suc off) n (x ∷ xs) h = slice-past off n xs (omega arith)

over_zeros-padded :
    (off : ℕ) (bytes : List ℕ) (past : Bool)
    → past ≡ ltb (length bytes) off
    → over_zeros (some (if past && true then error else got (slice off 4096 bytes)))
      ≡ some (padded (slice off 4096 bytes))
over_zeros-padded off bytes true e =
    rw (slice-past off 4096 bytes (ltb→lt (length bytes) off (sym e)))
over_zeros-padded off bytes false e = refl

module _ (node : ℕ → Device) (file : ℕ → List ℕ) (h : (i : ℕ) → Holds (node i) (file i)) where
  page_bytes-contents :
      (v : Vme) (page : ℕ)
      → (source_of v page).offset < 2 ^ 32
      → page_bytes node v page ≡ some (contents file (source_of v page))
  unfolding page_bytes
  page_bytes-contents v page small = by_node v.node
    where
      at : file_offset v page ≡ (source_of v page).offset
      at = omega (arith, small)

      by_node :
          (n : Option ℕ)
          → from_node node v page n ≡ some (contents file (record (source_of v page) { node = n }))
      by_node none = refl
      by_node (some i) = rw (read_all_lem (node i) (file i) (h i) (file_offset v page) 4096) (
          over_zeros-padded (file_offset v page) (file i) _ refl
          ∙ ap (λ k. some (padded (slice k 4096 (file i)))) at)

  module _ {S : Type 0} (t : Entries S) where
    -- The source of an address: the private list answers first.
    abbrev pub source : Maps → ℕ → Option Source
    source m page = elim (backing page m.private_vmes) [
      | some src ↦ some src
      | none ↦ backing page m.shared_vmes
    ]

    -- The place in the file is below 2 ^ 32.
    abbrev pub Near : Option Source → Type 0
    Near none = Unit {0}
    Near (some src) = src.offset < 2 ^ 32

    -- Demand paging, over files whose devices hold their bytes, where the place of the page in its
    -- file, if a file is behind it, is below 2 ^ 32: a page that is present stays as it
    -- is; one that no mapping covers is refused; and any other gets a frame with the contents of
    -- its source, that of the private list if there is one: the file's bytes from the mapping's
    -- place on and zeros behind the file's end, or zeros if there is no file.
    pub ensure_mapped_page_lem :
        (m : Maps) (page : ℕ) (s : S)
        → Near (source m page)
        → ensure_mapped_page t node m page s ≡ (
            if t.present page s then some (true, s) else elim (source m page) [
              | none ↦ some (false, s)
              | some src ↦ put t node page s (some (contents file src))
            ])
    unfolding ensure_mapped_page map_page_from_vme
    ensure_mapped_page_lem m page s near = elim (Option-cases (find_vme page m.private_vmes)) [
      | inr (v, e) ↦
          ground (arith, e, find_vme-backing page m.private_vmes, page_bytes-contents v page)
      | inl e ↦ elim (Option-cases (find_vme page m.shared_vmes)) [
        | inr (v, f) ↦ ground (
          arith,
          e,
          f,
          find_vme-backing page m.private_vmes,
          find_vme-backing page m.shared_vmes,
          page_bytes-contents v page,
        )
        | inl f ↦
            ground (
              arith,
              e,
              f,
              find_vme-backing page m.private_vmes,
              find_vme-backing page m.shared_vmes,
            )
      ]
    ]
