-- ===== src/Vmm/Mmap/Placed.antt =====
-- What `VMM::mmap` promises: where the new mapping lies and what the lists say afterwards.
use p.Prelude.{
  ℕ, ◌+◌, ◌-◌, ◌/◌, ◌%◌, ◌^◌, ◌≤◌, ◌<◌, ◌≡◌, refl, ◌≢◌, ◌⊎◌, inl, inr, Bool, true, false, ◌||◌,
  Option, none, some, List, arith, ltb, ◌==◌, Bool-cases, add64,
}
use p.Vmm.Vme.{Vme, Source, round_up_page, backing, Layout}
use p.Vmm.Mmap.{
  Maps, mmap, mmap_private, mmap_shared, rejects, map_failed, shared_start, shared_end, new_vme,
}
use p.Vmm.Mmap.Gap.{
  gap, put, Fills, le-gap, gap-aligned, put-Layout, gap-free, backing-put, gap-lowest,
}

-- `roundUpPage` gives the least multiple of the page size that is not below its argument.
pub round_up_page_lem :
    (n : ℕ)
    → n ≤ 2 ^ 64 - 4096
    → (n ≤ round_up_page n) × (round_up_page n < n + 4096) × (round_up_page n % 4096 ≡ 0)
unfolding round_up_page
round_up_page_lem n h = omega arith

-- What a call that returns the address `a` for `len` bytes has done to a list.
pub record Placed (lo a len : ℕ) (shared : Bool) (file : Option ℕ) (offset : ℕ) (old new : List Vme)
    : Type 0 where
  pub from_lo : lo ≤ a
  pub page : a % 4096 ≡ 0
  pub layout : Layout lo new
  pub was_free : (va : ℕ) → a ≤ va → va < a + len → backing va old ≡ none
  pub inside :
      (va : ℕ)
      → a ≤ va
      → va < a + len
      → backing va new
        ≡ some (record { shared = shared; node = file; offset = add64 offset (va - a) })
  pub outside : (va : ℕ) → (va < a) ⊎ (a + len ≤ va) → backing va new ≡ backing va old
  pub lowest :
      (b : ℕ)
      → lo ≤ b
      → b < a
      → (va : ℕ) × (b ≤ va) × (va < b + len) × (source : Source) × (backing va old ≡ some source)

-- Every range from `lo` on that ends at `top` or below meets a mapped byte.
abbrev pub Full : ℕ → ℕ → ℕ → List Vme → Type 0
Full lo top len l =
    (b : ℕ)
    → lo ≤ b
    → b + len ≤ top
    → (va : ℕ) × (b ≤ va) × (va < b + len) × (source : Source) × (backing va l ≡ some source)

gap-Full :
    (lo top len : ℕ) (l : List Vme)
    → Layout lo l
    → 0 < len
    → top < gap lo len l + len
    → Full lo top len l
gap-Full lo top len l lay pos over b le fits = gap-lowest len lo l b lay pos le (omega arith)

put-Placed :
    (lo len : ℕ) (l : List Vme) (shared : Bool) (file : Option ℕ) (offset : ℕ)
    → lo % 4096 ≡ 0
    → Layout lo l
    → 0 < len
    → len % 4096 ≡ 0
    → gap lo len l + len < 2 ^ 64
    → Placed lo
        (gap lo len l)
        len
        shared
        file
        offset
        l
        (put lo len (new_vme (gap lo len l) len shared file offset) l)
put-Placed lo len l shared file offset e lay pos al fits = record {
  from_lo = le-gap len lo l lay;
  page = gap-aligned len lo l e lay;
  layout = put-Layout len lo l v e lay f;
  was_free = λ va le lt. gap-free len lo l va lay fits le lt;
  inside = λ va le lt. ground (arith, backing-put len lo l v va lay f);
  outside = λ va o. ground (arith, backing-put len lo l v va lay f);
  lowest = λ b le lt. gap-lowest len lo l b lay pos le lt;
}
  where
    v : Vme
    v = new_vme (gap lo len l) len shared file offset

    f : Fills len v (gap lo len l)
    f = omega arith

mmap_private-Placed :
    (len : ℕ) (file : Option ℕ) (offset : ℕ) (s : Maps)
    → 0 < len
    → len % 4096 ≡ 0
    → Layout 0x1000 s.private_vmes
    → (mmap_private len file offset s).0 + len < 2 ^ 64
    → Placed 0x1000
        (mmap_private len file offset s).0
        len
        false
        file
        offset
        s.private_vmes
        (mmap_private len file offset s).1.private_vmes
unfolding mmap_private
mmap_private-Placed len file offset s pos al lay fits =
    put-Placed 0x1000 len s.private_vmes false file offset refl lay pos al fits

mmap_shared-Placed :
    (hhdm_offset len : ℕ) (file : Option ℕ) (offset : ℕ) (s : Maps)
    → 0 < len
    → len % 4096 ≡ 0
    → shared_start hhdm_offset % 4096 ≡ 0
    → Layout (shared_start hhdm_offset) s.shared_vmes
    → let (a, s') = mmap_shared hhdm_offset len file offset s in
      ((a ≡ map_failed) × (s' ≡ s) × Full (shared_start hhdm_offset) shared_end len s.shared_vmes)
      ⊎ (Placed (shared_start hhdm_offset) a len true file offset s.shared_vmes s'.shared_vmes
          × (a + len ≤ shared_end))
unfolding mmap_shared
mmap_shared-Placed hhdm_offset len file offset s pos al base lay =
    elim (Bool-cases (ltb shared_end c || ltb (shared_end - c) len)) [
      | inl full ↦
          let over : shared_end < c + len = ground arith in
          rw full (
            inl (
              refl,
              refl,
              gap-Full (shared_start hhdm_offset) shared_end len s.shared_vmes lay pos over,
            ))
      | inr free ↦
          let fits : c + len ≤ shared_end = ground arith in
          rw free (
            inr (
              put-Placed (shared_start hhdm_offset) len s.shared_vmes true file offset base lay pos
                  al (omega arith),
              fits,
            ))
    ]
  where
    c : ℕ
    c = gap (shared_start hhdm_offset) len s.shared_vmes

mmap_private_rest :
    (len : ℕ) (file : Option ℕ) (offset : ℕ) (s : Maps)
    → let s' = (mmap_private len file offset s).1 in
      s' ≡ record s { private_vmes = s'.private_vmes }
unfolding mmap_private
mmap_private_rest len file offset s = refl

mmap_shared_rest :
    (hhdm_offset len : ℕ) (file : Option ℕ) (offset : ℕ) (s : Maps)
    → let s' = (mmap_shared hhdm_offset len file offset s).1 in
      s' ≡ record s { shared_vmes = s'.shared_vmes }
unfolding mmap_shared
mmap_shared_rest hhdm_offset len file offset s = ground arith

module _ (hhdm_offset length flags : ℕ) (file : Option ℕ) (offset : ℕ) (s : Maps) where
  rejects-length : (anonymous : Bool) → rejects length anonymous file offset ≡ false → 0 < length
  unfolding rejects
  rejects-length anonymous h = ground arith

  abbrev call : ℕ × Maps
  call = mmap hhdm_offset length flags file offset s

  -- A call with length 0, with an offset that is not a multiple of the page size, with a file and
  -- MAP_ANONYMOUS, or with neither, returns (void *)-1 and changes nothing.
  mmap-rejects :
      ((length ≡ 0)
        ⊎ (offset % 4096 ≢ 0)
        ⊎ ((flags / 2 % 2 ≡ 1) × (file ≢ none))
        ⊎ ((flags / 2 % 2 ≡ 0) × (file ≡ none)))
      → call ≡ (map_failed, s)
  unfolding mmap rejects
  mmap-rejects h = ground arith

  -- A private mapping that is not refused on its arguments, with a length that rounds up without
  -- wrapping, a list in order, and an end that does not pass 2 ^ 64: it is placed at the lowest
  -- free range from 0x1000 on, answers for that range with its file and offset, leaves every other
  -- address and the order of the list as they were, and nothing else changes.
  pub mmap-Placed_private :
      rejects length (flags / 2 % 2 == 1) file offset ≡ false
      → flags % 2 ≡ 0
      → length ≤ 2 ^ 64 - 4096
      → Layout 0x1000 s.private_vmes
      → call.0 + round_up_page length < 2 ^ 64
      → Placed 0x1000 call.0
          (round_up_page length)
          false
          file
          offset
          s.private_vmes
          call.1.private_vmes
        × (call.1 ≡ record s { private_vmes = call.1.private_vmes })
  unfolding mmap
  mmap-Placed_private ok priv small lay fits = ground (
    arith,
    rejects-length (flags / 2 % 2 == 1),
    round_up_page_lem length,
    mmap_private-Placed (round_up_page length) file offset s,
    mmap_private_rest (round_up_page length) file offset s,
  )

  -- A shared mapping that is not refused on its arguments, with a length that rounds up without
  -- wrapping and a list of shared records in order: either the call fails and changes nothing, and
  -- then every range of that length in the shared window meets a mapped byte; or it is placed at the lowest free range of the shared window, ends
  -- inside the window, and nothing else changes.
  pub mmap-Placed_shared :
      rejects length (flags / 2 % 2 == 1) file offset ≡ false
      → flags % 2 ≡ 1
      → length ≤ 2 ^ 64 - 4096
      → shared_start hhdm_offset % 4096 ≡ 0
      → Layout (shared_start hhdm_offset) s.shared_vmes
      → ((call ≡ (map_failed, s))
          × Full (shared_start hhdm_offset) shared_end (round_up_page length) s.shared_vmes)
        ⊎ (Placed
              (shared_start hhdm_offset)
              call.0
              (round_up_page length)
              true
              file
              offset
              s.shared_vmes
              call.1.shared_vmes
            × (call.0 + round_up_page length ≤ shared_end)
            × (call.1 ≡ record s { shared_vmes = call.1.shared_vmes }))
  unfolding mmap
  mmap-Placed_shared ok sh small al lay = ground (
    arith,
    rejects-length (flags / 2 % 2 == 1),
    round_up_page_lem length,
    mmap_shared-Placed hhdm_offset (round_up_page length) file offset s,
    mmap_shared_rest hhdm_offset (round_up_page length) file offset s,
  )
