-- ===== src/Vmm/Munmap.antt =====
-- `VMM::munmap` of kernel/vmm.cc. The records are cut here; the pages of each cut range are given
-- back through `unmap_range`, over a state of its own.
pub mod Steps
pub mod Unmapped
use p.Prelude.{
  ℕ, ◌%◌, Bool, true, false, not, ◌&&◌, List, [], ◌∷◌, ltb, leb, ◌==◌, if◌then◌else◌, length, add64,
  sub64,
}
use p.Vmm.Vme.{Vme, frame_size, round_up_page}
use p.Vmm.Mmap.{Maps, is_shared_address}

-- How the loop ended: whether it met a shared record and returned, whether it cut anything, the
-- list, and the state of the pages.
pub record Cut {ℓ} (S : Type ℓ) : Type ℓ where
  pub refused : Bool
  pub touched : Bool
  pub vmes : List Vme
  pub pages : S

-- `overlap_start` and `overlap_end`
abbrev pub overlap_start : ℕ → Vme → ℕ
overlap_start start v = if ltb v.start start then start else v.start

abbrev pub overlap_end : ℕ → Vme → ℕ
overlap_end end v = if ltb end v.end then end else v.end

-- The right part of a record that is cut in the middle.
abbrev pub right_part : ℕ → Vme → Vme
right_part oe v = record v { start = oe; offset = add64 v.offset (sub64 oe v.start) }

-- What stands in the place of a record whose bytes from `os` to `oe` go.
unfoldable pub cut_record : ℕ → ℕ → Vme → List Vme → List Vme
cut_record os oe v rest =
    if os == v.start && oe == v.end
    then rest
    else if os == v.start
    then record v { start = oe; offset = add64 v.offset (sub64 oe os) } ∷ rest
    else if oe == v.end
    then record v { end = os } ∷ rest
    else record v { end = os } ∷ right_part oe v ∷ rest

module _ {ℓ} {S : Type ℓ} (unmap_range : ℕ → ℕ → S → S) where
  abbrev pub keep : Vme → Cut S → Cut S
  keep v c = record c { vmes = v ∷ c.vmes }

  -- The `while` loop, from `vmeLink` on.
  unfoldable pub cut_loop : ℕ → ℕ → Bool → List Vme → S → Cut S
  unfolding cut_record
  cut_loop start end touched [] s = record {
    refused = false;
    touched = touched;
    vmes = [];
    pages = s;
  }
  cut_loop start end touched (v ∷ vs) s =
      let os = overlap_start start v in
      let oe = overlap_end end v in
      let skip = cut_loop start end touched vs s in
      let cut = cut_loop start end true vs (unmap_range os oe s) in
      if leb end v.start
      then record { refused = false; touched = touched; vmes = v ∷ vs; pages = s }
      else if leb v.end start
      then keep v skip
      else if v.shared
      then record { refused = true; touched = touched; vmes = v ∷ vs; pages = s }
      else if leb oe os
      then keep v skip
      else record cut { vmes = cut_record os oe v cut.vmes }

  -- `munmap`: false is the result -1, true is 0.
  unfoldable pub munmap : ℕ → ℕ → ℕ → Maps → S → Bool × Maps × S
  munmap hhdm_offset start length m s =
      let end = add64 start (round_up_page length) in
      let c = cut_loop start end false m.private_vmes s in
      if not (start % frame_size == 0)
      then (false, m, s)
      else if length == 0
      then (false, m, s)
      else if is_shared_address hhdm_offset start
      then (false, m, s)
      else if ltb end start
      then (false, m, s)
      else (not c.refused && c.touched, record m { private_vmes = c.vmes }, c.pages)
