-- ===== src/Vmm/PageIn.antt =====
-- Demand paging in kernel/vmm.cc: `mapPageFromVme`, `ensureMappedPage`, `pageFaultHandler`.
pub mod Found
use p.Prelude.{
  ◌/◌, ◌*◌, ℕ, zero, suc, ◌-◌, ◌%◌, ◌^◌, Bool, true, false, Option, none, some, List, [], ◌∷◌, ◌++◌,
  if◌then◌else◌, length, add64, sub64,
}
use p.BlockIo.{Device, Reply, error, got, read_all}
use p.Vmm.Vme.{Vme, find_vme}
use p.Vmm.Mmap.{Maps}

-- The page tables of the current thread: whether `leafPte` gives a present entry, and the entry
-- made for a new frame that holds the bytes (`physMem.alloc` and `impl::map`, with all rights).
-- `none`: the kernel is out of frames, and stops.
pub record Entries (S : Type 0) : Type 0 where
  pub present : ℕ → S → Bool
  pub install : ℕ → List ℕ → S → Option S

-- The loop that clears a frame.
unfoldable pub zeros : ℕ → List ℕ
zeros zero = []
zeros (suc n) = 0 ∷ zeros n

-- The frame of a page: zeros, and over them what the file has at the record's place.
abbrev pub over_zeros : Option Reply → Option (List ℕ)
over_zeros none = none
over_zeros (some error) = some (zeros 4096)
over_zeros (some (got bytes)) = some (bytes ++ zeros (4096 - length bytes))

abbrev pub file_offset : Vme → ℕ → ℕ
file_offset v page = add64 v.offset (sub64 page v.start) % 2 ^ 32

abbrev pub from_node : (ℕ → Device) → Vme → ℕ → Option ℕ → Option (List ℕ)
from_node node v page none = some (zeros 4096)
from_node node v page (some i) = over_zeros (read_all (node i) (file_offset v page) 4096)

unfoldable pub page_bytes : (ℕ → Device) → Vme → ℕ → Option (List ℕ)
page_bytes node v page = from_node node v page v.node

module _ {S : Type 0} (t : Entries S) (node : ℕ → Device) where
  abbrev pub put : ℕ → S → Option (List ℕ) → Option (Bool × S)
  put page s none = none
  put page s (some bytes) = elim (t.install page bytes s) [
    | none ↦ none
    | some s' ↦ some (true, s')
  ]

  -- `mapPageFromVme`. Reading the file does not change the thread's page tables, so that the second
  -- look at the entry finds what the first one found.
  unfoldable pub map_page_from_vme : Vme → ℕ → S → Option (Bool × S)
  map_page_from_vme v page s =
      if t.present page s then some (true, s) else put page s (page_bytes node v page)

  abbrev pub or_shared : Maps → ℕ → S → Option Vme → Option (Bool × S)
  or_shared m page s (some v) = map_page_from_vme v page s
  or_shared m page s none = elim (find_vme page m.shared_vmes) [
    | some v ↦ map_page_from_vme v page s
    | none ↦ some (false, s)
  ]

  -- `ensureMappedPage`: the private list first, then the shared one.
  unfoldable pub ensure_mapped_page : Maps → ℕ → S → Option (Bool × S)
  ensure_mapped_page m page s =
      if t.present page s then some (true, s) else or_shared m page s (find_vme page m.private_vmes)

  -- `pageFaultHandler`: an address that no mapping covers fails the assertion.
  abbrev pub or_stop : Option (Bool × S) → Option S
  or_stop none = none
  or_stop (some (true, s)) = some s
  or_stop (some (false, s)) = none

  unfoldable pub page_fault : Maps → ℕ → S → Option S
  page_fault m cr2 s = or_stop (ensure_mapped_page m (cr2 / 4096 * 4096) s)
