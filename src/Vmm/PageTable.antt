-- ===== src/Vmm/PageTable.antt =====
-- The page tables of kernel/vmm.cc, over the frames of kernel/physmem.cc.
pub mod Enough
pub mod Entry
pub mod Round
pub mod Grown
pub mod Prefix
pub mod Mapped
pub mod Placed
pub mod Range
pub mod Refines
mod Tests
pub mod Unmapped
pub mod Whole
use p.Prelude.{
  ℕ, zero, suc, ◌+◌, ◌-◌, ◌*◌, ◌/◌, ◌%◌, ◌^◌, Bool, true, false, not, ◌&&◌, ◌||◌, Option, none,
  some, List, [], ◌∷◌, ltb, leb, ◌==◌, if◌then◌else◌, add64, sub64,
}
use p.PhysMem.{PhysMem, Allocated, alloc, free}

-- Memory as frames of 512 words, the frame allocator, the frame of the top table (%cr3), and the
-- offset of the direct map.
pub record Mmu : Type 0 where
  pub entries : ℕ → ℕ → ℕ
  pub phys : PhysMem
  pub cr3 : ℕ
  pub hhdm_offset : ℕ

-- `entry & presentBit`, `entryPpn`, and an entry's bits beside the address
abbrev pub present : ℕ → Bool
present entry = entry % 2 == 1

abbrev pub entry_ppn : ℕ → ℕ
entry_ppn entry = entry / 2 ^ 12 % 2 ^ 40

abbrev pub flags_of : ℕ → ℕ
flags_of entry = entry - entry_ppn entry * 2 ^ 12

-- vpn >> (9 * level), and `vpnIndex`
unfoldable pub prefix : ℕ → ℕ → ℕ
prefix zero vpn = vpn
prefix (suc level) vpn = prefix level vpn / 2 ^ 9

abbrev pub vpn_index : ℕ → ℕ → ℕ
vpn_index level vpn = prefix level vpn % 2 ^ 9

-- The assertion of the constructors of VA.
abbrev pub canonical : ℕ → Bool
canonical va = ltb va (2 ^ 47) || leb (2 ^ 64 - 2 ^ 47) va

abbrev pub write : ℕ → ℕ → ℕ → Mmu → Mmu
write table i entry m = record m {
  entries = λ t j. if t == table && j == i then entry else m.entries t j;
}

-- `physMem.alloc`. A frame off a range is cleared, and one that was freed is not.
abbrev pub cleared : ℕ → Bool → Mmu → Mmu
cleared frame false m = m
cleared frame true m = record m { entries = λ t j. if t == frame then 0 else m.entries t j }

abbrev pub taken : Mmu → Allocated → Option (ℕ × Mmu)
taken m none = none
taken m (some (frame, clear, phys)) = some (frame, cleared frame clear (record m { phys = phys }))

unfoldable pub alloc_frame : Mmu → Option (ℕ × Mmu)
alloc_frame m = taken m (alloc m.phys)

-- `physMem.free`, which writes the link to the next available frame into the frame itself.
abbrev pub link_of : ℕ → List ℕ → ℕ
link_of hhdm_offset [] = 0
link_of hhdm_offset (frame ∷ frames) = add64 hhdm_offset (frame * 2 ^ 12)

unfoldable pub free_frame : ℕ → Mmu → Mmu
free_frame frame m =
    let linked = write frame 0 (link_of m.hhdm_offset m.phys.avail) m in
    record linked { phys = free frame m.phys }

-- The loop of `leafPte`: the table of level 0, or the null pointer.
unfoldable pub walk : ℕ → ℕ → ℕ → (ℕ → ℕ → ℕ) → Option ℕ
walk zero table vpn entries = some table
walk (suc level) table vpn entries =
    let entry = entries table (vpn_index (suc level) vpn) in
    let below = walk level (entry_ppn entry) vpn entries in if present entry then below else none

-- `*leafPte` where it is present: what the processor translates a page to.
abbrev pub leaf_entry : ℕ → Mmu → Option ℕ → Option ℕ
leaf_entry vpn m none = none
leaf_entry vpn m (some table) =
    let entry = m.entries table (vpn_index 0 vpn) in if present entry then some entry else none

abbrev pub translate_at : ℕ → ℕ → ℕ → Mmu → Option ℕ
translate_at level table vpn m = leaf_entry vpn m (walk level table vpn m.entries)

abbrev pub translate : ℕ → Mmu → Option ℕ
translate vpn m = translate_at 3 m.cr3 vpn m

abbrev pub is_mapped : ℕ → Mmu → Bool
is_mapped va m = elim (translate (va / 2 ^ 12) m) [ none ↦ false | some _ ↦ true ]

-- The entry that `map` writes at level 0, and that for a new table.
abbrev pub leaf_of : ℕ → Bool → Bool → ℕ
leaf_of ppn user writable =
    ppn * 2 ^ 12 % 2 ^ 64 + (1 + (if writable then 2 else 0) + (if user then 4 else 0))

abbrev pub table_of : ℕ → ℕ
table_of child = child * 2 ^ 12 % 2 ^ 64 + 7

-- `map`, by levels
unfoldable pub map_at : ℕ → ℕ → ℕ → ℕ → Mmu → Option Mmu
map_at zero table vpn leaf m = some (write table (vpn_index 0 vpn) leaf m)
map_at (suc level) table vpn leaf m =
    let i = vpn_index (suc level) vpn in
    let down = map_at level (entry_ppn (m.entries table i)) vpn leaf m in
    let grown : Option Mmu = elim (alloc_frame m) [
      | none ↦ none
      | some (child, m') ↦
          map_at level (entry_ppn (table_of child)) vpn leaf (write table i (table_of child) m')
    ] in
    if present (m.entries table i) then down else grown

unfoldable pub map_page : ℕ → ℕ → Bool → Bool → Mmu → Option Mmu
map_page vpn ppn user writable m = map_at 3 m.cr3 vpn (leaf_of ppn user writable) m

-- `unmapPage`
abbrev pub unmap_leaf : ℕ → Mmu → Option ℕ → Mmu
unmap_leaf vpn m none = m
unmap_leaf vpn m (some table) =
    let entry = m.entries table (vpn_index 0 vpn) in
    if present entry then free_frame (entry_ppn entry) (write table (vpn_index 0 vpn) 0 m) else m

unfoldable pub unmap_page : ℕ → Mmu → Option Mmu
unmap_page va m =
    let vpn = va / 2 ^ 12 in
    if canonical va then some (unmap_leaf vpn m (walk 3 m.cr3 vpn m.entries)) else none

-- `unmapRange`, with the rounds that are left, of which it needs one for its last test. Out of
-- rounds it is stuck, and gives nothing.
unfoldable pub unmap_loop : ℕ → ℕ → ℕ → Mmu → Option Mmu
unmap_loop zero va end m = none
unmap_loop (suc rounds) va end m =
    let rest : Option Mmu = elim (unmap_page va m) [
      | none ↦ none
      | some m' ↦ unmap_loop rounds (add64 va 4096) end m'
    ] in
    if ltb va end then rest else some m

unfoldable pub unmap_range : ℕ → ℕ → Mmu → Option Mmu
unmap_range start end m = unmap_loop ((end - start + 4095) / 4096 + 1) start end m

-- One page of `map_range`.
unfoldable pub ensure_frame : ℕ → Bool → Bool → Mmu → Option Mmu
ensure_frame va user writable m =
    let fresh : Option Mmu = elim (alloc_frame m) [
      | none ↦ none
      | some (frame, m') ↦ map_page (va / 2 ^ 12) frame user writable m'
    ] in
    if not (canonical va) then none else if is_mapped va m then some m else fresh

-- The loop of `map_range`, with the rounds that are left, of which it needs one for its last test.
-- Out of rounds it is stuck, and gives nothing.
unfoldable pub map_loop : ℕ → ℕ → ℕ → Bool → Bool → Mmu → Option Mmu
map_loop zero va end user writable m = none
map_loop (suc rounds) va end user writable m =
    let rest : Option Mmu = elim (ensure_frame va user writable m) [
      | none ↦ none
      | some m' ↦ map_loop rounds (add64 va 4096) end user writable m'
    ] in
    if ltb va end then rest else some m

-- `map_range`, from its assertions on
abbrev pub map_from : ℕ → ℕ → ℕ → ℕ → Bool → Bool → Mmu → Option Mmu
map_from start start_va last end_va user writable m =
    if not (canonical start) || ltb last start || ltb end_va start_va
    then none
    else map_loop ((end_va - start_va) / 4096 + 1) start_va end_va user writable m

unfoldable pub map_range : ℕ → ℕ → Bool → Bool → Mmu → Option Mmu
map_range start size user writable m =
    let start_va = start / 4096 * 4096 in
    let last = sub64 (add64 start size) 1 in
    let end_va = add64 (last / 4096 * 4096) 4096 in
    if size == 0 then some m else map_from start start_va last end_va user writable m
