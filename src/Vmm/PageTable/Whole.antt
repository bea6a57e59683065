-- ===== src/Vmm/PageTable/Whole.antt =====
-- Whole page tables in kernel/vmm.cc: the copy that `fork` makes, and the release at a thread's end.
pub mod Copied
pub mod Cloned
pub mod Subtree
pub mod Snapshot
pub mod Forked
pub mod Sample
mod Tests
use p.Prelude.{ℕ, zero, suc, ◌+◌, ◌*◌, ◌%◌, ◌^◌, Option, none, some, ◌==◌, if◌then◌else◌}
use p.Vmm.PageTable.{Mmu, present, entry_ppn, flags_of, write, alloc_frame, free_frame}

-- for (i = start; i < start + n; i++)
unfoldable pub each : ℕ → ℕ → (ℕ → Mmu → Option Mmu) → Mmu → Option Mmu
each zero i body m = some m
each (suc n) i body m = elim (body i m) [ none ↦ none | some m' ↦ each n (i + 1) body m' ]

abbrev pub blank : ℕ → Mmu → Mmu
blank table m = record m { entries = λ t j. if t == table then 0 else m.entries t j }

-- The copy of the bytes of a frame.
abbrev pub copy_frame : ℕ → ℕ → Mmu → Mmu
copy_frame src dst m = record m {
  entries = λ t j. if t == dst then m.entries src j else m.entries t j;
}

abbrev pub copied_entry : ℕ → ℕ → ℕ
copied_entry frame entry = frame * 2 ^ 12 % 2 ^ 64 + flags_of entry

-- One entry of `cloneTableSubtree`, by what makes the child: a table, or a page.
abbrev pub clone_entry : ℕ → ℕ → (ℕ → Mmu → Option (ℕ × Mmu)) → ℕ → Mmu → Option Mmu
clone_entry src dst copy i m =
    let entry = m.entries src i in
    let made : Option Mmu = elim (copy (entry_ppn entry) m) [
      | none ↦ none
      | some (child, m') ↦ some (write dst i (copied_entry child entry) m')
    ] in
    if present entry then made else some m

abbrev pub clone_page : ℕ → Mmu → Option (ℕ × Mmu)
clone_page src m = elim (alloc_frame m) [
  | none ↦ none
  | some (dst, m') ↦ some (dst, copy_frame src dst m')
]

abbrev pub clone_with : (ℕ → Mmu → Option (ℕ × Mmu)) → ℕ → Mmu → Option (ℕ × Mmu)
clone_with copy src m = elim (alloc_frame m) [
  | none ↦ none
  | some (dst, m') ↦ elim (each 512 0 (clone_entry src dst copy) (blank dst m')) [
    | none ↦ none
    | some m'' ↦ some (dst, m'')
  ]
]

-- `cloneTableSubtree`
unfoldable pub clone_table : ℕ → ℕ → Mmu → Option (ℕ × Mmu)
clone_table zero src m = clone_with clone_page src m
clone_table (suc level) src m = clone_with (clone_table level) src m

-- The page tables of `snapshot_for_fork`: a copy of the lower half, and the entries of the upper.
abbrev pub share_upper : ℕ → ℕ → ℕ → Mmu → Option Mmu
share_upper src dst i m = some (write dst i (m.entries src i) m)

abbrev pub clone_halves : ℕ → ℕ × Mmu → Option (ℕ × Mmu)
clone_halves src (dst, m) = elim (each 256 0 (clone_entry src dst (clone_table 2)) (blank dst m)) [
  | none ↦ none
  | some m' ↦ elim (each 256 256 (share_upper src dst) m') [
    | none ↦ none
    | some m'' ↦ some (dst, m'')
  ]
]

unfoldable pub snapshot_tables : Mmu → Option (ℕ × Mmu)
snapshot_tables m = elim (alloc_frame m) [ none ↦ none | some r ↦ clone_halves m.cr3 r ]

-- One entry of `freeTableSubtree`, with what is done to the child before its frame is freed.
abbrev pub free_entry : (ℕ → Mmu → Option Mmu) → ℕ → ℕ → Mmu → Option Mmu
free_entry release table i m =
    let entry = m.entries table i in
    let freed : Option Mmu = elim (release (entry_ppn entry) m) [
      | none ↦ none
      | some m' ↦ some (write table i 0 (free_frame (entry_ppn entry) m'))
    ] in
    if present entry then freed else some m

-- `freeTableSubtree`
unfoldable pub free_table : ℕ → ℕ → Mmu → Option Mmu
free_table zero table m = each 512 0 (free_entry (λ page m'. some m') table) m
free_table (suc level) table m = each 512 0 (free_entry (free_table level) table) m

-- `VMM::init_thread`: a new top table with the upper half of the common one. The lower half is as
-- the allocator gives it.
unfoldable pub init_thread : ℕ → Mmu → Option Mmu
init_thread common_cr3 m = elim (alloc_frame m) [
  | none ↦ none
  | some (frame, m') ↦ elim (each 256 256 (share_upper common_cr3 frame) m') [
    | none ↦ none
    | some m'' ↦ some (record m'' { cr3 = frame })
  ]
]

-- The page tables of `VMM::fini_thread`: the lower half and the top table go, and the thread runs on
-- the common one.
unfoldable pub fini_tables : ℕ → Mmu → Option Mmu
fini_tables common_cr3 m =
    let old = m.cr3 in
    let freed : Option Mmu = elim (each 256 0 (free_entry (free_table 2) old) m) [
      | none ↦ none
      | some m' ↦ some (free_frame old (record m' { cr3 = common_cr3 }))
    ] in
    if old == common_cr3 then some m else freed
