-- ===== src/Vmm/Fini.antt =====
-- `VMM::fini_thread` of kernel/vmm.cc, with which a thread gives its address space up.
pub mod Returns
use p.Prelude.{
  ℕ, ◌≡◌, sym, ap, inl, inr, Option, none, some, List, [], ◌∷◌, ◌==◌, if◌then◌else◌, Option-cases,
}
use mathlib.Core.Option.{some_inj}
use p.Vmm.Vme.{Vme}
use p.Vmm.Mmap.{Maps}
use p.Vmm.PageTable.{Mmu, unmap_range}
use p.Vmm.PageTable.Whole.{fini_tables}

-- The loop over the private mappings.
unfoldable pub unmap_vmes : List Vme → Mmu → Option Mmu
unmap_vmes [] m = some m
unmap_vmes (v ∷ vs) m = elim (unmap_range v.start v.end m) [
  | none ↦ none
  | some m' ↦ unmap_vmes vs m'
]

-- The lists after it: the shared one goes with the last thread.
abbrev pub fini_maps : ℕ → Maps → Maps
fini_maps n_active maps = record maps {
  private_vmes = [];
  shared_vmes = if n_active == 1 then [] else maps.shared_vmes;
}

abbrev pub and_maps : Maps → Option Mmu → Option (Maps × Mmu)
and_maps maps none = none
and_maps maps (some m) = some (maps, m)

-- For `common_cr3` and the number of threads. `none` is the stop of the kernel.
unfoldable pub fini_thread : ℕ → ℕ → Maps → Mmu → Option (Maps × Mmu)
fini_thread common_cr3 n_active maps m = elim (unmap_vmes maps.private_vmes m) [
  | none ↦ none
  | some m' ↦ and_maps (fini_maps n_active maps) (fini_tables common_cr3 m')
]
