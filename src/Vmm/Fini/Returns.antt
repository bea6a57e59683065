-- ===== src/Vmm/Fini/Returns.antt =====
-- `VMM::fini_thread` of kernel/vmm.cc returns.
use p.Prelude.{◌^◌, ◌≤◌, ◌≡◌, Option, some, List, [], ◌∷◌}
use p.Vmm.Vme.{Vme}
use p.Vmm.PageTable.{Mmu}

abbrev Returns : Option Mmu → Type 0
Returns o = (m : Mmu) × (o ≡ some m)

-- The mappings end in the lower half.
abbrev pub Lower : List Vme → Type 0
Lower [] = Unit {0}
Lower (v ∷ vs) = (v.end ≤ 2 ^ 47) × Lower vs
