-- ===== src/Vmm/HeapBreak.antt =====
-- The program's heap in kernel/vmm.cc: `init_heap_break`, `get_heap_break`, `set_heap_break`.
pub mod Grown
use p.Prelude.{ℕ, ◌-◌, Bool, true, false, ◌||◌, Option, none, some, ltb, leb, ◌==◌, if◌then◌else◌}
use p.Vmm.Vme.{round_up_page, user_top}
use p.Vmm.Mmap.{Maps}
use p.Vmm.PageTable.{Mmu, map_range, unmap_range}

unfoldable pub init_heap_break : ℕ → Maps → Maps
init_heap_break initial_break m =
    let canonical = if ltb initial_break 0x1000 then 0x1000 else initial_break in
    record m { heap_start = canonical; heap_break = canonical }

abbrev pub get_heap_break : Maps → ℕ
get_heap_break m = m.heap_break

unfoldable pub resize : ℕ → ℕ → Mmu → Option Mmu
resize old_end new_end mmu =
    if ltb old_end new_end
    then map_range old_end (new_end - old_end) true true mmu
    else if ltb new_end old_end
    then unmap_range new_end old_end mmu
    else some mmu

abbrev pub commit : ℕ → Maps → Option Mmu → Option (Bool × Maps × Mmu)
commit new_break m none = none
commit new_break m (some mmu') = some (true, record m { heap_break = new_break }, mmu')

-- `set_heap_break`: false is the result -1, true is 0, and `none` is the stop of the kernel when
-- no frame is left.
unfoldable pub set_heap_break : ℕ → Maps → Mmu → Option (Bool × Maps × Mmu)
set_heap_break new_break m mmu =
    if m.heap_start == 0 || m.heap_break == 0
    then some (false, m, mmu)
    else if ltb new_break m.heap_start || leb user_top new_break
    then some (false, m, mmu)
    else commit new_break m (resize (round_up_page m.heap_break) (round_up_page new_break) mmu)

-- `brk` of kernel/syscall.cc (case 12): the value that the call returns.
unfoldable pub brk : ℕ → Maps → Mmu → Option (ℕ × Maps × Mmu)
brk target m mmu =
    if target == 0 then some (get_heap_break m, m, mmu) else elim (set_heap_break target m mmu) [
      | none ↦ none
      | some (ok, m', mmu') ↦ some (if ok then target else get_heap_break m', m', mmu')
    ]
