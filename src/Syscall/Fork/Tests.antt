-- ===== src/Syscall/Fork/Tests.antt =====
-- A fork at a concrete input.
use p.Prelude.{
  ℕ, ◌≡◌, refl, true, Option, none, some, List, [], ◌∷◌, arith, replicate, length-replicate,
}
use p.PhysMem.{alloc}
use p.Vmm.Mmap.{Maps}
use p.Vmm.PageTable.{alloc_frame}
use p.Vmm.PageTable.Whole.{snapshot_tables, each, clone_table}
use p.Vmm.PageTable.Whole.Sample.{parent, parent-Apart}
use p.Vmm.Fork.{snapshot_for_fork}
use p.Syscall.Process.{
  vacant, Processes, ensure_pid, fork_entry, init_table, allocate_pid, alloc_loop,
}
use p.Syscall.Process.Entries.{Ready}
use p.Syscall.Fork.{Kernel, fork}
use p.Syscall.Fork.Born.{Born, fork-Born}

abbrev table : Processes
table = record { table = replicate 1024 vacant; next_pid = 2; initialized = true }

table-Ready : Ready table
table-Ready = record { set_up = refl; size = length-replicate 1024 vacant; next = omega arith }

abbrev maps : Maps
maps = record { private_vmes = []; shared_vmes = []; heap_start = 0x5000; heap_break = 0x6000 }

abbrev kernel : Kernel
kernel = record { mmu = parent; maps = maps; processes = table; n_active = 1; ready = [] }

abbrev registers : List ℕ
registers = 57 ∷ 1 ∷ 2 ∷ 3 ∷ 4 ∷ 5 ∷ 6 ∷ 7 ∷ 8 ∷ 9 ∷ 10 ∷ 11 ∷ 12 ∷ 13 ∷ 14 ∷ []

abbrev outcome : Option (ℕ × Kernel) → ℕ × Kernel
outcome none = (0, kernel)
outcome (some r) = r

abbrev forked : ℕ × Kernel
forked = outcome (fork 0x8000 1 0x7000 registers kernel).1

forked-some : (fork 0x8000 1 0x7000 registers kernel).1 ≡ some forked
unfolding fork ensure_pid snapshot_for_fork snapshot_tables each clone_table alloc_frame alloc
    fork_entry init_table allocate_pid alloc_loop
forked-some = refl

forked_pid : forked.0 ≡ 2
unfolding fork ensure_pid snapshot_for_fork snapshot_tables each clone_table alloc_frame alloc
    fork_entry init_table allocate_pid alloc_loop
forked_pid = refl

fork-Born_example : Born 1 0x7000 registers maps 5 kernel forked.0 forked.1
fork-Born_example =
    fork-Born 0x8000 1 0x7000 registers maps 2 5 kernel forked.0 forked.1 (omega arith)
      (omega arith) table-Ready (omega arith) refl parent-Apart (omega arith) forked-some
