-- ===== src/Syscall/Dispatch/Exit.antt =====
-- `exit` of a child and `waitpid` of its parent, as calls of kernel/syscall.cc.
use p.Prelude.{ℕ, true, set}
use p.Vmm.PageTable.{Mmu}
use p.Vmm.Mmap.{Maps}
use p.Syscall.Word.{int_of}
use p.Syscall.Process.{Entry, Processes, entry}
use p.Syscall.Dispatch.{System}

-- The entry of a child that has called `exit`.
abbrev pub exited_as : ℕ → Entry → Entry
exited_as rdi e = record e { exited = true; status = int_of rdi }

-- The table after the `exit` of a child.
abbrev pub left_by : ℕ → ℕ → Processes → Processes
left_by c rdi ps = record ps { table = set ps.table c (exited_as rdi (entry ps c)) }

-- The kernel after it, with the lists of mappings and the memory that are left.
abbrev pub gone : ℕ → ℕ → Maps → Mmu → System → System
gone c rdi maps m s = record s {
  pid = c;
  kernel = record s.kernel { processes = left_by c rdi s.kernel.processes; maps = maps; mmu = m };
}
