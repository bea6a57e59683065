-- ===== src/Syscall/Dispatch/Tests.antt =====
-- System calls at concrete inputs.
use p.Prelude.{
  ℕ, ◌+◌, true, false, none, some, List, [], ◌∷◌, ◌&&◌, ◌==◌, if◌then◌else◌, replicate, set,
}
use p.Vmm.Mmap.{Maps}
use p.Vmm.PageTable.{Mmu}
use p.Syscall.UserBuffer.{UserMemory}
use p.Syscall.Process.{Processes, vacant, started}
use p.Syscall.Fd.{closed}
use p.Syscall.Dispatch.{System, Call}

abbrev write_bytes : ℕ → List ℕ → Mmu → Mmu
write_bytes ptr [] m = m
write_bytes ptr (b ∷ bs) m =
    write_bytes (ptr + 1) bs
      (record m { entries = λ t i. if t == 0 && i == ptr then b else m.entries t i })

-- Memory that is mapped everywhere, a byte in each word of table 0.
abbrev memory : UserMemory Mmu
memory = record {
  range_mapped = λ ptr len m. some (true, m);
  load = λ m ptr. m.entries 0 ptr;
  store = write_bytes;
}

abbrev mmu : Mmu
mmu = record {
  entries = λ t i. 0;
  phys = record { avail = []; free_ranges = []; total_memory = 0 };
  cr3 = 1;
  hhdm_offset = 0;
}

abbrev fresh : Processes
fresh = record { table = replicate 1024 vacant; next_pid = 2; initialized = true }

-- Process 2 is a child of process 1.
abbrev family : Processes
family = record fresh { table = set fresh.table 2 (started 1) }

abbrev system : ℕ → Processes → System
system pid ps = record {
  fds = record { fds = replicate 32 closed; initialized = true };
  fs = none;
  kernel = record {
    mmu = mmu;
    maps = record { private_vmes = []; shared_vmes = []; heap_start = 0x5000; heap_break = 0x5000 };
    processes = ps;
    n_active = 2;
    ready = [];
  };
  sems = [];
  pid = pid;
  output = [];
}

abbrev call : ℕ → ℕ → ℕ → Call
call number rdi rsi = record { number = number; rdi = rdi; rsi = rsi; rdx = 0; frame = []; rsp = 0 }

-- A mapping of two pages, over tables that hold nothing.
abbrev mapped : Maps
mapped = record {
  private_vmes =
      (record { start = 0x1000; end = 0x3000; shared = false; node = none; offset = 0 }) ∷ [];
  shared_vmes = [];
  heap_start = 0x5000;
  heap_break = 0x5000;
}
