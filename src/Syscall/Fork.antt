-- ===== src/Syscall/Fork.antt =====
-- `fork` of kernel/syscall.cc (case 57), and how the child starts: `fork_child_entry`, with the
-- switch to it and the return to the user program in kernel/machine.S.
pub mod Born
mod Tests
use p.Prelude.{
  ℕ, ◌+◌, ◌/◌, ◌%◌, ◌^◌, ◌||◌, Option, none, some, List, [], ◌∷◌, ◌++◌, ◌==◌, if◌then◌else◌, take,
  drop, get_or,
}
use p.Vmm.Vme.{Vme}
use p.Vmm.Mmap.{Maps}
use p.Vmm.PageTable.{Mmu}
use p.Vmm.Fork.{ForkState, snapshot_for_fork, install_fork_state}
use p.Syscall.Word.{failed, is_negative}
use p.Syscall.Process.{Processes, ensure_pid, fork_entry}

-- What `fork` sets in the TCB of the child. `stack` is its stack from `saved_rsp` on.
pub record Child : Type 0 where
  pub pid : ℕ
  pub user_rsp : ℕ
  pub frame : List ℕ
  pub private_vmes : List Vme
  pub heap_start : ℕ
  pub heap_break : ℕ
  pub stack : List ℕ

-- What `fork` works on: the mappings of the thread that calls it, the threads that it has made
-- ready, and what all threads share.
pub record Kernel : Type 0 where
  pub mmu : Mmu
  pub maps : Maps
  pub processes : Processes
  pub n_active : ℕ
  pub ready : List Child

abbrev pub stack_of : ℕ → ℕ → List ℕ
stack_of cr3 entry = cr3 ∷ 0 ∷ 0x200 ∷ 0 ∷ 0 ∷ 0 ∷ 0 ∷ 0 ∷ 0 ∷ entry ∷ []

abbrev pub child_of : ℕ → ℕ → ℕ → List ℕ → ForkState → Child
child_of entry pid rsp frame f = record {
  pid = pid;
  user_rsp = rsp;
  frame = take 15 frame;
  private_vmes = f.private_vmes;
  heap_start = f.heap_start;
  heap_break = f.heap_break;
  stack = stack_of f.cr3 entry;
}

-- `fork` from the process table on.
abbrev pub make_child : ℕ → ℕ → List ℕ → ForkState → Kernel → ℕ × Processes → ℕ × Kernel
make_child entry rsp frame f k (pid, ps) =
    if is_negative pid then (failed, record k { processes = ps }) else (
      pid,
      record k {
        processes = ps;
        n_active = (k.n_active + 1) % 2 ^ 64;
        ready = k.ready ++ child_of entry pid rsp frame f ∷ [];
      },
    )

abbrev pub fork_from : ℕ → ℕ → ℕ → List ℕ → Kernel → Option (ForkState × Mmu) → Option (ℕ × Kernel)
fork_from entry my_pid rsp frame k none = none
fork_from entry my_pid rsp frame k (some (f, m)) =
    some (make_child entry rsp frame f (record k { mmu = m }) (fork_entry my_pid k.processes))

-- For the address of `fork_child_entry`, and the pid, the user's stack pointer and the frame of the
-- thread that calls: what it returns and the pid that the thread has now. `none` stops the kernel.
unfoldable pub fork : ℕ → ℕ → ℕ → List ℕ → Kernel → ℕ × Option (ℕ × Kernel)
fork entry pid rsp frame k =
    let (pid', ps) = ensure_pid pid k.processes in
    let my_pid = if (pid' == 0) || is_negative pid' then 1 else pid' in
    (
      pid',
      fork_from entry my_pid rsp frame (record k { processes = ps })
          (snapshot_for_fork k.maps k.mmu),
    )

-- A thread that has entered the user program: %cr3, its mappings, its registers from rax on in the
-- order of the frame, and its stack pointer.
pub record Running : Type 0 where
  pub mmu : Mmu
  pub maps : Maps
  pub registers : List ℕ
  pub rsp : ℕ

-- The child from the switch to it on: %cr3 comes off the stack, `fork_child_entry` installs what the
-- TCB has, and `fork_return_to_user` takes the frame, with 0 in rax. `maps` is what the variables of
-- vmm.cc hold for the thread until then.
unfoldable pub start_child : Child → Maps → Mmu → Running
start_child c maps m = record {
  mmu = record m { cr3 = get_or c.stack 0 0 / 2 ^ 12 };
  maps =
      install_fork_state
        (record {
          cr3 = 0;
          private_vmes = c.private_vmes;
          heap_start = c.heap_start;
          heap_break = c.heap_break;
        })
        maps;
  registers = 0 ∷ drop 1 c.frame;
  rsp = c.user_rsp;
}
