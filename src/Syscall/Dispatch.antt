-- ===== src/Syscall/Dispatch.antt =====
-- `syscallHandler` of kernel/syscall.cc: the switch over the number of the call, and what each case
-- does to the state of the kernel.
pub mod Exit
mod Tests
use p.Prelude.{
  ℕ, ◌+◌, ◌*◌, ◌/◌, ◌%◌, ◌^◌, true, false, Option, none, some, List, [], ◌∷◌, ◌++◌, ◌==◌,
  if◌then◌else◌,
}
use p.Vmm.Mmap.{Maps}
use p.Vmm.PageTable.{Mmu}
use p.Vmm.Fini.{fini_thread}
use p.Vmm.HeapBreak.{brk}
use p.Syscall.Word.{failed, int_of}
use p.Syscall.UserBuffer.{UserMemory, is_valid_user_buffer, write_out}
use p.Syscall.Fd.{FdTable, FileSystem, read, open_file, close, lseek}
use p.Syscall.Sem.{Sem, Turn, returns, semget, semctl, semop_rejects, semop_turn}
use p.Syscall.Process.{
  Processes, Wait, refused, reaped, ensure_pid, exit_entry, wait_turn, wait_status, wait_rejects,
}
use p.Syscall.Fork.{Kernel, fork}

-- The kernel as a thread sees it: its descriptors and its pid, and what it shares with the others.
-- `output` is what has gone to the console.
pub record System : Type 0 where
  pub fds : FdTable
  pub fs : Option FileSystem
  pub kernel : Kernel
  pub sems : List Sem
  pub pid : ℕ
  pub output : List ℕ

-- `SyscallFrame`, by the registers that are read, with the user's stack pointer.
pub record Call : Type 0 where
  pub number : ℕ
  pub rdi : ℕ
  pub rsi : ℕ
  pub rdx : ℕ
  pub frame : List ℕ
  pub rsp : ℕ

-- How a call, or a round of it, ends: with a value for rax, by letting others run and then
-- returning, by letting others run and coming round again, with the end of the thread, or with the
-- stop of the kernel.
pub data Outcome : Type 0 where
  returned : ℕ → System → Outcome
  yielded : ℕ → System → Outcome
  again : System → Outcome
  ended : System → Outcome
  panics : Outcome

abbrev pub with_mmu : System → Mmu → System
with_mmu s m = record s { kernel = record s.kernel { mmu = m } }

abbrev pub with_processes : System → Processes → System
with_processes s ps = record s { kernel = record s.kernel { processes = ps } }

abbrev pub file_result : System → Option (ℕ × FdTable × Mmu) → Outcome
file_result s none = panics
file_result s (some (v, t, m)) = returned v (with_mmu (record s { fds = t }) m)

abbrev pub write_result : System → Option (ℕ × List ℕ × Mmu) → Outcome
write_result s none = panics
write_result s (some (v, bytes, m)) =
    returned v (with_mmu (record s { output = s.output ++ bytes }) m)

abbrev pub seek_result : System → Option (ℕ × FdTable) → Outcome
seek_result s none = panics
seek_result s (some (v, t)) = returned v (record s { fds = t })

unfoldable pub sys_close : Call → System → Outcome
sys_close c s = let (v, t) = close c.rdi s.fds in returned v (record s { fds = t })

abbrev pub brk_result : System → Option (ℕ × Maps × Mmu) → Outcome
brk_result s none = panics
brk_result s (some (v, maps, m)) =
    returned v (record s { kernel = record s.kernel { mmu = m; maps = maps } })

abbrev pub fork_result : System → ℕ × Option (ℕ × Kernel) → Outcome
fork_result s (pid, none) = panics
fork_result s (pid, some (v, k)) = returned v (record s { pid = pid; kernel = k })

abbrev pub exit_result : System → Option (Maps × Mmu) → Outcome
exit_result s none = panics
exit_result s (some (maps, m)) =
    ended (record s { kernel = record s.kernel { mmu = m; maps = maps } })

-- `exit`, for `common_cr3`: the entry of the process, and `VMM::fini_thread`, with which
-- `Thread::stop` begins. The rest of it is the step `stops` of a core in Threads.
unfoldable pub sys_exit : ℕ → Call → System → Outcome
sys_exit common_cr3 c s =
    let (pid, ps) = ensure_pid s.pid s.kernel.processes in
    let s' = with_processes (record s { pid = pid }) (exit_entry pid c.rdi ps) in
    exit_result s' (fini_thread common_cr3 s'.kernel.n_active s'.kernel.maps s'.kernel.mmu)

module _ (um : UserMemory Mmu) where
  -- `ptr != 0 && (!is_valid_user_buffer(...) || !is_user_range_mapped(...))` and what goes on if
  -- not.
  abbrev pub checked : ℕ → ℕ → System → (System → Outcome) → Outcome
  checked ptr len s go =
      let mapped : Outcome = elim (um.range_mapped ptr len s.kernel.mmu) [
        | none ↦ panics
        | some (false, m) ↦ returned failed (with_mmu s m)
        | some (true, m) ↦ go (with_mmu s m)
      ] in
      if is_valid_user_buffer ptr len then mapped else returned failed s

  -- One round of the loop of `waitpid`.
  abbrev pub store_status : ℕ → ℕ → System → System
  store_status ptr status s =
      if ptr == 0
      then s
      else with_mmu s (
          um.store ptr (wait_status status % 2 ^ 8 ∷ wait_status status / 2 ^ 8 ∷ 0 ∷ 0 ∷ [])
            s.kernel.mmu)

  abbrev pub wait_result : Call → System → Wait × Processes → Outcome
  wait_result c s (refused, ps) = returned failed (with_processes s ps)
  wait_result c s (reaped status, ps) =
      returned (int_of c.rdi) (store_status c.rsi status (with_processes s ps))
  wait_result c s (Wait.again, ps) = again (with_processes s ps)

  unfoldable pub wait_round : Call → System → Outcome
  wait_round c s = wait_result c s (wait_turn s.pid (int_of c.rdi) s.kernel.processes)

  abbrev pub wait_guarded : Call → System → Outcome
  wait_guarded c s =
      if wait_rejects c.rdi c.rdx
      then returned failed s
      else if c.rsi == 0
      then wait_round c s
      else checked c.rsi 4 s (wait_round c)

  unfoldable pub sys_waitpid : Call → System → Outcome
  unfolding wait_round
  sys_waitpid c s =
      let (pid, ps) = ensure_pid s.pid s.kernel.processes in
      wait_guarded c (with_processes (record s { pid = pid }) ps)

  -- A little-endian word of 16 bits.
  abbrev pub load16 : ℕ → System → ℕ
  load16 ptr s = um.load s.kernel.mmu ptr + um.load s.kernel.mmu (ptr + 1) * 2 ^ 8

  -- One round of the loop of `semop`.
  abbrev pub semop_result : System → Turn → Outcome
  semop_result s (returns v t) = returned v (record s { sems = t })
  semop_result s Turn.again = again s

  unfoldable pub semop_round : Call → ℕ → System → Outcome
  semop_round c op s = semop_result s (semop_turn (int_of c.rdi) op s.sems)

  abbrev pub semop_loaded : Call → System → Outcome
  semop_loaded c s =
      if semop_rejects c.rdi c.rdx (load16 c.rsi s)
      then returned failed s
      else semop_round c (load16 (c.rsi + 2) s) s

  unfoldable pub sys_semop : Call → System → Outcome
  unfolding semop_round
  sys_semop c s =
      if semop_rejects c.rdi c.rdx 0 then returned failed s else checked c.rsi 6 s (semop_loaded c)

  -- `syscallHandler`, for `common_cr3` and the address `entry` of `fork_child_entry`.
  unfoldable pub handle : ℕ → ℕ → Call → System → Outcome
  unfolding sys_close sys_exit sys_waitpid sys_semop
  handle common_cr3 entry c s =
      let n = c.number in
      let m = s.kernel.mmu in
      if n == 0
      then file_result s (read um s.fs c.rdi c.rsi c.rdx s.fds m)
      else if n == 1
      then write_result s (write_out um c.rdi c.rsi c.rdx m)
      else if n == 2
      then file_result s (open_file um s.fs c.rdi s.fds m)
      else if n == 3
      then sys_close c s
      else if n == 8
      then seek_result s (lseek s.fs c.rdi c.rsi c.rdx s.fds)
      else if n == 12
      then brk_result s (brk c.rdi s.kernel.maps m)
      else if n == 24
      then yielded 0 s
      else if n == 57
      then fork_result s (fork entry s.pid c.rsp c.frame s.kernel)
      else if n == 60
      then sys_exit common_cr3 c s
      else if n == 61
      then sys_waitpid c s
      else if n == 64
      then (let (v, t) = semget c.rdi c.rsi s.sems in returned v (record s { sems = t }))
      else if n == 65
      then sys_semop c s
      else if n == 66
      then (let (v, t) = semctl c.rdi c.rdx s.sems in returned v (record s { sems = t }))
      else panics
