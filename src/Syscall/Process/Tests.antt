-- ===== src/Syscall/Process/Tests.antt =====
-- Runs of the process table of kernel/syscall.cc at concrete inputs.
use p.Prelude.{◌≡◌, refl, true, [], ◌∷◌, arith, replicate, length-replicate}
use p.Syscall.Process.{
  vacant, Processes, reaped, allocate_pid, alloc_loop, init_table, fork_entry, exit_entry,
  wait_turn,
}
use p.Syscall.Process.Alloc.{InRange, allocate_pid_lem}
use p.Syscall.Process.Entries.{Ready}
use p.Syscall.Process.Life.{forks, waits, run, waitpid-status}

abbrev fresh : Processes
fresh = record { table = replicate 1024 vacant; next_pid = 2; initialized = true }

fresh-Ready : Ready fresh
fresh-Ready = record { set_up = refl; size = length-replicate 1024 vacant; next = omega arith }

allocate_pid_lem_example : InRange (allocate_pid fresh).1.next_pid
allocate_pid_lem_example = (allocate_pid_lem fresh (omega arith)).2

forks-child : (fork_entry 1 fresh).0 ≡ 2
unfolding fork_entry init_table allocate_pid alloc_loop
forks-child = refl

-- The child forks, the parent looks for it, and after the child's exit another process looks too.
waitpid-status_example :
    (wait_turn 1 (fork_entry 1 fresh).0 (
      run (waits 5 2 ∷ []) (
        exit_entry
          (fork_entry 1 fresh).0
          7
          (run (waits 1 2 ∷ forks 1 ∷ []) (fork_entry 1 fresh).1)))).0
    ≡ reaped 7
waitpid-status_example =
    (waitpid-status 1 7 fresh (waits 1 2 ∷ forks 1 ∷ []) (waits 5 2 ∷ []) fresh-Ready
      (rw forks-child (omega arith)) (refl, (refl, tt)) (rw forks-child (refl, tt))).1
