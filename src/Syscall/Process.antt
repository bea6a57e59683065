-- ===== src/Syscall/Process.antt =====
-- The process table of kernel/syscall.cc and what `fork`, `exit` and `waitpid` (cases 57, 60 and
-- 61) do with it.
pub mod Alloc
pub mod Entries
pub mod Life
mod Tests
use p.Prelude.{
  ℕ, zero, suc, ◌+◌, ◌*◌, ◌%◌, ◌^◌, Bool, true, false, not, ◌&&◌, ◌||◌, Option, none, some, List,
  map, ltb, leb, ◌==◌, if◌then◌else◌, get_or, set,
}
use p.Syscall.Word.{failed, int_of, is_negative, out_of}

abbrev pub max_processes : ℕ
max_processes = 1024

-- `struct ProcessEntry`. The status is a 32-bit pattern.
pub record Entry : Type 0 where
  pub used : Bool
  pub parent : ℕ
  pub exited : Bool
  pub status : ℕ

abbrev pub vacant : Entry
vacant = record { used = false; parent = 0; exited = false; status = 0 }

-- A process that has just been made.
abbrev pub started : ℕ → Entry
started parent = record { used = true; parent = parent; exited = false; status = 0 }

-- `processTable`, `nextPid`, `processTableInitialized`
pub record Processes : Type 0 where
  pub table : List Entry
  pub next_pid : ℕ
  pub initialized : Bool

abbrev pub entry : Processes → ℕ → Entry
entry ps pid = get_or ps.table pid vacant

-- `init_process_table_locked`
unfoldable pub init_table : Processes → Processes
init_table ps =
    if ps.initialized
    then ps
    else record { table = map (λ _. vacant) ps.table; next_pid = 2; initialized = true }

-- `register_process_pid1`
unfoldable pub register_init : Processes → Processes
register_init ps =
    let cleared = init_table (record ps { initialized = false }) in
    record cleared { table = set cleared.table 1 (started 0) }

-- `ensure_current_pid`, for the pid of the current thread (a 32-bit pattern): the pid, which the
-- thread now has, and the table.
unfoldable pub ensure_pid : ℕ → Processes → ℕ × Processes
ensure_pid pid ps =
    let ready = init_table ps in
    if ltb 0 pid && not (is_negative pid)
    then (pid, ps)
    else (1, record ready { table = set ready.table 1 (started 0) })

abbrev pub successor : ℕ → ℕ
successor pid = if leb max_processes (pid + 1) then 2 else pid + 1

-- The loop of `allocate_pid_locked`, with the rounds that are left: a pid, or none for -1, and
-- `nextPid`.
unfoldable pub alloc_loop : ℕ → ℕ → List Entry → Option ℕ × ℕ
alloc_loop zero next t = (none, next)
alloc_loop (suc rounds) next t =
    let rest = alloc_loop rounds (successor next) t in
    if ltb 0 next && ltb next max_processes && not (get_or t next vacant).used
    then (some next, successor next)
    else rest

unfoldable pub allocate_pid : Processes → Option ℕ × Processes
unfolding alloc_loop
allocate_pid ps =
    let (pid, next) = alloc_loop max_processes ps.next_pid ps.table in
    (pid, record ps { next_pid = next })

abbrev pub enter_child : ℕ → Option ℕ × Processes → ℕ × Processes
enter_child my_pid (none, ps) = (failed, ps)
enter_child my_pid (some child, ps) =
    (child, record ps { table = set ps.table child (started my_pid) })

-- What `fork` does to the table, under its lock: the child's pid, or -1.
unfoldable pub fork_entry : ℕ → Processes → ℕ × Processes
fork_entry my_pid ps = enter_child my_pid (allocate_pid (init_table ps))

-- What `exit` does to the table, under its lock.
unfoldable pub exit_entry : ℕ → ℕ → Processes → Processes
exit_entry my_pid rdi ps =
    let ready = init_table ps in
    if ltb 0 my_pid && ltb my_pid max_processes && (entry ready my_pid).used
    then record ready {
      table =
          set ready.table my_pid
            (record (entry ready my_pid) { exited = true; status = int_of rdi });
    }
    else ready

-- One round of the loop of `waitpid`, under the lock: -1, the child with its status, or yield and
-- come again.
pub data Wait : Type 0 where
  refused : Wait
  reaped : ℕ → Wait
  again : Wait

unfoldable pub wait_turn : ℕ → ℕ → Processes → Wait × Processes
wait_turn my_pid child ps =
    let ready = init_table ps in
    let e = entry ready child in
    if not e.used || not (e.parent == my_pid)
    then (refused, ready)
    else if e.exited
    then (
      reaped e.status,
      record ready { table = set ready.table child (record e { used = false }) },
    )
    else (again, ready)

-- The word that `waitpid` stores at the pointer: (status & 0xFF) << 8
abbrev pub wait_status : ℕ → ℕ
wait_status status = status % 2 ^ 8 * 2 ^ 8

-- The guards of `waitpid` on the child's pid and the options.
unfoldable pub wait_rejects : ℕ → ℕ → Bool
wait_rejects rdi rdx =
    let child = int_of rdi in (child == 0) || out_of max_processes child || not (rdx == 0)
