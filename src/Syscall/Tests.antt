-- ===== src/Syscall/Tests.antt =====
-- Runs of kernel/syscall.cc at concrete inputs.
use p.Prelude.{
  ℕ, zero, suc, ◌+◌, ◌-◌, ◌^◌, ◌≤◌, ◌<◌, ◌≡◌, refl, sym, ap, ◌∙◌, ◌↔◌, ◌⊎◌, true, some, List, [],
  ◌∷◌, arith, ℕ_discrete, get_or, set, take, drop, replicate, length-replicate, get_or-set_ne,
}
use p.BlockIo.{got}
use p.Syscall.Word.{failed}
use p.Syscall.Sem.{Sem, unused, empty, max_semaphores, semget, semop_turn}
use p.Syscall.Sem.Keys.{Keyed, Got, Full, semget-Got}
use p.Syscall.Sem.Count.{run, total_added, total_taken, value, run-value}
use p.Syscall.UserBuffer.{is_valid_user_buffer, is_valid_user_buffer_iff, UserMemory}
use p.Syscall.Fd.{closed, FdTable, at, allocate_fd, FileNode, FileSystem, lseek, read}
use p.Syscall.Fd.Allocate.{Ready, Opened, allocate_fd-Opened}
use p.Syscall.Fd.Transfer.{OpenOn, lseek_lem, read-slice}

at-empty : (n i : ℕ) → get_or (replicate n unused) i unused ≡ unused
at-empty zero i = refl
at-empty (suc n) zero = refl
at-empty (suc n) (suc i) = at-empty n i

empty-Keyed : Keyed empty
empty-Keyed = record {
  size = length-replicate max_semaphores unused;
  distinct = λ i j ui uj e. cc (ap (λ (s : Sem). s.used) (at-empty max_semaphores i), ui);
}

semget-Got_example :
    let (id, t) = semget 42 1 empty in
    ((id ≡ failed) × (t ≡ empty) × Full 42 empty) ⊎ Got 42 empty id t
semget-Got_example = semget-Got 42 1 empty empty-Keyed refl

abbrev one_sem : List Sem
one_sem = set empty 3 (record { used = true; key = 42; value = 5 })

one_sem-used : (i : ℕ) → (get_or one_sem i unused).used ≡ true → i ≡ 3
one_sem-used i u = elim (ℕ_discrete i 3) [
  | yes e ↦ e
  | no ne ↦ cc (
    ap (λ (s : Sem). s.used)
        (get_or-set_ne empty 3 i (record { used = true; key = 42; value = 5 }) unused
            (λ e. ne (sym e))
          ∙ at-empty max_semaphores i),
    u,
  )
]

one_sem-Keyed : Keyed one_sem
one_sem-Keyed = record {
  size = refl;
  distinct = λ i j ui uj e. omega (arith, one_sem-used i ui, one_sem-used j uj);
}

-- One caller takes 4 of the 5, another 7 cannot be served, a third adds 6.
abbrev rounds : List (ℕ × ℕ)
rounds = (3, 2 ^ 16 - 4) ∷ (3, 2 ^ 16 - 7) ∷ (3, 6) ∷ (3, 2 ^ 16 - 7) ∷ []

run-value_example :
    value (run rounds one_sem) 3 + total_taken 3 rounds one_sem
    ≡ value one_sem 3 + total_added 3 rounds one_sem
unfolding total_added semop_turn
run-value_example = run-value 3 rounds one_sem (omega arith) (omega arith, refl) (omega arith)

is_valid_user_buffer_iff_example :
    (is_valid_user_buffer 0x1000 (2 ^ 64 - 1) ≡ true)
    ↔ ((2 ^ 64 - 1 ≡ 0) ⊎ (0x1000 + (2 ^ 64 - 1) ≤ 2 ^ 47))
is_valid_user_buffer_iff_example =
    is_valid_user_buffer_iff 0x1000 (2 ^ 64 - 1) (omega arith) (omega arith)

abbrev file : FileNode
file = record {
  number = 5;
  is_file = true;
  size = 4;
  read_all = λ off k. some (got (take k (drop off (10 ∷ 11 ∷ 12 ∷ 13 ∷ []))));
}

abbrev disk : FileSystem
disk = record { find_in_root = λ name. some (some file); get_node = λ i. some file }

abbrev fds : FdTable
fds = record {
  fds = set (replicate 32 closed) 3 (record { used = true; inode = 5; offset = 1 });
  initialized = true;
}

fds-Ready : Ready fds
fds-Ready = record { set_up = refl; size = refl }

fds-OpenOn : OpenOn disk fds 3 file (10 ∷ 11 ∷ 12 ∷ 13 ∷ [])
fds-OpenOn = record {
  ready = fds-Ready;
  in_table = omega arith;
  in_use = refl;
  inode = omega arith;
  node = refl;
  file = record { size = refl; small = omega arith; reads = λ offset k le. refl };
}

allocate_fd-Opened_example :
    let (fd, t) = allocate_fd 9 fds in
    Opened 9 fds fd t
    ⊎ ((fd ≡ failed) × (t ≡ fds) × ((j : ℕ) → 3 ≤ j → j < 32 → (at fds j).used ≡ true))
allocate_fd-Opened_example = allocate_fd-Opened 9 fds fds-Ready

lseek_lem_example : lseek (some disk) 3 5 0 fds ≡ some (failed, fds)
lseek_lem_example = lseek_lem disk fds 3 file (10 ∷ 11 ∷ 12 ∷ 13 ∷ []) fds-OpenOn 5 0

-- Memory that keeps the last bytes stored.
abbrev memory : UserMemory (List ℕ)
memory = record {
  range_mapped = λ ptr len s. some (true, s);
  load = λ s ptr. 0;
  store = λ ptr bytes s. bytes;
}

read-slice_example :
    read memory (some disk) 3 0x1000 2 fds []
    ≡ some (
      2,
      record fds { fds = set fds.fds 3 (record { used = true; inode = 5; offset = 3 }) },
      11 ∷ 12 ∷ [],
    )
unfolding is_valid_user_buffer
read-slice_example =
    read-slice disk fds 3 file (10 ∷ 11 ∷ 12 ∷ 13 ∷ []) fds-OpenOn memory 0x1000 2 [] [] refl refl
      (omega arith)
