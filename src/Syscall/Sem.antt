-- ===== src/Syscall/Sem.antt =====
-- The semaphores of kernel/syscall.cc: `semget`, `semop` and `semctl` (cases 64 to 66).
pub mod Keys
pub mod Count
use p.Prelude.{
  ℕ, ◌+◌, ◌-◌, ◌%◌, ◌^◌, Bool, true, false, not, ◌&&◌, ◌||◌, Option, none, some, List, [], ◌∷◌, ltb,
  leb, ◌==◌, if◌then◌else◌, get_or, set, replicate,
}
use p.Syscall.Word.{failed, int_of, is_negative, out_of}

abbrev pub max_semaphores : ℕ
max_semaphores = 64

-- `struct KernelSemaphore`. The key and the value are 32-bit patterns.
pub record Sem : Type 0 where
  pub used : Bool
  pub key : ℕ
  pub value : ℕ

abbrev pub unused : Sem
unused = record { used = false; key = 0; value = 0 }

abbrev pub empty : List Sem
empty = replicate max_semaphores unused

-- The two loops of `find_or_create_sem_locked`, from index `i` on.
unfoldable pub find_key : ℕ → ℕ → List Sem → Option ℕ
find_key key i [] = none
find_key key i (s ∷ ss) = if s.used && s.key == key then some i else find_key key (i + 1) ss

unfoldable pub find_unused : ℕ → List Sem → Option ℕ
find_unused i [] = none
find_unused i (s ∷ ss) = if not s.used then some i else find_unused (i + 1) ss

abbrev pub create : ℕ → List Sem → Option ℕ → Option (ℕ × List Sem)
create key t none = none
create key t (some i) = some (i, set t i (record { used = true; key = key; value = 0 }))

abbrev pub or_create : ℕ → List Sem → Option ℕ → Option (ℕ × List Sem)
or_create key t none = create key t (find_unused 0 t)
or_create key t (some i) = some (i, t)

-- `find_or_create_sem_locked`: an index and the table after it, or the null pointer.
unfoldable pub find_or_create : ℕ → List Sem → Option (ℕ × List Sem)
find_or_create key t = or_create key t (find_key key 0 t)

abbrev pub or_failed : List Sem → Option (ℕ × List Sem) → ℕ × List Sem
or_failed t none = (failed, t)
or_failed t (some r) = r

-- `semget`
unfoldable pub semget : ℕ → ℕ → List Sem → ℕ × List Sem
semget rdi rsi t =
    if int_of rsi == 1 then or_failed t (find_or_create (int_of rdi) t) else (failed, t)

-- `semctl`, whose only command is 0 (IPC_RMID)
unfoldable pub semctl : ℕ → ℕ → List Sem → ℕ × List Sem
semctl rdi rdx t =
    if out_of max_semaphores (int_of rdi) || not (int_of rdx == 0)
    then (failed, t)
    else if not (get_or t (int_of rdi) unused).used
    then (failed, t)
    else (0, set t (int_of rdi) unused)

-- sem_op is an int16_t: a 16-bit pattern, negative from 2 ^ 15 on.
abbrev pub takes : ℕ → Bool
takes op = leb (2 ^ 15) op

-- -int(op) of a negative one
abbrev pub need_of : ℕ → ℕ
need_of op = 2 ^ 16 - op

-- The guards of `semop` in front of its loop: the id, the count of operations and `sem_num`.
-- (The copy of the operation from user memory comes between them.)
unfoldable pub semop_rejects : ℕ → ℕ → ℕ → Bool
semop_rejects rdi nsops sem_num =
    out_of max_semaphores (int_of rdi) || not (nsops == 1) || not (sem_num == 0)

-- One round of its loop, under the lock: it returns a result, or yields and comes again.
pub data Turn : Type 0 where
  returns : ℕ → List Sem → Turn
  again : Turn

unfoldable pub semop_turn : ℕ → ℕ → List Sem → Turn
semop_turn semid op t =
    let s = get_or t semid unused in
    let need = need_of op in
    if not s.used
    then returns failed t
    else if takes op
    then (if leb need s.value && not (is_negative s.value)
        then returns 0 (set t semid (record s { value = s.value - need }))
        else again)
    else if ltb 0 op
    then returns 0 (set t semid (record s { value = (s.value + op) % 2 ^ 32 }))
    else returns 0 t
