-- ===== src/Syscall/UserBuffer.antt =====
-- `is_valid_user_buffer`, `copy_user_cstring` and `write` (case 1) of kernel/syscall.cc.
use p.Prelude.{
  not, ℕ, zero, suc, ◌+◌, ◌^◌, ◌≤◌, ◌<◌, ◌≡◌, ◌↔◌, ◌⊎◌, Bool, true, false, ◌||◌, Option, none, some,
  List, [], ◌∷◌, arith, ltb, leb, ◌==◌, if◌then◌else◌, add64, sub64,
}
use p.Syscall.Word.{failed}
use p.Vmm.Vme.{user_top}

unfoldable pub is_valid_user_buffer : ℕ → ℕ → Bool
is_valid_user_buffer ptr len =
    let last = sub64 (add64 ptr len) 1 in
    if len == 0
    then true
    else if leb user_top ptr
    then false
    else if ltb last ptr
    then false
    else if leb user_top last
    then false
    else true

-- For 64-bit arguments, the test says yes exactly to an empty buffer and to one that lies whole in
-- user space; a length for which the end passes 2 ^ 64 does not slip through.
pub is_valid_user_buffer_iff :
    (ptr len : ℕ)
    → ptr < 2 ^ 64
    → len < 2 ^ 64
    → (is_valid_user_buffer ptr len ≡ true) ↔ ((len ≡ 0) ⊎ (ptr + len ≤ user_top))
unfolding is_valid_user_buffer
is_valid_user_buffer_iff ptr len a b = ground arith

-- User memory: `VMM::is_user_range_mapped` (it may bring pages in, and `none` stops the kernel),
-- and plain loads and stores.
pub record UserMemory (S : Type 0) : Type 0 where
  pub range_mapped : ℕ → ℕ → S → Option (Bool × S)
  pub load : S → ℕ → ℕ
  pub store : ℕ → List ℕ → S → S

module _ {S : Type 0} (um : UserMemory S) where
  -- What the copy gives: no copy, or the bytes in front of the terminating 0.
  abbrev pub Copy : Type 0
  Copy = Option (Option (List ℕ) × S)

  -- The loop, with the places that are left in `out`. When it runs out of them, the last byte is
  -- overwritten by the terminating 0.
  unfoldable pub copy_loop : ℕ → ℕ → S → Copy
  copy_loop zero ptr s = some (some [], s)
  copy_loop (suc left) ptr s = elim (um.range_mapped ptr 1 s) [
    | none ↦ none
    | some (false, s') ↦ some (none, s')
    | some (true, s') ↦
        let ch = um.load s' ptr in
        let rest = copy_loop left (add64 ptr 1) s' in
        if ch == 0
        then some (some [], s')
        else if left == 0
        then some (some [], s')
        else elim rest [
          | none ↦ none
          | some (none, t) ↦ some (none, t)
          | some (some bytes, t) ↦ some (some (ch ∷ bytes), t)
        ]
  ]

  unfoldable pub copy_user_cstring : ℕ → ℕ → S → Copy
  unfolding copy_loop
  copy_user_cstring ptr max_len s =
      if ptr == 0 || max_len == 0 then some (none, s) else copy_loop max_len ptr s

  -- The bytes of a buffer, which `write` puts out one after the other.
  unfoldable pub load_bytes : ℕ → ℕ → S → List ℕ
  load_bytes zero ptr s = []
  load_bytes (suc n) ptr s = um.load s ptr ∷ load_bytes n (add64 ptr 1) s

  -- `write` (case 1): the result, and what goes to the console.
  abbrev pub put_out : ℕ → ℕ → Option (Bool × S) → Option (ℕ × List ℕ × S)
  put_out buf len none = none
  put_out buf len (some (false, s)) = some (failed, [], s)
  put_out buf len (some (true, s)) = some (len, load_bytes len buf s, s)

  unfoldable pub write_out : ℕ → ℕ → ℕ → S → Option (ℕ × List ℕ × S)
  write_out rdi rsi rdx s =
      if not (rdi == 1)
      then some (failed, [], s)
      else if not (is_valid_user_buffer rsi rdx)
      then some (failed, [], s)
      else put_out rsi rdx (um.range_mapped rsi rdx s)
