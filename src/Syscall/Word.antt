-- ===== src/Syscall/Word.antt =====
-- Register values as the handlers of kernel/syscall.cc read them, and what they return.
use p.Prelude.{ℕ, ◌-◌, ◌%◌, ◌^◌, ◌||◌, Bool, leb}

-- `return -1`: the value that goes to %rax.
abbrev pub failed : ℕ
failed = 2 ^ 64 - 1

-- (int)r: a 32-bit pattern, negative from 2 ^ 31 on.
abbrev pub int_of : ℕ → ℕ
int_of r = r % 2 ^ 32

abbrev pub is_negative : ℕ → Bool
is_negative i = leb (2 ^ 31) i

-- `i < 0 || i >= n`
abbrev pub out_of : ℕ → ℕ → Bool
out_of n i = is_negative i || leb n i
