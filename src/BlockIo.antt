-- ===== src/BlockIo.antt =====
-- Byte reads over blocks: kernel/block_io.cc and kernel/block_io.h.
pub mod Slice
mod Tests
use p.Prelude.{
  ℕ, zero, suc, ◌+◌, ◌-◌, ◌/◌, ◌%◌, ◌^◌, min, Option, none, some, List, [], ◌∷◌, ◌++◌, ltb, ◌==◌,
  if◌then◌else◌, length, take, drop, add32,
}

-- The virtual methods of BlockIO that a device provides. `none`: the device stops the kernel.
pub record Device : Type 0 where
  pub block_size : ℕ
  pub size_in_bytes : ℕ
  pub read_block : ℕ → Option (List ℕ)

-- `size_in_blocks`, in uint32_t arithmetic
abbrev pub size_in_blocks : Device → ℕ
size_in_blocks d = (d.size_in_bytes + d.block_size + 2 ^ 32 - 1) % 2 ^ 32 / d.block_size

-- What a read returns: -1, or the bytes that it puts at the start of the buffer (the result is
-- their number).
pub data Reply : Type 0 where
  error : Reply
  got : List ℕ → Reply

-- The bytes that `read` takes out of a block: all of it in place, or a part by way of `temp`.
abbrev pub part : ℕ → ℕ → Option (List ℕ) → Option Reply
part offset_in_block n none = none
part offset_in_block n (some block) = some (got (take n (drop offset_in_block block)))

-- The block that holds the offset, and how much of it is wanted.
abbrev pub wanted : Device → ℕ → ℕ → ℕ
wanted d offset desired_n =
    min (d.block_size - offset % d.block_size) (min desired_n (d.size_in_bytes - offset))

-- `BlockIO::read`. The outer option is none where the kernel stops. With an offset that is below
-- the size no subtraction of the source wraps.
unfoldable pub read : Device → ℕ → ℕ → Option Reply
read d offset desired_n =
    let block_number = offset / d.block_size in
    let n = wanted d offset desired_n in
    if ltb d.size_in_bytes offset
    then some error
    else if offset == d.size_in_bytes
    then some (got [])
    else if n == d.block_size
    then part 0 n (d.read_block block_number)
    else part (offset % d.block_size) n (d.read_block block_number)

-- `BlockIO::read_all`. Each round but the last reads at least one byte, so that `n` rounds and one
-- more are enough.
abbrev pub go_on : List ℕ → (List ℕ → Option Reply) → Option Reply → Option Reply
go_on sofar next none = none
go_on sofar next (some error) = some error
go_on sofar next (some (got [])) = some (got sofar)
go_on sofar next (some (got (b ∷ bs))) = next (b ∷ bs)

unfoldable pub read_loop : Device → ℕ → ℕ → ℕ → List ℕ → Option Reply
read_loop d zero offset n sofar = none
read_loop d (suc fuel) offset n sofar =
    let step = read d offset n in
    let next = λ (bytes : List ℕ).
      read_loop d fuel (add32 offset (length bytes)) (n - length bytes) (sofar ++ bytes) in
    if n == 0 then some (got sofar) else go_on sofar next step

unfoldable pub read_all : Device → ℕ → ℕ → Option Reply
unfolding read_loop
read_all d offset n = read_loop d (n + 1) offset n []
