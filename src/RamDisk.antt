-- ===== src/RamDisk.antt =====
-- The disk in memory: kernel/ramdisk.h and kernel/ramdisk.cc.
pub mod Holding
mod Tests
use p.Prelude.{
  ℕ, ◌+◌, ◌-◌, ◌/◌, ◌%◌, ◌^◌, Option, none, some, List, ltb, if◌then◌else◌, take, drop, mul32,
}
use p.BlockIo.{Device}

-- `limine_file`: the size of a module, and the memory from its address on.
pub record Module : Type 0 where
  pub size : ℕ
  pub memory : List ℕ

abbrev pub block_size : ℕ
block_size = 512

abbrev pub size_in_bytes : Module → ℕ
size_in_bytes m = m.size % 2 ^ 32

-- `read_block`, without the delay. `none`: the assertion fails.
abbrev pub read_block : Module → ℕ → ℕ → Option (List ℕ)
read_block m blocks block =
    if ltb block blocks
    then some (take block_size (drop (mul32 block_size block) m.memory))
    else none

-- `RamDisk` as a device.
unfoldable pub ram_disk : Module → Device
ram_disk m = record {
  block_size = block_size;
  size_in_bytes = size_in_bytes m;
  read_block =
      let blocks = (size_in_bytes m + block_size + 2 ^ 32 - 1) % 2 ^ 32 / block_size in
      read_block m blocks;
}
