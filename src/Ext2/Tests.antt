-- ===== src/Ext2/Tests.antt =====
-- A node on a small disk.
use p.Prelude.{ℕ, ◌*◌, some, List, ◌∷◌, ◌++◌, take, drop, replicate}
use p.BlockIo.{Device}
use p.Ext2.Inode.{Node}

abbrev sevens : List ℕ
sevens = replicate 512 7

abbrev disk : Device
disk = record {
  block_size = 512;
  size_in_bytes = 512;
  read_block = λ i. some (take 512 (drop (i * 512) sevens));
}

-- A file of 300 bytes in block 0.
abbrev node : Node
node = record {
  number = 12;
  block_size = 512;
  node_data = 0 ∷ 0x80 ∷ 0 ∷ 0 ∷ 44 ∷ 1 ∷ 0 ∷ 0 ∷ (replicate 20 0 ++ (1 ∷ replicate 99 0));
  device = disk;
}
