-- ===== src/Ext2/Inode/Contents.antt =====
-- A node whose blocks are on the disk is a device that holds the file's bytes.
use p.Prelude.{ℕ, zero, suc, ◌+◌, ◌*◌, ◌/◌, ◌^◌, ◌≤◌, ◌<◌, ◌≡◌, some, List, [], ◌++◌, length, take}
use p.Prelude.{slice}
use p.BlockIo.Slice.{Holds}
use p.Ext2.Inode.{Node, block_index, size_low, n_sectors}

module _ (n : Node) (bytes : List ℕ) (number : ℕ → ℕ) (blocks : ℕ) where
  -- The node's first blocks have numbers on the disk, which holds `bytes`, and are enough for its
  -- size.
  pub record OnDisk : Type 0 where
    pub disk : Holds n.device bytes
    pub whole : 0 < n.block_size
    pub enough : size_low n.node_data ≤ blocks * n.block_size
    pub small : size_low n.node_data < 2 ^ 32
    pub sectors : blocks ≤ n_sectors n.node_data / (n.block_size / 512)
    pub numbered : (i : ℕ) → i < blocks → block_index n i ≡ some (number i)
    pub inside : (i : ℕ) → i < blocks → number i * n.block_size + n.block_size ≤ length bytes

  -- A block of the disk, and the node's blocks from the `i`-th on, one after the other.
  abbrev pub piece : ℕ → List ℕ
  piece i = slice (number i * n.block_size) n.block_size bytes

  unfoldable pub gather : ℕ → ℕ → List ℕ
  gather i zero = []
  gather i (suc k) = piece i ++ gather (i + 1) k

  abbrev pub contents : List ℕ
  contents = take (size_low n.node_data) (gather 0 blocks)
