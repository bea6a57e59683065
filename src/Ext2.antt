-- ===== src/Ext2.antt =====
-- The ext2 file system, read only: kernel/ext2.cc and kernel/ext2.h.
pub mod Inode
mod Tests
use p.Prelude.{
  ℕ, zero, suc, ◌+◌, ◌-◌, ◌*◌, ◌/◌, ◌%◌, ◌^◌, ◌||◌, Option, none, some, List, [], ◌∷◌, ltb, leb,
  ◌==◌, if◌then◌else◌, get_or, drop, add32, mul32,
}
use p.BlockIo.{Device}
use p.Ext2.Inode.{Node, read_exact, field, node_data_size, find_number}

-- What the constructor reads of `SuperBlock` (140 bytes at offset 1024).
pub record SuperBlock : Type 0 where
  pub inodes_count : ℕ
  pub blocks_count : ℕ
  pub log_block_size : ℕ
  pub blocks_per_group : ℕ
  pub inodes_per_group : ℕ
  pub inode_size : ℕ

unfoldable pub super_block : List ℕ → SuperBlock
super_block bytes = record {
  inodes_count = field bytes 0 4;
  blocks_count = field bytes 4 4;
  log_block_size = field bytes 24 4;
  blocks_per_group = field bytes 32 4;
  inodes_per_group = field bytes 40 4;
  inode_size = field bytes 88 2;
}

-- `Ext2`, without the root node and the group table, of which it keeps the i-node tables.
pub record Ext2 : Type 0 where
  pub device : Device
  pub block_size : ℕ
  pub number_of_nodes : ℕ
  pub number_of_blocks : ℕ
  pub inode_size : ℕ
  pub n_groups : ℕ
  pub inode_tables : List ℕ
  pub inodes_per_group : ℕ

-- sizeof(BlockGroup), with the field `inode_table` at 8
abbrev pub group_size : ℕ
group_size = 32

unfoldable pub inode_tables_of : ℕ → List ℕ → List ℕ
inode_tables_of zero bytes = []
inode_tables_of (suc n) bytes = field bytes 8 4 ∷ inode_tables_of n (drop group_size bytes)

abbrev pub groups_of : SuperBlock → ℕ
groups_of sb = (sb.blocks_count + sb.blocks_per_group + 2 ^ 32 - 1) % 2 ^ 32 / sb.blocks_per_group

abbrev pub with_groups : Device → SuperBlock → ℕ → Option (List ℕ) → Option Ext2
with_groups d sb block_size none = none
with_groups d sb block_size (some bytes) = some (record {
  device = d;
  block_size = block_size;
  number_of_nodes = sb.inodes_count;
  number_of_blocks = sb.blocks_count;
  inode_size = sb.inode_size;
  n_groups = groups_of sb;
  inode_tables = inode_tables_of (groups_of sb) bytes;
  inodes_per_group = sb.inodes_per_group;
})

-- The constructor up to `root`, after the super block has been read. A division by 0 stops the
-- kernel. (A shift by 32 or more is undefined in the source; here it gives 0, and stops.)
abbrev pub mount_super : Device → Option (List ℕ) → Option Ext2
mount_super d none = none
mount_super d (some bytes) =
    let sb = super_block bytes in
    let block_size = 2 ^ (sb.log_block_size + 10) % 2 ^ 32 in
    let group_table_number = 1024 / block_size + 1 in
    if sb.blocks_per_group == 0 || block_size == 0
    then none
    else if ltb (mul32 (groups_of sb) sb.blocks_per_group) sb.blocks_count
    then none
    else with_groups d sb block_size
        (read_exact d (mul32 group_table_number block_size) (group_size * groups_of sb))

unfoldable pub mount : Device → Option Ext2
mount d = mount_super d (read_exact d 1024 140)

abbrev pub node_at : Ext2 → ℕ → Option (List ℕ) → Option Node
node_at fs number none = none
node_at fs number (some node_data) = some (record {
  number = number;
  block_size = fs.block_size;
  node_data = node_data;
  device = fs.device;
})

-- `get_node`
unfoldable pub get_node : ℕ → Ext2 → Option Node
get_node number fs =
    let index = number - 1 in
    let group_index = index / fs.inodes_per_group in
    let table_base = get_or fs.inode_tables group_index 0 in
    let node_offset =
      add32 (mul32 table_base fs.block_size) (mul32 (index % fs.inodes_per_group) fs.inode_size) in
    if number == 0 || ltb fs.number_of_nodes number || fs.inodes_per_group == 0
    then none
    else if leb fs.n_groups group_index || ltb fs.number_of_blocks table_base
    then none
    else node_at fs number (read_exact fs.device node_offset node_data_size)

abbrev pub found : Ext2 → Option ℕ → Option (Option Node)
found fs none = none
found fs (some number) =
    let node = get_node number fs in
    if number == 0 then some none else elim node [ none ↦ none | some n ↦ some (some n) ]

-- `Ext2::find`: the inner `none` is the null reference.
unfoldable pub find : Node → List ℕ → Ext2 → Option (Option Node)
find dir name fs = found fs (find_number name dir)
