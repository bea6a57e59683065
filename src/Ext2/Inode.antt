-- ===== src/Ext2/Inode.antt =====
-- A node of the file system: class Node of kernel/ext2.h and kernel/ext2.cc.
pub mod Contents
use p.Prelude.{
  ℕ, zero, suc, ◌+◌, ◌-◌, ◌*◌, ◌/◌, ◌%◌, ◌^◌, Bool, true, false, not, ◌&&◌, Option, none, some,
  List, [], ◌∷◌, ltb, leb, ◌==◌, if◌then◌else◌, length, take, drop, add32, mul32,
}
use p.Syscall.Fd.{FileNode}
use p.BlockIo.{Device, Reply, error, got, read_all}

-- Bytes in little-endian order.
unfoldable pub le : List ℕ → ℕ
le [] = 0
le (b ∷ bs) = b + 256 * le bs

-- A field of a structure, by its offset and size.
abbrev pub field : List ℕ → ℕ → ℕ → ℕ
field bytes offset size = le (take size (drop offset bytes))

-- `BlockIO::read` into a structure of `n` bytes: it stops the kernel unless all of them are there.
abbrev pub all_of : ℕ → Option Reply → Option (List ℕ)
all_of n none = none
all_of n (some error) = none
all_of n (some (got bytes)) = if length bytes == n then some bytes else none

unfoldable pub read_exact : Device → ℕ → ℕ → Option (List ℕ)
read_exact d offset n = all_of n (read_all d offset (n % 2 ^ 32))

-- `NodeData`: its 128 bytes, and the fields that are used.
abbrev pub NodeData : Type 0
NodeData = List ℕ

abbrev pub node_data_size : ℕ
node_data_size = 128

unfoldable pub mode : NodeData → ℕ
mode node_data = field node_data 0 2

unfoldable pub size_low : NodeData → ℕ
size_low node_data = field node_data 4 4

unfoldable pub n_links : NodeData → ℕ
n_links node_data = field node_data 26 2

unfoldable pub n_sectors : NodeData → ℕ
n_sectors node_data = field node_data 28 4

-- `&data.direct0` with an index
unfoldable pub direct : NodeData → ℕ → ℕ
direct node_data i = field node_data (40 + 4 * i) 4

unfoldable pub indirect_1 : NodeData → ℕ
indirect_1 node_data = field node_data 88 4

abbrev pub get_type : NodeData → ℕ
get_type node_data = mode node_data / 2 ^ 12

abbrev pub is_dir : NodeData → Bool
is_dir node_data = get_type node_data == 4

abbrev pub is_file : NodeData → Bool
is_file node_data = get_type node_data == 8

abbrev pub is_symlink : NodeData → Bool
is_symlink node_data = get_type node_data == 0xA

pub record Node : Type 0 where
  pub number : ℕ
  pub block_size : ℕ
  pub node_data : NodeData
  pub device : Device

-- A block of the file system.
abbrev pub block : Node → Option ℕ → Option (List ℕ)
block n none = none
block n (some block_index) = read_exact n.device (mul32 block_index n.block_size) n.block_size

abbrev pub word : Option (List ℕ) → Option ℕ
word none = none
word (some bytes) = some (le bytes)

-- The number of the block that holds a block of the node: a direct one, or one of the first
-- indirect block; the kernel stops on any further one.
unfoldable pub block_index : Node → ℕ → Option ℕ
block_index n index =
    if ltb index 12
    then some (direct n.node_data index)
    else if ltb index (12 + n.block_size / 4)
    then word (
        read_exact n.device
          (add32 (mul32 (indirect_1 n.node_data) n.block_size) (mul32 (index - 12) 4)) 4)
    else none

-- `Node::read_block`
unfoldable pub read_block : Node → ℕ → Option (List ℕ)
read_block n index =
    if ltb index (n_sectors n.node_data / (n.block_size / 512))
    then block n (block_index n index)
    else none

-- A node as the BlockIO that it is.
abbrev pub as_device : Node → Device
as_device n = record {
  block_size = n.block_size;
  size_in_bytes = size_low n.node_data;
  read_block = read_block n;
}

-- What the handlers of system calls see of a node.
abbrev pub file_node : Node → FileNode
file_node n = record {
  number = n.number;
  is_file = is_file n.node_data;
  size = size_low n.node_data;
  read_all = read_all (as_device n);
}

-- `get_symbol`
unfoldable pub get_symbol : Node → Option (List ℕ)
get_symbol n =
    let size = size_low n.node_data in
    if not (is_symlink n.node_data)
    then none
    else if leb size 60
    then some (take size (drop 40 n.node_data))
    else read_exact (as_device n) 0 size

-- One round of the loop of `entries`: the i-number, the name, and the size of the entry.
abbrev pub with_name : ℕ → ℕ → Option (List ℕ) → Option (ℕ × List ℕ × ℕ)
with_name inode total_size none = none
with_name inode total_size (some name) = some (inode, name, total_size)

unfoldable pub entry_at : Device → ℕ → Option (ℕ × List ℕ × ℕ)
entry_at d offset = elim (word (read_exact d offset 4)) [
  | none ↦ none
  | some inode ↦ elim (word (read_exact d (add32 offset 4) 2)) [
    | none ↦ none
    | some total_size ↦ elim (word (read_exact d (add32 offset 6) 1)) [
      | none ↦ none
      | some name_length ↦ with_name inode total_size (read_exact d (add32 offset 8) name_length)
    ]
  ]
]

-- The loop, with the rounds that are left: what `work` is called with, in order. `none`: the kernel
-- stops, or the rounds are used up. An entry of size 0 makes the source loop for ever.
unfoldable pub entries_loop : ℕ → ℕ → Node → Option (List (ℕ × List ℕ))
entries_loop zero offset n = none
entries_loop (suc rounds) offset n =
    let next : Option (List (ℕ × List ℕ)) = elim (entry_at (as_device n) offset) [
      | none ↦ none
      | some (inode, name, total_size) ↦ elim (entries_loop rounds (add32 offset total_size) n) [
        | none ↦ none
        | some rest ↦ some ((inode, name) ∷ rest)
      ]
    ] in
    if ltb offset (size_low n.node_data) then next else some []

-- `entries`: as many rounds as the directory has bytes, and one more.
unfoldable pub entries : Node → Option (List (ℕ × List ℕ))
entries n = if is_dir n.node_data then entries_loop (size_low n.node_data + 1) 0 n else none

-- The bytes in front of the terminating 0.
unfoldable pub c_string : List ℕ → List ℕ
c_string [] = []
c_string (b ∷ bs) = if b == 0 then [] else b ∷ c_string bs

unfoldable pub streq : List ℕ → List ℕ → Bool
streq [] [] = true
streq (x ∷ xs) (y ∷ ys) = x == y && streq xs ys
streq _ _ = false

-- The calls of `work` that `find` makes, `out` being the captured variable.
unfoldable pub last_named : List ℕ → ℕ → List (ℕ × List ℕ) → ℕ
last_named name out [] = out
last_named name out ((inode, nm) ∷ es) =
    last_named name (if streq name (c_string nm) then inode else out) es

-- `Node::find`
unfoldable pub find_number : List ℕ → Node → Option ℕ
find_number name n = elim (entries n) [ none ↦ none | some es ↦ some (last_named name 0 es) ]

-- `entry_count`
unfoldable pub entry_count : Node → Option ℕ
entry_count n = elim (entries n) [ none ↦ none | some es ↦ some (length es % 2 ^ 32) ]
