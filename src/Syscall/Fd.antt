-- ===== src/Syscall/Fd.antt =====
-- File descriptors in kernel/syscall.cc: `read`, `open`, `close` and `lseek` (cases 0, 2, 3 and 8).
pub mod Allocate
pub mod Transfer
use p.Prelude.{
  ℕ, ◌+◌, ◌-◌, min, Bool, true, false, not, ◌||◌, Option, none, some, List, [], ◌∷◌, map, ltb, leb,
  ◌==◌, if◌then◌else◌, length, get_or, set, drop, add64,
}
use p.BlockIo.{Reply, error, got}
use p.Syscall.Word.{failed, int_of, out_of}
use p.Syscall.UserBuffer.{is_valid_user_buffer, UserMemory, copy_user_cstring}

abbrev pub max_fds : ℕ
max_fds = 32

-- `struct FileDescriptor`
pub record Fd : Type 0 where
  pub used : Bool
  pub inode : ℕ
  pub offset : ℕ

abbrev pub closed : Fd
closed = record { used = false; inode = 0; offset = 0 }

-- `fdTable` and `fdTableInitialized`, of one thread
pub record FdTable : Type 0 where
  pub fds : List Fd
  pub initialized : Bool

abbrev pub at : FdTable → ℕ → Fd
at t fd = get_or t.fds fd closed

abbrev pub write_fd : FdTable → ℕ → Fd → FdTable
write_fd t fd d = record t { fds = set t.fds fd d }

unfoldable pub init_fd_table : FdTable → FdTable
init_fd_table t =
    if t.initialized then t else record { fds = map (λ _. closed) t.fds; initialized = true }

-- The loop of `allocate_fd` over what is left of the table.
unfoldable pub find_free : ℕ → List Fd → Option ℕ
find_free i [] = none
find_free i (d ∷ ds) = if not d.used then some i else find_free (i + 1) ds

abbrev pub opened : ℕ → FdTable → Option ℕ → ℕ × FdTable
opened inode t none = (failed, t)
opened inode t (some i) = (i, write_fd t i (record { used = true; inode = inode; offset = 0 }))

unfoldable pub allocate_fd : ℕ → FdTable → ℕ × FdTable
allocate_fd inode t =
    let ready = init_fd_table t in opened inode ready (find_free 3 (drop 3 ready.fds))

-- What a handler sees of an i-node, and of the mounted file system (kernel/ext2.h): the look-up of a
-- name in the root directory, and `get_node`. `none` stops the kernel.
pub record FileNode : Type 0 where
  pub number : ℕ
  pub is_file : Bool
  pub size : ℕ
  pub read_all : ℕ → ℕ → Option Reply

pub record FileSystem : Type 0 where
  pub find_in_root : List ℕ → Option (Option FileNode)
  pub get_node : ℕ → Option FileNode

-- `fd < 0 || fd >= maxFds || !fdTable[fd].used`
abbrev pub bad_fd : FdTable → ℕ → Bool
bad_fd t fd = out_of max_fds fd || not (at t fd).used

-- `close`
unfoldable pub close : ℕ → FdTable → ℕ × FdTable
close rdi t =
    let ready = init_fd_table t in
    let fd = int_of rdi in
    if bad_fd ready fd then (failed, ready) else (0, write_fd ready fd closed)

-- `g_sys_fs_ptr` and the node of a descriptor: none for the null pointer or i-number 0.
abbrev pub node_of : Option FileSystem → ℕ → Option (Option FileNode)
node_of none inode = some none
node_of (some fs) inode =
    let node = fs.get_node inode in
    if inode == 0 then some none else elim node [ none ↦ none | some n ↦ some (some n) ]

abbrev pub seek_in : ℕ → ℕ → FdTable → Option (Option FileNode) → Option (ℕ × FdTable)
seek_in fd offset t none = none
seek_in fd offset t (some none) = some (failed, t)
seek_in fd offset t (some (some n)) =
    if ltb n.size offset
    then some (failed, t)
    else some (offset, write_fd t fd (record (at t fd) { offset = offset }))

-- `lseek`, of which only SEEK_SET (0) is implemented.
unfoldable pub lseek : Option FileSystem → ℕ → ℕ → ℕ → FdTable → Option (ℕ × FdTable)
lseek fs rdi rsi rdx t =
    let ready = init_fd_table t in
    let fd = int_of rdi in
    if bad_fd ready fd
    then some (failed, ready)
    else if not (int_of rdx == 0)
    then some (failed, ready)
    else seek_in fd rsi ready (node_of fs (at ready fd).inode)

module _ {S : Type 0} (um : UserMemory S) where
  -- The bytes go to the buffer, and their number to the offset and the caller.
  abbrev pub deliver : ℕ → ℕ → FdTable → S → Option Reply → Option (ℕ × FdTable × S)
  deliver fd buf t s none = none
  deliver fd buf t s (some error) =
      some (failed, write_fd t fd (record (at t fd) { offset = add64 (at t fd).offset failed }), s)
  deliver fd buf t s (some (got bytes)) = some (
    length bytes,
    write_fd t fd (record (at t fd) { offset = add64 (at t fd).offset (length bytes) }),
    um.store buf bytes s,
  )

  abbrev pub read_in : ℕ → ℕ → ℕ → FdTable → S → Option (Option FileNode) → Option (ℕ × FdTable × S)
  read_in fd buf len t s none = none
  read_in fd buf len t s (some none) = some (failed, t, s)
  read_in fd buf len t s (some (some n)) =
      let off = (at t fd).offset in
      if leb n.size off
      then some (0, t, s)
      else deliver fd buf t s (n.read_all off (min len (n.size - off)))

  abbrev pub read_checked :
      Option FileSystem → ℕ → ℕ → ℕ → FdTable → Option (Bool × S) → Option (ℕ × FdTable × S)
  read_checked fs fd buf len t none = none
  read_checked fs fd buf len t (some (false, s)) = some (failed, t, s)
  read_checked fs fd buf len t (some (true, s)) =
      read_in fd buf len t s (node_of fs (at t fd).inode)

  -- `read`
  unfoldable pub read : Option FileSystem → ℕ → ℕ → ℕ → FdTable → S → Option (ℕ × FdTable × S)
  read fs rdi rsi rdx t s =
      let ready = init_fd_table t in
      let fd = int_of rdi in
      if bad_fd ready fd
      then some (failed, ready, s)
      else if not (is_valid_user_buffer rsi rdx)
      then some (failed, ready, s)
      else read_checked fs fd rsi rdx ready (um.range_mapped rsi rdx s)

  abbrev pub open_node : FdTable → S → Option (Option FileNode) → Option (ℕ × FdTable × S)
  open_node t s none = none
  open_node t s (some none) = some (failed, t, s)
  open_node t s (some (some n)) =
      let (fd, t') = allocate_fd n.number t in
      if not n.is_file then some (failed, t, s) else some (fd, t', s)

  abbrev pub open_path :
      FileSystem → FdTable → Option (Option (List ℕ) × S) → Option (ℕ × FdTable × S)
  open_path fs t none = none
  open_path fs t (some (none, s)) = some (failed, t, s)
  open_path fs t (some (some path, s)) = open_node t s (fs.find_in_root path)

  -- `open`
  unfoldable pub open_file : Option FileSystem → ℕ → FdTable → S → Option (ℕ × FdTable × S)
  open_file none rdi t s = some (failed, t, s)
  open_file (some fs) rdi t s = open_path fs t (copy_user_cstring um rdi 256 s)
