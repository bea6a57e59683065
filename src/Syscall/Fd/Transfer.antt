-- ===== src/Syscall/Fd/Transfer.antt =====
-- What `read`, `lseek` and `close` do with a descriptor.
use p.Prelude.{
  slice, ℕ, zero, suc, ◌+◌, ◌-◌, ◌^◌, ◌≤◌, ◌<◌, min, ◌≡◌, refl, sym, ap, ◌∙◌, ◌≢◌, inl, inr, true,
  false, ◌&&◌, some, List, [], ◌∷◌, arith, dec_le, leb, ◌==◌, if◌then◌else◌, Bool-cases, length,
  take, drop, length-take, length-drop, add64,
}
use p.BlockIo.{got}
use p.Syscall.Word.{failed, int_of}
use p.Syscall.UserBuffer.{is_valid_user_buffer, UserMemory}
use p.Syscall.Fd.{
  FdTable, at, write_fd, max_fds, init_fd_table, FileNode, FileSystem, bad_fd, node_of, lseek, read,
}
use p.Syscall.Fd.Allocate.{Ready, init_fd_table-Ready}

-- The node holds the bytes of a file, and its `read_all` is that of block_io.cc.
pub record File (n : FileNode) (bytes : List ℕ) : Type 0 where
  pub size : n.size ≡ length bytes
  pub small : length bytes < 2 ^ 32
  pub reads :
      (offset k : ℕ)
      → offset ≤ length bytes
      → n.read_all offset k ≡ some (got (slice offset k bytes))

-- A descriptor in use, on a file of the mounted file system.
pub record OpenOn (fs : FileSystem) (t : FdTable) (fd : ℕ) (n : FileNode) (bytes : List ℕ)
    : Type 0 where
  pub ready : Ready t
  pub in_table : fd < max_fds
  pub in_use : (at t fd).used ≡ true
  pub inode : (at t fd).inode ≢ 0
  pub node : fs.get_node (at t fd).inode ≡ some n
  pub file : File n bytes

slice-min :
    (off len : ℕ) (xs : List ℕ) → slice off (min len (length xs - off)) xs ≡ slice off len xs
slice-min off len xs = elim (dec_le len (length xs - off)) [
  | yes le ↦ ap (λ k. slice off k xs) (omega arith)
  | no gt ↦
      ap (λ k. slice off k xs) {y = length xs - off} (omega arith)
      ∙ sym (take-past len (length xs - off) (drop off xs) (length-drop off xs) (omega arith))
]
  where
    take-past : (n m : ℕ) (ys : List ℕ) → length ys ≡ m → m ≤ n → take n ys ≡ take m ys
    take-past zero zero ys e h = refl
    take-past zero (suc m) ys e h = absurd (omega arith)
    take-past (suc n) zero [] e h = refl
    take-past (suc n) (suc m) [] e h = refl
    take-past (suc n) zero (y ∷ ys) e h = absurd (omega arith)
    take-past (suc n) (suc m) (y ∷ ys) e h =
        ap (λ t. y ∷ t) (take-past n m ys (omega arith) (omega arith))

module _ (fs : FileSystem) (t : FdTable) (rdi : ℕ) (n : FileNode) (bytes : List ℕ)
    (o : OpenOn fs t (int_of rdi) n bytes) where
  abbrev fd : ℕ
  fd = int_of rdi

  not_bad : bad_fd t fd ≡ false
  not_bad = ground (arith, o.in_use, o.in_table)

  init : init_fd_table t ≡ t
  init = init_fd_table-Ready t o.ready

  the_node : node_of (some fs) (at t fd).inode ≡ some (some n)
  the_node = ground (arith, o.inode, o.node)

  abbrev moved : ℕ → FdTable
  moved offset = write_fd t fd (record (at t fd) { offset = offset })

  -- On a descriptor that is open on a file, `lseek` (SEEK_SET) to an offset that is not beyond the
  -- end moves there; it fails beyond the end, and for SEEK_CUR, SEEK_END and any other `whence`,
  -- and then changes nothing.
  pub lseek_lem :
      (offset whence : ℕ)
      → lseek (some fs) rdi offset whence t
        ≡ some (
            if int_of whence == 0 && leb offset (length bytes)
            then (offset, moved offset)
            else (failed, t))
  unfolding lseek
  lseek_lem offset whence =
      rw (init, not_bad)
        (elim (Bool-cases (int_of whence == 0)) [
          | inl e ↦ rw (e, the_node) (ground (arith, o.file.size))
          | inr e ↦ rw e
        ])

  -- On a descriptor that is open on a file, with an offset below 2 ^ 63, `read` into a buffer that
  -- is in user space and mapped stores the file's bytes from the descriptor's offset on, up to the
  -- end of the request or of the file, returns their number, and moves the offset behind them; at
  -- or beyond the end it returns 0 and stores nothing.
  pub read-slice :
      {S : Type 0} (um : UserMemory S) (buf len : ℕ) (s s' : S)
      → is_valid_user_buffer buf len ≡ true
      → um.range_mapped buf len s ≡ some (true, s')
      → (at t fd).offset < 2 ^ 63
      → let off = (at t fd).offset in
        let out = slice off len bytes in
        read um (some fs) rdi buf len t s
        ≡ some (
            if leb (length bytes) off
            then (0, t, s')
            else (length out, moved (off + length out), um.store buf out s'))
  unfolding read
  read-slice um buf len s s' v m small =
      rw (init, not_bad, v, m, the_node, o.file.size)
        (elim (Bool-cases (leb (length bytes) (at t fd).offset)) [
          | inl past ↦ rw past
          | inr before ↦
              let k = min len (length bytes - (at t fd).offset) in
              let e : add64 (at t fd).offset (length (slice (at t fd).offset len bytes))
                  ≡ (at t fd).offset + length (slice (at t fd).offset len bytes) =
                omega (
                  arith,
                  length-take len (drop (at t fd).offset bytes),
                  length-drop (at t fd).offset bytes,
                  o.file.small,
                ) in
              rw (
                before,
                o.file.reads (at t fd).offset k (ground arith),
                slice-min (at t fd).offset len bytes,
                e,
              )
        ])
