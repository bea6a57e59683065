-- ===== src/Elf.antt =====
-- The loader of programs: kernel/elf.h and kernel/elf.cc.
pub mod Load
pub mod Program
mod Tests
use p.Prelude.{
  ℕ, zero, suc, ◌+◌, ◌-◌, ◌*◌, ◌%◌, ◌^◌, Option, none, some, List, [], ◌∷◌, ltb, ◌==◌,
  if◌then◌else◌, length, add64, add32,
}
use p.Prelude.{slice}
use p.BlockIo.{Device, Reply, error, got, read_all}

-- A number in the file, its lowest byte first.
unfoldable pub word_of : List ℕ → ℕ
word_of [] = 0
word_of (b ∷ bs) = b + 256 * word_of bs

abbrev pub field : ℕ → ℕ → List ℕ → ℕ
field offset size bytes = word_of (slice offset size bytes)

-- What `load` reads of `ElfHeader`, which has 64 bytes, and of `ProgramHeader`, which has 56.
pub record Header : Type 0 where
  pub entry : ℕ
  pub phoff : ℕ
  pub phentsize : ℕ
  pub phnum : ℕ

pub record Segment : Type 0 where
  pub type : ℕ
  pub offset : ℕ
  pub vaddr : ℕ
  pub filesz : ℕ
  pub memsz : ℕ

abbrev pub header_of : List ℕ → Header
header_of bytes = record {
  entry = field 24 8 bytes;
  phoff = field 32 8 bytes;
  phentsize = field 54 2 bytes;
  phnum = field 56 2 bytes;
}

abbrev pub segment_of : List ℕ → Segment
segment_of bytes = record {
  type = field 0 4 bytes;
  offset = field 8 8 bytes;
  vaddr = field 16 8 bytes;
  filesz = field 32 8 bytes;
  memsz = field 40 8 bytes;
}

-- `read` of a thing with its assertion that the whole thing was read.
abbrev pub whole : ℕ → Option Reply → Option (List ℕ)
whole size none = none
whole size (some error) = none
whole size (some (got bytes)) = if length bytes == size then some bytes else none

abbrev pub read_thing : Device → ℕ → ℕ → Option (List ℕ)
read_thing file offset size = whole size (read_all file offset size)

-- The memory of the program: `map_range` with its pages for user and write, and stores. `none`
-- stops the kernel.
pub record Space (S : Type 0) : Type 0 where
  pub map_range : ℕ → ℕ → S → Option S
  pub store : ℕ → List ℕ → S → S

abbrev pub max_of : ℕ → ℕ → ℕ
max_of a b = if ltb b a then a else b

module _ {S : Type 0} (space : Space S) where
  -- The assertion on what `read_all` gave, as a uint32_t: -1 is 2 ^ 32 - 1.
  abbrev pub filled : Segment → S → Option Reply → Option S
  filled segment s none = none
  filled segment s (some error) = if segment.filesz % 2 ^ 32 == 2 ^ 32 - 1 then some s else none
  filled segment s (some (got bytes)) =
      if length bytes == segment.filesz % 2 ^ 32
      then some (space.store segment.vaddr bytes s)
      else none

  -- One segment that is to be loaded.
  abbrev pub load_segment : Device → Segment → S → Option S
  load_segment file segment s = elim (space.map_range segment.vaddr segment.memsz s) [
    | none ↦ none
    | some s' ↦
        filled segment s' (read_all file (segment.offset % 2 ^ 32) (segment.filesz % 2 ^ 32))
  ]

  -- What one program header does, with the rest of the loop.
  abbrev pub load_one : Device → Segment → ℕ → S → (ℕ → S → Option (ℕ × S)) → Option (ℕ × S)
  load_one file segment max_end s next =
      let skipped = next max_end s in
      let loaded : Option (ℕ × S) = elim (load_segment file segment s) [
        | none ↦ none
        | some s' ↦ next (max_of (add64 segment.vaddr segment.memsz) max_end) s'
      ] in
      if segment.type == 1 then loaded else skipped

  -- The loop over the program headers, with those that are left.
  unfoldable pub load_loop : Device → Header → ℕ → ℕ → ℕ → S → Option (ℕ × S)
  load_loop file header zero hoff max_end s = some (max_end, s)
  load_loop file header (suc left) hoff max_end s =
      let next =
        λ (end : ℕ) (s' : S). load_loop file header left (add32 hoff header.phentsize) end s' in
      elim (read_thing file hoff 56) [
        | none ↦ none
        | some bytes ↦ load_one file (segment_of bytes) max_end s next
      ]

  abbrev pub entered : ℕ → Option (ℕ × S) → Option (ℕ × ℕ × S)
  entered entry none = none
  entered entry (some (max_end, s)) = some (entry, max_end, s)

  abbrev pub load_from : Device → Header → S → Option (ℕ × ℕ × S)
  load_from file header s =
      entered header.entry (load_loop file header header.phnum (header.phoff % 2 ^ 32) 0 s)

  -- `ELF::load`: the entry point, and the end of the last segment.
  unfoldable pub load : Device → S → Option (ℕ × ℕ × S)
  load file s = elim (read_thing file 0 64) [
    | none ↦ none
    | some bytes ↦ load_from file (header_of bytes) s
  ]
