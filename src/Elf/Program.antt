-- ===== src/Elf/Program.antt =====
-- What an ELF file describes to kernel/elf.cc: its segments, and what they put in memory.
use p.Prelude.{
  ℕ, zero, suc, ◌+◌, Bool, true, not, ◌&&◌, ◌||◌, Option, none, some, List, [], ◌∷◌, leb, ◌==◌,
  if◌then◌else◌, length, add64,
}
use p.Prelude.{slice}
use p.Elf.{Segment, Space, segment_of, max_of}

-- The program headers, one after the other.
unfoldable pub segments : List ℕ → ℕ → ℕ → ℕ → List Segment
segments bytes zero hoff phentsize = []
segments bytes (suc left) hoff phentsize =
    segment_of (slice hoff 56 bytes) ∷ segments bytes left (hoff + phentsize) phentsize

-- Each header is in the file, and so are the bytes of each segment that is to be loaded.
unfoldable pub well_formed : List ℕ → ℕ → ℕ → ℕ → Bool
well_formed bytes zero hoff phentsize = true
well_formed bytes (suc left) hoff phentsize =
    let segment = segment_of (slice hoff 56 bytes) in
    leb (hoff + 56) (length bytes)
    && (not (segment.type == 1) || leb (segment.offset + segment.filesz) (length bytes))
    && well_formed bytes left (hoff + phentsize) phentsize

-- The end of the highest segment that is loaded.
unfoldable pub highest : List Segment → ℕ
highest [] = 0
highest (segment ∷ rest) =
    if segment.type == 1
    then max_of (add64 segment.vaddr segment.memsz) (highest rest)
    else highest rest

module _ {S : Type 0} (space : Space S) where
  -- Each segment that is to be loaded gets its pages, and then its bytes of the file.
  unfoldable pub place : List ℕ → List Segment → S → Option S
  place bytes [] s = some s
  place bytes (segment ∷ rest) s =
      let placed : Option S = elim (space.map_range segment.vaddr segment.memsz s) [
        | none ↦ none
        | some s' ↦
            place bytes rest
              (space.store segment.vaddr (slice segment.offset segment.filesz bytes) s')
      ] in
      let skipped = place bytes rest s in if segment.type == 1 then placed else skipped

  abbrev pub finish : ℕ → ℕ → Option S → Option (ℕ × S)
  finish top max_end none = none
  finish top max_end (some s) = some (max_of top max_end, s)

  -- What `load` returns: the entry point, the highest end, and the memory.
  abbrev pub loaded : ℕ → ℕ → Option S → Option (ℕ × ℕ × S)
  loaded entry top none = none
  loaded entry top (some s) = some (entry, top, s)
