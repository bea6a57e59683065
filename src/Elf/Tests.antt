-- ===== src/Elf/Tests.antt =====
-- kernel/elf.cc on a file with one segment of four bytes, and eight in memory.
use p.Prelude.{ℕ, ◌*◌, ◌≡◌, refl, true, some, List, [], ◌∷◌, ◌++◌, arith, take, drop, replicate}
use p.BlockIo.{Device}
use p.BlockIo.Slice.{Holds}
use p.Elf.{Space, word_of, load}
use p.Elf.Program.{segments, well_formed, highest, place}
use p.Elf.Load.{load_lem}

abbrev zeros : ℕ → List ℕ
zeros n = replicate n 0

abbrev elf_header : List ℕ
elf_header =
    (127 ∷ 69 ∷ 76 ∷ 70 ∷ zeros 20)
    ++ (0 ∷ 16 ∷ zeros 6)
    ++ (64 ∷ zeros 7)
    ++ zeros 14
    ++ (56 ∷ 0 ∷ 1 ∷ 0 ∷ zeros 6)

abbrev program_header : List ℕ
program_header =
    (1 ∷ zeros 7)
    ++ (120 ∷ zeros 7)
    ++ (0 ∷ 16 ∷ zeros 6)
    ++ zeros 8
    ++ (4 ∷ zeros 7)
    ++ (8 ∷ zeros 7)
    ++ zeros 8

abbrev program : List ℕ
program = elf_header ++ program_header ++ (11 ∷ 12 ∷ 13 ∷ 14 ∷ [])

abbrev disk : Device
disk = record {
  block_size = 64;
  size_in_bytes = 124;
  read_block = λ i. some (take 64 (drop (i * 64) program));
}

disk-Holds : Holds disk program
disk-Holds = record {
  size = refl;
  small = omega arith;
  whole = omega arith;
  blocks = λ i lt. ([], refl);
}

-- Memory as the stores that were made.
abbrev stores : Space (List (ℕ × List ℕ))
stores = record { map_range = λ start size s. some s; store = λ start bytes s. (start, bytes) ∷ s }

program-well_formed : well_formed program 1 64 56 ≡ true
unfolding well_formed word_of
program-well_formed = refl

load_lem_example : load stores disk [] ≡ some (4096, 4104, (4096, 11 ∷ 12 ∷ 13 ∷ 14 ∷ []) ∷ [])
unfolding segments place highest word_of
load_lem_example = load_lem stores disk program disk-Holds [] (omega arith) program-well_formed
