-- ===== src/BlockIo/Tests.antt =====
-- Reads of kernel/block_io.cc at concrete inputs.
use p.Prelude.{ℕ, ◌*◌, ◌≡◌, refl, some, List, [], ◌∷◌, arith, take, drop}
use p.BlockIo.{Device, got, read_all}
use p.BlockIo.Slice.{Holds, read_all_lem}

abbrev ten : List ℕ
ten = 0 ∷ 1 ∷ 2 ∷ 3 ∷ 4 ∷ 5 ∷ 6 ∷ 7 ∷ 8 ∷ 9 ∷ []

abbrev disk : Device
disk = record {
  block_size = 4;
  size_in_bytes = 10;
  read_block = λ i. some (take 4 (drop (i * 4) ten));
}

disk-Holds : Holds disk ten
disk-Holds = record {
  size = refl;
  small = omega arith;
  whole = omega arith;
  blocks = λ i lt. ([], refl);
}

read_all_lem_example : read_all disk 3 100 ≡ some (got (3 ∷ 4 ∷ 5 ∷ 6 ∷ 7 ∷ 8 ∷ 9 ∷ []))
read_all_lem_example = read_all_lem disk ten disk-Holds 3 100
