-- ===== src/RamDisk/Tests.antt =====
-- kernel/ramdisk.cc on a module of six bytes, with others behind it.
use p.Prelude.{ℕ, List, [], ◌∷◌, ◌++◌, arith, replicate}
use p.BlockIo.Slice.{Holds}
use p.RamDisk.{ram_disk}
use p.RamDisk.Holding.{ram_disk-Holds}

abbrev six : List ℕ
six = 1 ∷ 2 ∷ 3 ∷ 4 ∷ 5 ∷ 6 ∷ []

ram_disk-Holds_example : Holds (ram_disk (record { size = 6; memory = six ++ replicate 600 7 })) six
ram_disk-Holds_example = ram_disk-Holds six (replicate 600 7) (omega arith)
