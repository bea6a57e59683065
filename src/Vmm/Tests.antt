-- ===== src/Vmm/Tests.antt =====
-- Runs of kernel/vmm.cc at concrete inputs.
use p.Prelude.{
  ℕ, ◌+◌, ◌*◌, ◌≤◌, ◌≡◌, refl, ◌⊎◌, true, false, none, some, List, [], ◌∷◌, arith, ◌==◌, take, drop,
}
use p.BlockIo.{Device}
use p.BlockIo.Slice.{Holds}
use p.Vmm.Vme.{Vme, Layout, backing, round_up_page}
use p.Vmm.Mmap.{Maps, mmap, map_failed, rejects, search_gap, mmap_private}
use p.Vmm.Mmap.Placed.{Placed, Full, mmap-Placed_private, mmap-Placed_shared}
use p.Vmm.Munmap.{munmap}
use p.Vmm.Munmap.Unmapped.{munmap_lem}
use p.Vmm.PageIn.{Entries, ensure_mapped_page}
use p.Vmm.PageIn.Found.{ensure_mapped_page_lem}
use p.Vmm.UserRange.{is_user_range_mapped}
use p.Vmm.UserRange.Each.{ensure_each, is_user_range_mapped_lem}

abbrev hhdm : ℕ
hhdm = 0xFFFF800000000000

abbrev of_file : Vme
of_file = record { start = 0x1000; end = 0x4000; shared = false; node = some 7; offset = 0 }

abbrev of_zeros : Vme
of_zeros = record { start = 0x8000; end = 0x9000; shared = false; node = none; offset = 0 }

abbrev two : Maps
two = record {
  private_vmes = of_file ∷ of_zeros ∷ [];
  shared_vmes = [];
  heap_start = 0x10000;
  heap_break = 0x10000;
}

two-Layout : Layout 0x1000 two.private_vmes
two-Layout = ground arith

-- The ranges that are given back, latest first.
abbrev log_range : ℕ → ℕ → List (ℕ × ℕ) → List (ℕ × ℕ)
log_range a b s = (a, b) ∷ s

munmap_lem_example :
    backing 0x2800 (munmap log_range hhdm 0x2000 0x1000 two []).1.private_vmes ≡ none
unfolding round_up_page backing
munmap_lem_example =
    (munmap_lem log_range hhdm 0x2000 0x1000 0x1000 two [] refl (omega arith) (omega arith)
        (omega arith) refl two-Layout (refl, (refl, tt))).0
      0x2800

mmap-Placed_private_example :
    Placed 0x1000 0x4000 0x4000 false none 0 two.private_vmes
      (mmap hhdm 0x3001 2 none 0 two).1.private_vmes
    × ((mmap hhdm 0x3001 2 none 0 two).1
        ≡ record two { private_vmes = (mmap hhdm 0x3001 2 none 0 two).1.private_vmes })
unfolding rejects round_up_page mmap mmap_private search_gap
mmap-Placed_private_example =
    mmap-Placed_private hhdm 0x3001 2 none 0 two refl refl (omega arith) two-Layout (omega arith)

mmap-Placed_shared_example :
    let (a, m) = mmap hhdm 0x1000 3 none 0 two in
    ((mmap hhdm 0x1000 3 none 0 two ≡ (map_failed, two))
      × Full 0xFFFF800008000000 0xFFFFFFFF80000000 0x1000 [])
    ⊎ (Placed 0xFFFF800008000000 a 0x1000 true none 0 [] m.shared_vmes
        × (a + 0x1000 ≤ 0xFFFFFFFF80000000)
        × (m ≡ record two { shared_vmes = m.shared_vmes }))
unfolding rejects round_up_page
mmap-Placed_shared_example =
    mmap-Placed_shared hhdm 0x1000 3 none 0 two refl refl (omega arith) refl tt

abbrev ten : List ℕ
ten = 0 ∷ 1 ∷ 2 ∷ 3 ∷ 4 ∷ 5 ∷ 6 ∷ 7 ∷ 8 ∷ 9 ∷ []

abbrev disk : Device
disk = record {
  block_size = 4;
  size_in_bytes = 10;
  read_block = λ i. some (take 4 (drop (i * 4) ten));
}

disk-Holds : Holds disk ten
disk-Holds = record {
  size = refl;
  small = omega arith;
  whole = omega arith;
  blocks = λ i lt. ([], refl);
}

-- One page, at the address that is the state.
abbrev entries : Entries ℕ
entries = record { present = λ page s. s == page; install = λ page bytes s. some page }

ensure_mapped_page_lem_example :
    ensure_mapped_page entries (λ i. disk) two 0x2000 0 ≡ some (true, 0x2000)
unfolding backing
ensure_mapped_page_lem_example =
    ensure_mapped_page_lem (λ i. disk) (λ i. ten) (λ i. disk-Holds) entries two 0x2000 0
      (omega arith)

is_user_range_mapped_lem_example :
    is_user_range_mapped (ensure_mapped_page entries (λ i. disk) two) 0x1FF0 0x20 0
    ≡ ensure_each (ensure_mapped_page entries (λ i. disk) two) 2 0x1000 0
unfolding is_user_range_mapped
is_user_range_mapped_lem_example =
    is_user_range_mapped_lem (ensure_mapped_page entries (λ i. disk) two) 0x1FF0 0x20 0
      (omega arith) (omega arith)
