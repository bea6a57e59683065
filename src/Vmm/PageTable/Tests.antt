-- ===== src/Vmm/PageTable/Tests.antt =====
-- kernel/vmm.cc on page tables with one table, and eight frames to hand out.
use p.Prelude.{
  ◌||◌, ℕ, suc, ◌+◌, ◌-◌, ◌*◌, ◌/◌, ◌^◌, ◌≤◌, ◌≡◌, refl, sym, ap, true, ◌&&◌, none, some, [], ◌∷◌,
  arith, leb, ◌==◌, if◌then◌else◌,
}
use mathlib.Core.Option.{some_inj}
use p.PhysMem.Held.{count, in_ranges}
use p.Vmm.Vme.{round_up_page}
use p.Vmm.Mmap.{Maps}
use p.Vmm.HeapBreak.{brk}
use p.Vmm.HeapBreak.Grown.{Added, brk-Added}
use p.Vmm.PageTable.{
  Mmu, prefix, entry_ppn, present, translate, leaf_of, map_page, map_range, unmap_page, walk,
}
use p.Vmm.PageTable.Placed.{Place, Tree, Stock}
use p.Vmm.PageTable.Mapped.{Kept}
use p.Vmm.PageTable.Enough.{room, pages_in}
use p.Vmm.PageTable.Refines.{map_page_lem}
use p.Vmm.PageTable.Range.{map_range_lem}
use p.Vmm.PageTable.Round.{mapped, Stays}
use p.Vmm.PageTable.Unmapped.{unmap_page-translate}

abbrev memory : Mmu
memory = record {
  entries = λ t i. 0;
  phys = record {
    avail = [];
    free_ranges = (record { base = 8192; length = 32768 }) ∷ [];
    total_memory = 32768;
  };
  cr3 = 1;
  hhdm_offset = 0;
}

abbrev place : Place
place f = if f == 1 then some (3, 0) else none

memory-Tree : Tree place memory
memory-Tree = record { root = refl; links = λ f l q i h hi hp. absurd (cc hp) }

memory-Stock : Stock place memory
unfolding count in_ranges
memory-Stock = record {
  pages = (refl, refl, omega arith, omega arith, tt);
  apart = λ f h. ground arith;
  once = λ f. ground arith;
  small = λ f h. ground arith;
  blank = λ f i h. refl;
}

room_memory : 3 ≤ room memory.phys
unfolding pages_in
room_memory = omega arith

eight_left : 4 * ((20490 + 4096 - 1) / 4096 + 1 - 20490 / 4096) ≤ room memory.phys
unfolding pages_in
eight_left = omega arith

map_page_example :
    (m' : Mmu) × (map_page 5 6 true true memory ≡ some m')
    × (translate 5 m' ≡ (if 5 == 5 then some (leaf_of 6 true true) else translate 5 memory))
    × Kept place m'
map_page_example =
    map_page_lem 5 6 true true place memory memory-Tree memory-Stock (omega arith) room_memory 5
      (omega arith)

-- A range that starts in page 5 and ends in page 6.
map_range_example :
    (m' : Mmu) × (map_range 20490 4096 true true memory ≡ some m')
    × (mapped 6 m'
        ≡ (mapped 6 memory || (leb (20490 / 4096) 6 && leb 6 ((20490 + 4096 - 1) / 4096))))
    × Stays (translate 6 memory) (translate 6 m')
    × Kept place m'
map_range_example =
    map_range_lem 20490 4096 6 true true place memory memory-Tree memory-Stock (omega arith)
      (omega arith) eight_left (omega arith)

-- Page 5, with frame 6, below the tables 1, 2, 3 and 4.
abbrev with_page : Mmu
with_page = record memory {
  entries = λ t i.
      if i == 0 && leb 1 t && leb t 3
      then (t + 1) * 4096 + 7
      else if t == 4 && i == 5
      then 24583
      else 0;
}

abbrev places : Place
places f = if leb 1 f && leb f 4 then some (4 - f, 0) else none

with_page_links :
    (f l q i : ℕ)
    → places f ≡ some (suc l, q)
    → present (with_page.entries f i) ≡ true
    → places (entry_ppn (with_page.entries f i)) ≡ some (l, q * 512 + i)
with_page_links f l q i h hp = ground arith

with_page-Tree : Tree places with_page
with_page-Tree = record { root = refl; links = λ f l q i h hi hp. with_page_links f l q i h hp }

page_frame :
    (entry : ℕ)
    → translate (20480 / 2 ^ 12) with_page ≡ some entry
    → places (entry_ppn entry) ≡ none
unfolding walk prefix
page_frame entry h = ap (λ x. places (entry_ppn x)) (some_inj.0 (sym h))

unmap_page_example :
    (m' : Mmu) × (unmap_page 20480 with_page ≡ some m')
    × (translate 5 m' ≡ (if 5 == 5 then none else translate 5 with_page))
    × Tree places m'
unmap_page_example =
    unmap_page-translate 20480 places with_page with_page-Tree (omega arith) page_frame 5
      (omega arith)

-- The page 5 that is mapped, and the page 6 that is not.
translate-with_page : (translate 5 with_page ≡ some 24583) × (translate 6 with_page ≡ none)
unfolding walk prefix
translate-with_page = (refl, refl)

abbrev heap : Maps
heap = record { private_vmes = []; shared_vmes = []; heap_start = 0x5000; heap_break = 0x5001 }

brk_left : 4 * (round_up_page 0x6010 / 4096 - round_up_page 0x5001 / 4096) ≤ room memory.phys
unfolding pages_in round_up_page
brk_left = omega arith

brk-Added_example :
    (m' : Mmu) × (brk 0x6010 heap memory ≡ some (0x6010, record heap { heap_break = 0x6010 }, m'))
    × Added place (round_up_page 0x5001) (round_up_page 0x6010) 6 memory m'
brk-Added_example =
    brk-Added place memory memory-Tree memory-Stock 6 (omega arith) heap 0x6010 (omega arith)
      (omega arith) (omega arith) (omega arith) brk_left
