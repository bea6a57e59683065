-- ===== src/PhysMem/Tests.antt =====
-- Runs of kernel/physmem.cc at concrete inputs.
use p.Prelude.{◌+◌, ◌≡◌, refl, true, false, List, [], ◌∷◌, arith}
use p.PhysMem.{PhysMem, alloc, free, init, add_entries}
use p.PhysMem.Held.{Event, takes, gives, run, count, held, pick, run-held}

-- Three frames in two ranges; two are taken, the first of them is given back and taken again.
abbrev three : PhysMem
three = init (
    record { usable = true; base = 0x1000; length = 0x1000 }
    ∷ record { usable = false; base = 0x2000; length = 0x1000 }
    ∷ record { usable = true; base = 0x4000; length = 0x2000 }
    ∷ [])

abbrev frames : List Event
frames = takes ∷ takes ∷ gives 1 ∷ takes ∷ []

abbrev left : PhysMem
left = record {
  avail = [];
  free_ranges = record { base = 0x1000; length = 0x1000 } ∷ [];
  total_memory = 0x3000;
}

run-held_example : held 4 left + count 4 (4 ∷ 5 ∷ []) ≡ held 4 three + count 4 []
unfolding init add_entries run alloc free pick
run-held_example = run-held frames three left [] (4 ∷ 5 ∷ []) 4 (omega arith) refl
