-- ===== src/PhysMem.antt =====
-- The frame allocator: kernel/physmem.cc and kernel/physmem.h.
pub mod Held
mod Tests
use p.Prelude.{
  ℕ, ◌/◌, ◌%◌, ◌^◌, Bool, true, false, Option, none, some, List, [], ◌∷◌, ◌==◌, if◌then◌else◌,
  length, add64, sub64,
}

-- `PPN` of a physical address
abbrev pub ppn_of : ℕ → ℕ
ppn_of pa = pa / 4096

-- `impl::Range`. The list is owned by its head.
pub record Range : Type 0 where
  pub base : ℕ
  pub length : ℕ

-- `PhysMem`. A frame that is available holds the link to the next one in its own first bytes, and
-- stands in the list by its number.
pub record PhysMem : Type 0 where
  pub avail : List ℕ
  pub free_ranges : List Range
  pub total_memory : ℕ

-- An entry of the boot loader's memory map: whether it is usable, and where it is.
pub record MapEntry : Type 0 where
  pub usable : Bool
  pub base : ℕ
  pub length : ℕ

-- The loop of the constructor.
unfoldable pub add_entries : List MapEntry → PhysMem → PhysMem
add_entries [] p = p
add_entries (e ∷ es) p =
    let more = record p {
      free_ranges = (record { base = e.base; length = e.length }) ∷ p.free_ranges;
      total_memory = add64 p.total_memory e.length;
    } in
    add_entries es (if e.usable then more else p)

unfoldable pub init : List MapEntry → PhysMem
init entries = add_entries entries (record { avail = []; free_ranges = []; total_memory = 0 })

-- A frame, whether it has been cleared, and the state after it. `none`: out of frames.
abbrev pub Allocated : Type 0
Allocated = Option (ℕ × Bool × PhysMem)

-- A frame off the first range.
abbrev pub split : Range → List Range → List Range
split r rs =
    let left : Range = record { base = add64 r.base 4096; length = sub64 r.length 4096 } in
    if left.length == 0 then rs else left ∷ rs

abbrev pub from_ranges : PhysMem → List Range → Allocated
from_ranges p [] = none
from_ranges p (r ∷ rs) = some (ppn_of r.base, true, record p { free_ranges = split r rs })

-- `alloc`: the frame freed last, which is not cleared, or else one off a range, which is.
abbrev pub alloc_from : PhysMem → List ℕ → Allocated
alloc_from p [] = from_ranges p p.free_ranges
alloc_from p (frame ∷ frames) = some (frame, false, record p { avail = frames })

unfoldable pub alloc : PhysMem → Allocated
alloc p = alloc_from p p.avail

-- `free`
unfoldable pub free : ℕ → PhysMem → PhysMem
free ppn p = record p { avail = ppn ∷ p.avail }
