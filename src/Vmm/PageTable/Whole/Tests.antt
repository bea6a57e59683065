-- ===== src/Vmm/PageTable/Whole/Tests.antt =====
-- A fork of page tables with one page.
use p.Prelude.{ℕ, ◌≡◌, refl, true, Option, none, some, arith}
use p.PhysMem.{alloc}
use p.PhysMem.Held.{count, in_ranges}
use p.Vmm.PageTable.{Mmu, leaf_of, translate, translate_at, walk, prefix, alloc_frame}
use p.Vmm.PageTable.Whole.{snapshot_tables, each, clone_table}
use p.Vmm.PageTable.Whole.Copied.{Given}
use p.Vmm.PageTable.Whole.Snapshot.{Twin}
use p.Vmm.PageTable.Whole.Sample.{parent, parent-Apart}
use p.Vmm.PageTable.Whole.Forked.{snapshot_tables-isolates}

abbrev child_of : Option (ℕ × Mmu) → ℕ × Mmu
child_of none = (0, parent)
child_of (some r) = r

returned : snapshot_tables parent ≡ some (child_of (snapshot_tables parent))
unfolding snapshot_tables each clone_table alloc_frame alloc
returned = refl

abbrev forked : ℕ × Mmu
forked = child_of (snapshot_tables parent)

snapshot_tables-isolates_example :
    (translate 5 forked.1 ≡ translate 5 parent)
    × Twin
        (Given parent forked.1)
        forked.1
        (translate 5 parent)
        (translate_at 3 forked.0 5 forked.1)
    × (forked.1.entries 5 7 ≡ parent.entries 5 7)
unfolding count in_ranges
snapshot_tables-isolates_example =
    snapshot_tables-isolates parent forked.0 forked.1 5 5 7 parent-Apart returned (omega arith) refl

-- The tables of the child are in the frames 6 to 9, and its page in frame 10.
page_of_child : translate_at 3 forked.0 5 forked.1 ≡ some (leaf_of 10 true true)
unfolding snapshot_tables each clone_table alloc_frame alloc walk prefix
page_of_child = refl

word_of_child : forked.1.entries 10 7 ≡ 42
unfolding snapshot_tables each clone_table alloc_frame alloc
word_of_child = refl
