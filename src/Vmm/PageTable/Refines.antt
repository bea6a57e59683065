-- ===== src/Vmm/PageTable/Refines.antt =====
-- `map` of kernel/vmm.cc, with the page tables seen as a map from page numbers to entries.
use p.Prelude.{ℕ, ◌^◌, ◌≤◌, ◌<◌, ◌≡◌, Bool, some, ◌==◌, if◌then◌else◌}
use p.Vmm.PageTable.{Mmu, translate, leaf_of, map_page}
use p.Vmm.PageTable.Placed.{Place, Tree, Stock}
use p.Vmm.PageTable.Mapped.{Kept, map_page-translate}
use p.Vmm.PageTable.Enough.{room, map_at-some}

-- Let the frames reached from the top table form a tree, let the allocator hold none of them and
-- nothing twice, let what it hands out uncleared have no present entry, and let it hold three
-- frames. Then `map` of a page number below 2 ^ 36 succeeds; afterwards that page translates to
-- the entry for its frame, with the bits for user and write, and every other page translates as
-- before, whichever tables were created; and the tables and the allocator are again as required.
pub map_page_lem :
    (vpn ppn : ℕ) (user writable : Bool) (place : Place) (m : Mmu)
    → Tree place m
    → Stock place m
    → vpn < 2 ^ 36
    → 3 ≤ room m.phys
    → (v : ℕ) → v < 2 ^ 36
    → (m' : Mmu) × (map_page vpn ppn user writable m ≡ some m')
      × (translate v m' ≡ (if v == vpn then some (leaf_of ppn user writable) else translate v m))
      × Kept place m'
unfolding map_page
map_page_lem vpn ppn user writable place m tree stock h enough v hv =
    let (m', e, r) = map_at-some 3 m.cr3 vpn (leaf_of ppn user writable) m stock.pages enough in
    let t = map_page-translate vpn ppn user writable place m m' tree stock h e in
    (m', e, t.0 v hv, t.1)
