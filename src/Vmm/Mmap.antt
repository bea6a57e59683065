-- ===== src/Vmm/Mmap.antt =====
-- `VMM::mmap` of kernel/vmm.cc.
pub mod Gap
pub mod Placed
use p.Prelude.{
  ℕ, ◌-◌, ◌*◌, ◌/◌, ◌%◌, ◌^◌, Bool, true, false, not, ◌&&◌, ◌||◌, Option, none, some, List, [], ◌∷◌,
  ◌++◌, ltb, leb, ◌==◌, if◌then◌else◌, add64,
}
use p.Vmm.Vme.{Vme, frame_size, round_up_page}

-- `sharedEnd`
abbrev pub shared_end : ℕ
shared_end = 0xFFFFFFFF80000000

-- `sharedPaLimit`, and `sharedStart` over the offset of the direct map
abbrev pub shared_pa_limit : ℕ
shared_pa_limit = 128 * 1024 * 1024

abbrev pub shared_start : ℕ → ℕ
shared_start hhdm_offset = add64 hhdm_offset shared_pa_limit

-- `isSharedAddress`
abbrev pub is_shared_address : ℕ → ℕ → Bool
is_shared_address hhdm_offset va = leb (shared_start hhdm_offset) va && ltb va shared_end

-- (void *)-1
abbrev pub map_failed : ℕ
map_failed = 2 ^ 64 - 1

-- What the thread-local and the shared variables of vmm.cc hold: the two lists of mappings and the
-- bounds of the program's heap.
pub record Maps : Type 0 where
  pub private_vmes : List Vme
  pub shared_vmes : List Vme
  pub heap_start : ℕ
  pub heap_break : ℕ

-- The loop that looks for a gap: the candidate, the records passed and those from `nextVme` on, so
-- that `prevNextLink` stands between the two lists.
unfoldable pub search_gap : ℕ → ℕ → List Vme → ℕ × List Vme × List Vme
search_gap candidate len [] = (candidate, [], [])
search_gap candidate len (v ∷ vs) =
    if leb (add64 candidate len) v.start
    then (candidate, [], v ∷ vs)
    else let (c, passed, rest) = search_gap v.end len vs in (c, v ∷ passed, rest)

-- `new VME()` and the assignments that fill it.
abbrev pub new_vme : ℕ → ℕ → Bool → Option ℕ → ℕ → Vme
new_vme candidate len shared file offset = record {
  start = candidate;
  end = add64 candidate len;
  shared = shared;
  node = file;
  offset = offset;
}

abbrev pub is_null : Option ℕ → Bool
is_null none = true
is_null (some _) = false

-- The four early returns of `mmap`.
unfoldable pub rejects : ℕ → Bool → Option ℕ → ℕ → Bool
rejects length anonymous file offset =
    (length == 0)
    || not (offset % frame_size == 0)
    || (anonymous && not (is_null file))
    || (not anonymous && is_null file)

unfoldable pub mmap_shared : ℕ → ℕ → Option ℕ → ℕ → Maps → ℕ × Maps
mmap_shared hhdm_offset len file offset s =
    let (c, passed, rest) = search_gap (shared_start hhdm_offset) len s.shared_vmes in
    if ltb shared_end c || ltb (shared_end - c) len
    then (map_failed, s)
    else (c, record s { shared_vmes = passed ++ (new_vme c len true file offset ∷ rest) })

unfoldable pub mmap_private : ℕ → Option ℕ → ℕ → Maps → ℕ × Maps
mmap_private len file offset s =
    let (c, passed, rest) = search_gap 0x1000 len s.private_vmes in
    (c, record s { private_vmes = passed ++ (new_vme c len false file offset ∷ rest) })

-- `mmap`. The address and the protection are ignored by the source. MAP_SHARED is bit 0 of the
-- flags and MAP_ANONYMOUS is bit 1.
unfoldable pub mmap : ℕ → ℕ → ℕ → Option ℕ → ℕ → Maps → ℕ × Maps
mmap hhdm_offset length flags file offset s =
    let len = round_up_page length in
    if rejects length (flags / 2 % 2 == 1) file offset
    then (map_failed, s)
    else if flags % 2 == 1
    then mmap_shared hhdm_offset len file offset s
    else mmap_private len file offset s
