-- ===== src/KernelHeap/FreeList.antt =====
-- The list of available blocks in kernel/heap.cc: entering a block and taking it out again.
use p.Prelude.{ℕ, ◌+◌, ◌-◌, ◌%◌, ◌^◌, ◌≤◌, ◌<◌, ◌≡◌, refl, ap, ◌≢◌, ◌⊎◌, true, some, arith, ◌==◌}
use p.KernelHeap.{Heap, write, prev, enlist, footer_from_header, remove, make_avail}

-- The place of the first available block, if there is one: outside the block from `i` on, and at
-- the head of the list.
abbrev pub Apart : ℕ → ℕ → Heap → Type 0
Apart i n h = (h.avail ≡ 0) ⊎ ((prev h h.avail ≡ 0) × ((h.avail + 2 < i) ⊎ (i + n ≤ h.avail + 2)))

-- The block with its header and footer.
abbrev headed : ℕ → ℕ → Heap → Heap
headed i n h = write (i + n - 1) n (write i n h)

module _ (i n : ℕ) (h : Heap) (pos : i ≢ 0) (four : 4 ≤ n) (apart : Apart i n h) where
  abbrev listed : Heap
  listed = enlist i (headed i n h)

  listed-next : listed.words (i + 1) ≡ h.avail
  listed-next = ground arith

  listed-prev : listed.words (i + 2) ≡ 0
  listed-prev = ground arith

  remove-avail : (remove i listed).avail ≡ h.avail
  unfolding remove
  remove-avail = rw (listed-next, listed-prev) (ground arith)

  remove-words : (k : ℕ) → (k < i) ⊎ (i + n ≤ k) → (remove i listed).words k ≡ h.words k
  unfolding remove
  remove-words k out =
      rw (listed-next, listed-prev) (ground (arith, ap h.words {x = k} {y = h.avail + 2}))

make_avail-some :
    (i n : ℕ) (h : Heap)
    → 4 ≤ n
    → n % 2 ≡ 0
    → i + n < 2 ^ 64
    → make_avail i n h ≡ some (enlist i (headed i n h))
unfolding make_avail
make_avail-some i n h four even small =
    let f : footer_from_header (write i n h) i ≡ i + n - 1 = ground arith in
    let g : (n % 2 == 0) ≡ true = ground arith in rw (f, g) refl

-- For a block that is not at 0, of an even number of words, at least 4, and apart from the head of
-- the list of available blocks, whose link back is 0: entering the block into the list succeeds,
-- and taking it out again gives back the head of the list and every word outside the block.
remove-make_avail :
    (i n : ℕ) (h : Heap)
    → i ≢ 0
    → 4 ≤ n
    → n % 2 ≡ 0
    → i + n < 2 ^ 64
    → Apart i n h
    → (h' : Heap) × (make_avail i n h ≡ some h')
      × ((remove i h').avail ≡ h.avail)
      × ((k : ℕ) → (k < i) ⊎ (i + n ≤ k) → (remove i h').words k ≡ h.words k)
remove-make_avail i n h pos four even small apart = (
  enlist i (headed i n h),
  make_avail-some i n h four even small,
  remove-avail i n h pos four apart,
  remove-words i n h pos four apart,
)
