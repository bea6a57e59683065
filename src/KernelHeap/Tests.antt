-- ===== src/KernelHeap/Tests.antt =====
-- A small heap.
use p.Prelude.{ℕ, ◌-◌, ◌%◌, ◌^◌, ◌≤◌, ◌≡◌, refl, ◌⊎◌, some, List, [], ◌∷◌, arith, get_or}
use p.KernelHeap.{Heap, search}
use p.KernelHeap.BestFit.{Links, Small, Among, Bound, search-best}

-- Two available blocks, of 8 words at 2 and of 6 words at 12.
abbrev words : List ℕ
words = 3 ∷ 3 ∷ 8 ∷ 12 ∷ 0 ∷ 0 ∷ 0 ∷ 0 ∷ 0 ∷ 8 ∷ 3 ∷ 3 ∷ 6 ∷ 0 ∷ 2 ∷ 0 ∷ 0 ∷ 6 ∷ 3 ∷ 3 ∷ []

abbrev small : Heap
small = record { words = λ i. get_or words i 0; len = 20; avail = 2; n_malloc = 0; n_free = 0 }

search-best_example :
    (best : ℕ) × (block : ℕ) × (search 21 6 small 2 (2 ^ 64 - 1) 0 20 ≡ some (best, block))
    × (((block ≡ 0) × Small small 6 (2 ∷ 12 ∷ []))
        ⊎ (Among small block (2 ∷ 12 ∷ [])
            × (get_or words block 0 - get_or words block 0 % 2 ≡ best)
            × (6 ≤ best)
            × Bound small 6 best (2 ∷ 12 ∷ [])))
search-best_example = search-best small 6 (2 ∷ 12 ∷ []) links (omega arith) (omega arith)
  where
    links : Links small 2 (2 ∷ 12 ∷ [])
    links = (
      refl,
      (λ e. absurd (omega arith)),
      refl,
      omega arith,
      (refl, (λ e. absurd (omega arith)), refl, omega arith, refl),
    )
