-- ===== src/Elf/Load.antt =====
-- What kernel/elf.cc puts in memory, against what the file describes.
use p.Prelude.{
  ℕ, zero, suc, ◌+◌, ◌%◌, ◌^◌, ◌≤◌, ◌≡◌, refl, sym, ap, ap₂, ◌∙◌, inl, inr, true, false, not, ◌&&◌,
  Option, none, some, List, ◌∷◌, arith, ltb, ◌==◌, if◌then◌else◌, Bool-cases, Option-cases, length,
  drop, length-take, length-drop, add64, add32, fun_ext,
}
use p.Prelude.{slice, ==_iff}
use p.BlockIo.{Device, error, got, read_all}
use p.BlockIo.Slice.{Holds, read_all_lem}
use p.Elf.{
  Header, Segment, Space, header_of, segment_of, whole, read_thing, max_of, filled, load_segment,
  load_one, load_loop, entered, load_from, load,
}
use p.Elf.Program.{segments, well_formed, highest, place, finish, loaded}

module _ {S : Type 0} (space : Space S) (file : Device) (bytes : List ℕ)
    (h : Holds file bytes) where
  length-slice : (offset n : ℕ) → offset + n ≤ length bytes → length (slice offset n bytes) ≡ n
  length-slice offset n k =
      omega (arith, k, length-take n (drop offset bytes), length-drop offset bytes)

  read_all-slice :
      (offset n : ℕ)
      → offset + n ≤ length bytes
      → read_all file offset n ≡ some (got (slice offset n bytes))
  read_all-slice offset n k =
      let past : (ltb (length bytes) offset && not (n == 0)) ≡ false = ground (arith, k) in
      read_all_lem file bytes h offset n
      ∙ ap (λ b. some (if b then error else got (slice offset n bytes))) past

  read_thing-slice :
      (offset n : ℕ)
      → offset + n ≤ length bytes
      → read_thing file offset n ≡ some (slice offset n bytes)
  read_thing-slice offset n k =
      let full : (length (slice offset n bytes) == n) ≡ true =
        (==_iff (length (slice offset n bytes)) n).1 (length-slice offset n k) in
      ap (whole n) (read_all-slice offset n k)
      ∙ ap (λ b. if b then some (slice offset n bytes) else none) full

  filled-slice :
      (segment : Segment) (s : S)
      → segment.offset + segment.filesz ≤ length bytes
      → filled space segment s (read_all file (segment.offset % 2 ^ 32) (segment.filesz % 2 ^ 32))
        ≡ some (space.store segment.vaddr (slice segment.offset segment.filesz bytes) s)
  filled-slice segment s k =
      let piece = slice segment.offset segment.filesz bytes in
      let at : segment.offset % 2 ^ 32 ≡ segment.offset = omega (arith, k, h.small) in
      let size : segment.filesz % 2 ^ 32 ≡ segment.filesz = omega (arith, k, h.small) in
      let full : (length piece == segment.filesz % 2 ^ 32) ≡ true =
        (==_iff (length piece) (segment.filesz % 2 ^ 32)).1
          (length-slice segment.offset segment.filesz k ∙ sym size) in
      ap₂ (λ a b. filled space segment s (read_all file a b)) at size
      ∙ ap (filled space segment s) (read_all-slice segment.offset segment.filesz k)
      ∙ ap (λ b. if b then some (space.store segment.vaddr piece s) else none) full

  load_segment-place :
      (segment : Segment) (s : S)
      → segment.offset + segment.filesz ≤ length bytes
      → load_segment space file segment s ≡ elim (space.map_range segment.vaddr segment.memsz s) [
        | none ↦ none
        | some s' ↦ some (space.store segment.vaddr (slice segment.offset segment.filesz bytes) s')
      ]
  load_segment-place segment s k =
      elim (Option-cases (space.map_range segment.vaddr segment.memsz s)) [
        | inl e ↦ rw (load_segment, e) refl
        | inr (s', e) ↦ rw (load_segment, e) (filled-slice segment s' k)
      ]

  -- The rest of the loop, as the segments that are left.
  abbrev rest_of : List Segment → ℕ → S → Option (ℕ × S)
  rest_of rest max_end s = finish space (highest rest) max_end (place space bytes rest s)

  first_header :
      (left hoff phentsize : ℕ)
      → well_formed bytes (suc left) hoff phentsize ≡ true
      → (hoff + 56 ≤ length bytes)
        × (((segment_of (slice hoff 56 bytes)).type == 1) ≡ true
            → (segment_of (slice hoff 56 bytes)).offset + (segment_of (slice hoff 56 bytes)).filesz
              ≤ length bytes)
        × (well_formed bytes left (hoff + phentsize) phentsize ≡ true)
  unfolding well_formed
  first_header left hoff phentsize w = ground (arith, w)

  next_header :
      (header : Header) (left hoff max_end : ℕ) (s : S)
      → well_formed bytes left (hoff + header.phentsize) header.phentsize ≡ true
      → load_loop space file header left (add32 hoff header.phentsize) max_end s
        ≡ load_loop space file header left (hoff + header.phentsize) max_end s
  unfolding load_loop
  next_header header zero hoff max_end s w = refl
  next_header header (suc left) hoff max_end s w =
      let first = first_header left (hoff + header.phentsize) header.phentsize w in
      let same : add32 hoff header.phentsize ≡ hoff + header.phentsize =
        omega (arith, first.0, h.small) in
      ap (λ x. load_loop space file header (suc left) x max_end s) same

  place-skipped :
      (segment : Segment) (rest : List Segment) (s : S)
      → (segment.type == 1) ≡ false
      → place space bytes (segment ∷ rest) s ≡ place space bytes rest s
  unfolding place
  place-skipped segment rest s e = rw e refl

  place-loaded :
      (segment : Segment) (rest : List Segment) (s : S)
      → (segment.type == 1) ≡ true
      → place space bytes (segment ∷ rest) s
        ≡ elim (space.map_range segment.vaddr segment.memsz s) [
          | none ↦ none
          | some s' ↦
              place space bytes rest
                (space.store segment.vaddr (slice segment.offset segment.filesz bytes) s')
        ]
  unfolding place
  place-loaded segment rest s e = rw e refl

  highest-skipped :
      (segment : Segment) (rest : List Segment)
      → (segment.type == 1) ≡ false
      → highest (segment ∷ rest) ≡ highest rest
  unfolding highest
  highest-skipped segment rest e = rw e refl

  highest-loaded :
      (segment : Segment) (rest : List Segment)
      → (segment.type == 1) ≡ true
      → highest (segment ∷ rest) ≡ max_of (add64 segment.vaddr segment.memsz) (highest rest)
  unfolding highest
  highest-loaded segment rest e = rw e refl

  zero_max : (c : ℕ) → c ≡ max_of 0 c
  zero_max c = ground arith

  max_of_assoc : (a b c : ℕ) → max_of b (max_of a c) ≡ max_of (max_of a b) c
  max_of_assoc a b c = ground arith

  finish-max_of :
      (a b c : ℕ) (o : Option S) → finish space b (max_of a c) o ≡ finish space (max_of a b) c o
  finish-max_of a b c none = refl
  finish-max_of a b c (some s) = ap (λ k. some (k, s)) (max_of_assoc a b c)

  loaded-place :
      (segment : Segment) (rest : List Segment) (max_end : ℕ) (o : Option S)
      → let piece = slice segment.offset segment.filesz bytes in
        let stored : Option S = elim o [
          | none ↦ none
          | some s' ↦ some (space.store segment.vaddr piece s')
        ] in
        let after : Option (ℕ × S) = elim stored [
          | none ↦ none
          | some s' ↦ rest_of rest (max_of (add64 segment.vaddr segment.memsz) max_end) s'
        ] in
        let all : Option S = elim o [
          | none ↦ none
          | some s' ↦ place space bytes rest (space.store segment.vaddr piece s')
        ] in
        after ≡ finish space (max_of (add64 segment.vaddr segment.memsz) (highest rest)) max_end all
  loaded-place segment rest max_end none = refl
  loaded-place segment rest max_end (some s) =
      finish-max_of (add64 segment.vaddr segment.memsz) (highest rest) max_end (
        place space bytes rest
          (space.store segment.vaddr (slice segment.offset segment.filesz bytes) s))

  load_one-place :
      (segment : Segment) (rest : List Segment) (max_end : ℕ) (s : S)
      → ((segment.type == 1) ≡ true → segment.offset + segment.filesz ≤ length bytes)
      → load_one space file segment max_end s (rest_of rest) ≡ rest_of (segment ∷ rest) max_end s
  load_one-place segment rest max_end s fits = elim (Bool-cases (segment.type == 1)) [
    | inr e ↦
        ap
          (λ b.
            if b
            then (elim (load_segment space file segment s) [
              | none ↦ none
              | some s' ↦ rest_of rest (max_of (add64 segment.vaddr segment.memsz) max_end) s'
            ])
            else rest_of rest max_end s)
          e
        ∙ sym (
            ap₂ (λ k o. finish space k max_end o) (highest-skipped segment rest e)
              (place-skipped segment rest s e))
    | inl e ↦
        ap
          (λ b.
            if b
            then (elim (load_segment space file segment s) [
              | none ↦ none
              | some s' ↦ rest_of rest (max_of (add64 segment.vaddr segment.memsz) max_end) s'
            ])
            else rest_of rest max_end s)
          e
        ∙ ap
            (λ (o : Option S). elim o [
              | none ↦ none
              | some s' ↦ rest_of rest (max_of (add64 segment.vaddr segment.memsz) max_end) s'
            ])
            (load_segment-place segment s (fits e))
        ∙ loaded-place segment rest max_end (space.map_range segment.vaddr segment.memsz s)
        ∙ sym (
            ap₂ (λ k o. finish space k max_end o) (highest-loaded segment rest e)
              (place-loaded segment rest s e))
  ]

  load_loop-place :
      (header : Header) (left hoff max_end : ℕ) (s : S)
      → well_formed bytes left hoff header.phentsize ≡ true
      → load_loop space file header left hoff max_end s
        ≡ rest_of (segments bytes left hoff header.phentsize) max_end s
  unfolding load_loop segments place highest
  load_loop-place header zero hoff max_end s w = ap (λ k. some (k, s)) (zero_max max_end)
  load_loop-place header (suc left) hoff max_end s w =
      let segment = segment_of (slice hoff 56 bytes) in
      let rest = segments bytes left (hoff + header.phentsize) header.phentsize in
      let first = first_header left hoff header.phentsize w in
      let next = λ (end : ℕ) (s' : S).
        load_loop space file header left (add32 hoff header.phentsize) end s' in
      let go = λ (next : ℕ → S → Option (ℕ × S)). load_one space file segment max_end s next in
      ap
        (λ (o : Option (List ℕ)). elim o [
          | none ↦ none
          | some bytes' ↦ load_one space file (segment_of bytes') max_end s next
        ])
        (read_thing-slice hoff 56 first.0)
      ∙ ap go (
          fun_ext (λ end. fun_ext (λ s'.
            next_header header left hoff end s' first.2
            ∙ load_loop-place header left (hoff + header.phentsize) end s' first.2)))
      ∙ load_one-place segment rest max_end s first.1

  max_zero : (c : ℕ) → max_of c 0 ≡ c
  max_zero c = ground arith

  entered-finish :
      (entry top : ℕ) (o : Option S)
      → entered space entry (finish space top 0 o) ≡ loaded space entry top o
  entered-finish entry top none = refl
  entered-finish entry top (some s) = ap (λ k. some (entry, k, s)) (max_zero top)

  -- Let a device hold the bytes of a file that has a whole header, whose program headers lie in
  -- the file, and whose segments to be loaded take their bytes from within the file. Then `load`
  -- gives every segment of type 1, in the order of the headers, the pages of its size in memory
  -- and then exactly its bytes of the file, and returns the entry point and the highest end of a
  -- segment; it stops only where `map_range` stops. It looks neither at the magic number nor at
  -- where a segment goes.
  pub load_lem :
      (s : S)
      → let header = header_of (slice 0 64 bytes) in
        let at = header.phoff % 2 ^ 32 in
        64 ≤ length bytes
        → well_formed bytes header.phnum at header.phentsize ≡ true
        → load space file s ≡ (
            let segs = segments bytes header.phnum at header.phentsize in
            loaded space header.entry (highest segs) (place space bytes segs s))
  unfolding load
  load_lem s k w =
      let header = header_of (slice 0 64 bytes) in
      let segs = segments bytes header.phnum (header.phoff % 2 ^ 32) header.phentsize in
      ap
        (λ (o : Option (List ℕ)). elim o [
          | none ↦ none
          | some bytes' ↦ load_from space file (header_of bytes') s
        ])
        (read_thing-slice 0 64 k)
      ∙ ap (entered space header.entry)
          (load_loop-place header header.phnum (header.phoff % 2 ^ 32) 0 s w)
      ∙ entered-finish header.entry (highest segs) (place space bytes segs s)
