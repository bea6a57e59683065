-- ===== src/BlockIo/Slice.antt =====
-- A device that holds a list of bytes, and what the reads of kernel/block_io.cc give of it.
use p.Prelude.{
  take-take, drop-take, drop-drop, take-drop-append_left, take-append-take-drop, slice, ℕ, zero,
  suc, ◌+◌, ◌-◌, ◌*◌, ◌/◌, ◌%◌, ◌^◌, ◌≤◌, ◌<◌, min, ◌≡◌, refl, sym, ap, ◌∙◌, inl, inr, true, false,
  not, ◌&&◌, Option, some, List, [], ◌∷◌, ◌++◌, arith, dec_lt, dec_le, ltb, ◌==◌, if◌then◌else◌,
  Bool-cases, length, take, drop, length-take, length-drop, add32,
}
use mathlib.Core.Path.{◌≡⟨◌⟩◌, ◌∎}
use native.Mathlib.Nat.{mod-lt, div-add-mod}
use mathlib.Core.List.{append-nil, append_assoc}
use p.BlockIo.{Device, Reply, error, got, part, wanted, read, go_on, read_loop, read_all}

-- The device's blocks are the consecutive pieces of `bytes`; beyond the end anything may follow.
pub record Holds (d : Device) (bytes : List ℕ) : Type 0 where
  pub size : d.size_in_bytes ≡ length bytes
  pub small : length bytes < 2 ^ 32
  pub whole : 0 < d.block_size
  pub blocks :
      (i : ℕ)
      → i * d.block_size < length bytes
      → (pad : List ℕ) × (d.read_block i
          ≡ some (take d.block_size (drop (i * d.block_size) (bytes ++ pad))))

-- A piece of a block is the piece of the bytes at the block's place.
block-slice :
    (bytes pad : List ℕ) (size base off n : ℕ)
    → off + n ≤ size
    → base + off + n ≤ length bytes
    → take n (drop off (take size (drop base (bytes ++ pad)))) ≡ take n (drop (base + off) bytes)
block-slice bytes pad size base off n h k =
    take n (drop off (take size (drop base (bytes ++ pad))))
    ≡⟨ ap (take n) (drop-take off (size - off) size (drop base (bytes ++ pad)) (omega arith)) ⟩
      take n (take (size - off) (drop off (drop base (bytes ++ pad))))
    ≡⟨ take-take n (size - off) _ (omega arith) ⟩ take n (drop off (drop base (bytes ++ pad)))
    ≡⟨ ap (take n) (drop-drop off base (base + off) (bytes ++ pad) refl) ⟩
      take n (drop (base + off) (bytes ++ pad))
    ≡⟨ take-drop-append_left (base + off) n bytes pad k ⟩ take n (drop (base + off) bytes) ∎

module _ (d : Device) (bytes : List ℕ) (h : Holds d bytes) where
  read-part :
      (offset n : ℕ)
      → offset < length bytes
      → read d offset n
        ≡ part (offset % d.block_size) (wanted d offset n) (d.read_block (offset / d.block_size))
  unfolding read
  read-part offset n lt =
      ground (arith, h.size, h.whole, wanted-whole (min n (d.size_in_bytes - offset)))
    where
      wanted-whole :
          (k : ℕ)
          → min (d.block_size - offset % d.block_size) k ≡ d.block_size
          → offset % d.block_size ≡ 0
      wanted-whole k e = omega (arith, h.whole)

  -- On a device that holds `bytes`, one read below the end gives the bytes from the offset to the
  -- end of the block, of the request or of the device, whichever comes first.
  read_lem :
      (offset n : ℕ)
      → offset < length bytes
      → read d offset n ≡ some (got (slice offset (wanted d offset n) bytes))
  read_lem offset n lt =
      rw (read-part offset n lt, found.1)
        (ap (λ (t : List ℕ). some (got t))
          (block-slice bytes found.0 d.block_size (q * d.block_size) r (wanted d offset n)
              (omega (arith, r_lt)) (omega (arith, place, h.size))
            ∙ ap (λ t. take (wanted d offset n) (drop t bytes)) place))
    where
      q : ℕ
      q = offset / d.block_size

      r : ℕ
      r = offset % d.block_size

      place : q * d.block_size + r ≡ offset
      place = omega (arith, div-add-mod offset d.block_size)

      r_lt : r < d.block_size
      r_lt = mod-lt offset h.whole

      found :
          (pad : List ℕ) × (d.read_block q
            ≡ some (take d.block_size (drop (q * d.block_size) (bytes ++ pad))))
      found = h.blocks q (omega (arith, place))

  length-slice : (offset n : ℕ) → offset + n ≤ length bytes → length (slice offset n bytes) ≡ n
  length-slice offset n k =
      omega (arith, length-take n (drop offset bytes), length-drop offset bytes)

  go_on-next :
      (sofar bytes' : List ℕ) (next : List ℕ → Option Reply)
      → 0 < length bytes'
      → go_on sofar next (some (got bytes')) ≡ next bytes'
  go_on-next sofar [] next pos = absurd (omega arith)
  go_on-next sofar (b ∷ bs) next pos = refl

  slice-end : (offset n : ℕ) → offset ≡ length bytes → slice offset n bytes ≡ []
  slice-end offset n e =
      nil_of_length (slice offset n bytes)
        (omega (arith, length-take n (drop offset bytes), length-drop offset bytes))
    where
      nil_of_length : (l : List ℕ) → length l ≡ 0 → l ≡ []
      nil_of_length [] e' = refl
      nil_of_length (x ∷ l) e' = absurd (omega arith)

  read-end : (offset n : ℕ) → offset ≡ length bytes → read d offset n ≡ some (got [])
  unfolding read
  read-end offset n e = ground (arith, h.size)

  slice-append :
      (offset m n k : ℕ)
      → k ≡ m + n
      → slice offset m bytes ++ slice (offset + m) n bytes ≡ slice offset k bytes
  slice-append offset m n k e =
      ap (λ t. slice offset m bytes ++ take n t) (sym (drop-drop m offset (offset + m) bytes refl))
      ∙ take-append-take-drop m n k (drop offset bytes) e

  wanted-bounds :
      (offset n : ℕ)
      → offset < length bytes
      → 0 < n
      → (0 < wanted d offset n)
        × (wanted d offset n ≤ n)
        × (offset + wanted d offset n ≤ length bytes)
  wanted-bounds offset n lt pos =
      omega (arith, h.size, h.whole, mod-lt offset {m = d.block_size} h.whole)

  read_loop-slice :
      (fuel offset n : ℕ) (sofar : List ℕ)
      → offset ≤ length bytes
      → n < fuel
      → read_loop d fuel offset n sofar ≡ some (got (sofar ++ slice offset n bytes))
  unfolding read_loop
  read_loop-slice zero offset n sofar le lt = absurd (omega arith)
  read_loop-slice (suc fuel) offset n sofar le lt = elim (Bool-cases (n == 0)) [
    | inl z ↦
        let e : n ≡ 0 = ground arith in rw (z, e) (ap (λ t. some (got t)) (sym (append-nil sofar)))
    | inr nz ↦ rw nz (elim (dec_lt offset (length bytes)) [
      | yes below ↦
          let w = wanted d offset n in
          let b = wanted-bounds offset n below (ground arith) in
          let len = length-slice offset w b.2 in
          let e : add32 offset (length (slice offset w bytes)) ≡ offset + w =
            omega (arith, len, b, h.small) in
          let f : n - length (slice offset w bytes) ≡ n - w = omega (arith, len) in
          rw
            (
              read_lem offset n below,
              go_on-next sofar (slice offset w bytes) _ (omega (arith, len, b)),
              e,
              f,
              read_loop-slice fuel (offset + w) (n - w) (sofar ++ slice offset w bytes) b.2
                  (omega (arith, b)),
            )
            (ap (λ t. some (got t))
              (append_assoc sofar (slice offset w bytes) (slice (offset + w) (n - w) bytes)
                ∙ ap (λ t. sofar ++ t) (slice-append offset w (n - w) n (omega (arith, b)))))
      | no at_end ↦
          rw (read-end offset n (omega arith), slice-end offset n (omega arith))
            (ap (λ t. some (got t)) (sym (append-nil sofar)))
    ])
  ]

  -- Beyond the end.
  past :
      (offset n : ℕ)
      → length bytes < offset
      → read_all d offset n
        ≡ some (
            if ltb (length bytes) offset && not (n == 0) then error else got (slice offset n bytes))
  unfolding read_all read
  past offset zero lt = ground arith
  past offset (suc n) lt =
      let e : ltb d.size_in_bytes offset ≡ true = ground (arith, h.size) in
      let f : ltb (length bytes) offset ≡ true = ground arith in
      let g : suc n + 1 ≡ suc (suc n) = omega arith in rw (g, e, f) (ground arith)

  -- On a device that holds `bytes`, `read_all` of `n` bytes from any offset gives -1 beyond the
  -- end (for a request that is not empty), and else the bytes from the offset to the end of the
  -- request or of the device, whichever comes first. It needs no more rounds than it is given, and
  -- stops the kernel on no input.
  pub read_all_lem :
      (offset n : ℕ)
      → read_all d offset n
        ≡ some (
            if ltb (length bytes) offset && not (n == 0) then error else got (slice offset n bytes))
  unfolding read_all
  read_all_lem offset n = elim (dec_le offset (length bytes)) [
    | yes le ↦
        let e : ltb (length bytes) offset ≡ false = ground arith in
        rw e (read_loop-slice (n + 1) offset n [] le (omega arith))
    | no gt ↦ past offset n (omega arith)
  ]
