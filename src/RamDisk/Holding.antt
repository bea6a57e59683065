-- ===== src/RamDisk/Holding.antt =====
-- The RAM disk of kernel/ramdisk.cc as a device that block reads can use.
use p.Prelude.{
  ℕ, ◌+◌, ◌-◌, ◌*◌, ◌/◌, ◌%◌, ◌^◌, ◌<◌, ◌≡◌, ap, ◌∙◌, true, none, some, List, ◌++◌, arith, ltb,
  if◌then◌else◌, length, take, drop, mul32,
}
use p.Prelude.{lt→ltb}
use p.BlockIo.Slice.{Holds}
use p.RamDisk.{ram_disk}

-- Let a module have fewer than 2 ^ 32 - 511 bytes, with any memory behind them. Then the RAM disk
-- of the module holds exactly its bytes: its size is theirs, and every block that starts below the
-- end is read, without an assertion that fails, as 512 bytes from its place on.
pub ram_disk-Holds :
    (bytes pad : List ℕ)
    → length bytes + 511 < 2 ^ 32
    → Holds (ram_disk (record { size = length bytes; memory = bytes ++ pad })) bytes
unfolding ram_disk
ram_disk-Holds bytes pad h = record {
  size = omega (arith, h);
  small = omega (arith, h);
  whole = omega arith;
  blocks = λ i lt. (
    pad,
    let blocks = (length bytes % 2 ^ 32 + 512 + 2 ^ 32 - 1) % 2 ^ 32 / 512 in
        let inside : ltb i blocks ≡ true = lt→ltb i blocks (omega (arith, lt, h)) in
        let at : mul32 512 i ≡ i * 512 = omega (arith, lt, h) in
        ap (λ b. if b then some (take 512 (drop (mul32 512 i) (bytes ++ pad))) else none) inside
        ∙ ap (λ k. some (take 512 (drop k (bytes ++ pad)))) at,
  );
}
