-- ===== src/Inode/Lookup.antt =====
-- What `bmap` looks up, and that it changes nothing.
use linux_0_11_learning.Base.{
  ℕ, ◌+◌, ◌-◌, ◌*◌, ◌/◌, ◌%◌, ◌<◌, ◌≡◌, refl, inl, inr, Bool, true, false, some, arith, ltb, leb,
  ◌==◌, if◌then◌else◌, Bool-cases,
}
use linux_0_11_learning.Inode.{File, zone_for, entry_for, through, bmap}

-- The way to a block of a file: direct, through one block of block numbers, or through two.
pub data Way : Type 0 where
  direct : ℕ → Way
  indirect : ℕ → Way
  double : (first second : ℕ) → Way

-- The way to the block, of those that a file can have.
abbrev pub way : ℕ → Way
way block =
    if ltb block 7
    then direct block
    else if ltb block 519
    then indirect (block - 7)
    else double ((block - 519) / 512) ((block - 519) % 512)

module _ (readable : ℕ → Bool) (s : File) where
  -- What an entry of a block of block numbers names: 0 without a block, or one that cannot be read.
  abbrev pub named : (block k : ℕ) → ℕ
  named block k = if block == 0 then 0 else if readable block then s.entry block k else 0

  abbrev pub at : Way → ℕ
  at (direct k) = s.i_zone k
  at (indirect k) = named (s.i_zone 7) k
  at (double first second) = named (named (s.i_zone 8) first) second

  through-lookup : (block k : ℕ) → through readable false block k s ≡ (named block k, s)
  unfolding through entry_for
  through-lookup block k = ground arith

  zone_for-lookup : (now k : ℕ) → zone_for false now k s ≡ (s.i_zone k, s)
  unfolding zone_for
  zone_for-lookup now k = refl

  -- For a block that a file can have, `bmap` returns the block of the device that the way to it ends
  -- at, or 0 where the way is cut, and changes nothing.
  pub bmap-way :
      (now block : ℕ)
      → block < 7 + 512 + 512 * 512
      → bmap readable now block s ≡ some (at (way block), s)
  unfolding bmap
  bmap-way now block h =
      let in_range : leb (7 + 512 + 512 * 512) block ≡ false = ground arith in
      elim (Bool-cases (ltb block 7)) [
        | inl low ↦ rw (in_range, low, zone_for-lookup now block)
        | inr high ↦ elim (Bool-cases (ltb block 519)) [
          | inl one ↦
              let one' : ltb (block - 7) 512 ≡ true = ground arith in
              rw (
                in_range,
                high,
                one,
                one',
                zone_for-lookup now 7,
                through-lookup (s.i_zone 7) (block - 7),
              )
          | inr two ↦
              let two' : ltb (block - 7) 512 ≡ false = ground arith in
              let less : block - 7 - 512 ≡ block - 519 = omega arith in
              rw (
                in_range,
                high,
                two,
                two',
                less,
                zone_for-lookup now 8,
                through-lookup (s.i_zone 8) ((block - 519) / 512),
                through-lookup (named (s.i_zone 8) ((block - 519) / 512)) ((block - 519) % 512),
              )
        ]
      ]
