-- ===== src/Bitmap.antt =====
-- fs/bitmap.c: the bit operations, and the blocks that the zone bitmap of a device gives out.
pub mod Words
pub mod Search
pub mod Blocks
pub mod Free
pub mod Inodes
mod Tests
use linux_0_11_learning.Base.{
  ℕ, zero, suc, ◌+◌, ◌-◌, ◌*◌, ◌/◌, ◌%◌, ◌^◌, Bool, true, false, Option, none, some, List, [], ◌∷◌,
  ltb, leb, ◌==◌, ◌&&◌, ◌||◌, not, if◌then◌else◌, get_elem?, get_or, set, replicate,
}
use linux_0_11_learning.Base.Bits.{test_bit, set_bit, clear_bit}

-- A bitmap block is 256 words of 32 bits.
abbrev pub bits_per_block : ℕ
bits_per_block = 8192

-- `btsl nr,addr`: the old bit and the words.
unfoldable pub bts : ℕ → List ℕ → Bool × List ℕ
bts nr words =
    let w = get_or words (nr / 32) 0 in
    (test_bit (nr % 32) w, set words (nr / 32) (set_bit (nr % 32) w))

-- `btrl nr,addr`: `clear_bit` of the source reports that the bit was clear already.
unfoldable pub btr : ℕ → List ℕ → Bool × List ℕ
btr nr words =
    let w = get_or words (nr / 32) 0 in
    (not (test_bit (nr % 32) w), set words (nr / 32) (clear_bit (nr % 32) w))

-- `notl; bsfl`: the lowest clear bit of a word, of the `n` from `i` on.
unfoldable pub lowest_clear : ℕ → ℕ → ℕ → ℕ
lowest_clear zero i w = i
lowest_clear (suc n) i w =
    let further = lowest_clear n (i + 1) w in if test_bit i w then further else i

-- `find_first_zero`, from a word whose first bit is the bit `base`.
unfoldable pub find_first_zero : ℕ → List ℕ → ℕ
find_first_zero base [] = base
find_first_zero base (w ∷ ws) =
    let further = find_first_zero (base + 32) ws in
    if w == 2 ^ 32 - 1 then further else base + lowest_clear 32 0 w

-- The buffer of a bitmap block.
pub record Map : Type 0 where
  pub words : List ℕ
  pub b_dirt : Bool

-- What these functions use of `struct super_block`.
pub record Super : Type 0 where
  pub s_nzones : ℕ
  pub s_firstdatazone : ℕ
  pub s_zmap : List (Option Map)

-- The buffer of a data block.
pub record Head : Type 0 where
  pub b_count : ℕ
  pub b_uptodate : Bool
  pub b_dirt : Bool
  pub b_data : List ℕ

-- A device: its super block, if it has one, and its blocks in the buffer cache.
pub record Device : Type 0 where
  pub super : Option Super
  pub buffers : ℕ → Option Head

pub data Result (A : Type 0) : Type 0 where
  ok : A → Device → Result A
  panicked : Result A
  -- A null pointer is followed.
  fault : Result A

abbrev pub update : (ℕ → Option Head) → ℕ → Head → ℕ → Option Head
update f b h c = if b == c then some h else f c

-- `free_block` on the bitmap, with the super block and the zone's number in the bitmap.
unfoldable pub free_zone : Super → ℕ → Device → Result (Unit {0})
free_zone sb zone d = elim (get_elem? sb.s_zmap (zone / bits_per_block)) [
  | none ↦ fault
  | some slot ↦ elim slot [
    | none ↦ fault
    | some map ↦
        let (was_clear, words) = btr (zone % bits_per_block) map.words in
        let map' = record map { words = words; b_dirt = true } in
        let sb' = record sb { s_zmap = set sb.s_zmap (zone / bits_per_block) (some map') } in
        if was_clear then panicked else ok tt (record d { super = some sb' })
  ]
]

-- `free_block` with the super block. The buffer that `get_hash_table` finds has one more user. If it then has others the block is
-- kept, and the user stays counted; else `brelse` takes it off.
unfoldable pub free_in_zones : Super → ℕ → Device → Result (Unit {0})
unfolding free_zone
free_in_zones sb block d =
    let zone = block + 1 - sb.s_firstdatazone in
    if ltb block sb.s_firstdatazone || leb sb.s_nzones block
    then panicked
    else elim (d.buffers block) [
      | none ↦ free_zone sb zone d
      | some bh ↦
          if not (bh.b_count + 1 == 1)
          then ok tt (record d {
            buffers = update d.buffers block (record bh { b_count = bh.b_count + 1 });
          })
          else free_zone sb zone (record d {
            buffers = update d.buffers block (record bh { b_dirt = false; b_uptodate = false });
          })
    ]

unfoldable pub free_block : ℕ → Device → Result (Unit {0})
unfolding free_in_zones
free_block block d = elim d.super [ none ↦ panicked | some sb ↦ free_in_zones sb block d ]

-- The first map from slot `i` on with a clear bit: its slot, the map and the bit.
unfoldable pub find_map : ℕ → List (Option Map) → Option (ℕ × Map × ℕ)
find_map i [] = none
find_map i (none ∷ maps) = find_map (i + 1) maps
find_map i (some map ∷ maps) =
    let j = find_first_zero 0 map.words in
    let further = find_map (i + 1) maps in
    if ltb j bits_per_block then some (i, map, j) else further

unfoldable pub zero_block : List ℕ
zero_block = replicate 256 0

-- The buffer of the new block: `getblk` finds it, with one more user, or gets an empty one.
abbrev pub users : Option Head → ℕ
users none = 1
users (some bh) = bh.b_count + 1

-- `new_block` after the search, with the bit `j` of the map in the slot `i`. `evict` is what
-- `getblk` does to the other buffers when it has to reuse one.
unfoldable pub take_zone :
    ((ℕ → Option Head) → ℕ → Option Head) → Super → ℕ → Map → ℕ → Device → Result ℕ
take_zone evict sb i map j d =
    let (was_set, words) = bts j map.words in
    let map' = record map { words = words; b_dirt = true } in
    let d' = record d { super = some (record sb { s_zmap = set sb.s_zmap i (some map') }) } in
    let block = j + i * bits_per_block + sb.s_firstdatazone - 1 in
    let fresh : Head = record {
      b_count = 0;
      b_uptodate = true;
      b_dirt = true;
      b_data = zero_block;
    } in
    if was_set
    then panicked
    else if leb sb.s_nzones block
    then ok 0 d'
    else if not (users (d.buffers block) == 1)
    then panicked
    else ok block (record d' { buffers = update (evict d.buffers) block fresh })

unfoldable pub new_block : ((ℕ → Option Head) → ℕ → Option Head) → Device → Result ℕ
unfolding find_map take_zone
new_block evict d = elim d.super [
  | none ↦ panicked
  | some sb ↦ elim (find_map 0 sb.s_zmap) [
    | none ↦ ok 0 d
    | some (i, map, j) ↦ take_zone evict sb i map j d
  ]
]
