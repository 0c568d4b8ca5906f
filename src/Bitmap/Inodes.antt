-- ===== src/Bitmap/Inodes.antt =====
-- fs/bitmap.c: `new_inode` and `free_inode`, on the inode bitmap of a device.
use linux_0_11_learning.Base.{
  ℕ, ◌+◌, ◌*◌, ◌/◌, ◌%◌, ◌≤◌, ◌<◌, ◌≡◌, ◌≢◌, refl, inl, inr, Bool, true, false, Option, none, some,
  List, arith, ltb, ◌==◌, ◌||◌, not, if◌then◌else◌, Bool-cases, Option-cases, get_elem?, set,
}
use linux_0_11_learning.Bitmap.{Map, Super, Device, bts, btr, find_map, bits_per_block}
use linux_0_11_learning.Bitmap.Search.{zone_bit, AllMaps, Found, find_map-Found, find_map-none}
use linux_0_11_learning.Bitmap.Blocks.{first_clear, marked_bits, old_bit, zone_bit-full}

-- What these functions use of `struct super_block`.
pub record Inodes : Type 0 where
  pub s_ninodes : ℕ
  pub s_imap : List (Option Map)

-- What they use of `struct m_inode`; 0 is no device.
pub record Inode : Type 0 where
  pub i_dev : ℕ
  pub i_num : ℕ
  pub i_count : ℕ
  pub i_nlinks : ℕ
  pub i_uid : ℕ
  pub i_gid : ℕ
  pub i_dirt : Bool
  pub i_time : ℕ

-- `memset(inode,0,sizeof(*inode))`
abbrev pub cleared_inode : Inode
cleared_inode = record {
  i_dev = 0;
  i_num = 0;
  i_count = 0;
  i_nlinks = 0;
  i_uid = 0;
  i_gid = 0;
  i_dirt = false;
  i_time = 0;
}

-- What `free_inode` comes to; the inode is cleared where it is freed.
pub data Freed : Type 0 where
  freed : Option Inodes → Freed
  panicked : Freed

-- A slot out of range is taken for an empty one.
unfoldable pub free_in_map : (i_num : ℕ) → Inodes → Freed
free_in_map i_num sb = elim (get_elem? sb.s_imap (i_num / bits_per_block)) [
  | none ↦ panicked
  | some none ↦ panicked
  | some (some map) ↦ freed (
      some (record sb {
        s_imap = set sb.s_imap (i_num / bits_per_block) (
            some
              (record map { words = (btr (i_num % bits_per_block) map.words).1; b_dirt = true }));
      }))
]

-- `free_inode` of an inode that is there. A bit that is clear already is only reported.
unfoldable pub free_inode : Inode → Option Inodes → Freed
free_inode inode super =
    if inode.i_dev == 0
    then freed super
    else if ltb 1 inode.i_count
    then panicked
    else if not (inode.i_nlinks == 0)
    then panicked
    else elim super [
      | none ↦ panicked
      | some sb ↦
          if ltb inode.i_num 1 || ltb sb.s_ninodes inode.i_num
          then panicked
          else free_in_map inode.i_num sb
    ]

-- What `new_inode` comes to.
pub data New : Type 0 where
  made : Inode → Inodes → New
  -- The empty inode, if there was one, is put back, and the result is NULL.
  null : New
  panicked : New

-- `new_inode` with the bit `j` of the map in the slot `i`.
unfoldable pub take_inode : (dev uid gid now : ℕ) → Inodes → ℕ → Map → ℕ → New
take_inode dev uid gid now sb i map j =
    if ltb sb.s_ninodes (j + i * bits_per_block)
    then null
    else if (bts j map.words).0
    then panicked
    else made
        (record {
          i_dev = dev;
          i_num = j + i * bits_per_block;
          i_count = 1;
          i_nlinks = 1;
          i_uid = uid;
          i_gid = gid;
          i_dirt = true;
          i_time = now;
        })
        (record sb {
          s_imap =
              set sb.s_imap i (some (record map { words = (bts j map.words).1; b_dirt = true }));
        })

-- `empty` tells whether `get_empty_inode` finds one.
unfoldable pub new_inode : (empty : Bool) → (dev uid gid now : ℕ) → Option Inodes → New
new_inode empty dev uid gid now super = if not empty then null else elim super [
  | none ↦ panicked
  | some sb ↦ elim (find_map 0 sb.s_imap) [
    | none ↦ null
    | some (i, map, j) ↦ take_inode dev uid gid now sb i map j
  ]
]

-- The inode bitmap as if it were that of the zones.
abbrev as_super : Inodes → Super
as_super sb = record { s_nzones = 0; s_firstdatazone = 1; s_zmap = sb.s_imap }

abbrev no_device : Device
no_device = record { super = none; buffers = λ b. none }

-- The outcomes of `new_inode` on a device with a super block.
pub data NewInode (sb : Inodes) (dev uid gid : ℕ) : New → Type 0 where
  none_left :
      ((n : ℕ) → n ≤ sb.s_ninodes → zone_bit sb.s_imap n ≢ some false)
      → NewInode sb dev uid gid null
  first_free :
      {inode : Inode} {sb' : Inodes}
      → zone_bit sb.s_imap inode.i_num ≡ some false
      → ((n : ℕ) → n < inode.i_num → zone_bit sb.s_imap n ≢ some false)
      → inode.i_num ≤ sb.s_ninodes
      → ((n : ℕ)
          → zone_bit sb'.s_imap n ≡ (if inode.i_num == n then some true else zone_bit sb.s_imap n))
      → (inode.i_dev ≡ dev)
        × (inode.i_uid ≡ uid)
        × (inode.i_gid ≡ gid)
        × (inode.i_count ≡ 1)
        × (inode.i_nlinks ≡ 1)
      → NewInode sb dev uid gid (made inode sb')

module _ (dev uid gid now : ℕ) (sb : Inodes) (maps : AllMaps sb.s_imap) (i : ℕ) (map : Map) (j : ℕ)
    (f : Found 0 sb.s_imap i map j) where
  take_inode-NewInode : NewInode sb dev uid gid (take_inode dev uid gid now sb i map j)
  unfolding take_inode
  take_inode-NewInode =
      let first = first_clear (λ b. b) (as_super sb) no_device maps i map j f in
      let bits = marked_bits (λ b. b) (as_super sb) no_device maps i map j f in
      let old = old_bit (λ b. b) (as_super sb) no_device maps i map j f in
      elim (Bool-cases (ltb sb.s_ninodes (j + i * bits_per_block))) [
        | inl past ↦ rw past (NewInode.none_left (λ n le. first.before n (ground arith)))
        | inr inside ↦
            rw (inside, old)
              (NewInode.first_free first.clear first.before (ground arith) bits
                (refl, refl, refl, refl, refl))
      ]

-- Where the cache has an empty inode and the maps have 256 words, `new_inode` finds the first inode
-- whose bit is clear, among those of the device, sets this bit and no other, and returns the inode
-- with one user and one link, of the caller's ids; or it returns NULL, and no bit is clear.
pub new_inode-NewInode :
    (dev uid gid now : ℕ) (sb : Inodes)
    → AllMaps sb.s_imap
    → NewInode sb dev uid gid (new_inode true dev uid gid now (some sb))
unfolding new_inode
new_inode-NewInode dev uid gid now sb maps = elim (Option-cases (find_map 0 sb.s_imap)) [
  | inl full ↦
      rw full (
        NewInode.none_left
          (λ n le. zone_bit-full sb.s_imap n maps (find_map-none 0 sb.s_imap full)))
  | inr ((i, map, j), found) ↦ rw found (
      take_inode-NewInode dev uid gid now sb maps i map j
        (find_map-Found 0 sb.s_imap i map j found))
]
