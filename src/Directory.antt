-- ===== src/Directory.antt =====
-- fs/namei.c: permissions, and the entries of a directory.
pub mod Slots
pub mod Finding
pub mod Emptying
pub mod Adding
pub mod Added
pub mod Filled
pub mod AddFind
mod Tests
use Prim.Native.Nat.{bit_and}
use linux_0_11_learning.Base.{
  ℕ, zero, suc, ◌+◌, ◌-◌, ◌*◌, ◌/◌, ◌%◌, ◌^◌, Bool, true, false, ◌&&◌, ◌||◌, not, Option, none,
  some, List, [], ◌∷◌, ltb, leb, ◌==◌, if◌then◌else◌, min, length, take, get_or,
}
use linux_0_11_learning.Task.{Task, suser}

-- The fields of an inode that `permission` reads.
pub record Access : Type 0 where
  pub i_mode : ℕ
  pub i_uid : ℕ
  pub i_gid : ℕ
  pub i_dev : ℕ
  pub i_nlinks : ℕ

-- The three bits of the mode that count for the task.
unfoldable pub mode_for : (current : Task) → Access → ℕ
mode_for current inode =
    if current.euid == inode.i_uid
    then inode.i_mode / 2 ^ 6
    else if current.egid == inode.i_gid
    then inode.i_mode / 2 ^ 3
    else inode.i_mode

unfoldable pub permission : (current : Task) → Access → (mask : ℕ) → Bool
unfolding mode_for
permission current inode mask =
    if not (inode.i_dev == 0) && inode.i_nlinks == 0
    then false
    else bit_and (bit_and (mode_for current inode) mask) 7 == mask || suser current

abbrev pub name_len : ℕ
name_len = 14

-- `DIR_ENTRIES_PER_BLOCK`
abbrev pub per_block : ℕ
per_block = 64

-- `sizeof (struct dir_entry)`
abbrev pub entry_size : ℕ
entry_size = 16

-- `struct dir_entry`; `name` has `name_len` bytes, and a byte past its end is read as 0.
pub record Entry : Type 0 where
  pub inode : ℕ
  pub name : List ℕ

-- The first bytes of the two are the same: `repe cmpsb`.
unfoldable pub same_bytes : (name in_entry : List ℕ) → Bool
same_bytes [] bs = true
same_bytes (c ∷ cs) [] = false
same_bytes (c ∷ cs) (b ∷ bs) = c == b && same_bytes cs bs

-- `match` of the whole of a name, in user memory.
unfoldable pub matches : (name : List ℕ) → Entry → Bool
unfolding same_bytes
matches name de =
    if de.inode == 0 || ltb name_len (length name)
    then false
    else if ltb (length name) name_len && not (get_or de.name (length name) 0 == 0)
    then false
    else same_bytes name de.name

-- A directory: its size; the block that `bmap` gives for each block of the file, of which
-- `i_zone[0]` is the first; which blocks `bread` can read; and the entries of each block.
pub record Directory : Type 0 where
  pub i_size : ℕ
  pub zone : ℕ → ℕ
  pub readable : ℕ → Bool
  pub entry : (block k : ℕ) → Entry

abbrev pub entries : Directory → ℕ
entries d = d.i_size / entry_size

-- The entry that was found: its block, and its place there.
pub record Found : Type 0 where
  pub block : ℕ
  pub at : ℕ

abbrev has_block : Directory → ℕ → Bool
has_block d b = not (b == 0) && d.readable b

-- A round of the loop: the entry `k` of the block that is read matches, or the loop goes on with the
-- one after it.
abbrev look : Directory → (name : List ℕ) → (block k : ℕ) → Option Found → Option Found
look d name block k later =
    if matches name (d.entry block k) then some (record { block = block; at = k }) else later

-- `while (i < entries)`, on fuel; `k` is the place of `de` in the block, which is at its end at 64. A
-- block that cannot be read is passed over.
unfoldable pub find_loop : (fuel : ℕ) → Directory → (name : List ℕ) → (i k block : ℕ) → Option Found
unfolding matches
find_loop zero d name i k block = none
find_loop (suc fuel) d name i k block =
    let next = d.zone (i / per_block) in
    let passed = find_loop fuel d name (i + per_block) per_block block in
    let in_next = look d name next 0 (find_loop fuel d name (i + 1) 1 next) in
    let in_block = look d name block k (find_loop fuel d name (i + 1) (k + 1) block) in
    if leb (entries d) i
    then none
    else if k == per_block
    then (if has_block d next then in_next else passed)
    else in_block

-- The search of `find_entry`, once the name and the directory stand.
unfoldable pub search : Directory → (name : List ℕ) → Option Found
unfolding find_loop
search d name =
    let name' = take name_len name in
    let block = d.zone 0 in
    if length name' == 0
    then none
    else if not (has_block d block)
    then none
    else find_loop (entries d + 1) d name' 0 0 block

-- The bytes are `..`.
abbrev pub is_dotdot : List ℕ → Bool
is_dotdot name = length name == 2 && (get_or name 0 0 == 46 && get_or name 1 0 == 46)

-- `find_entry`: the directory that was searched, and the entry. `is_root` tells that the directory is
-- the root of the task, where `..` is looked up as `.`; `mounted_on` is the directory that the device
-- of the directory is mounted on, where its inode is that of a root: `..` is looked up there, and as many
-- slots as the first directory has.
unfoldable pub find_entry :
    (is_root : Bool)
    → (mounted_on : Option Directory) → Directory
    → (name : List ℕ) → Directory × Option Found
find_entry is_root mounted_on d name =
    if not (is_dotdot (take name_len name))
    then (d, search d name)
    else if is_root
    then (d, search d (46 ∷ []))
    else elim mounted_on [
      | none ↦ (d, search d name)
      | some d' ↦ (d', search (record d' { i_size = d.i_size }) name)
    ]
