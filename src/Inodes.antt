-- ===== src/Inodes.antt =====
-- fs/inode.c: `get_empty_inode`, on the table of inodes, cut where it sleeps.
pub mod Empty
mod Tests
use linux_0_11_learning.Base.{
  ℕ, zero, suc, ◌+◌, Bool, true, false, Option, none, some, leb, ◌==◌, not, ◌&&◌, if◌then◌else◌,
}

-- `NR_INODE`
abbrev pub nr_inode : ℕ
nr_inode = 32

-- The fields of an inode that the table keeps track of it with.
pub record Inode : Type 0 where
  pub i_dev : ℕ
  pub i_num : ℕ
  pub i_count : ℕ
  pub i_lock : Bool
  pub i_dirt : Bool
  pub i_pipe : Bool
  pub i_mount : Bool

-- `inode_table`, and `last_inode`, where the search goes on.
pub record Table : Type 0 where
  pub inode_table : ℕ → Inode
  pub last_inode : ℕ

abbrev pub next_inode : ℕ → ℕ
next_inode last = if leb nr_inode (last + 1) then 0 else last + 1

-- The loop over the table: `n` steps from behind `last`; `inode` is what it has found. The result has
-- the place where it ends.
unfoldable pub look : (n last : ℕ) → (inode : Option ℕ) → (ℕ → Inode) → Option ℕ × ℕ
look zero last inode t = (inode, last)
look (suc n) last inode t =
    let here = next_inode last in
    let unused = (t here).i_count == 0 in
    let later = look n here (if unused then some here else inode) t in
    if unused && (not (t here).i_dirt && not (t here).i_lock) then (some here, here) else later

-- How a stretch of `get_empty_inode` between two sleeps ends: with its panic; asleep on an inode that is
-- locked; in `write_inode` for a dirty one; back at the loop; or with the inode.
pub data Stretch : Type 0 where
  panics : Stretch
  waits_for : ℕ → Table → Stretch
  writes : ℕ → Table → Stretch
  again : Table → Stretch
  got : ℕ → Table → Stretch

-- `memset`, with the count that follows.
abbrev pub taken : Inode
taken = record {
  i_dev = 0;
  i_num = 0;
  i_count = 1;
  i_lock = false;
  i_dirt = false;
  i_pipe = false;
  i_mount = false;
}

-- Once the inode is unlocked.
unfoldable pub unlocked : (inode : ℕ) → Table → Stretch
unlocked inode s =
    let t = s.inode_table in
    if (t inode).i_dirt
    then writes inode s
    else if not ((t inode).i_count == 0)
    then again s
    else got inode (record s { inode_table = λ i. if inode == i then taken else t i })

-- After the loop over the table.
unfoldable pub found_one : Option ℕ → Table → Stretch
found_one none s = panics
found_one (some inode) s =
    if (s.inode_table inode).i_lock then waits_for inode s else unlocked inode s

unfoldable pub get_empty_inode : Table → Stretch
get_empty_inode s =
    let (found, last) = look nr_inode s.last_inode none s.inode_table in
    found_one found (record s { last_inode = last })
