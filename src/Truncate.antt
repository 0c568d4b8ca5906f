-- ===== src/Truncate.antt =====
-- fs/truncate.c: the blocks of a file are given back.
pub mod Names
pub mod Freed
mod Tests
use linux_0_11_learning.Base.{
  ℕ, zero, suc, ◌+◌, ◌-◌, ◌*◌, ◌/◌, ◌%◌, Bool, true, false, List, [], ◌∷◌, ◌++◌, ltb, leb, ◌==◌,
  ◌||◌, not, if◌then◌else◌,
}
use linux_0_11_learning.Inode.{File, update}

-- An inode, whose block numbers and whose device `Inode` models.
pub record Node : Type 0 where
  pub i_mode : ℕ
  pub i_size : ℕ
  pub i_mtime : ℕ
  pub file : File

-- `S_ISREG`, `S_ISDIR`
abbrev pub has_blocks : (mode : ℕ) → Bool
has_blocks mode = mode / 4096 % 16 == 8 || mode / 4096 % 16 == 4

module _ (readable : ℕ → Bool) (entry : ℕ → ℕ → ℕ) where
  -- `n` entries of the block, from `i` on, each that is not 0 freed by `free`. The result has the
  -- blocks that `free_block` is called with, in order.
  unfoldable pub entries_loop : (free : ℕ → List ℕ) → (block i n : ℕ) → List ℕ
  entries_loop free block i zero = []
  entries_loop free block i (suc n) =
      (if entry block i == 0 then [] else free (entry block i)) ++ entries_loop free block (i + 1) n

  -- `free_ind`, and `free_dind`; `readable` tells which blocks `bread` can read.
  unfoldable pub free_ind : (block : ℕ) → List ℕ
  free_ind block =
      if block == 0
      then []
      else (if readable block then entries_loop (λ z. z ∷ []) block 0 512 else []) ++ block ∷ []

  unfoldable pub free_dind : (block : ℕ) → List ℕ
  free_dind block =
      if block == 0
      then []
      else (if readable block then entries_loop free_ind block 0 512 else []) ++ block ∷ []

-- The first blocks of the file, which the inode names itself.
unfoldable pub free_direct : (i n : ℕ) → (i_zone : ℕ → ℕ) → List ℕ × (ℕ → ℕ)
free_direct i zero i_zone = ([], i_zone)
free_direct i (suc n) i_zone =
    if i_zone i == 0
    then free_direct (i + 1) n i_zone
    else (let (later, after) = free_direct (i + 1) n (update i_zone i 0) in
        (i_zone i ∷ later, after))

-- `truncate`: the blocks that are freed, and the inode.
unfoldable pub truncate : (readable : ℕ → Bool) → (now : ℕ) → Node → List ℕ × Node
truncate readable now node =
    let f = node.file in
    let (direct, i_zone) = free_direct 0 7 f.i_zone in
    let freed =
      direct ++ free_ind readable f.entry (i_zone 7) ++ free_dind readable f.entry (i_zone 8) in
    if not (has_blocks node.i_mode) then ([], node) else (
      freed,
      record node {
        file = record f { i_zone = update (update i_zone 7 0) 8 0; i_dirt = true; i_ctime = now };
        i_size = 0;
        i_mtime = now;
      },
    )
