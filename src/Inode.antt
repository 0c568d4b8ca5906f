-- ===== src/Inode.antt =====
-- fs/inode.c: `_bmap`, from a block of a file to a block of the device.
pub mod Lookup
mod Tests
use linux_0_11_learning.Base.{
  ℕ, ◌+◌, ◌-◌, ◌*◌, ◌/◌, ◌%◌, Bool, true, false, Option, none, some, List, [], ◌∷◌, ltb, leb, ◌==◌,
  ◌&&◌, not, if◌then◌else◌,
}

-- An inode with the blocks of its device: `i_zone[9]`, the 512 entries of each block, whether its
-- buffer is dirty, and the blocks that `new_block` will give out, in order. `Bitmap` models how they
-- are found; each comes full of zeros.
pub record File : Type 0 where
  pub i_zone : ℕ → ℕ
  pub i_ctime : ℕ
  pub i_dirt : Bool
  pub entry : ℕ → ℕ → ℕ
  pub b_dirt : ℕ → Bool
  pub free : List ℕ

abbrev pub update {ℓ} : {A : Type ℓ} → (ℕ → A) → ℕ → A → ℕ → A
update f i v j = if i == j then v else f j

-- `new_block`: 0 where no block is free.
unfoldable pub new_zone : File → ℕ × File
new_zone s = elim s.free [
  | [] ↦ (0, s)
  | b ∷ bs ↦ (
    b,
    record s { free = bs; entry = update s.entry b (λ k. 0); b_dirt = update s.b_dirt b true },
  )
]

-- `inode->i_zone[k]`, gotten where it is 0 and `create` is set.
unfoldable pub zone_for : (create : Bool) → (now k : ℕ) → File → ℕ × File
zone_for create now k s =
    if create && s.i_zone k == 0
    then (let (b, s') = new_zone s in
        if b == 0
        then (0, s')
        else (b, record s' { i_zone = update s'.i_zone k b; i_ctime = now; i_dirt = true }))
    else (s.i_zone k, s)

-- The entry `k` of the block, gotten where it is 0 and `create` is set.
unfoldable pub entry_for : (create : Bool) → (block k : ℕ) → File → ℕ × File
entry_for create block k s =
    if create && s.entry block k == 0
    then (let (b, s') = new_zone s in
        if b == 0 then (0, s') else (
          b,
          record s' {
            entry = update s'.entry block (update (s'.entry block) k b);
            b_dirt = update s'.b_dirt block true;
          },
        ))
    else (s.entry block k, s)

-- The block that the entry `k` of `block` names; `readable` tells which blocks `bread` can read.
unfoldable pub through : (readable : ℕ → Bool) → (create : Bool) → (block k : ℕ) → File → ℕ × File
through readable create block k s =
    if block == 0
    then (0, s)
    else if not (readable block)
    then (0, s)
    else entry_for create block k s

-- `_bmap`; `none` is its panic.
unfoldable pub _bmap :
    (readable : ℕ → Bool) → (create : Bool) → (now block : ℕ) → File → Option (ℕ × File)
_bmap readable create now block s =
    if leb (7 + 512 + 512 * 512) block
    then none
    else if ltb block 7
    then some (zone_for create now block s)
    else if ltb (block - 7) 512
    then (let (z, s1) = zone_for create now 7 s in some (through readable create z (block - 7) s1))
    else (let (z, s1) = zone_for create now 8 s in
        let (i, s2) = through readable create z ((block - 7 - 512) / 512) s1 in
        some (through readable create i ((block - 7 - 512) % 512) s2))

unfoldable pub bmap : (readable : ℕ → Bool) → (now block : ℕ) → File → Option (ℕ × File)
unfolding _bmap
bmap readable now block s = _bmap readable false now block s

unfoldable pub create_block : (readable : ℕ → Bool) → (now block : ℕ) → File → Option (ℕ × File)
unfolding _bmap
create_block readable now block s = _bmap readable true now block s
