-- ===== src/Directory/Adding.antt =====
-- fs/namei.c: `add_entry`.
use linux_0_11_learning.Base.{
  ℕ, zero, suc, ◌+◌, ◌-◌, ◌*◌, ◌/◌, Bool, true, not, Option, none, some, List, [], ◌∷◌, ◌++◌, leb,
  ◌==◌, if◌then◌else◌, length, take, replicate,
}
use linux_0_11_learning.Directory.{
  Entry, Directory, Found, name_len, per_block, entry_size, has_block,
}

abbrev pub update {ℓ} : {A : Type ℓ} → (ℕ → A) → ℕ → A → ℕ → A
update f i v j = if i == j then v else f j

-- A directory that can grow: the blocks that `new_block` will give out, in order, which buffers are
-- dirty, and the fields of the inode that change.
pub record Growing : Type 0 where
  pub dir : Directory
  pub free : List ℕ
  pub b_dirt : ℕ → Bool
  pub i_dirt : Bool
  pub i_mtime : ℕ
  pub i_ctime : ℕ

-- `n` bytes of 0 at the end of a name, up to the size of the field.
abbrev pub padded : (name : List ℕ) → List ℕ
padded name = name ++ replicate (name_len - length name) 0

-- `new_block` of the free blocks, which becomes the block `b` of the file: 0 where there is none. A new
-- block is full of zeros.
unfoldable pub got_block : (now b : ℕ) → (free : List ℕ) → Growing → ℕ × Growing
got_block now b [] g = (0, g)
got_block now b (z ∷ zs) g = (
  z,
  record g {
    dir = record g.dir {
      zone = update g.dir.zone b z;
      entry = update g.dir.entry z (λ k. record { inode = 0; name = replicate name_len 0 });
    };
    free = zs;
    b_dirt = update g.b_dirt z true;
    i_dirt = true;
    i_ctime = now;
  },
)

-- `create_block` of a block that the inode names itself. Inode models the blocks of block numbers, and
-- the panic behind the last block.
unfoldable pub create_block : (now b : ℕ) → Growing → ℕ × Growing
create_block now b g = if g.dir.zone b == 0 then got_block now b g.free g else (g.dir.zone b, g)

abbrev pub put_entry : (block k : ℕ) → Entry → Directory → Directory
put_entry block k de d = record d { entry = update d.entry block (update (d.entry block) k de) }

-- `if (i*sizeof(struct dir_entry) >= dir->i_size)`: the directory grows by the slot `i`.
unfoldable pub grow : (now i block k : ℕ) → Growing → Growing
grow now i block k g =
    let de = g.dir.entry block k in
    if leb g.dir.i_size (i * entry_size)
    then record g {
      dir = record (put_entry block k (record de { inode = 0 }) g.dir) {
        i_size = (i + 1) * entry_size;
      };
      i_dirt = true;
      i_ctime = now;
    }
    else g

-- The name is put into the slot.
unfoldable pub write_name : (now : ℕ) → (name : List ℕ) → (block k : ℕ) → Growing → Growing
write_name now name block k g = record g {
  dir = put_entry block k (record (g.dir.entry block k) { name = padded name }) g.dir;
  b_dirt = update g.b_dirt block true;
  i_mtime = now;
}

-- The slot `i`, which is the entry `k` of the block, is taken if it is free; or the loop goes on.
unfoldable pub at_slot :
    (now : ℕ)
    → (name : List ℕ) → (i k block : ℕ) → Growing
    → (Growing → Option Found × Growing)
    → Option Found × Growing
at_slot now name i k block g later =
    let g' = grow now i block k g in
    if (g'.dir.entry block k).inode == 0
    then (some (record { block = block; at = k }), write_name now name block k g')
    else later g'

-- `while (1)`, on fuel; `k` is the place of `de` in the block, which is at its end at 64. A block that
-- cannot be read is passed over.
unfoldable pub add_loop :
    (fuel now : ℕ) → (name : List ℕ) → (i k block : ℕ) → Growing → Option Found × Growing
add_loop zero now name i k block g = (none, g)
add_loop (suc fuel) now name i k block g =
    let (z, g') = create_block now (i / per_block) g in
    if not (k == per_block)
    then at_slot now name i k block g (add_loop fuel now name (i + 1) (k + 1) block)
    else if z == 0
    then (none, g')
    else if not (g.dir.readable z)
    then add_loop fuel now name (i + per_block) per_block block g'
    else at_slot now name i 0 z g' (add_loop fuel now name (i + 1) 1 z)

-- `add_entry`: the slot, or none, and the directory. The inode of the slot is left at 0.
unfoldable pub add_entry : (now : ℕ) → (name : List ℕ) → Growing → Option Found × Growing
add_entry now name g =
    let name' = take name_len name in
    let block = g.dir.zone 0 in
    if length name' == 0
    then (none, g)
    else if not (has_block g.dir block)
    then (none, g)
    else add_loop (g.dir.i_size / entry_size + per_block + 1) now name' 0 0 block g
