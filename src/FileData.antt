-- ===== src/FileData.antt =====
-- fs/file_dev.c: reading and writing the bytes of a file.
pub mod Reading
pub mod Storing
pub mod Writing
pub mod RoundTrip
pub mod Calls
mod Tests
use linux_0_11_learning.Base.{
  ℕ, zero, suc, ◌+◌, ◌-◌, ◌/◌, ◌%◌, Bool, true, false, ◌&&◌, not, Option, none, some, List, [], ◌∷◌,
  ◌++◌, ltb, leb, ◌==◌, if◌then◌else◌, min, length, take, drop, replicate,
}
use linux_0_11_learning.Base.Int.{ℤ, pos, negsuc}

abbrev pub block_size : ℕ
block_size = 1024

abbrev pub update {ℓ} : {A : Type ℓ} → (ℕ → A) → ℕ → A → ℕ → A
update f i v j = if i == j then v else f j

-- An open file: the block that `bmap` gives for each of its blocks, 0 where there is none, which
-- Inode models; which blocks `bread` can read, and their bytes; the blocks that `new_block` will give
-- out, in order; and the fields of the inode and the file that change.
pub record File : Type 0 where
  pub zone : ℕ → ℕ
  pub readable : ℕ → Bool
  pub byte : (block k : ℕ) → ℕ
  pub b_dirt : ℕ → Bool
  pub free : List ℕ
  pub i_size : ℕ
  pub i_dirt : Bool
  pub i_atime : ℕ
  pub i_mtime : ℕ
  pub i_ctime : ℕ
  pub f_pos : ℕ
  pub o_append : Bool

-- The `n` bytes of a block from `k` on.
unfoldable pub bytes_from : (ℕ → ℕ) → (k n : ℕ) → List ℕ
bytes_from byte k zero = []
bytes_from byte k (suc n) = byte k ∷ bytes_from byte (k + 1) n

-- What a round of `file_read` copies: a hole of the file reads as zeros.
unfoldable pub chunk : File → (nr k n : ℕ) → List ℕ
unfolding bytes_from
chunk s nr k n = if nr == 0 then replicate n 0 else bytes_from (s.byte nr) k n

-- `bread` fails.
abbrev pub unreadable : File → ℕ → Bool
unreadable s nr = not (nr == 0) && not (s.readable nr)

-- `while (left)`, on fuel; each round reads a byte at least.
unfoldable pub read_loop : (fuel : ℕ) → File → (f_pos left : ℕ) → List ℕ
unfolding chunk
read_loop zero s f_pos left = []
read_loop (suc fuel) s f_pos left =
    let nr = s.zone (f_pos / block_size) in
    let chars = min (block_size - f_pos % block_size) left in
    let rest =
      chunk s nr (f_pos % block_size) chars ++ read_loop fuel s (f_pos + chars) (left - chars) in
    if left == 0 then [] else if unreadable s nr then [] else rest

-- `file_read`: the bytes for the user, the result, and the file.
unfoldable pub file_read : (now count : ℕ) → File → List ℕ × ℤ × File
unfolding read_loop
file_read now count s =
    let got = read_loop (count + 1) s s.f_pos count in
    if count == 0 then ([], pos 0, s) else (
      got,
      if length got == 0 then negsuc 98 else pos (length got),
      record s { f_pos = s.f_pos + length got; i_atime = now },
    )

-- `create_block` of a block that the inode names itself: gotten where there is none; 0 where no block
-- is free. Inode models the blocks of block numbers, and the panic behind the last block.
unfoldable pub create_block : (now k : ℕ) → File → ℕ × File
create_block now k s = if not (s.zone k == 0) then (s.zone k, s) else elim s.free [
  | [] ↦ (0, s)
  | z ∷ zs ↦ (
    z,
    record s {
      zone = update s.zone k z;
      byte = update s.byte z (λ i. 0);
      b_dirt = update s.b_dirt z true;
      free = zs;
      i_dirt = true;
      i_ctime = now;
    },
  )
]

-- The bytes stored in a block from `k` on.
unfoldable pub store : (ℕ → ℕ) → ℕ → List ℕ → ℕ → ℕ
store byte k [] = byte
store byte k (b ∷ bs) = store (update byte k b) (k + 1) bs

-- The bytes are stored in the block, and the file grows to the position behind them.
unfoldable pub put_chunk : (block p : ℕ) → List ℕ → File → File
unfolding store
put_chunk block p bs s =
    let end = p + length bs in
    record s {
      byte = update s.byte block (store (s.byte block) (p % block_size) bs);
      b_dirt = update s.b_dirt block true;
      i_size = if ltb s.i_size end then end else s.i_size;
      i_dirt = if ltb s.i_size end then true else s.i_dirt;
    }

-- `while (i<count)`, on fuel; the bytes that are left to write, and the file after it.
unfoldable pub write_loop : (fuel now p : ℕ) → (buf : List ℕ) → File → List ℕ × File
unfolding create_block put_chunk
write_loop zero now p buf s = (buf, s)
write_loop (suc fuel) now p buf s =
    let (block, s') = create_block now (p / block_size) s in
    let c = min (block_size - p % block_size) (length buf) in
    let rest = write_loop fuel now (p + c) (drop c buf) (put_chunk block p (take c buf) s') in
    if length buf == 0
    then (buf, s)
    else if block == 0
    then (buf, s')
    else if not (s'.readable block)
    then (buf, s')
    else rest

-- `file_write`: the result and the file.
unfoldable pub file_write : (now : ℕ) → (buf : List ℕ) → File → ℤ × File
unfolding write_loop
file_write now buf s =
    let start = if s.o_append then s.i_size else s.f_pos in
    let (left, s1) = write_loop (length buf + 1) now start buf s in
    let written = length buf - length left in
    let s2 = record s1 { i_mtime = now } in
    (
      if written == 0 then negsuc 0 else pos written,
      if s.o_append then s2 else record s2 { f_pos = start + written; i_ctime = now },
    )
