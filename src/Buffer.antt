-- ===== src/Buffer.antt =====
-- fs/buffer.c: the buffer cache.
pub mod Queues
pub mod Choose
pub mod Getblk
pub mod Users
mod Tests
use Prim.Native.Nat.{bit_xor}
use linux_0_11_learning.Base.{
  ℕ, zero, suc, ◌+◌, ◌-◌, ◌*◌, ◌%◌, Bool, true, false, ◌&&◌, not, Option, none, some, List, [], ◌∷◌,
  ◌++◌, ltb, ◌==◌, if◌then◌else◌,
}

-- `struct buffer_head`, with `b_count` a byte; its links are the lists of `Cache`, and its data is not needed here. A
-- `b_dev` of 0 is no device.
pub record Head : Type 0 where
  pub b_dev : ℕ
  pub b_blocknr : ℕ
  pub b_uptodate : Bool
  pub b_dirt : Bool
  pub b_count : ℕ
  pub b_lock : Bool

-- The buffers, by number; each queue of `hash_table` in link order; and the ring of all buffers in
-- link order from `free_list` on.
pub record Cache : Type 0 where
  pub bufs : ℕ → Head
  pub hash_table : ℕ → List ℕ
  pub free_list : List ℕ

abbrev pub nr_hash : ℕ
nr_hash = 307

unfoldable pub hashfn : (dev block : ℕ) → ℕ
hashfn dev block = bit_xor dev block % nr_hash

abbrev pub home : Head → ℕ
home h = hashfn h.b_dev h.b_blocknr

abbrev pub update {ℓ} : {A : Type ℓ} → (ℕ → A) → ℕ → A → ℕ → A
update f i v j = if i == j then v else f j

abbrev pub put : ℕ → Head → Cache → Cache
put i h c = record c { bufs = update c.bufs i h }

unfoldable pub erase : ℕ → List ℕ → List ℕ
erase i [] = []
erase i (j ∷ js) = if j == i then js else j ∷ erase i js

unfoldable pub remove_from_queues : ℕ → Cache → Cache
unfolding erase
remove_from_queues i c =
    let h = home (c.bufs i) in
    record c {
      hash_table = update c.hash_table h (erase i (c.hash_table h));
      free_list = erase i c.free_list;
    }

unfoldable pub insert_into_queues : ℕ → Cache → Cache
insert_into_queues i c =
    let h = home (c.bufs i) in
    record c {
      hash_table =
          if (c.bufs i).b_dev == 0
          then c.hash_table
          else update c.hash_table h (i ∷ c.hash_table h);
      free_list = c.free_list ++ i ∷ [];
    }

abbrev pub holds : (dev block : ℕ) → Head → Bool
holds dev block h = h.b_dev == dev && h.b_blocknr == block

-- The first buffer of a queue with the block.
unfoldable pub find_in : (ℕ → Head) → (dev block : ℕ) → List ℕ → Option ℕ
find_in bufs dev block [] = none
find_in bufs dev block (i ∷ is) =
    if holds dev block (bufs i) then some i else find_in bufs dev block is

unfoldable pub find_buffer : (dev block : ℕ) → Cache → Option ℕ
unfolding find_in
find_buffer dev block c = find_in c.bufs dev block (c.hash_table (hashfn dev block))

abbrev bit : Bool → ℕ
bit true = 1
bit false = 0

unfoldable pub badness : Head → ℕ
badness h = 2 * bit h.b_dirt + bit h.b_lock

-- `!bh || BADNESS(tmp)<BADNESS(bh)`
unfoldable pub better : (ℕ → Head) → ℕ → Option ℕ → Bool
unfolding badness
better bufs tmp none = true
better bufs tmp (some i) = ltb (badness (bufs tmp)) (badness (bufs i))

-- The loop over the free list; `bh` is the best buffer yet.
unfoldable pub choose : (ℕ → Head) → (bh : Option ℕ) → List ℕ → Option ℕ
unfolding better badness
choose bufs bh [] = bh
choose bufs bh (tmp ∷ rest) =
    let takes = (bufs tmp).b_count == 0 && better bufs tmp bh in
    let later = choose bufs (if takes then some tmp else bh) rest in
    if takes && badness (bufs tmp) == 0 then some tmp else later

-- How a stretch of `getblk` between two sleeps ends: with the buffer; asleep on a buffer of the block
-- that is locked, whose count is taken; asleep on `buffer_wait`; asleep on the locked buffer that it
-- chose; in `sync_dev` for the dirty one; or back at `repeat`.
pub data Stretch : Type 0 where
  got : ℕ → Cache → Stretch
  waits_for : ℕ → Cache → Stretch
  waits : Cache → Stretch
  waits_unused : ℕ → Cache → Stretch
  syncs : (i dev : ℕ) → Cache → Stretch
  again : Cache → Stretch

unfoldable pub count_up : ℕ → Cache → Cache
count_up i c = put i (record (c.bufs i) { b_count = ((c.bufs i).b_count + 1) % 256 }) c

unfoldable pub count_down : ℕ → Cache → Cache
count_down i c = put i (record (c.bufs i) { b_count = ((c.bufs i).b_count + 255) % 256 }) c

-- `get_hash_table` once the buffer that it found is unlocked.
unfoldable pub found_again : (dev block i : ℕ) → Cache → Stretch
unfolding count_down
found_again dev block i c = if holds dev block (c.bufs i) then got i c else again (count_down i c)

-- The buffer becomes the block's.
unfoldable pub claim : (dev block i : ℕ) → Cache → Cache
unfolding remove_from_queues insert_into_queues
claim dev block i c =
    let clean = record (c.bufs i) { b_count = 1; b_dirt = false; b_uptodate = false } in
    let out = remove_from_queues i (put i clean c) in
    insert_into_queues i (put i (record (out.bufs i) { b_dev = dev; b_blocknr = block }) out)

-- `getblk` once the buffer that it chose is unlocked.
unfoldable pub use_unused : (dev block i : ℕ) → Cache → Stretch
unfolding claim find_buffer
use_unused dev block i c =
    if not ((c.bufs i).b_count == 0)
    then again c
    else if (c.bufs i).b_dirt
    then syncs i (c.bufs i).b_dev c
    else elim (find_buffer dev block c) [ some j ↦ again c | none ↦ got i (claim dev block i c) ]

unfoldable pub choose_unused : (dev block : ℕ) → Cache → Stretch
unfolding choose use_unused
choose_unused dev block c = elim (choose c.bufs none c.free_list) [
  | none ↦ waits c
  | some i ↦ if (c.bufs i).b_lock then waits_unused i c else use_unused dev block i c
]

-- `getblk` from `repeat` on.
unfoldable pub getblk : (dev block : ℕ) → Cache → Stretch
unfolding find_buffer count_up found_again choose_unused
getblk dev block c = elim (find_buffer dev block c) [
  | none ↦ choose_unused dev block c
  | some i ↦
      let c' = count_up i c in
      if (c.bufs i).b_lock then waits_for i c' else found_again dev block i c'
]

-- `brelse` of a buffer that is not locked; `none` is its panic. It wakes `buffer_wait` up.
unfoldable pub brelse : ℕ → Cache → Option Cache
unfolding count_down
brelse i c = if (c.bufs i).b_count == 0 then none else some (count_down i c)

-- `invalidate_buffers`, where no buffer of the device is locked.
unfoldable pub invalidate_buffers : (dev : ℕ) → List ℕ → Cache → Cache
invalidate_buffers dev [] c = c
invalidate_buffers dev (i ∷ is) c = invalidate_buffers dev is (
    if (c.bufs i).b_dev == dev
    then put i (record (c.bufs i) { b_uptodate = false; b_dirt = false }) c
    else c)
