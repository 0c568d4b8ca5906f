-- ===== src/Request.antt =====
-- kernel/blk_drv/ll_rw_blk.c: the table of block requests and each device's list of them.
pub mod Order
pub mod Table
mod Tests
use linux_0_11_learning.Base.{
  ℕ, zero, suc, ◌+◌, ◌-◌, ◌*◌, ◌/◌, ◌<◌, Bool, true, false, Option, none, some, List, [], ◌∷◌, ltb,
  leb, ◌==◌, ◌&&◌, ◌||◌, not, if◌then◌else◌, get_elem?, set,
}

abbrev pub nr_request : ℕ
nr_request = 32

-- `READ` and `WRITE`; the read-ahead commands are turned into these.
abbrev pub read : ℕ
read = 0

abbrev pub write : ℕ
write = 1

-- `struct request`, in use. `bh` is the buffer, by number; the link is the order of the list.
pub record Request : Type 0 where
  pub slot : ℕ
  pub dev : ℕ
  pub cmd : ℕ
  pub sector : ℕ
  pub nr_sectors : ℕ
  pub bh : ℕ

-- `IN_ORDER(s1,s2)`
unfoldable pub in_order : Request → Request → Bool
in_order s t =
    ltb s.cmd t.cmd
    || (s.cmd == t.cmd && (ltb s.dev t.dev || (s.dev == t.dev && ltb s.sector t.sector)))

-- The loop of `add_request` from `tmp` on, with `rest` the requests after it: where it stops, the
-- new request goes behind `tmp`.
unfoldable pub place : Request → Request → List Request → List Request
unfolding in_order
place req tmp [] = tmp ∷ req ∷ []
place req tmp (next ∷ rest) =
    let further = place req next rest in
    if (in_order tmp req || not (in_order tmp next)) && in_order req next
    then tmp ∷ req ∷ next ∷ rest
    else tmp ∷ further

-- `add_request` on the list of the device: the list, and whether `request_fn` is called because
-- the device was idle.
unfoldable pub add_request : Request → List Request → List Request × Bool
unfolding place
add_request req [] = (req ∷ [], true)
add_request req (tmp ∷ rest) = (place req tmp rest, false)

-- What `make_request` reads and writes of a buffer head.
pub record Buffer : Type 0 where
  pub number : ℕ
  pub b_dev : ℕ
  pub b_blocknr : ℕ
  pub b_uptodate : Bool
  pub b_dirt : Bool
  pub b_lock : Bool

-- The commands of `ll_rw_block`; `READA` and `WRITEA` give up where the others wait.
pub data Command : Type 0 where
  read_cmd write_cmd reada writea : Command

abbrev pub is_ahead : Command → Bool
is_ahead read_cmd = false
is_ahead write_cmd = false
is_ahead reada = true
is_ahead writea = true

abbrev pub rw_of : Command → ℕ
rw_of read_cmd = read
rw_of write_cmd = write
rw_of reada = read
rw_of writea = write

-- `request[].dev < 0` for the slots: `true` where the slot is in use. The search runs from
-- `n - 1` down to 0.
unfoldable pub find_empty : ℕ → (ℕ → Bool) → Option ℕ
find_empty zero used = none
find_empty (suc n) used = let rest = find_empty n used in if used n then rest else some n

-- The slots that a command may use: the last third is for reads.
abbrev pub slots_for : ℕ → ℕ
slots_for rw = if rw == read then nr_request else nr_request * 2 / 3

-- What one pass of `make_request` comes to.
pub data Made : Type 0 where
  -- Nothing is to be done; the buffer is unlocked.
  skipped : Buffer → Made
  -- `sleep_on(&bh->b_wait)`: the buffer is locked by somebody else.
  waits_for_buffer : Made
  -- `sleep_on(&wait_for_request)`, with the buffer locked.
  waits_for_request : Buffer → Made
  -- The request stands in the device's list, and its slot is taken.
  made : Buffer → Request → (queue : List Request) → (started : Bool) → Made

abbrev pub no_work : ℕ → Buffer → Bool
no_work rw bh = (rw == write && not bh.b_dirt) || (rw == read && bh.b_uptodate)

abbrev pub fill : ℕ → ℕ → Buffer → Request
fill slot rw bh = record {
  slot = slot;
  dev = bh.b_dev;
  cmd = rw;
  sector = bh.b_blocknr * 2;
  nr_sectors = 2;
  bh = bh.number;
}

-- From the label `repeat` on, the buffer locked by the caller.
unfoldable pub take_request : Command → Buffer → (ℕ → Bool) → List Request → Made
unfolding find_empty add_request
take_request cmd bh used queue = elim (find_empty (slots_for (rw_of cmd)) used) [
  | none ↦ if is_ahead cmd then skipped (record bh { b_lock = false }) else waits_for_request bh
  | some slot ↦
      let req = fill slot (rw_of cmd) bh in
      let (queue', started) = add_request req queue in
      made (record bh { b_dirt = false }) req queue' started
]

unfoldable pub make_request : Command → Buffer → (ℕ → Bool) → List Request → Made
unfolding take_request
make_request cmd bh used queue =
    let locked = record bh { b_lock = true } in
    if bh.b_lock
    then (if is_ahead cmd then skipped bh else waits_for_buffer)
    else if no_work (rw_of cmd) bh
    then skipped (record bh { b_lock = false })
    else take_request cmd locked used queue
