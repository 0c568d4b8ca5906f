-- ===== src/Pipe.antt =====
-- fs/pipe.c: reading and writing a pipe, and the macros on its two pointers of include/linux/fs.h.
pub mod Fifo
pub mod Reading
pub mod Writing
pub mod Open
mod Tests
use linux_0_11_learning.Base.{
  ℕ, zero, suc, ◌+◌, ◌-◌, ◌%◌, Option, none, some, List, [], ◌∷◌, ◌++◌, ◌==◌, if◌then◌else◌, min,
  length, take, drop,
}
use linux_0_11_learning.Base.Int.{ℤ, pos, negsuc}

abbrev pub page_size : ℕ
page_size = 4096

-- The inode of a pipe: `i_zone[0]` and `i_zone[1]`, the number of its users, which is 2 while both
-- ends are open, and the page that `i_size` points to.
pub record Pipe : Type 0 where
  pub head : ℕ
  pub tail : ℕ
  pub i_count : ℕ
  pub page : ℕ → ℕ

-- `(PIPE_HEAD-PIPE_TAIL)&(PAGE_SIZE-1)`
unfoldable pub pipe_size : Pipe → ℕ
pipe_size p = (p.head + page_size - p.tail) % page_size

-- The `n` bytes from `i` on.
unfoldable pub copy_out : (ℕ → ℕ) → (i n : ℕ) → List ℕ
copy_out page i zero = []
copy_out page i (suc n) = page i ∷ copy_out page (i + 1) n

abbrev pub update : (ℕ → ℕ) → ℕ → ℕ → ℕ → ℕ
update page i b j = if i == j then b else page j

-- The page with the bytes stored from `i` on.
unfoldable pub copy_in : (ℕ → ℕ) → ℕ → List ℕ → ℕ → ℕ
copy_in page i [] = page
copy_in page i (b ∷ bs) = copy_in (update page i b) (i + 1) bs

-- What a reader has got when it returns, or when it sleeps with `left` bytes to go.
pub data Read : Type 0 where
  returns : List ℕ → Pipe → Read
  sleeps : List ℕ → (left : ℕ) → Pipe → Read

abbrev pub behind : List ℕ → Option Read → Option Read
behind got none = none
behind got (some (returns bytes p)) = some (returns (got ++ bytes) p)
behind got (some (sleeps bytes left p)) = some (sleeps (got ++ bytes) left p)

-- `while (count>0)`, on fuel.
unfoldable pub read_loop : (fuel count : ℕ) → Pipe → Option Read
unfolding pipe_size copy_out
read_loop zero count p = none
read_loop (suc fuel) zero p = some (returns [] p)
read_loop (suc fuel) (suc c) p =
    let size = pipe_size p in
    let chars = min size (min (suc c) (page_size - p.tail)) in
    let rest = read_loop fuel (suc c - chars) (record p { tail = (p.tail + chars) % page_size }) in
    if size == 0
    then (if p.i_count == 2 then some (sleeps [] (suc c) p) else some (returns [] p))
    else behind (copy_out p.page p.tail chars) rest

-- `read_pipe`, until it returns or sleeps. Each round reads a byte at least.
unfoldable pub read_pipe : (count : ℕ) → Pipe → Option Read
unfolding read_loop
read_pipe count p = read_loop (count + 1) count p

-- What a writer has written when it returns, when it gets SIGPIPE, or when it sleeps with the bytes
-- that are left.
pub data Write : Type 0 where
  wrote : ℕ → Pipe → Write
  broken : ℕ → Pipe → Write
  waits : ℕ → (left : List ℕ) → Pipe → Write

-- The value that `write_pipe` returns, where it does.
abbrev pub result : Write → Option ℤ
result (wrote n p) = some (pos n)
result (broken zero p) = some (negsuc 0)
result (broken (suc n) p) = some (pos (suc n))
result (waits n left p) = none

abbrev pub after : ℕ → Option Write → Option Write
after k none = none
after k (some (wrote n p)) = some (wrote (k + n) p)
after k (some (broken n p)) = some (broken (k + n) p)
after k (some (waits n left p)) = some (waits (k + n) left p)

-- The loop of `write_pipe`, on fuel; `buf` holds the `count` bytes that are left to write.
unfoldable pub write_loop : (fuel : ℕ) → (buf : List ℕ) → Pipe → Option Write
unfolding pipe_size copy_in
write_loop zero buf p = none
write_loop (suc fuel) [] p = some (wrote 0 p)
write_loop (suc fuel) (b ∷ bs) p =
    let size = page_size - 1 - pipe_size p in
    let chars = min size (min (length (b ∷ bs)) (page_size - p.head)) in
    let rest = write_loop fuel (drop chars (b ∷ bs)) (record p {
      head = (p.head + chars) % page_size;
      page = copy_in p.page p.head (take chars (b ∷ bs));
    }) in
    if size == 0
    then (if p.i_count == 2 then some (waits 0 (b ∷ bs) p) else some (broken 0 p))
    else after chars rest

unfoldable pub write_pipe : (buf : List ℕ) → Pipe → Option Write
unfolding write_loop
write_pipe buf p = write_loop (length buf + 1) buf p
