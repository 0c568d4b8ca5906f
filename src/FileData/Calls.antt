-- ===== src/FileData/Calls.antt =====
-- fs/read_write.c: `lseek`, and where `read` and `write` go; and fs/char_dev.c, where they go for a
-- character device.
use linux_0_11_learning.Base.{
  ℕ, zero, suc, ◌+◌, ◌-◌, ◌/◌, ◌%◌, ◌≤◌, ◌<◌, ◌≡◌, Bool, ◌&&◌, ◌||◌, not, Option, none, some, ltb,
  leb, ◌==◌, if◌then◌else◌, arith,
}
use linux_0_11_learning.Base.Int.{ℤ, pos, negsuc, ◌+ℤ◌}

abbrev eperm : ℤ
eperm = negsuc 0

abbrev eio : ℤ
eio = negsuc 4

abbrev ebadf : ℤ
ebadf = negsuc 8

abbrev enodev : ℤ
enodev = negsuc 18

abbrev einval : ℤ
einval = negsuc 21

abbrev espipe : ℤ
espipe = negsuc 28

-- What the calls read of an open file and its inode, and the position, which they change.
pub record OpenFile : Type 0 where
  pub f_mode : ℕ
  pub f_pos : ℕ
  pub has_inode : Bool
  pub i_dev : ℕ
  pub i_mode : ℕ
  pub i_size : ℕ
  pub i_zone0 : ℕ
  pub i_pipe : Bool

-- `MAJOR`
abbrev major : ℕ → ℕ
major dev = dev / 256

-- `MINOR`
abbrev minor : ℕ → ℕ
minor dev = dev % 256

-- `IS_SEEKABLE`
abbrev is_seekable : ℕ → Bool
is_seekable m = leb 1 m && leb m 3

-- The position that is sought, or `none` for an origin that is none.
unfoldable pub sought : OpenFile → (offset : ℤ) → (origin : ℕ) → Option ℤ
unfolding ◌+ℤ◌
sought f offset zero = some offset
sought f offset (suc zero) = some (pos f.f_pos +ℤ offset)
sought f offset (suc (suc zero)) = some (pos f.i_size +ℤ offset)
sought f offset (suc (suc (suc n))) = none

abbrev seek_to : OpenFile → Option ℤ → ℤ × OpenFile
seek_to f none = (einval, f)
seek_to f (some (negsuc n)) = (einval, f)
seek_to f (some (pos n)) = (pos n, record f { f_pos = n })

-- `sys_lseek` of an open file, where the sums are below 2 ^ 31.
unfoldable pub sys_lseek : OpenFile → (offset : ℤ) → (origin : ℕ) → ℤ × OpenFile
unfolding sought
sys_lseek f offset origin =
    if not f.has_inode || not (is_seekable (major f.i_dev))
    then (ebadf, f)
    else if f.i_pipe
    then (espipe, f)
    else seek_to f (sought f offset origin)

-- The type of a file, `i_mode & S_IFMT`, in units of 010000.
abbrev file_type : ℕ → ℕ
file_type mode = mode / 4096 % 16

abbrev is_chr : ℕ → Bool
is_chr mode = file_type mode == 2

abbrev is_dir : ℕ → Bool
is_dir mode = file_type mode == 4

abbrev is_blk : ℕ → Bool
is_blk mode = file_type mode == 6

abbrev is_reg : ℕ → Bool
is_reg mode = file_type mode == 8

-- Where a call of `read` or `write` goes, with the device or with how many bytes of the file.
pub data Target : Type 0 where
  returns : ℤ → Target
  to_pipe : ℕ → Target
  to_char : (dev count : ℕ) → Target
  to_block : (dev count : ℕ) → Target
  to_file : ℕ → Target

-- `sys_read` of an open file.
unfoldable pub sys_read : OpenFile → (count : ℤ) → Target
sys_read f (negsuc n) = returns einval
sys_read f (pos zero) = returns (pos 0)
sys_read f (pos (suc n)) =
    let count = suc n in
    let left = if ltb f.i_size (count + f.f_pos) then f.i_size - f.f_pos else count in
    if f.i_pipe
    then (if f.f_mode % 2 == 1 then to_pipe count else returns eio)
    else if is_chr f.i_mode
    then to_char f.i_zone0 count
    else if is_blk f.i_mode
    then to_block f.i_zone0 count
    else if is_dir f.i_mode || is_reg f.i_mode
    then (if left == 0 then returns (pos 0) else to_file left)
    else returns einval

-- `sys_write` of an open file.
unfoldable pub sys_write : OpenFile → (count : ℤ) → Target
sys_write f (negsuc n) = returns einval
sys_write f (pos zero) = returns (pos 0)
sys_write f (pos (suc n)) =
    let count = suc n in
    if f.i_pipe
    then (if f.f_mode / 2 % 2 == 1 then to_pipe count else returns eio)
    else if is_chr f.i_mode
    then to_char f.i_zone0 count
    else if is_blk f.i_mode
    then to_block f.i_zone0 count
    else if is_reg f.i_mode
    then to_file count
    else returns einval

-- Where a call on a character device goes: to the terminal of a number, or to the ports.
pub data CharTarget : Type 0 where
  answers : ℤ → CharTarget
  to_tty : ℕ → CharTarget
  to_ports : CharTarget

unfoldable pub rw_memory : (reads : Bool) → (minor count : ℕ) → CharTarget
rw_memory reads minor count =
    if minor == 3
    then answers (if reads then pos 0 else pos count)
    else if minor == 4
    then to_ports
    else answers eio

-- `rw_char`; `tty` is the terminal of the task, if it has one.
unfoldable pub rw_char : (tty : Option ℕ) → (reads : Bool) → (dev count : ℕ) → CharTarget
unfolding rw_memory
rw_char tty reads dev count =
    if major dev == 1
    then rw_memory reads (minor dev) count
    else if major dev == 4
    then to_tty (minor dev)
    else if major dev == 5
    then elim tty [ none ↦ answers eperm | some t ↦ to_tty t ]
    else answers enodev

-- A read of a file or a directory never goes past its end: what `sys_read` asks of `file_read` is a
-- byte at least, no more than the process asked for, and ends in the file.
pub sys_read-to_file :
    (f : OpenFile) (n left : ℕ)
    → sys_read f (pos n) ≡ to_file left
    → (0 < left) × (left ≤ n) × (f.f_pos + left ≤ f.i_size)
unfolding sys_read
sys_read-to_file f zero left h = absurd (ground arith)
sys_read-to_file f (suc n) left h = ground arith
