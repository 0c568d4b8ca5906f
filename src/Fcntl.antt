-- ===== src/Fcntl.antt =====
-- fs/fcntl.c, and `sys_close` of fs/open.c: a task's descriptors and the open files behind them.
pub mod Dup
pub mod Close
mod Tests
use Prim.Native.Nat.{bit_and, bit_or}
use linux_0_11_learning.Base.{
  ℕ, zero, suc, ◌+◌, ◌-◌, ◌%◌, Bool, true, false, Option, none, some, List, [], ◌∷◌, leb, ◌==◌,
  if◌then◌else◌, get_elem?, set, drop,
}
use linux_0_11_learning.Base.Int.{ℤ, pos, negsuc}
use linux_0_11_learning.Base.Bits.{test_bit, set_bit, clear_bit}
use linux_0_11_learning.Task.{Task, nr_open}

-- What these calls use of `struct file`.
pub record File : Type 0 where
  pub f_flags : ℕ
  pub f_count : ℕ
  pub f_inode : ℕ

-- The current task, and the file table.
pub record Files : Type 0 where
  pub current : Task
  pub file : ℕ → File

abbrev pub change : (ℕ → File) → ℕ → File → ℕ → File
change file f new g = if f == g then new else file g

abbrev pub flat : Option (Option ℕ) → Option ℕ
flat none = none
flat (some f) = f

-- `current->filp[fd]`, `none` for a null pointer or a descriptor out of range.
abbrev pub open_file : Task → ℕ → Option ℕ
open_file p fd = flat (get_elem? p.filp fd)

-- `while (arg < NR_OPEN)`: the first free descriptor, of those from `arg` on.
unfoldable pub first_free : ℕ → List (Option ℕ) → Option ℕ
first_free arg [] = none
first_free arg (none ∷ fs) = some arg
first_free arg (some f ∷ fs) = first_free (arg + 1) fs

unfoldable pub dupfd : (fd arg : ℕ) → Files → ℤ × Files
unfolding first_free
dupfd fd arg s = elim (open_file s.current fd) [
  | none ↦ (negsuc 8, s)
  | some f ↦
      if leb nr_open arg then (negsuc 21, s) else elim (first_free arg (drop arg s.current.filp)) [
        | none ↦ (negsuc 23, s)
        | some n ↦ (
          pos n,
          record {
            current = record s.current {
              close_on_exec = clear_bit n s.current.close_on_exec;
              filp = set s.current.filp n (some f);
            };
            file = change s.file f (record (s.file f) { f_count = (s.file f).f_count + 1 });
          },
        )
      ]
]

-- What `sys_close` comes to: its value, with the inode that it puts, or a panic.
pub data Closed : Type 0 where
  closed : ℤ → (put : Option ℕ) → Files → Closed
  panicked : Closed

-- `sys_close` once the descriptor is found to be open.
unfoldable pub close_file : (fd f : ℕ) → Files → Closed
close_file fd f s =
    let p = record s.current {
      close_on_exec = clear_bit fd s.current.close_on_exec;
      filp = set s.current.filp fd none;
    } in
    let file' = s.file f in
    let s' : Files = record {
      current = p;
      file = change s.file f (record file' { f_count = file'.f_count - 1 });
    } in
    if file'.f_count == 0
    then panicked
    else closed (pos 0) (if file'.f_count - 1 == 0 then some file'.f_inode else none) s'

unfoldable pub sys_close : ℕ → Files → Closed
unfolding close_file
sys_close fd s =
    if leb nr_open fd then closed (negsuc 21) none s else elim (open_file s.current fd) [
      | none ↦ closed (negsuc 21) none (record s {
        current = record s.current { close_on_exec = clear_bit fd s.current.close_on_exec };
      })
      | some f ↦ close_file fd f s
    ]

unfoldable pub sys_dup : ℕ → Files → ℤ × Files
unfolding dupfd
sys_dup fildes s = dupfd fildes 0 s

-- The value, the inode that the close puts, and the state; `none` for a panic.
unfoldable pub sys_dup2 : (oldfd newfd : ℕ) → Files → Option (ℤ × Option ℕ × Files)
unfolding dupfd sys_close
sys_dup2 oldfd newfd s = elim (sys_close newfd s) [
  | panicked ↦ none
  | closed r put s' ↦ let (r', s2) = dupfd oldfd newfd s' in some (r', put, s2)
]

-- `O_APPEND | O_NONBLOCK`
abbrev pub settable : ℕ
settable = 0o6000

unfoldable pub sys_fcntl : (fd cmd arg : ℕ) → Files → ℤ × Files
unfolding dupfd
sys_fcntl fd cmd arg s = elim (open_file s.current fd) [
  | none ↦ (negsuc 8, s)
  | some f ↦
      let p = s.current in
      let file' = s.file f in
      if cmd == 0
      then dupfd fd arg s
      else if cmd == 1
      then (pos (if test_bit fd p.close_on_exec then 1 else 0), s)
      else if cmd == 2
      then (
        pos 0,
        record s {
          current = record p {
            close_on_exec =
                if arg % 2 == 1 then set_bit fd p.close_on_exec else clear_bit fd p.close_on_exec;
          };
        },
      )
      else if cmd == 3
      then (pos file'.f_flags, s)
      else if cmd == 4
      then (
        pos 0,
        record s {
          file = change s.file f (record file' {
            f_flags =
                bit_or (file'.f_flags - bit_and file'.f_flags settable) (bit_and arg settable);
          });
        },
      )
      else (negsuc 0, s)
]
