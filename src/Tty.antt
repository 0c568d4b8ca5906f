-- ===== src/Tty.antt =====
-- kernel/chr_drv/tty_io.c: the queues of a terminal line, with the macros of include/linux/tty.h, and
-- what becomes of the characters that arrive.
pub mod Fifo
pub mod Edit
pub mod Lines
pub mod Input
pub mod Output
mod Tests
use linux_0_11_learning.Base.{
  ℕ, zero, suc, ◌+◌, ◌-◌, ◌%◌, ◌^◌, Bool, true, false, ◌&&◌, ◌||◌, not, Option, none, some, List,
  [], ◌∷◌, ltb, leb, ◌==◌, if◌then◌else◌,
}
use linux_0_11_learning.Task.{Task, Tasks, raise}

-- `struct tty_queue`; `lines` is its field `data`, the number of line ends in the queue.
pub record TtyQueue : Type 0 where
  pub lines : ℕ
  pub head : ℕ
  pub tail : ℕ
  pub buf : ℕ → ℕ

abbrev pub tty_buf_size : ℕ
tty_buf_size = 1024

abbrev pub update : (ℕ → ℕ) → ℕ → ℕ → ℕ → ℕ
update buf i c j = if i == j then c else buf j

-- `EMPTY`
abbrev pub is_empty : TtyQueue → Bool
is_empty q = q.head == q.tail

-- `LEFT`, of pointers below the size
unfoldable pub left : TtyQueue → ℕ
left q = (q.tail + tty_buf_size + (tty_buf_size - 1) - q.head) % tty_buf_size

-- `FULL`
abbrev pub is_full : TtyQueue → Bool
is_full q = left q == 0

-- `CHARS`
unfoldable pub chars : TtyQueue → ℕ
chars q = (q.head + tty_buf_size - q.tail) % tty_buf_size

-- `LAST`
unfoldable pub last : TtyQueue → ℕ
last q = q.buf ((q.head + (tty_buf_size - 1)) % tty_buf_size)

-- `PUTCH`
unfoldable pub putch : ℕ → TtyQueue → TtyQueue
putch c q = record q { buf = update q.buf q.head c; head = (q.head + 1) % tty_buf_size }

-- `GETCH`, which leaves the character at the tail behind
unfoldable pub getch : TtyQueue → TtyQueue
getch q = record q { tail = (q.tail + 1) % tty_buf_size }

-- `DEC(q.head)`
unfoldable pub unput : TtyQueue → TtyQueue
unput q = record q { head = (q.head + (tty_buf_size - 1)) % tty_buf_size }

-- The flags of `termios` that the code tests, and its control characters.
pub record Termios : Type 0 where
  pub iuclc : Bool
  pub inlcr : Bool
  pub icrnl : Bool
  pub igncr : Bool
  pub opost : Bool
  pub onlcr : Bool
  pub ocrnl : Bool
  pub onlret : Bool
  pub olcuc : Bool
  pub isig : Bool
  pub icanon : Bool
  pub echo : Bool
  pub echoctl : Bool
  pub vintr : ℕ
  pub vquit : ℕ
  pub verase : ℕ
  pub vkill : ℕ
  pub veof : ℕ
  pub vstart : ℕ
  pub vstop : ℕ

-- `struct tty_struct`, without its driver, and the tasks, which it sends signals to.
pub record Tty : Type 0 where
  pub termios : Termios
  pub pgrp : ℕ
  pub stopped : Bool
  pub read_q : TtyQueue
  pub write_q : TtyQueue
  pub secondary : TtyQueue
  pub tasks : Tasks

-- A character is a byte, and a `signed char`: one from 128 on is negative, so it is below 32 and is
-- none of the control characters.
abbrev pub same : (c k : ℕ) → Bool
same c k = ltb c 128 && c == k

abbrev below_32 : ℕ → Bool
below_32 c = ltb c 32 || leb 128 c

-- `tolower`. The class of a negative character is read outside of `_ctype`; it is taken for none.
unfoldable pub tolower : ℕ → ℕ
tolower c = if leb b'A' c && leb c b'Z' then c + 32 else c

unfoldable pub toupper : ℕ → ℕ
toupper c = if leb b'a' c && leb c b'z' then c - 32 else c

-- `tty_intr`, with the signal in place of its mask
unfoldable pub tty_intr : (pgrp sig : ℕ) → Tasks → Tasks
unfolding raise
tty_intr pgrp sig [] = []
tty_intr pgrp sig (none ∷ ts) = none ∷ tty_intr pgrp sig ts
tty_intr pgrp sig (some p ∷ ts) =
    (if not (pgrp == 0) && p.pgrp == pgrp then some (raise sig p) else some p)
    ∷ tty_intr pgrp sig ts

-- The character after the input flags, or `none` where it is ignored.
unfoldable pub translate : Termios → ℕ → Option ℕ
unfolding tolower
translate t c =
    let lower = λ (c : ℕ). some (if t.iuclc then tolower c else c) in
    if c == 13
    then (if t.icrnl then lower 10 else if t.igncr then none else lower 13)
    else if c == 10 && t.inlcr
    then lower 13
    else lower c

-- A line feed, or the end of the file.
abbrev pub is_end : Termios → ℕ → Bool
is_end t c = c == 10 || same c t.veof

-- What the driver of the line does to the queue of characters to write.
-- It may change that queue only: `con_write` answering ESC Z puts characters in the read queue and
-- calls `copy_to_cooked` again, which is not modelled.
abbrev pub Driver : Type 0
Driver = TtyQueue → TtyQueue

-- The echo of a character that is taken back.
unfoldable pub rub_out : Driver → ℕ → Tty → Tty
rub_out write c t =
    if t.termios.echo
    then (let q = if below_32 c then putch 127 t.write_q else t.write_q in
        record t { write_q = write (putch 127 q) })
    else t

-- Whether there is a last character that KILL or ERASE may take back.
abbrev pub can_erase : Tty → Bool
can_erase t = not (is_empty t.secondary) && not (is_end t.termios (last t.secondary))

unfoldable pub erase_last : Driver → Tty → Tty
unfolding rub_out
erase_last write t =
    let t' = rub_out write (last t.secondary) t in record t' { secondary = unput t'.secondary }

-- KILL: the line is taken back, on fuel.
unfoldable pub kill_line : (fuel : ℕ) → Driver → Tty → Tty
unfolding erase_last
kill_line zero write t = t
kill_line (suc fuel) write t =
    let rest = kill_line fuel write (erase_last write t) in if can_erase t then rest else t

unfoldable pub echo_char : Driver → ℕ → Tty → Tty
echo_char write c t =
    if t.termios.echo
    then (let q =
          if c == 10
          then putch 13 (putch 10 t.write_q)
          else if below_32 c
          then (if t.termios.echoctl
              then putch ((c + 64) % 256) (putch b'^' t.write_q)
              else t.write_q)
          else putch c t.write_q in
        record t { write_q = write q })
    else t

-- The character goes to the secondary queue.
unfoldable pub keep_char : Driver → ℕ → Tty → Tty
unfolding echo_char
keep_char write c t =
    let counted =
      if is_end t.termios c
      then record t.secondary { lines = t.secondary.lines + 1 }
      else t.secondary in
    let t' = echo_char write c (record t { secondary = counted }) in
    record t' { secondary = putch c t'.secondary }

abbrev pub sigint : ℕ
sigint = 2

abbrev pub sigquit : ℕ
sigquit = 3

-- One character, after the input flags.
unfoldable pub cook_char : Driver → ℕ → Tty → Tty
unfolding keep_char tty_intr
cook_char write c t =
    let m = t.termios in
    if m.icanon && same c m.vkill
    then kill_line tty_buf_size write t
    else if m.icanon && same c m.verase
    then (if can_erase t then erase_last write t else t)
    else if m.icanon && same c m.vstop
    then record t { stopped = true }
    else if m.icanon && same c m.vstart
    then record t { stopped = false }
    else if m.isig && same c m.vintr
    then record t { tasks = tty_intr t.pgrp sigint t.tasks }
    else if m.isig && same c m.vquit
    then record t { tasks = tty_intr t.pgrp sigquit t.tasks }
    else keep_char write c t

abbrev pub cook_some : Driver → Option ℕ → Tty → Tty
cook_some write none t = t
cook_some write (some c) t = cook_char write c t

-- A round of `copy_to_cooked`: the oldest character of the read queue.
unfoldable pub cook_next : Driver → Tty → Tty
cook_next write t =
    cook_some write (translate t.termios (t.read_q.buf t.read_q.tail))
      (record t { read_q = getch t.read_q })

unfoldable pub cook_loop : (fuel : ℕ) → Driver → Tty → Tty
cook_loop zero write t = t
cook_loop (suc fuel) write t =
    let rest = cook_loop fuel write (cook_next write t) in
    if is_empty t.read_q || is_full t.secondary then t else rest

-- `copy_to_cooked`; it then wakes the readers up. A queue holds fewer characters than its size.
unfoldable pub copy_to_cooked : Driver → Tty → Tty
copy_to_cooked write t = cook_loop tty_buf_size write t
