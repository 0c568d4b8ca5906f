-- ===== src/Tty/Tests.antt =====
-- Runs of a console line.
use linux_0_11_learning.Base.{
  ℕ, ◌≡◌, ◌<◌, refl, true, false, List, [], ◌∷◌, ◌==◌, if◌then◌else◌, arith,
}
use linux_0_11_learning.Tty.{TtyQueue, tty_buf_size, Termios, Tty, chars, translate, copy_to_cooked}
use linux_0_11_learning.Tty.Edit.{ends, edit}
use linux_0_11_learning.Tty.Fifo.{oldest, newest}
use linux_0_11_learning.Tty.Lines.{Shows, copy_to_cooked-Shows}
use linux_0_11_learning.Tty.Output.{Writer, fill, posted, Filled, fill-Filled}

-- The modes that the console starts with.
abbrev console : Termios
console = record {
  iuclc = false;
  inlcr = false;
  icrnl = true;
  igncr = false;
  opost = true;
  onlcr = true;
  ocrnl = false;
  onlret = false;
  olcuc = false;
  isig = true;
  icanon = true;
  echo = true;
  echoctl = true;
  vintr = 3;
  vquit = 28;
  verase = 127;
  vkill = 21;
  veof = 4;
  vstart = 17;
  vstop = 19;
}

abbrev empty_queue : TtyQueue
empty_queue = record { lines = 0; head = 1022; tail = 1022; buf = λ i. 0 }

-- "ab", erase, "c", carriage return
abbrev typed : List ℕ
typed = 97 ∷ 98 ∷ 127 ∷ 99 ∷ 13 ∷ []

abbrev read_queue : TtyQueue
read_queue = record {
  lines = 0;
  head = 5;
  tail = 0;
  buf = λ i.
      if i == 0
      then 97
      else if i == 1
      then 98
      else if i == 2
      then 127
      else if i == 3
      then 99
      else 13;
}

abbrev line : Tty
line = record {
  termios = console;
  pgrp = 0;
  stopped = false;
  read_q = read_queue;
  write_q = empty_queue;
  secondary = empty_queue;
  tasks = [];
}

line-Shows : Shows console [] typed line
unfolding newest oldest chars ends
line-Shows = record {
  modes = refl;
  second = omega arith;
  read = omega arith;
  text_is = refl;
  came_is = refl;
  counted = refl;
}

edit-run : edit console [] typed ≡ (10 ∷ 99 ∷ 97 ∷ [], [])
unfolding edit translate
edit-run = refl

copy_to_cooked-Shows_example :
    Shows console (edit console [] typed).0 (edit console [] typed).1 (copy_to_cooked (λ q. q) line)
copy_to_cooked-Shows_example = copy_to_cooked-Shows (λ q. q) console [] typed line line-Shows

abbrev writer : Writer
writer = record { cr_flag = false; write_q = empty_queue; bytes = 97 ∷ 10 ∷ [] }

posted-run : posted console false (97 ∷ 10 ∷ []) ≡ 97 ∷ 13 ∷ 10 ∷ []
unfolding posted
posted-run = refl

fill-Filled_example : Filled console writer (fill tty_buf_size console writer.bytes writer)
fill-Filled_example = fill-Filled console writer (omega arith)

abbrev full_line : TtyQueue
full_line = record read_queue { lines = 0 }

full_line-lines : full_line.lines ≡ ends console (oldest full_line)
unfolding ends oldest chars
full_line-lines = refl

full_line-chars : 0 < chars full_line
unfolding chars
full_line-chars = omega arith
