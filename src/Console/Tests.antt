-- ===== src/Console/Tests.antt =====
-- The console on a colour display of 80 columns and 25 lines.
use linux_0_11_learning.Base.{ℕ, ◌≡◌, refl, true, false, List, [], ◌∷◌, arith}
use linux_0_11_learning.Console.{Video, plain, Screen}
use linux_0_11_learning.Console.Bounds.{IsVideo, IsScreen, Good}
use linux_0_11_learning.Console.Written.{con_write-Good}
use linux_0_11_learning.Console.Escapes.{
  con_write, plain_char, print_char, wrap, escape, open_sequence, finish,
}

abbrev ega : Video
ega = record {
  is_ega = true;
  num_columns = 80;
  size_row = 160;
  num_lines = 25;
  mem_start = 0xb8000;
  mem_end = 0xbc000;
  erase_char = 0x0720;
}

-- The cursor at the end of the last line.
abbrev bottom_right : Screen
bottom_right = record {
  origin = 0xb8000;
  scr_end = 0xb8fa0;
  pos = 0xb8fa0;
  x = 80;
  y = 24;
  top = 0;
  bottom = 25;
  mode = plain;
  npar = 0;
  par = λ i. 0;
  ques = false;
  attr = 7;
  saved_x = 0;
  saved_y = 0;
  mem = λ q. 0;
  responses = 0;
}

ega-IsVideo : IsVideo ega
ega-IsVideo = record {
  wide = omega arith;
  row = refl;
  some_lines = omega arith;
  fits = omega arith;
}

bottom_right-IsScreen : IsScreen ega bottom_right
bottom_right-IsScreen = record {
  column = omega arith;
  line = omega arith;
  at = refl;
  region = omega arith;
  last = omega arith;
  start = omega arith;
  end = refl;
  inside = omega arith;
}

-- `A`, then a sequence that goes to line 3 and column 5, and a `B`.
abbrev text : List ℕ
text = b'A' ∷ 27 ∷ b'[' ∷ b'3' ∷ b';' ∷ b'5' ∷ b'H' ∷ b'B' ∷ []

text_row : (con_write ega 127 text bottom_right).y ≡ 2
unfolding con_write plain_char print_char wrap escape open_sequence finish
text_row = refl

text_column : (con_write ega 127 text bottom_right).x ≡ 5
unfolding con_write plain_char print_char wrap escape open_sequence finish
text_column = refl

-- The screen has scrolled by a line of the memory.
text_origin : (con_write ega 127 text bottom_right).origin ≡ 0xb80a0
unfolding con_write plain_char print_char wrap escape open_sequence finish
text_origin = refl

con_write-Good_example : Good ega bottom_right (con_write ega 127 text bottom_right)
con_write-Good_example = con_write-Good ega ega-IsVideo 127 text bottom_right bottom_right-IsScreen
