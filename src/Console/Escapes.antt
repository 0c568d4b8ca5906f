-- ===== src/Console/Escapes.antt =====
-- kernel/chr_drv/console.c: `con_write`, which follows the escape sequences of a terminal.
use linux_0_11_learning.Base.{
  ℕ, zero, suc, ◌+◌, ◌-◌, ◌*◌, ◌%◌, ◌^◌, ◌&&◌, ◌||◌, List, [], ◌∷◌, ltb, leb, ◌==◌, if◌then◌else◌,
}
use linux_0_11_learning.Console.{
  Video, Mode, plain, escaped, opened, numbers, Screen, update, gotoxy, lf, ri, cr, del, csi_J,
  csi_K, insert_char, delete_char, insert_line, delete_line,
}

-- `NPAR`
abbrev pub most_pars : ℕ
most_pars = 16

-- `csi_m` for one parameter, and for those from `i` on.
unfoldable pub attr_of : (par attr : ℕ) → ℕ
attr_of par attr =
    if par == 0 || par == 27
    then 0x07
    else if par == 1 || par == 4
    then 0x0f
    else if par == 7
    then 0x70
    else attr

unfoldable pub attr_all : (par : ℕ → ℕ) → (i n attr : ℕ) → ℕ
unfolding attr_of
attr_all par i zero attr = attr
attr_all par i (suc n) attr = attr_all par (i + 1) n (attr_of (par i) attr)

unfoldable pub csi_m : Screen → Screen
unfolding attr_all
csi_m s = record s { attr = attr_all s.par 0 (s.npar + 1) s.attr }

-- A step done `n` times.
unfoldable pub times : (n : ℕ) → (Screen → Screen) → Screen → Screen
times zero f s = s
times (suc n) f s = times n f (f s)

-- How often `csi_at`, `csi_L`, `csi_P` and `csi_M` do their step.
abbrev pub count_of : (nr most : ℕ) → ℕ
count_of nr most = if ltb most nr then most else if nr == 0 then 1 else nr

-- `if (!par[0]) par[0]++`, `if (par[0]) par[0]--`
abbrev at_least_1 : ℕ → ℕ
at_least_1 p = if p == 0 then 1 else p

-- Sums and differences of 32-bit words.
abbrev add32 : ℕ → ℕ → ℕ
add32 a b = (a + b) % 2 ^ 32

abbrev sub32 : ℕ → ℕ → ℕ
sub32 a b = (a + 2 ^ 32 - b) % 2 ^ 32

unfoldable pub save_cur : Screen → Screen
save_cur s = record s { saved_x = s.x; saved_y = s.y }

module _ (v : Video) where
  unfoldable pub restore_cur : Screen → Screen
  unfolding gotoxy
  restore_cur s = gotoxy v s.saved_x s.saved_y s

  -- `r`: the lines that scroll.
  unfoldable pub set_region : Screen → Screen
  set_region s =
      let first = s.par 0 - 1 in
      let end = if s.par 1 == 0 then v.num_lines else s.par 1 in
      if ltb first end && leb end v.num_lines then record s { top = first; bottom = end } else s

  -- State 4: the last character of a sequence. The parameters it counts up or down are not kept: the
  -- next sequence clears them before it reads one.
  unfoldable pub finish : (c : ℕ) → Screen → Screen
  unfolding gotoxy csi_m save_cur restore_cur set_region
  finish c s =
      let n = at_least_1 (s.par 0) in
      if c == b'G' || c == 0x60
      then gotoxy v (s.par 0 - 1) s.y s
      else if c == b'A'
      then gotoxy v s.x (sub32 s.y n) s
      else if c == b'B' || c == b'e'
      then gotoxy v s.x (add32 s.y n) s
      else if c == b'C' || c == b'a'
      then gotoxy v (add32 s.x n) s.y s
      else if c == b'D'
      then gotoxy v (sub32 s.x n) s.y s
      else if c == b'E'
      then gotoxy v 0 (add32 s.y n) s
      else if c == b'F'
      then gotoxy v 0 (sub32 s.y n) s
      else if c == b'd'
      then gotoxy v s.x (s.par 0 - 1) s
      else if c == b'H' || c == b'f'
      then gotoxy v (s.par 1 - 1) (s.par 0 - 1) s
      else if c == b'J'
      then csi_J v (s.par 0) s
      else if c == b'K'
      then csi_K v (s.par 0) s
      else if c == b'L'
      then times (count_of (s.par 0) v.num_lines) (insert_line v) s
      else if c == b'M'
      then times (count_of (s.par 0) v.num_lines) (delete_line v) s
      else if c == b'P'
      then times (count_of (s.par 0) v.num_columns) (delete_char v) s
      else if c == b'@'
      then times (count_of (s.par 0) v.num_columns) (insert_char v) s
      else if c == b'm'
      then csi_m s
      else if c == b'r'
      then set_region s
      else if c == b's'
      then save_cur s
      else if c == b'u'
      then restore_cur s
      else s

  -- State 3: a digit, a semicolon, or the last character.
  unfoldable pub take_number : (c : ℕ) → Screen → Screen
  take_number c s =
      if c == b';' && ltb s.npar (most_pars - 1)
      then record s { npar = s.npar + 1 }
      else if leb b'0' c && leb c b'9'
      then record s { par = update s.par s.npar ((10 * s.par s.npar + c - b'0') % 2 ^ 32) }
      else finish c (record s { mode = plain })

  -- State 2: the parameters are cleared; a question mark is passed over.
  unfoldable pub open_sequence : (c : ℕ) → Screen → Screen
  unfolding take_number
  open_sequence c s =
      let s' = record s { par = λ i. 0; npar = 0; mode = numbers; ques = c == b'?' } in
      if c == b'?' then s' else take_number c s'

  -- State 1. The code tests `x`, and not `c`, for the cursor to be saved and restored.
  unfoldable pub escape : (c : ℕ) → Screen → Screen
  unfolding gotoxy lf ri save_cur restore_cur
  escape c s0 =
      let s = record s0 { mode = plain } in
      if c == b'['
      then record s { mode = opened }
      else if c == b'E'
      then gotoxy v 0 (add32 s.y 1) s
      else if c == b'M'
      then ri v s
      else if c == b'D'
      then lf v s
      else if c == b'Z'
      then record s { responses = s.responses + 1 }
      else if s.x == b'7'
      then save_cur s
      else if s.x == b'8'
      then restore_cur s
      else s

  -- A cursor behind the last column goes to the next line.
  unfoldable pub wrap : Screen → Screen
  unfolding lf
  wrap s = lf v (record s { x = s.x - v.num_columns; pos = s.pos - v.size_row })

  unfoldable pub print_char : (c : ℕ) → Screen → Screen
  print_char c s0 =
      let s = if leb v.num_columns s0.x then wrap s0 else s0 in
      record s { mem = update s.mem s.pos (256 * s.attr + c); pos = s.pos + 2; x = s.x + 1 }

  unfoldable pub tab : Screen → Screen
  tab s0 =
      let n = 8 - s0.x % 8 in
      let s = record s0 { x = s0.x + n; pos = s0.pos + 2 * n } in
      if ltb v.num_columns s.x then wrap s else s

  -- State 0. `erase` is the erase character of the line. A character from 128 on is negative.
  unfoldable pub plain_char : (erase c : ℕ) → Screen → Screen
  unfolding lf cr del
  plain_char erase c s =
      if ltb 31 c && ltb c 127
      then print_char c s
      else if c == 27
      then record s { mode = escaped }
      else if c == 10 || (c == 11 || c == 12)
      then lf v s
      else if c == 13
      then cr v s
      else if ltb c 128 && c == erase
      then del v s
      else if c == 8
      then (if s.x == 0 then s else record s { x = s.x - 1; pos = s.pos - 2 })
      else if c == 9
      then tab s
      else s

  abbrev pub in_mode : Mode → (erase c : ℕ) → Screen → Screen
  in_mode plain erase c s = plain_char erase c s
  in_mode escaped erase c s = escape c s
  in_mode opened erase c s = open_sequence c s
  in_mode numbers erase c s = take_number c s

  -- `con_write`, of the characters of the queue. The cursor is then shown.
  unfoldable pub con_write : (erase : ℕ) → (text : List ℕ) → Screen → Screen
  con_write erase [] s = s
  con_write erase (c ∷ cs) s = con_write erase cs (in_mode s.mode erase c s)
