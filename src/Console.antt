-- ===== src/Console.antt =====
-- kernel/chr_drv/console.c: the screen, and what moves and clears its parts.
pub mod Escapes
pub mod Cells
pub mod Bounds
pub mod Scrolling
pub mod Sequences
pub mod Written
mod Tests
use linux_0_11_learning.Base.{
  ℕ, zero, suc, ◌+◌, ◌-◌, ◌*◌, ◌/◌, ◌%◌, ◌^◌, Bool, true, false, ◌&&◌, ◌||◌, not, ltb, leb, ◌==◌,
  if◌then◌else◌,
}

-- What `con_init` finds out: the kind of display, its size, and where its memory is.
pub record Video : Type 0 where
  pub is_ega : Bool
  pub num_columns : ℕ
  pub size_row : ℕ
  pub num_lines : ℕ
  pub mem_start : ℕ
  pub mem_end : ℕ
  pub erase_char : ℕ

-- The states of `con_write`, 0 to 3; state 4 does not outlast a character.
pub data Mode : Type 0 where
  plain : Mode
  escaped : Mode
  opened : Mode
  numbers : Mode

-- The variables of the console, and the memory: the word at each address.
pub record Screen : Type 0 where
  pub origin : ℕ
  pub scr_end : ℕ
  pub pos : ℕ
  pub x : ℕ
  pub y : ℕ
  pub top : ℕ
  pub bottom : ℕ
  pub mode : Mode
  pub npar : ℕ
  pub par : ℕ → ℕ
  pub ques : Bool
  pub attr : ℕ
  pub saved_x : ℕ
  pub saved_y : ℕ
  pub mem : ℕ → ℕ
  pub responses : ℕ

abbrev pub update : (ℕ → ℕ) → ℕ → ℕ → ℕ → ℕ
update f i v j = if i == j then v else f j

-- `stosw` of `n` words, upwards or downwards.
unfoldable pub fill : (at n v : ℕ) → (ℕ → ℕ) → ℕ → ℕ
fill at zero v mem = mem
fill at (suc n) v mem = fill (at + 2) n v (update mem at v)

unfoldable pub fill_down : (at n v : ℕ) → (ℕ → ℕ) → ℕ → ℕ
fill_down at zero v mem = mem
fill_down at (suc n) v mem = fill_down (at - 2) n v (update mem at v)

-- `movsl` of `n` words, upwards or downwards.
unfoldable pub move : (from to n : ℕ) → (ℕ → ℕ) → ℕ → ℕ
move from to zero mem = mem
move from to (suc n) mem = move (from + 2) (to + 2) n (update mem to (mem from))

unfoldable pub move_down : (from to n : ℕ) → (ℕ → ℕ) → ℕ → ℕ
move_down from to zero mem = mem
move_down from to (suc n) mem = move_down (from - 2) (to - 2) n (update mem to (mem from))

-- `insert_char`: the words from `at` on make room for `old`.
unfoldable pub shift_right : (n at old : ℕ) → (ℕ → ℕ) → ℕ → ℕ
shift_right zero at old mem = mem
shift_right (suc n) at old mem = shift_right n (at + 2) (mem at) (update mem at old)

module _ (v : Video) where
  unfoldable pub gotoxy : (new_x new_y : ℕ) → Screen → Screen
  gotoxy new_x new_y s =
      if ltb v.num_columns new_x || leb v.num_lines new_y
      then s
      else record s { x = new_x; y = new_y; pos = s.origin + new_y * v.size_row + 2 * new_x }

  -- The words of the lines but one between `top` and `bottom`, in pairs.
  abbrev pub moved_words : (lines : ℕ) → ℕ
  moved_words lines = 2 * ((lines - 1) * v.num_columns / 2)

  -- The part of `scrup` that moves the lines between `top` and `bottom`.
  unfoldable pub scroll_part : Screen → Screen
  unfolding fill move
  scroll_part s =
      let n = moved_words (s.bottom - s.top) in
      let to = s.origin + v.size_row * s.top in
      record s {
        mem =
            fill (to + 2 * n) v.num_columns v.erase_char
              (move (s.origin + v.size_row * (s.top + 1)) to n s.mem);
      }

  -- The part that moves the origin: at the end of the memory the screen goes back to its start.
  unfoldable pub scroll_origin : Screen → Screen
  unfolding fill move
  scroll_origin s =
      let origin = s.origin + v.size_row in
      let end = s.scr_end + v.size_row in
      let n = moved_words v.num_lines in
      if ltb v.mem_end end
      then record s {
        mem =
            fill (v.mem_start + 2 * n) v.num_columns v.erase_char (move origin v.mem_start n s.mem);
        scr_end = end - (origin - v.mem_start);
        pos = s.pos + v.size_row - (origin - v.mem_start);
        origin = v.mem_start;
      }
      else record s {
        mem = fill (end - v.size_row) v.num_columns v.erase_char s.mem;
        origin = origin;
        pos = s.pos + v.size_row;
        scr_end = end;
      }

  unfoldable pub scrup : Screen → Screen
  unfolding scroll_part scroll_origin
  scrup s =
      if v.is_ega && (s.top == 0 && s.bottom == v.num_lines) then scroll_origin s else scroll_part s

  unfoldable pub scrdown : Screen → Screen
  unfolding fill_down move_down
  scrdown s =
      let n = moved_words (s.bottom - s.top) in
      let to = s.origin + v.size_row * s.bottom - 2 in
      record s {
        mem =
            fill_down (to - 2 * n) v.num_columns v.erase_char
              (move_down (s.origin + v.size_row * (s.bottom - 1) - 2) to n s.mem);
      }

  unfoldable pub lf : Screen → Screen
  unfolding scrup
  lf s =
      if ltb (s.y + 1) s.bottom then record s { y = s.y + 1; pos = s.pos + v.size_row } else scrup s

  unfoldable pub ri : Screen → Screen
  unfolding scrdown
  ri s = if ltb s.top s.y then record s { y = s.y - 1; pos = s.pos - v.size_row } else scrdown s

  unfoldable pub cr : Screen → Screen
  cr s = record s { pos = s.pos - 2 * s.x; x = 0 }

  unfoldable pub del : Screen → Screen
  del s =
      if s.x == 0
      then s
      else record s { pos = s.pos - 2; x = s.x - 1; mem = update s.mem (s.pos - 2) v.erase_char }

  -- `csi_J`, `csi_K`
  unfoldable pub csi_J : (par : ℕ) → Screen → Screen
  unfolding fill
  csi_J par s =
      if par == 0
      then record s { mem = fill s.pos ((s.scr_end - s.pos) / 2) v.erase_char s.mem }
      else if par == 1
      then record s { mem = fill s.origin ((s.pos - s.origin) / 2) v.erase_char s.mem }
      else if par == 2
      then record s { mem = fill s.origin (v.num_columns * v.num_lines) v.erase_char s.mem }
      else s

  unfoldable pub csi_K : (par : ℕ) → Screen → Screen
  unfolding fill
  csi_K par s =
      let start = s.pos - 2 * s.x in
      if par == 0
      then (if leb v.num_columns s.x
          then s
          else record s { mem = fill s.pos (v.num_columns - s.x) v.erase_char s.mem })
      else if par == 1
      then record s {
        mem = fill start (if ltb s.x v.num_columns then s.x else v.num_columns) v.erase_char s.mem;
      }
      else if par == 2
      then record s { mem = fill start v.num_columns v.erase_char s.mem }
      else s

  unfoldable pub insert_char : Screen → Screen
  unfolding shift_right
  insert_char s = record s { mem = shift_right (v.num_columns - s.x) s.pos v.erase_char s.mem }

  unfoldable pub delete_char : Screen → Screen
  unfolding fill move
  delete_char s =
      let n = v.num_columns - s.x - 1 in
      if leb v.num_columns s.x
      then s
      else record s { mem = update (move (s.pos + 2) s.pos n s.mem) (s.pos + 2 * n) v.erase_char }

  -- `insert_line` and `delete_line` scroll the lines from the cursor to the last.
  unfoldable pub insert_line : Screen → Screen
  unfolding scrdown
  insert_line s =
      let s' = scrdown (record s { top = s.y; bottom = v.num_lines }) in
      record s' { top = s.top; bottom = s.bottom }

  unfoldable pub delete_line : Screen → Screen
  unfolding scrup
  delete_line s =
      let s' = scrup (record s { top = s.y; bottom = v.num_lines }) in
      record s' { top = s.top; bottom = s.bottom }
