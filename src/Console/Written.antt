-- ===== src/Console/Written.antt =====
-- kernel/chr_drv/console.c: whatever is written to the console, it writes to its own memory only.
use linux_0_11_learning.Base.{
  ℕ, ◌+◌, ◌-◌, ◌*◌, ◌%◌, ◌≤◌, ◌<◌, ◌≡◌, refl, inl, inr, ◌&&◌, ◌||◌, ltb, leb, ◌==◌, if◌then◌else◌,
  arith, Bool-cases, List, [], ◌∷◌,
}
use linux_0_11_learning.Console.{Video, Mode, plain, escaped, opened, numbers, Screen, update}
use linux_0_11_learning.Console.Cells.{update-Keeps, rows_le}
use linux_0_11_learning.Console.Bounds.{
  IsVideo, IsScreen, Good, Good-trans, Good-same, cr-Good, del-Good,
}
use linux_0_11_learning.Console.Scrolling.{lf-Good, lf-x}
use linux_0_11_learning.Console.Escapes.{wrap, print_char, tab, plain_char, in_mode, con_write}
use linux_0_11_learning.Console.Sequences.{
  if-Good, mode-Good, take_number-Good, open_sequence-Good, escape-Good,
}

module _ (v : Video) (ok : IsVideo v) where
  -- A cursor that a tab or the last character has taken behind the line.
  over-IsScreen :
      (s : Screen) (x pos : ℕ)
      → IsScreen v s
      → v.num_columns ≤ x
      → x ≤ v.num_columns + 8
      → pos ≡ s.origin + s.y * v.size_row + 2 * x
      → Good v s (record s { x = x - v.num_columns; pos = pos - v.size_row })
  over-IsScreen s x pos g le near at = record {
    screen = record {
      column = let w = ok.wide in omega arith;
      line = g.line;
      at = let w = ok.row in omega arith;
      region = g.region;
      last = g.last;
      start = g.start;
      end = g.end;
      inside = g.inside;
    };
    memory = λ q out. refl;
  }

  -- The cursor goes on to the next line, from its place behind the line.
  wrap-Good :
      (s : Screen) (x pos : ℕ)
      → IsScreen v s
      → v.num_columns ≤ x
      → x ≤ v.num_columns + 8
      → pos ≡ s.origin + s.y * v.size_row + 2 * x
      → Good v s (wrap v (record s { x = x; pos = pos }))
  unfolding wrap
  wrap-Good s x pos g le near at =
      let h = over-IsScreen s x pos g le near at in Good-trans h (lf-Good v ok _ h.screen)

  wrap-x : (s : Screen) → (wrap v s).x ≡ s.x - v.num_columns
  unfolding wrap
  wrap-x s = lf-x v _

  put-Good :
      (word : ℕ) (s : Screen)
      → IsScreen v s
      → s.x < v.num_columns
      → Good v s (record s { mem = update s.mem s.pos word; pos = s.pos + 2; x = s.x + 1 })
  put-Good word s g lt = record {
    screen = record {
      column = omega arith;
      line = g.line;
      at = let a = g.at in omega arith;
      region = g.region;
      last = g.last;
      start = g.start;
      end = g.end;
      inside = g.inside;
    };
    memory =
        let f = rows_le s.y v.num_lines v.size_row g.line in
        let w = ok.row in
        update-Keeps v.mem_start v.mem_end s.mem s.pos word (omega arith) (omega arith);
  }

  print_char-Good : (c : ℕ) (s : Screen) → IsScreen v s → Good v s (print_char v c s)
  unfolding print_char
  print_char-Good c s g = elim (Bool-cases (leb v.num_columns s.x)) [
    | inl over ↦
        let le : v.num_columns ≤ s.x = ground arith in
        let h = wrap-Good s s.x s.pos g le (let r = g.column in omega arith) g.at in
        rw over (
          Good-trans h (
            put-Good _ _ h.screen
              (let k = wrap-x s in let w = ok.wide in let r = g.column in omega arith)))
    | inr room ↦ rw room (put-Good _ s g (ground arith))
  ]

  tab-Good : (s : Screen) → IsScreen v s → Good v s (tab v s)
  unfolding tab
  tab-Good s g =
      let n = 8 - s.x % 8 in
      elim (Bool-cases (ltb v.num_columns (s.x + n))) [
        | inl over ↦
            let lt : v.num_columns < s.x + n = ground arith in
            rw over
              (wrap-Good s (s.x + n) (s.pos + 2 * n) g (omega arith) (omega arith) (omega arith))
        | inr room ↦
            let le : s.x + n ≤ v.num_columns = ground arith in
            rw room (record {
              screen = record {
                column = le;
                line = g.line;
                at = let a = g.at in omega arith;
                region = g.region;
                last = g.last;
                start = g.start;
                end = g.end;
                inside = g.inside;
              };
              memory = λ q out. refl;
            })
      ]

  back-Good :
      (s : Screen)
      → IsScreen v s
      → Good v s (if s.x == 0 then s else record s { x = s.x - 1; pos = s.pos - 2 })
  back-Good s g = elim (Bool-cases (s.x == 0)) [
    | inl first ↦ rw first (Good-same v ok s g)
    | inr some_ ↦
        let lt : 0 < s.x = ground arith in
        rw some_ (record {
          screen = record {
            column = omega arith;
            line = g.line;
            at = omega arith;
            region = g.region;
            last = g.last;
            start = g.start;
            end = g.end;
            inside = g.inside;
          };
          memory = λ q out. refl;
        })
  ]

  plain_char-Good : (erase c : ℕ) (s : Screen) → IsScreen v s → Good v s (plain_char v erase c s)
  unfolding plain_char
  plain_char-Good erase c s g = if-Good (ltb 31 c && ltb c 127) (print_char-Good c s g) (
      if-Good (c == 27) (mode-Good v ok escaped s g) (
        if-Good (c == 10 || (c == 11 || c == 12)) (lf-Good v ok s g) (
          if-Good (c == 13) (cr-Good v ok s g) (
            if-Good (ltb c 128 && c == erase) (del-Good v ok s g) (
              if-Good (c == 8) (back-Good s g)
                (if-Good (c == 9) (tab-Good s g) (Good-same v ok s g)))))))

  in_mode-Good :
      (mode : Mode) (erase c : ℕ) (s : Screen) → IsScreen v s → Good v s (in_mode v mode erase c s)
  in_mode-Good plain erase c s g = plain_char-Good erase c s g
  in_mode-Good escaped erase c s g = escape-Good v ok c s g
  in_mode-Good opened erase c s g = open_sequence-Good v ok c s g
  in_mode-Good numbers erase c s g = take_number-Good v ok c s g

-- On a display of 8 columns or more whose memory holds a screen, with the screen in order, whatever
-- text is written leaves the screen in order, with the cursor on one of its lines and `pos` its
-- address, and no word outside of the memory of the display is changed.
pub con_write-Good :
    (v : Video)
    → IsVideo v
    → (erase : ℕ) (text : List ℕ) (s : Screen) → IsScreen v s
    → Good v s (con_write v erase text s)
unfolding con_write
con_write-Good v ok erase [] s g = Good-same v ok s g
con_write-Good v ok erase (c ∷ cs) s g =
    let h = in_mode-Good v ok s.mode erase c s g in
    Good-trans h (con_write-Good v ok erase cs (in_mode v s.mode erase c s) h.screen)
