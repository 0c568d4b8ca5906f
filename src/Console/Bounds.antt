-- ===== src/Console/Bounds.antt =====
-- The cursor stays on the screen and the screen in the memory of the display, and nothing else is
-- written, whatever moves and clears parts of the screen.
use linux_0_11_learning.Base.{
  ℕ, ◌+◌, ◌-◌, ◌*◌, ◌/◌, ◌≤◌, ◌<◌, ◌≡◌, refl, inl, inr, ◌||◌, ltb, leb, ◌==◌, if◌then◌else◌, arith,
  Bool-cases,
}
use linux_0_11_learning.Console.{
  Video, Screen, gotoxy, cr, del, csi_J, csi_K, insert_char, delete_char,
}
use linux_0_11_learning.Console.Cells.{
  Keeps, update-Keeps, Keeps-trans, fill-Keeps, move-Keeps, shift_right-Keeps, rows_le, rows_double,
  rows_comm,
}

-- A display of 8 columns or more whose memory holds a screen.
pub record IsVideo (v : Video) : Type 0 where
  pub wide : 8 ≤ v.num_columns
  pub row : v.size_row ≡ 2 * v.num_columns
  pub some_lines : 0 < v.num_lines
  pub fits : v.mem_start + v.num_lines * v.size_row ≤ v.mem_end

-- The cursor is on a line, or just behind its end, and `pos` is its address; the lines that scroll are
-- lines of the screen, and the screen is in the memory of the display.
pub record IsScreen (v : Video) (s : Screen) : Type 0 where
  pub column : s.x ≤ v.num_columns
  pub line : s.y < v.num_lines
  pub at : s.pos ≡ s.origin + s.y * v.size_row + 2 * s.x
  pub region : s.top < s.bottom
  pub last : s.bottom ≤ v.num_lines
  pub start : v.mem_start ≤ s.origin
  pub end : s.scr_end ≡ s.origin + v.num_lines * v.size_row
  pub inside : s.scr_end ≤ v.mem_end

-- The screen is in order afterwards, and only the memory of the display was written.
pub record Good (v : Video) (s s' : Screen) : Type 0 where
  pub screen : IsScreen v s'
  pub memory : Keeps v.mem_start v.mem_end s.mem s'.mem

pub Good-trans : {v : Video} {s1 s2 s3 : Screen} → Good v s1 s2 → Good v s2 s3 → Good v s1 s3
Good-trans {v} g h = record {
  screen = h.screen;
  memory = Keeps-trans v.mem_start v.mem_end g.memory h.memory;
}

module _ (v : Video) (ok : IsVideo v) (s : Screen) (g : IsScreen v s) where
  -- A step that moves no more than the cursor within the screen, and writes nothing.
  pub Good-same : Good v s s
  Good-same = record { screen = g; memory = λ q out. refl }

  pub gotoxy-Good : (new_x new_y : ℕ) → Good v s (gotoxy v new_x new_y s)
  unfolding gotoxy
  gotoxy-Good new_x new_y = elim (Bool-cases (ltb v.num_columns new_x || leb v.num_lines new_y)) [
    | inl out ↦ rw out Good-same
    | inr on ↦ rw on (record {
      screen = record {
        column = ground arith;
        line = ground arith;
        at = refl;
        region = g.region;
        last = g.last;
        start = g.start;
        end = g.end;
        inside = g.inside;
      };
      memory = λ q out. refl;
    })
  ]

  -- A screen that differs in its words only.
  pub Good-mem :
      (mem : ℕ → ℕ) → Keeps v.mem_start v.mem_end s.mem mem → Good v s (record s { mem = mem })
  Good-mem mem keeps = record {
    screen = record {
      column = g.column;
      line = g.line;
      at = g.at;
      region = g.region;
      last = g.last;
      start = g.start;
      end = g.end;
      inside = g.inside;
    };
    memory = keeps;
  }

  pub cr-Good : Good v s (cr v s)
  unfolding cr
  cr-Good = record {
    screen = record {
      column = omega arith;
      line = g.line;
      at = let p = g.at in omega arith;
      region = g.region;
      last = g.last;
      start = g.start;
      end = g.end;
      inside = g.inside;
    };
    memory = λ q out. refl;
  }

  row_fits : s.y * v.size_row + v.size_row ≤ v.num_lines * v.size_row
  row_fits = rows_le s.y v.num_lines v.size_row g.line

  pub csi_J-Good : (par : ℕ) → Good v s (csi_J v par s)
  unfolding csi_J
  csi_J-Good par =
      let f = row_fits in
      let lo = v.mem_start in
      let hi = v.mem_end in
      let e = v.erase_char in
      elim (Bool-cases (par == 0)) [
        | inl zero_ ↦ rw zero_ (
            Good-mem _ (
              fill-Keeps lo hi ((s.scr_end - s.pos) / 2) s.pos e s.mem (omega arith) (omega arith)))
        | inr other ↦ elim (Bool-cases (par == 1)) [
          | inl one ↦
              rw (other, one)
                (Good-mem _ (
                  fill-Keeps lo hi ((s.pos - s.origin) / 2) s.origin e s.mem (omega arith)
                    (omega arith)))
          | inr other' ↦ elim (Bool-cases (par == 2)) [
            | inl two ↦
                rw (other, other', two)
                  (Good-mem _ (
                    fill-Keeps lo hi (v.num_columns * v.num_lines) s.origin e s.mem (omega arith) (
                      let d = rows_double v.num_lines v.num_columns v.size_row ok.row in
                      let c = rows_comm v.num_lines v.num_columns in omega arith)))
            | inr none_ ↦ rw (other, other', none_) Good-same
          ]
        ]
      ]

  pub csi_K-Good : (par : ℕ) → Good v s (csi_K v par s)
  unfolding csi_K
  csi_K-Good par =
      let f = row_fits in
      let lo = v.mem_start in
      let hi = v.mem_end in
      let e = v.erase_char in
      let w = ok.row in
      elim (Bool-cases (par == 0)) [
        | inl zero_ ↦ elim (Bool-cases (leb v.num_columns s.x)) [
          | inl out ↦ rw (zero_, out) Good-same
          | inr on ↦
              rw (zero_, on)
                (Good-mem _ (
                  fill-Keeps lo hi (v.num_columns - s.x) s.pos e s.mem (omega arith) (omega arith)))
        ]
        | inr other ↦ elim (Bool-cases (par == 1)) [
          | inl one ↦
              rw (other, one)
                (Good-mem _ (
                  fill-Keeps lo hi (if ltb s.x v.num_columns then s.x else v.num_columns)
                    (s.pos - 2 * s.x) e s.mem (omega arith) (ground arith)))
          | inr other' ↦ elim (Bool-cases (par == 2)) [
            | inl two ↦
                rw (other, other', two)
                  (Good-mem _ (
                    fill-Keeps lo hi v.num_columns (s.pos - 2 * s.x) e s.mem (omega arith)
                      (omega arith)))
            | inr none_ ↦ rw (other, other', none_) Good-same
          ]
        ]
      ]

  pub insert_char-Good : Good v s (insert_char v s)
  unfolding insert_char
  insert_char-Good = Good-mem _ (
      shift_right-Keeps v.mem_start v.mem_end (v.num_columns - s.x) s.pos v.erase_char s.mem
        (omega arith) (let f = row_fits in omega arith))

  pub delete_char-Good : Good v s (delete_char v s)
  unfolding delete_char
  delete_char-Good = elim (Bool-cases (leb v.num_columns s.x)) [
    | inl out ↦ rw out Good-same
    | inr on ↦
        let lt : s.x < v.num_columns = ground arith in
        let n = v.num_columns - s.x - 1 in
        let f = row_fits in
        rw on (
          Good-mem _ (
            Keeps-trans v.mem_start v.mem_end
              (move-Keeps v.mem_start v.mem_end n (s.pos + 2) s.pos s.mem (omega arith)
                (omega arith))
              (update-Keeps v.mem_start v.mem_end _ (s.pos + 2 * n) v.erase_char (omega arith)
                (omega arith))))
  ]

  pub del-Good : Good v s (del v s)
  unfolding del
  del-Good = elim (Bool-cases (s.x == 0)) [
    | inl first ↦ rw first Good-same
    | inr some_ ↦
        let f = row_fits in
        let pos_ : 0 < s.x = ground arith in
        rw some_ (record {
          screen = record {
            column = omega arith;
            line = g.line;
            at = omega arith;
            region = g.region;
            last = g.last;
            start = g.start;
            end = g.end;
            inside = g.inside;
          };
          memory =
              update-Keeps v.mem_start v.mem_end s.mem (s.pos - 2) v.erase_char (omega arith)
                (let w = ok.row in omega arith);
        })
  ]
