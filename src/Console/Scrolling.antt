-- ===== src/Console/Scrolling.antt =====
-- The screen stays in order, and nothing but the memory of the display is written, when lines scroll.
use linux_0_11_learning.Base.{
  ℕ, ◌+◌, ◌-◌, ◌*◌, ◌≤◌, ◌<◌, ◌≡◌, refl, inl, inr, ◌&&◌, ltb, ◌==◌, arith, Bool-cases,
}
use linux_0_11_learning.Console.{
  Video, Screen, moved_words, scroll_part, scroll_origin, scrup, scrdown, lf, ri, insert_line,
  delete_line,
}
use linux_0_11_learning.Console.Cells.{
  Keeps-trans, fill-Keeps, fill_down-Keeps, move-Keeps, move_down-Keeps, row_suc, row_pred,
  rows_double, rows_mono, rows_comm, rows_between,
}
use linux_0_11_learning.Console.Bounds.{IsVideo, IsScreen, Good, Good-mem}

module _ (v : Video) (ok : IsVideo v) (s : Screen) (g : IsScreen v s) where
  scroll_part-Good : Good v s (scroll_part v s)
  unfolding scroll_part
  scroll_part-Good =
      let n = moved_words v (s.bottom - s.top) in
      let to = s.origin + v.size_row * s.top in
      let a = rows_comm s.top v.size_row in
      let b = rows_between s.top s.bottom v.size_row g.region in
      let c = rows_mono s.bottom v.num_lines v.size_row g.last in
      let d = rows_double (s.bottom - s.top - 1) v.num_columns v.size_row ok.row in
      let w = ok.row in
      Good-mem v ok s g _ (
        Keeps-trans v.mem_start v.mem_end
          (move-Keeps v.mem_start v.mem_end n _ to s.mem (omega arith) (omega arith))
          (fill-Keeps v.mem_start v.mem_end v.num_columns (to + 2 * n) v.erase_char _ (omega arith)
            (omega arith)))

  scrdown-Good : Good v s (scrdown v s)
  unfolding scrdown
  scrdown-Good =
      let n = moved_words v (s.bottom - s.top) in
      let to = s.origin + v.size_row * s.bottom - 2 in
      let a = rows_comm s.bottom v.size_row in
      let b = rows_between s.top s.bottom v.size_row g.region in
      let c = rows_mono s.bottom v.num_lines v.size_row g.last in
      let d = rows_double (s.bottom - s.top - 1) v.num_columns v.size_row ok.row in
      let w = ok.row in
      Good-mem v ok s g _ (
        Keeps-trans v.mem_start v.mem_end
          (move_down-Keeps v.mem_start v.mem_end n _ to s.mem (omega arith) (omega arith))
          (fill_down-Keeps v.mem_start v.mem_end v.num_columns (to - 2 * n) v.erase_char _
            (omega arith) (omega arith)))

  scroll_origin-Good : Good v s (scroll_origin v s)
  unfolding scroll_origin
  scroll_origin-Good = elim (Bool-cases (ltb v.mem_end (s.scr_end + v.size_row))) [
    | inl over ↦ rw over (record {
      screen = record {
        column = g.column;
        line = g.line;
        at = omega arith;
        region = g.region;
        last = g.last;
        start = omega arith;
        end = omega arith;
        inside = omega arith;
      };
      memory =
          let n = moved_words v v.num_lines in
          let d = rows_double (v.num_lines - 1) v.num_columns v.size_row ok.row in
          let b = row_pred v.num_lines v.size_row ok.some_lines in
          let f = ok.fits in
          let w = ok.row in
          Keeps-trans v.mem_start v.mem_end
            (move-Keeps v.mem_start v.mem_end n _ v.mem_start s.mem (omega arith) (omega arith))
            (fill-Keeps v.mem_start v.mem_end v.num_columns (v.mem_start + 2 * n) v.erase_char _
              (omega arith) (omega arith));
    })
    | inr room ↦ rw room (record {
      screen = record {
        column = g.column;
        line = g.line;
        at = omega arith;
        region = g.region;
        last = g.last;
        start = omega arith;
        end = omega arith;
        inside = ground arith;
      };
      memory =
          let w = ok.row in
          fill-Keeps v.mem_start v.mem_end v.num_columns (s.scr_end + v.size_row - v.size_row)
            v.erase_char s.mem (omega arith) (ground arith);
    })
  ]

  pub scrup-Good : Good v s (scrup v s)
  unfolding scrup
  scrup-Good = elim (Bool-cases (v.is_ega && (s.top == 0 && s.bottom == v.num_lines))) [
    | inl whole ↦ rw whole scroll_origin-Good
    | inr part ↦ rw part scroll_part-Good
  ]

  pub lf-Good : Good v s (lf v s)
  unfolding lf
  lf-Good = elim (Bool-cases (ltb (s.y + 1) s.bottom)) [
    | inl more ↦
        let lt : s.y + 1 < s.bottom = ground arith in
        let r = row_suc s.y v.size_row in
        rw more (record {
          screen = record {
            column = g.column;
            line = omega arith;
            at = omega arith;
            region = g.region;
            last = g.last;
            start = g.start;
            end = g.end;
            inside = g.inside;
          };
          memory = λ q out. refl;
        })
    | inr last_ ↦ rw last_ scrup-Good
  ]

  pub ri-Good : Good v s (ri v s)
  unfolding ri
  ri-Good = elim (Bool-cases (ltb s.top s.y)) [
    | inl more ↦
        let lt : s.top < s.y = ground arith in
        let r = row_pred s.y v.size_row (omega arith) in
        rw more (record {
          screen = record {
            column = g.column;
            line = omega arith;
            at = omega arith;
            region = g.region;
            last = g.last;
            start = g.start;
            end = g.end;
            inside = g.inside;
          };
          memory = λ q out. refl;
        })
    | inr first ↦ rw first scrdown-Good
  ]

-- The lines that scroll may be chosen anew.
region-IsScreen :
    (v : Video) (s : Screen)
    → IsScreen v s
    → (top bottom : ℕ) → top < bottom
    → bottom ≤ v.num_lines
    → IsScreen v (record s { top = top; bottom = bottom })
region-IsScreen v s g top bottom lt le = record {
  column = g.column;
  line = g.line;
  at = g.at;
  region = lt;
  last = le;
  start = g.start;
  end = g.end;
  inside = g.inside;
}

pub region-Good :
    (v : Video) (s : Screen)
    → IsScreen v s
    → (top bottom : ℕ) → top < bottom
    → bottom ≤ v.num_lines
    → Good v s (record s { top = top; bottom = bottom })
region-Good v s g top bottom lt le = record {
  screen = region-IsScreen v s g top bottom lt le;
  memory = λ q out. refl;
}

-- A step with the lines from the cursor on, after which the old ones scroll again.
from_cursor-Good :
    (v : Video) (f : Screen → Screen)
    → ((s : Screen) → IsScreen v s → Good v s (f s))
    → (s : Screen) → IsScreen v s
    → Good v s (
        let s' = f (record s { top = s.y; bottom = v.num_lines }) in
        record s' { top = s.top; bottom = s.bottom })
from_cursor-Good v f good s g =
    let h =
      good (record s { top = s.y; bottom = v.num_lines })
        (region-IsScreen v s g s.y v.num_lines g.line (omega arith)) in
    record {
      screen = region-IsScreen v _ h.screen s.top s.bottom g.region g.last;
      memory = h.memory;
    }

pub insert_line-Good :
    (v : Video) → IsVideo v → (s : Screen) → IsScreen v s → Good v s (insert_line v s)
unfolding insert_line
insert_line-Good v ok s g = from_cursor-Good v (scrdown v) (scrdown-Good v ok) s g

pub delete_line-Good :
    (v : Video) → IsVideo v → (s : Screen) → IsScreen v s → Good v s (delete_line v s)
unfolding delete_line
delete_line-Good v ok s g = from_cursor-Good v (scrup v) (scrup-Good v ok) s g

-- A line feed and a scroll leave the column as it is.
scrup-x : (v : Video) (s : Screen) → (scrup v s).x ≡ s.x
unfolding scrup scroll_origin scroll_part
scrup-x v s = ground arith

pub lf-x : (v : Video) (s : Screen) → (lf v s).x ≡ s.x
unfolding lf
lf-x v s = elim (Bool-cases (ltb (s.y + 1) s.bottom)) [
  | inl more ↦ rw more refl
  | inr last_ ↦ rw last_ (scrup-x v s)
]
