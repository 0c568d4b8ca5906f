-- ===== src/Console/Sequences.antt =====
-- The screen stays in order through the escape sequences.
use linux_0_11_learning.Base.{
  ℕ, zero, suc, ◌+◌, ◌-◌, ◌*◌, ◌%◌, ◌^◌, refl, inl, inr, Bool, true, false, ◌&&◌, ◌||◌, ltb, leb,
  ◌==◌, if◌then◌else◌, arith, Bool-cases,
}
use linux_0_11_learning.Console.{
  Video, Mode, plain, opened, numbers, Screen, update, insert_char, delete_char, insert_line,
  delete_line,
}
use linux_0_11_learning.Console.Bounds.{
  IsVideo, IsScreen, Good, Good-trans, Good-same, gotoxy-Good, csi_J-Good, csi_K-Good,
  insert_char-Good, delete_char-Good,
}
use linux_0_11_learning.Console.Scrolling.{
  lf-Good, ri-Good, insert_line-Good, delete_line-Good, region-Good,
}
use linux_0_11_learning.Console.Escapes.{
  times, attr_all, count_of, csi_m, save_cur, restore_cur, set_region, finish, take_number,
  open_sequence, escape,
}

-- Whether the steps of a Boolean choice are both in order.
pub if-Good :
    {v : Video} {s a b : Screen}
    → (t : Bool) → Good v s a
    → Good v s b
    → Good v s (if t then a else b)
if-Good true g h = g
if-Good false g h = h

module _ (v : Video) (ok : IsVideo v) where
  times-Good :
      (n : ℕ) (f : Screen → Screen)
      → ((s : Screen) → IsScreen v s → Good v s (f s))
      → (s : Screen) → IsScreen v s
      → Good v s (times n f s)
  unfolding times
  times-Good zero f good s g = Good-same v ok s g
  times-Good (suc n) f good s g =
      let h = good s g in Good-trans h (times-Good n f good (f s) h.screen)

  set_region-Good : (s : Screen) → IsScreen v s → Good v s (set_region v s)
  unfolding set_region
  set_region-Good s g =
      let first = s.par 0 - 1 in
      let end = if s.par 1 == 0 then v.num_lines else s.par 1 in
      elim (Bool-cases (ltb first end && leb end v.num_lines)) [
        | inl fits ↦ rw fits (region-Good v s g first end (ground arith) (ground arith))
        | inr out ↦ rw out (Good-same v ok s g)
      ]

  -- A step that leaves the places and the memory of the screen as they are.
  other-Good :
      (mode : Mode) (npar : ℕ) (par : ℕ → ℕ) (ques : Bool) (attr saved_x saved_y responses : ℕ)
      (s : Screen)
      → IsScreen v s
      → Good v s (record s {
        mode = mode;
        npar = npar;
        par = par;
        ques = ques;
        attr = attr;
        saved_x = saved_x;
        saved_y = saved_y;
        responses = responses;
      })
  other-Good mode npar par ques attr saved_x saved_y responses s g = record {
    screen = record {
      column = g.column;
      line = g.line;
      at = g.at;
      region = g.region;
      last = g.last;
      start = g.start;
      end = g.end;
      inside = g.inside;
    };
    memory = λ q out. refl;
  }

  pub mode-Good : (mode : Mode) (s : Screen) → IsScreen v s → Good v s (record s { mode = mode })
  mode-Good mode s g =
      other-Good mode s.npar s.par s.ques s.attr s.saved_x s.saved_y s.responses s g

  restore_cur-Good : (s : Screen) → IsScreen v s → Good v s (restore_cur v s)
  unfolding restore_cur
  restore_cur-Good s g = gotoxy-Good v ok s g s.saved_x s.saved_y

  csi_m-Good : (s : Screen) → IsScreen v s → Good v s (csi_m s)
  unfolding csi_m
  csi_m-Good s g =
      other-Good s.mode s.npar s.par s.ques (attr_all s.par 0 (s.npar + 1) s.attr) s.saved_x
        s.saved_y s.responses s g

  save_cur-Good : (s : Screen) → IsScreen v s → Good v s (save_cur s)
  unfolding save_cur
  save_cur-Good s g = other-Good s.mode s.npar s.par s.ques s.attr s.x s.y s.responses s g

  finish-Good : (c : ℕ) (s : Screen) → IsScreen v s → Good v s (finish v c s)
  unfolding finish
  finish-Good c s g =
      let n = if s.par 0 == 0 then 1 else s.par 0 in
      if-Good (c == b'G' || c == 0x60) (gotoxy-Good v ok s g (s.par 0 - 1) s.y) (
        if-Good (c == b'A') (gotoxy-Good v ok s g s.x ((s.y + 2 ^ 32 - n) % 2 ^ 32)) (
          if-Good (c == b'B' || c == b'e') (gotoxy-Good v ok s g s.x ((s.y + n) % 2 ^ 32)) (
            if-Good (c == b'C' || c == b'a') (gotoxy-Good v ok s g ((s.x + n) % 2 ^ 32) s.y) (
              if-Good (c == b'D') (gotoxy-Good v ok s g ((s.x + 2 ^ 32 - n) % 2 ^ 32) s.y) (
                if-Good (c == b'E') (gotoxy-Good v ok s g 0 ((s.y + n) % 2 ^ 32)) (
                  if-Good (c == b'F') (gotoxy-Good v ok s g 0 ((s.y + 2 ^ 32 - n) % 2 ^ 32)) (
                    if-Good (c == b'd') (gotoxy-Good v ok s g s.x (s.par 0 - 1)) (
                      if-Good (c == b'H' || c == b'f')
                        (gotoxy-Good v ok s g (s.par 1 - 1) (s.par 0 - 1))
                        (if-Good (c == b'J') (csi_J-Good v ok s g (s.par 0)) (
                          if-Good (c == b'K') (csi_K-Good v ok s g (s.par 0)) (
                            if-Good (c == b'L')
                              (times-Good (count_of (s.par 0) v.num_lines) (insert_line v)
                                (insert_line-Good v ok) s g)
                              (if-Good (c == b'M')
                                (times-Good (count_of (s.par 0) v.num_lines) (delete_line v)
                                  (delete_line-Good v ok) s g)
                                (if-Good (c == b'P')
                                  (times-Good (count_of (s.par 0) v.num_columns) (delete_char v)
                                    (delete_char-Good v ok) s g)
                                  (if-Good (c == b'@')
                                    (times-Good (count_of (s.par 0) v.num_columns) (insert_char v)
                                      (insert_char-Good v ok) s g)
                                    (if-Good (c == b'm') (csi_m-Good s g) (
                                      if-Good (c == b'r') (set_region-Good s g) (
                                        if-Good (c == b's') (save_cur-Good s g) (
                                          if-Good (c == b'u') (restore_cur-Good s g)
                                            (Good-same v ok s g)))))))))))))))))))

  pub take_number-Good : (c : ℕ) (s : Screen) → IsScreen v s → Good v s (take_number v c s)
  unfolding take_number
  take_number-Good c s g =
      if-Good (c == b';' && ltb s.npar 15)
        (other-Good s.mode (s.npar + 1) s.par s.ques s.attr s.saved_x s.saved_y s.responses s g)
        (if-Good (leb b'0' c && leb c b'9')
          (other-Good s.mode s.npar (update s.par s.npar ((10 * s.par s.npar + c - b'0') % 2 ^ 32))
            s.ques s.attr s.saved_x s.saved_y s.responses s g)
          (let h = mode-Good plain s g in
            Good-trans h (finish-Good c (record s { mode = plain }) h.screen)))

  pub open_sequence-Good : (c : ℕ) (s : Screen) → IsScreen v s → Good v s (open_sequence v c s)
  unfolding open_sequence
  open_sequence-Good c s g =
      let s' = record s { par = λ i. 0; npar = 0; mode = numbers; ques = c == b'?' } in
      let h =
        other-Good numbers 0 (λ i. 0) (c == b'?') s.attr s.saved_x s.saved_y s.responses s g in
      if-Good (c == b'?') h (Good-trans h (take_number-Good c s' h.screen))

  pub escape-Good : (c : ℕ) (s : Screen) → IsScreen v s → Good v s (escape v c s)
  unfolding escape
  escape-Good c s0 g0 =
      let s = record s0 { mode = plain } in
      let h = mode-Good plain s0 g0 in
      let g = h.screen in
      if-Good (c == b'[') (mode-Good opened s0 g0) (
        if-Good (c == b'E') (Good-trans h (gotoxy-Good v ok s g 0 ((s.y + 1) % 2 ^ 32))) (
          if-Good (c == b'M') (Good-trans h (ri-Good v ok s g)) (
            if-Good (c == b'D') (Good-trans h (lf-Good v ok s g)) (
              if-Good (c == b'Z')
                (other-Good plain s.npar s.par s.ques s.attr s.saved_x s.saved_y (s.responses + 1)
                  s0 g0)
                (if-Good (s.x == b'7') (Good-trans h (save_cur-Good s g))
                  (if-Good (s.x == b'8') (Good-trans h (restore_cur-Good s g)) h))))))
