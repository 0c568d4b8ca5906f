-- ===== src/Tty/Lines.antt =====
-- What `copy_to_cooked` makes of the characters that arrive: an editor of lines.
use linux_0_11_learning.Base.{
  ℕ, zero, suc, ◌+◌, ◌<◌, ◌≡◌, refl, ap, ◌∙◌, sym, true, false, ◌&&◌, not, Option, none, some, List,
  [], ◌∷◌, ◌==◌, if◌then◌else◌, arith, length, Bool-cases, inl, inr,
}
use linux_0_11_learning.Tty.{
  TtyQueue, tty_buf_size, Termios, Tty, Driver, chars, last, putch, getch, unput, same, is_end,
  translate, can_erase, rub_out, erase_last, kill_line, echo_char, keep_char, cook_char, cook_some,
  cook_next, cook_loop, copy_to_cooked,
}
use linux_0_11_learning.Tty.Edit.{ends, drop_line, rub, edit_char, edit_some, edit}
use linux_0_11_learning.Tty.Fifo.{
  IsQueue, oldest, newest, length-newest, length-oldest, chars_lt, chars-empty, chars-full,
  getch-IsQueue, oldest-getch, unput-IsQueue, newest-unput, putch-IsQueue, newest-putch,
}

-- The line has this text in the secondary queue, the newest character first, whose `lines` counts the
-- line ends; these characters have come and wait in the read queue.
pub record Shows (m : Termios) (text came : List ℕ) (t : Tty) : Type 0 where
  pub modes : t.termios ≡ m
  pub second : IsQueue t.secondary
  pub read : IsQueue t.read_q
  pub text_is : newest t.secondary ≡ text
  pub came_is : oldest t.read_q ≡ came
  pub counted : t.secondary.lines ≡ ends m text

-- Only the queue of characters to write differs.
record SameText (t t' : Tty) : Type 0 where
  modes : t'.termios ≡ t.termios
  second : t'.secondary ≡ t.secondary
  read : t'.read_q ≡ t.read_q

rub_out-SameText : (w : Driver) (c : ℕ) (t : Tty) → SameText t (rub_out w c t)
unfolding rub_out
rub_out-SameText w c t = elim (Bool-cases t.termios.echo) [
  | inl e ↦ rw e (record { modes = refl; second = refl; read = refl })
  | inr e ↦ rw e (record { modes = refl; second = refl; read = refl })
]

echo_char-SameText : (w : Driver) (c : ℕ) (t : Tty) → SameText t (echo_char w c t)
unfolding echo_char
echo_char-SameText w c t = elim (Bool-cases t.termios.echo) [
  | inl e ↦ rw e (record { modes = refl; second = refl; read = refl })
  | inr e ↦ rw e (record { modes = refl; second = refl; read = refl })
]

module _ (w : Driver) (m : Termios) where
  chars-text :
      {text came : List ℕ} (t : Tty) → Shows m text came t → chars t.secondary ≡ length text
  chars-text t s = sym (length-newest t.secondary) ∙ ap (λ l. length l) s.text_is

  can_erase-cons :
      {came : List ℕ} (c : ℕ) (cs : List ℕ) (t : Tty)
      → Shows m (c ∷ cs) came t
      → (last t.secondary ≡ c)
        × (newest (unput t.secondary) ≡ cs)
        × (can_erase t ≡ not (is_end m c))
  can_erase-cons c cs t s =
      let n = chars-text t s in
      let some_there : (chars t.secondary == 0) ≡ false = rw n (ground arith) in
      let both = sym (newest-unput t.secondary s.second (rw n (omega arith))) ∙ s.text_is in
      let newest_c : last t.secondary ≡ c = cc both in
      let rest : newest (unput t.secondary) ≡ cs = cc both in
      (newest_c, rest, rw (chars-empty t.secondary s.second, some_there, newest_c, s.modes) refl)

  can_erase-nil : {came : List ℕ} (t : Tty) → Shows m [] came t → can_erase t ≡ false
  can_erase-nil t s =
      let none_there : (chars t.secondary == 0) ≡ true = rw (chars-text t s) refl in
      rw (chars-empty t.secondary s.second, none_there) refl

  erase_last-Shows :
      {came : List ℕ} (c : ℕ) (cs : List ℕ) (t : Tty)
      → Shows m (c ∷ cs) came t
      → is_end m c ≡ false
      → Shows m cs came (erase_last w t)
  unfolding erase_last
  erase_last-Shows c cs t s e =
      let (newest_c, rest, can) = can_erase-cons c cs t s in
      let r = rub_out-SameText w (last t.secondary) t in
      let counts = s.counted in
      record {
        modes = r.modes ∙ s.modes;
        second = rw r.second (unput-IsQueue t.secondary s.second);
        read = rw r.read s.read;
        text_is = rw r.second rest;
        came_is = rw r.read s.came_is;
        counted = unfold unput ends in rw r.second (counts ∙ rw e refl);
      }

  kill_line-Shows :
      {came : List ℕ} (fuel : ℕ) (text : List ℕ) (t : Tty)
      → length text < fuel
      → Shows m text came t
      → Shows m (drop_line m text) came (kill_line fuel w t)
  unfolding kill_line drop_line
  kill_line-Shows zero text t h s = absurd (omega arith)
  kill_line-Shows (suc fuel) [] t h s = rw (can_erase-nil t s) s
  kill_line-Shows (suc fuel) (c ∷ cs) t h s =
      let (newest_c, rest, can) = can_erase-cons c cs t s in
      elim (Bool-cases (is_end m c)) [
        | inl e ↦ rw (can, e) s
        | inr e ↦
            rw (can, e)
              (kill_line-Shows fuel cs (erase_last w t) (omega arith) (erase_last-Shows c cs t s e))
      ]

  -- The queue that `keep_char` puts the character in.
  abbrev counted_queue : ℕ → Tty → TtyQueue
  counted_queue c t =
      if is_end t.termios c
      then record t.secondary { lines = t.secondary.lines + 1 }
      else t.secondary

  counted_queue-same :
      {text came : List ℕ} (c : ℕ) (t : Tty)
      → Shows m text came t
      → IsQueue (counted_queue c t)
        × (newest (counted_queue c t) ≡ text)
        × ((counted_queue c t).lines ≡ ends m (c ∷ text))
  unfolding ends newest chars
  counted_queue-same c t s = elim (Bool-cases (is_end m c)) [
    | inl e ↦ rw (s.modes, e) (s.second, s.text_is, omega (arith, s.counted))
    | inr e ↦ rw (s.modes, e) (s.second, s.text_is, s.counted)
  ]

  keep_char-Shows :
      {came : List ℕ} (c : ℕ) (text : List ℕ) (t : Tty)
      → length text < 1023
      → Shows m text came t
      → Shows m (c ∷ text) came (keep_char w c t)
  unfolding keep_char
  keep_char-Shows c text t h s =
      let q = counted_queue c t in
      let (ok, text_is, counts) = counted_queue-same c t s in
      let r = echo_char-SameText w c (record t { secondary = q }) in
      let n : chars q ≡ length text = sym (length-newest q) ∙ ap (λ l. length l) text_is in
      record {
        modes = r.modes ∙ s.modes;
        second = rw r.second (putch-IsQueue q ok c);
        read = rw r.read s.read;
        text_is = rw r.second (newest-putch q c ok (rw n h) ∙ ap (λ l. c ∷ l) text_is);
        came_is = rw r.read s.came_is;
        counted = unfold putch in rw r.second counts;
      }

  rub-Shows :
      {came : List ℕ} (text : List ℕ) (t : Tty)
      → Shows m text came t
      → Shows m (rub m text) came (if can_erase t then erase_last w t else t)
  unfolding rub
  rub-Shows [] t s = rw (can_erase-nil t s) s
  rub-Shows (c ∷ cs) t s =
      let (newest_c, rest, can) = can_erase-cons c cs t s in
      elim (Bool-cases (is_end m c)) [
        | inl e ↦ rw (can, e) s
        | inr e ↦ rw (can, e) (erase_last-Shows c cs t s e)
      ]

  SameText-Shows :
      {text came : List ℕ} {t t' : Tty} → SameText t t' → Shows m text came t → Shows m text came t'
  SameText-Shows r s = record {
    modes = r.modes ∙ s.modes;
    second = rw r.second s.second;
    read = rw r.read s.read;
    text_is = rw r.second s.text_is;
    came_is = rw r.read s.came_is;
    counted = rw r.second s.counted;
  }

  -- A character that only changes other parts of the line.
  aside :
      {text came : List ℕ} (t : Tty) {t' : Tty}
      → t'.termios ≡ t.termios
      → t'.secondary ≡ t.secondary
      → t'.read_q ≡ t.read_q
      → Shows m text came t
      → Shows m text came t'
  aside t e e' e'' s = SameText-Shows (record { modes = e; second = e'; read = e'' }) s

module _ (w : Driver) where
  cook_char-own :
      {came : List ℕ} (c : ℕ) (text : List ℕ) (t : Tty)
      → length text < 1023
      → Shows t.termios text came t
      → Shows t.termios (edit_char t.termios c text) came (cook_char w c t)
  unfolding cook_char edit_char
  cook_char-own c text t h s = elim (Bool-cases (t.termios.icanon && same c t.termios.vkill)) [
    | inl e ↦ rw e (kill_line-Shows w t.termios tty_buf_size text t (omega arith) s)
    | inr kill ↦ elim (Bool-cases (t.termios.icanon && same c t.termios.verase)) [
      | inl e ↦ rw (kill, e) (rub-Shows w t.termios text t s)
      | inr erase ↦ elim (Bool-cases (t.termios.icanon && same c t.termios.vstop)) [
        | inl e ↦ rw (kill, erase, e) (aside w t.termios t refl refl refl s)
        | inr stop ↦ elim (Bool-cases (t.termios.icanon && same c t.termios.vstart)) [
          | inl e ↦ rw (kill, erase, stop, e) (aside w t.termios t refl refl refl s)
          | inr start ↦ elim (Bool-cases (t.termios.isig && same c t.termios.vintr)) [
            | inl e ↦ rw (kill, erase, stop, start, e) (aside w t.termios t refl refl refl s)
            | inr intr ↦ elim (Bool-cases (t.termios.isig && same c t.termios.vquit)) [
              | inl e ↦
                  rw (kill, erase, stop, start, intr, e) (aside w t.termios t refl refl refl s)
              | inr quit ↦
                  rw (kill, erase, stop, start, intr, quit)
                    (keep_char-Shows w t.termios c text t h s)
            ]
          ]
        ]
      ]
    ]
  ]

  module _ (m : Termios) where
    cook_char-Shows :
        {came : List ℕ} (c : ℕ) (text : List ℕ) (t : Tty)
        → length text < 1023
        → Shows m text came t
        → Shows m (edit_char m c text) came (cook_char w c t)
    cook_char-Shows c text t h s =
        let e = sym s.modes in rw e (cook_char-own c text t h (rw e at s))

    cook_some-Shows :
        {came : List ℕ} (o : Option ℕ) (text : List ℕ) (t : Tty)
        → length text < 1023
        → Shows m text came t
        → Shows m (edit_some m o text) came (cook_some w o t)
    unfolding edit_some
    cook_some-Shows none text t h s = s
    cook_some-Shows (some c) text t h s = cook_char-Shows c text t h s

    chars-came : {text came : List ℕ} (t : Tty) → Shows m text came t → chars t.read_q ≡ length came
    chars-came t s = sym (length-oldest t.read_q) ∙ ap (λ l. length l) s.came_is

    cook_next-Shows :
        {came : List ℕ} (c : ℕ) (text : List ℕ) (t : Tty)
        → length text < 1023
        → Shows m text (c ∷ came) t
        → Shows m (edit_some m (translate m c) text) came (cook_next w t)
    unfolding cook_next
    cook_next-Shows {came} c text t h s =
        let there : 0 < chars t.read_q = rw (chars-came t s) (omega arith) in
        let both = sym (oldest-getch t.read_q s.read there) ∙ s.came_is in
        let first : t.read_q.buf t.read_q.tail ≡ c = cc both in
        let s' : Shows m text came (record t { read_q = getch t.read_q }) = record {
          modes = s.modes;
          second = s.second;
          read = getch-IsQueue t.read_q s.read;
          text_is = s.text_is;
          came_is = cc both;
          counted = s.counted;
        } in
        let e : translate t.termios (t.read_q.buf t.read_q.tail) ≡ translate m c =
          rw (s.modes, first) refl in
        rw e (cook_some-Shows (translate m c) text _ h s')

    below : (n : ℕ) → n < tty_buf_size → (n == 1023) ≡ false → n < 1023
    below n h e = ground arith

    cook_loop-Shows :
        (fuel : ℕ) (text came : List ℕ) (t : Tty)
        → length came < fuel
        → Shows m text came t
        → Shows m (edit m text came).0 (edit m text came).1 (cook_loop fuel w t)
    unfolding cook_loop edit
    cook_loop-Shows zero text came t h s = absurd (omega arith)
    cook_loop-Shows (suc fuel) text [] t h s =
        let none_there : (chars t.read_q == 0) ≡ true = rw (chars-came t s) refl in
        rw (chars-empty t.read_q s.read, none_there) s
    cook_loop-Shows (suc fuel) text (c ∷ came) t h s =
        let some_there : (chars t.read_q == 0) ≡ false = rw (chars-came t s) (ground arith) in
        let n = chars-text w m t s in
        let fits = chars_lt t.secondary in
        elim (Bool-cases (length text == 1023)) [
          | inl full ↦
              rw (chars-empty t.read_q s.read, some_there, chars-full t.secondary s.second, n, full)
                s
          | inr room ↦
              rw (chars-empty t.read_q s.read, some_there, chars-full t.secondary s.second, n, room)
                (cook_loop-Shows fuel _ came (cook_next w t) (omega arith)
                  (cook_next-Shows c text t (below (length text) (omega arith) room) s))
        ]

-- With a driver that only takes characters from the queue to write, and so neither answers an escape
-- sequence nor touches the other queues, `copy_to_cooked` edits the text of the secondary queue by the
-- characters that came, one by one, as long as there is room, and leaves the others; it keeps the number
-- of line ends in the text counted.
pub copy_to_cooked-Shows :
    (w : Driver) (m : Termios) (text came : List ℕ) (t : Tty)
    → Shows m text came t
    → Shows m (edit m text came).0 (edit m text came).1 (copy_to_cooked w t)
unfolding copy_to_cooked
copy_to_cooked-Shows w m text came t s =
    let n : chars t.read_q ≡ length came =
      sym (length-oldest t.read_q) ∙ ap (λ l. length l) s.came_is in
    let fits = chars_lt t.read_q in cook_loop-Shows w m tty_buf_size text came t (omega arith) s
