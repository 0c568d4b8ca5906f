-- ===== src/Tty/Fifo.antt =====
-- The characters of a queue of a terminal line as lists.
use linux_0_11_learning.Base.{
  ℕ, zero, suc, ◌+◌, ◌-◌, ◌%◌, ◌<◌, ◌≡◌, refl, sym, ap, ◌∙◌, false, List, [], ◌∷◌, ◌++◌, ◌==◌,
  arith, length,
}
use linux_0_11_learning.Tty.{
  TtyQueue, tty_buf_size, update, is_empty, is_full, left, chars, last, putch, getch, unput,
}

-- The pointers are in the buffer.
abbrev pub IsQueue : TtyQueue → Type 0
IsQueue q = (q.head < tty_buf_size) × (q.tail < tty_buf_size)

-- The `n` characters from `i` on, going round the buffer.
unfoldable pub around : (ℕ → ℕ) → (i n : ℕ) → List ℕ
around buf i zero = []
around buf i (suc n) = buf i ∷ around buf ((i + 1) % tty_buf_size) n

-- The characters of the queue, the oldest first.
unfoldable pub oldest : TtyQueue → List ℕ
unfolding around
oldest q = around q.buf q.tail (chars q)

abbrev pub before : ℕ → ℕ
before i = (i + (tty_buf_size - 1)) % tty_buf_size

-- The `n` characters before `i`, going round the buffer.
unfoldable pub back : (ℕ → ℕ) → (i n : ℕ) → List ℕ
back buf i zero = []
back buf i (suc n) = buf (before i) ∷ back buf (before i) n

-- The characters of the queue, the newest first.
unfoldable pub newest : TtyQueue → List ℕ
unfolding back
newest q = back q.buf q.head (chars q)

length-back : (buf : ℕ → ℕ) (i n : ℕ) → length (back buf i n) ≡ n
unfolding back
length-back buf i zero = refl
length-back buf i (suc n) = ap suc (length-back buf (before i) n)

pub length-newest : (q : TtyQueue) → length (newest q) ≡ chars q
unfolding newest
length-newest q = length-back q.buf q.head (chars q)

length-around : (buf : ℕ → ℕ) (i n : ℕ) → length (around buf i n) ≡ n
unfolding around
length-around buf i zero = refl
length-around buf i (suc n) = ap suc (length-around buf ((i + 1) % tty_buf_size) n)

pub length-oldest : (q : TtyQueue) → length (oldest q) ≡ chars q
unfolding oldest
length-oldest q = length-around q.buf q.tail (chars q)

pub chars_lt : (q : TtyQueue) → chars q < tty_buf_size
unfolding chars
chars_lt q = omega arith

pub chars-empty : (q : TtyQueue) → IsQueue q → is_empty q ≡ (chars q == 0)
unfolding chars
chars-empty q ok = ground arith

pub chars-full : (q : TtyQueue) → IsQueue q → is_full q ≡ (chars q == 1023)
unfolding chars left
chars-full q ok = ground arith

module _ (q : TtyQueue) (ok : IsQueue q) where
  pub chars-getch : 0 < chars q → chars q ≡ suc (chars (getch q))
  unfolding chars getch
  chars-getch h = omega arith

  pub getch-IsQueue : IsQueue (getch q)
  unfolding getch
  getch-IsQueue = omega arith

  pub oldest-getch : 0 < chars q → oldest q ≡ q.buf q.tail ∷ oldest (getch q)
  unfolding oldest getch
  oldest-getch h = ap (λ n. around q.buf q.tail n) (chars-getch h)

  chars-unput : 0 < chars q → chars q ≡ suc (chars (unput q))
  unfolding chars unput
  chars-unput h = omega arith

  pub unput-IsQueue : IsQueue (unput q)
  unfolding unput
  unput-IsQueue = omega arith

  pub newest-unput : 0 < chars q → newest q ≡ last q ∷ newest (unput q)
  unfolding newest unput last
  newest-unput h = ap (λ n. back q.buf q.head n) (chars-unput h)

  pub chars-putch : (c : ℕ) → chars q < 1023 → chars (putch c q) ≡ suc (chars q)
  unfolding chars putch
  chars-putch c h = omega arith

  pub putch-IsQueue : (c : ℕ) → IsQueue (putch c q)
  unfolding putch
  putch-IsQueue c = omega arith

back-update :
    (buf : ℕ → ℕ) (h c i n k : ℕ)
    → h < tty_buf_size
    → i ≡ (h + tty_buf_size - k) % tty_buf_size
    → k + n < tty_buf_size
    → back (update buf h c) i n ≡ back buf i n
unfolding back
back-update buf h c i zero k lt at room = refl
back-update buf h c i (suc n) k lt at room =
    let other : (h == before i) ≡ false = ground arith in
    rw (other, back-update buf h c (before i) n (suc k) lt (omega arith) (omega arith))

pub newest-putch :
    (q : TtyQueue) (c : ℕ) → IsQueue q → chars q < 1023 → newest (putch c q) ≡ c ∷ newest q
unfolding newest putch
newest-putch q c ok h =
    let at : before ((q.head + 1) % tty_buf_size) ≡ q.head = omega arith in
    let stored : update q.buf q.head c q.head ≡ c = ground arith in
    ap (λ n. back (putch c q).buf (putch c q).head n) (chars-putch q ok c h)
    ∙ rw
        (at, stored, back-update q.buf q.head c q.head (chars q) 0 ok.0 (omega arith) (omega arith))

back-last :
    (buf : ℕ → ℕ) (i n : ℕ)
    → i < tty_buf_size
    → n < tty_buf_size
    → back buf i (suc n) ≡ back buf i n ++ buf ((i + tty_buf_size - suc n) % tty_buf_size) ∷ []
unfolding back
back-last buf i zero h lt =
    let e : before i ≡ (i + tty_buf_size - 1) % tty_buf_size = omega arith in rw e refl
back-last buf i (suc n) h lt =
    let e : (before i + tty_buf_size - suc n) % tty_buf_size
        ≡ (i + tty_buf_size - suc (suc n)) % tty_buf_size =
      omega arith in
    ap (λ l. buf (before i) ∷ l)
      (back-last buf (before i) n (omega arith) (omega arith) ∙ rw e refl)

tail-chars : (q : TtyQueue) → IsQueue q → q.tail ≡ (q.head + tty_buf_size - chars q) % tty_buf_size
unfolding chars
tail-chars q ok = omega arith

-- What is counted of a text, one character at a time, is counted in either order.
module _ (sum : List ℕ → ℕ) (sum_snoc : (c : ℕ) (cs : List ℕ) → sum (cs ++ c ∷ []) ≡ sum (c ∷ cs))
    (sum_cons : (c : ℕ) (cs ds : List ℕ) → sum cs ≡ sum ds → sum (c ∷ cs) ≡ sum (c ∷ ds)) where
  around-back :
      (buf : ℕ → ℕ) (i n j : ℕ)
      → i < tty_buf_size
      → n < tty_buf_size
      → j ≡ (i + tty_buf_size - n) % tty_buf_size
      → sum (around buf j n) ≡ sum (back buf i n)
  unfolding around back
  around-back buf i zero j h lt e = refl
  around-back buf i (suc n) j h lt e =
      let ih = around-back buf i n ((j + 1) % tty_buf_size) h (omega arith) (omega arith) in
      sum_cons (buf j) (around buf ((j + 1) % tty_buf_size) n) (back buf i n) ih
      ∙ sym (sum_snoc (buf j) (back buf i n))
      ∙ rw e (ap sum (sym (back-last buf i n h (omega arith))))

  pub oldest-newest : (q : TtyQueue) → IsQueue q → sum (oldest q) ≡ sum (newest q)
  unfolding oldest newest
  oldest-newest q ok = around-back q.buf q.head (chars q) q.tail ok.0 (chars_lt q) (tail-chars q ok)
