-- ===== src/Tty/Output.antt =====
-- `tty_write`: the characters of a process on their way to the queue of characters to write.
use linux_0_11_learning.Base.{
  ℕ, zero, suc, ◌+◌, ◌<◌, ◌≡◌, refl, ap, ◌∙◌, ◌⊎◌, inl, inr, Bool, true, false, ◌&&◌, not, List, [],
  ◌∷◌, ◌++◌, ◌==◌, if◌then◌else◌, arith, Bool-cases,
}
use linux_0_11_learning.Tty.{
  TtyQueue, tty_buf_size, Termios, Driver, is_full, chars, putch, toupper,
}
use linux_0_11_learning.Tty.Fifo.{
  IsQueue, newest, chars_lt, chars-full, chars-putch, putch-IsQueue, newest-putch,
}

-- The static `cr_flag`, the queue, and the bytes that the process has still to write.
pub record Writer : Type 0 where
  pub cr_flag : Bool
  pub write_q : TtyQueue
  pub bytes : List ℕ

-- A byte after the flags that exchange carriage return and line feed.
unfoldable pub exchange : Termios → ℕ → ℕ
exchange m c =
    if not m.opost
    then c
    else if c == 13 && m.ocrnl
    then 10
    else if c == 10 && m.onlret
    then 13
    else c

-- The byte gets a carriage return before it.
abbrev pub expands : Termios → Bool → ℕ → Bool
expands m cr c = m.opost && (c == 10 && (not cr && m.onlcr))

unfoldable pub upper : Termios → ℕ → ℕ
unfolding toupper
upper m c = if m.opost && m.olcuc then toupper c else c

-- A round of the inner loop: a carriage return, or the byte.
unfoldable pub write_char : Termios → ℕ → List ℕ → Writer → Writer
unfolding exchange upper
write_char m b bs s =
    let c = exchange m b in
    if expands m s.cr_flag c
    then record s { cr_flag = true; write_q = putch 13 s.write_q; bytes = b ∷ bs }
    else record s { cr_flag = false; write_q = putch (upper m c) s.write_q; bytes = bs }

-- `while (nr>0 && !FULL(tty->write_q))`, on fuel. Each round fills a place of the queue.
unfoldable pub fill : (fuel : ℕ) → Termios → (bytes : List ℕ) → Writer → Writer
fill zero m bytes s = s
fill (suc fuel) m [] s = s
fill (suc fuel) m (b ∷ bs) s =
    let s' = write_char m b bs s in
    let rest = fill fuel m s'.bytes s' in if is_full s.write_q then s else rest

-- A stretch of `tty_write`, from a queue with room to `schedule` or to the end.
unfoldable pub write_stretch : Driver → (signal : ℕ) → Termios → Writer → Writer
write_stretch driver signal m s =
    if signal == 0
    then (let s' = fill tty_buf_size m s.bytes s in record s' { write_q = driver s'.write_q })
    else s

-- What the bytes of a process come to, where the last one was `cr`.
unfoldable pub posted : Termios → (cr : Bool) → List ℕ → List ℕ
unfolding exchange upper
posted m cr [] = []
posted m cr (b ∷ bs) =
    let c = exchange m b in
    let rest = upper m c ∷ posted m false bs in if expands m cr c then 13 ∷ rest else rest

-- The queue with the characters behind it, the newest first.
unfoldable pub onto : List ℕ → List ℕ → List ℕ
onto [] text = text
onto (c ∷ cs) text = onto cs (c ∷ text)

-- Some of the text that the bytes come to is in the queue, in order, and the bytes that are left come
-- to the rest; either none are left or the queue is full.
pub record Filled (m : Termios) (s s' : Writer) : Type 0 where
  pub put : List ℕ
  pub in_queue : newest s'.write_q ≡ onto put (newest s.write_q)
  pub rest_is : posted m s.cr_flag s.bytes ≡ put ++ posted m s'.cr_flag s'.bytes
  pub pointers : IsQueue s'.write_q
  pub stops : (s'.bytes ≡ []) ⊎ (is_full s'.write_q ≡ true)

write_char-posted :
    (m : Termios) (b : ℕ) (bs : List ℕ) (s : Writer)
    → (c : ℕ) × ((write_char m b bs s).write_q ≡ putch c s.write_q)
      × (posted m s.cr_flag (b ∷ bs)
          ≡ c ∷ posted m (write_char m b bs s).cr_flag (write_char m b bs s).bytes)
unfolding write_char posted
write_char-posted m b bs s = elim (Bool-cases (expands m s.cr_flag (exchange m b))) [
  | inl e ↦ (13, rw e refl, rw e (expanded e))
  | inr e ↦ (upper m (exchange m b), rw e refl, rw e refl)
]
  where
    expanded :
        expands m s.cr_flag (exchange m b) ≡ true
        → ◌≡◌ {A = List ℕ}
            (13 ∷ upper m (exchange m b) ∷ posted m false bs)
            (13 ∷ posted m true (b ∷ bs))
    expanded e = let no : expands m true (exchange m b) ≡ false = ground arith in rw no refl

Filled-stop :
    (m : Termios) (s : Writer)
    → IsQueue s.write_q
    → (s.bytes ≡ []) ⊎ (is_full s.write_q ≡ true)
    → Filled m s s
unfolding onto
Filled-stop m s ok h = record {
  put = [];
  in_queue = refl;
  rest_is = refl;
  pointers = ok;
  stops = h;
}

fill_on :
    (fuel : ℕ) (m : Termios) (bytes : List ℕ) (s : Writer)
    → s.bytes ≡ bytes
    → IsQueue s.write_q
    → 1023 < fuel + chars s.write_q
    → Filled m s (fill fuel m bytes s)
unfolding fill onto
fill_on zero m bytes s e ok h = absurd (let lt = chars_lt s.write_q in omega arith)
fill_on (suc fuel) m [] s e ok h = Filled-stop m s ok (inl e)
fill_on (suc fuel) m (b ∷ bs) s e ok h = elim (Bool-cases (is_full s.write_q)) [
  | inl full ↦ rw full (Filled-stop m s ok (inr full))
  | inr room ↦
      let s' = write_char m b bs s in
      let (c, q, p) = write_char-posted m b bs s in
      let lt = chars_lt s.write_q in
      let fits : chars s.write_q < 1023 = let f = chars-full s.write_q ok in ground arith in
      let more : chars s'.write_q ≡ suc (chars s.write_q) =
        rw q (chars-putch s.write_q ok c fits) in
      let r = fill_on fuel m s'.bytes s' refl (rw q (putch-IsQueue s.write_q ok c)) (omega arith) in
      let first : newest s'.write_q ≡ c ∷ newest s.write_q =
        rw q (newest-putch s.write_q c ok fits) in
      rw room (record {
        put = c ∷ r.put;
        in_queue = r.in_queue ∙ ap (λ l. onto r.put l) first;
        rest_is = ap (λ l. posted m s.cr_flag l) e ∙ p ∙ ap (λ l. c ∷ l) r.rest_is;
        pointers = r.pointers;
        stops = r.stops;
      })
]

-- A stretch of `tty_write` puts what the bytes come to into the queue, in order, with a carriage
-- return before each line feed where that is asked for, until the queue is full or no byte is left;
-- what the bytes that are left come to is the rest, also where the queue is full between a carriage
-- return and its line feed.
pub fill-Filled :
    (m : Termios) (s : Writer) → IsQueue s.write_q → Filled m s (fill tty_buf_size m s.bytes s)
fill-Filled m s ok = fill_on tty_buf_size m s.bytes s refl ok (omega arith)
