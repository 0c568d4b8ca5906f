-- ===== src/Tty/Input.antt =====
-- `tty_read`: a process takes the characters of the secondary queue.
use linux_0_11_learning.Base.{
  ℕ, zero, suc, ◌+◌, ◌-◌, ◌%◌, ◌^◌, ◌≤◌, ◌<◌, ◌≡◌, refl, sym, ap, ◌∙◌, ◌⊎◌, inl, inr, Bool, true,
  false, ◌&&◌, not, List, [], ◌∷◌, ◌++◌, ltb, ◌==◌, if◌then◌else◌, arith, Bool-cases, length,
}
use linux_0_11_learning.Base.Bits.{test_bit, clear_bit}
use linux_0_11_learning.Task.{sigalrm}
use linux_0_11_learning.Tty.{TtyQueue, Termios, is_empty, left, chars, getch, same, is_end}
use linux_0_11_learning.Tty.Edit.{ends}
use linux_0_11_learning.Tty.Fifo.{
  IsQueue, around, oldest, length-oldest, chars_lt, chars-empty, getch-IsQueue, oldest-getch,
}

-- What a round of characters gives: the bytes, the queue, and whether it met the end of the file.
pub record Taken : Type 0 where
  pub bytes : List ℕ
  pub queue : TtyQueue
  pub at_eof : Bool

abbrev pub more_byte : ℕ → Taken → Taken
more_byte c t = record t { bytes = c ∷ t.bytes }

-- `GETCH`, with the line ends counted; `data` is an unsigned long.
unfoldable pub get : Termios → TtyQueue → TtyQueue
unfolding getch
get m q =
    let c = q.buf q.tail in
    let q' = getch q in
    if is_end m c then record q' { lines = (q'.lines + 2 ^ 32 - 1) % 2 ^ 32 } else q'

-- The loop over the characters, of which there is one at least, for `nr` bytes and one more.
unfoldable pub take_chars : Termios → (nr : ℕ) → TtyQueue → Taken
unfolding get
take_chars m zero q =
    let c = q.buf q.tail in
    if m.icanon && same c m.veof
    then record { bytes = []; queue = get m q; at_eof = true }
    else record { bytes = c ∷ []; queue = get m q; at_eof = false }
take_chars m (suc nr) q =
    let c = q.buf q.tail in
    let rest = take_chars m nr (get m q) in
    if m.icanon && same c m.veof
    then record { bytes = []; queue = get m q; at_eof = true }
    else if is_empty (get m q)
    then record { bytes = c ∷ []; queue = get m q; at_eof = false }
    else more_byte c rest

-- How a round of the outer loop ends: with the loop, asleep, back at its start with nothing changed,
-- or with characters taken.
pub data Round : Type 0 where
  stops : (signal : ℕ) → Round
  sleeps : Round
  spins : Round
  takes : Taken → Round

-- `flag` tells whether the alarm is that of VTIME.
unfoldable pub read_round : Termios → (flag : Bool) → (signal nr : ℕ) → TtyQueue → Round
unfolding take_chars left
read_round m flag signal nr q =
    if flag && test_bit (sigalrm - 1) signal
    then stops (clear_bit (sigalrm - 1) signal)
    else if not (signal == 0)
    then stops signal
    else if is_empty q
    then sleeps
    else if m.icanon && (q.lines == 0 && ltb 20 (left q))
    then spins
    else takes (take_chars m nr q)

-- The characters taken from the queue are the bytes, with the end of the file where one was met.
pub data Took (m : Termios) : Bool → (bytes characters : List ℕ) → Type 0 where
  whole : {bytes cs : List ℕ} → cs ≡ bytes → Took m false bytes cs
  to_eof :
      {bytes cs : List ℕ} (c : ℕ)
      → cs ≡ bytes ++ c ∷ []
      → same c m.veof ≡ true
      → Took m true bytes cs

Took-cons :
    (m : Termios) (c : ℕ) (at_eof : Bool) (bytes cs : List ℕ)
    → Took m at_eof bytes cs
    → Took m at_eof (c ∷ bytes) (c ∷ cs)
Took-cons m c false bytes cs (whole e) = whole (ap (λ l. c ∷ l) e)
Took-cons m c true bytes cs (to_eof d e s) = to_eof d (ap (λ l. c ∷ l) e) s

-- The oldest characters are taken, up to the end of a file, a byte more than `nr` at most, or all that
-- there are; `lines` still counts the line ends of the queue.
pub record TakenOut (m : Termios) (nr : ℕ) (q : TtyQueue) (t : Taken) : Type 0 where
  pub characters : List ℕ
  pub are_oldest : oldest q ≡ characters ++ oldest t.queue
  pub are_taken : Took m t.at_eof t.bytes characters
  pub counted : t.queue.lines ≡ ends m (oldest t.queue)
  pub pointers : IsQueue t.queue
  pub fits : length t.bytes ≤ suc nr
  pub enough : t.at_eof ≡ false → (length t.bytes ≡ suc nr) ⊎ (oldest t.queue ≡ [])

module _ (m : Termios) (q : TtyQueue) (ok : IsQueue q) (some_there : 0 < chars q) where
  abbrev first : ℕ
  first = q.buf q.tail

  get-oldest : oldest q ≡ first ∷ oldest (get m q)
  unfolding get oldest chars
  get-oldest = elim (Bool-cases (is_end m first)) [
    | inl e ↦ rw e (oldest-getch q ok some_there)
    | inr e ↦ rw e (oldest-getch q ok some_there)
  ]

  get-IsQueue : IsQueue (get m q)
  unfolding get
  get-IsQueue = elim (Bool-cases (is_end m first)) [
    | inl e ↦ rw e (getch-IsQueue q ok)
    | inr e ↦ rw e (getch-IsQueue q ok)
  ]

  get_lines :
      (get m q).lines ≡ (if is_end m first then (q.lines + 2 ^ 32 - 1) % 2 ^ 32 else q.lines)
  unfolding get
  get_lines = elim (Bool-cases (is_end m first)) [ inl e ↦ rw e refl | inr e ↦ rw e refl ]

  get-lines :
      q.lines ≡ ends m (oldest q) → q.lines < 2 ^ 32 → (get m q).lines ≡ ends m (oldest (get m q))
  unfolding ends oldest chars
  get-lines counted small =
      let c : q.lines ≡ ends m (first ∷ oldest (get m q)) =
        counted ∙ ap (λ l. ends m l) get-oldest in
      elim (Bool-cases (is_end m first)) [
        | inl e ↦
            let c' : q.lines ≡ suc (ends m (oldest (get m q))) = c ∙ rw e refl in
            rw (get_lines, e) (omega arith)
        | inr e ↦
            let c' : q.lines ≡ ends m (oldest (get m q)) = c ∙ rw e refl in rw (get_lines, e) c'
      ]

  get-chars : chars q ≡ suc (chars (get m q))
  get-chars =
      sym (length-oldest q) ∙ ap (λ l. length l) get-oldest ∙ ap suc (length-oldest (get m q))

ends-le : (m : Termios) (cs : List ℕ) → ends m cs ≤ length cs
unfolding ends
ends-le m [] = omega arith
ends-le m (c ∷ cs) = ground (arith, ends-le m cs)

small : (m : Termios) (q : TtyQueue) → q.lines ≡ ends m (oldest q) → q.lines < 2 ^ 32
small m q counted =
    let a = ends-le m (oldest q) in let b = length-oldest q in let c = chars_lt q in omega arith

oldest-empty : (q : TtyQueue) → IsQueue q → is_empty q ≡ true → oldest q ≡ []
unfolding oldest around
oldest-empty q ok e = let n : chars q ≡ 0 = let c = chars-empty q ok in ground arith in rw n refl

chars-pos : (q : TtyQueue) → IsQueue q → is_empty q ≡ false → 0 < chars q
chars-pos q ok e = let c = chars-empty q ok in ground arith

TakenOut-one :
    (m : Termios) (nr : ℕ) (q : TtyQueue) (ok : IsQueue q)
    → (there : 0 < chars q) → q.lines ≡ ends m (oldest q)
    → (t : Taken) → t.queue ≡ get m q
    → Took m t.at_eof t.bytes (q.buf q.tail ∷ [])
    → length t.bytes ≤ suc nr
    → (t.at_eof ≡ false → (length t.bytes ≡ suc nr) ⊎ (oldest t.queue ≡ []))
    → TakenOut m nr q t
TakenOut-one m nr q ok there counted t e took fits stop = record {
  characters = q.buf q.tail ∷ [];
  are_oldest = rw e (get-oldest m q ok there);
  are_taken = took;
  counted = rw e (get-lines m q ok there counted (small m q counted));
  pointers = rw e (get-IsQueue m q ok there);
  fits = fits;
  enough = stop;
}

TakenOut-more :
    (m : Termios) (nr : ℕ) (q : TtyQueue) (ok : IsQueue q)
    → 0 < chars q
    → (t : Taken) → TakenOut m nr (get m q) t
    → TakenOut m (suc nr) q (more_byte (q.buf q.tail) t)
TakenOut-more m nr q ok there t r = record {
  characters = q.buf q.tail ∷ r.characters;
  are_oldest = get-oldest m q ok there ∙ ap (λ l. q.buf q.tail ∷ l) r.are_oldest;
  are_taken = Took-cons m (q.buf q.tail) t.at_eof t.bytes r.characters r.are_taken;
  counted = r.counted;
  pointers = r.pointers;
  fits = omega (arith, r.fits);
  enough = λ e. elim (r.enough e) [ inl all ↦ inl (ap suc all) | inr none_left ↦ inr none_left ];
}

-- The characters that a reader takes are the oldest, in order: those before the end of a file, or as
-- many as it asked for, or all that there are; the line ends that stay are counted.
pub take_chars-TakenOut :
    (m : Termios) (nr : ℕ) (q : TtyQueue)
    → IsQueue q
    → 0 < chars q
    → q.lines ≡ ends m (oldest q)
    → TakenOut m nr q (take_chars m nr q)
unfolding take_chars
take_chars-TakenOut m zero q ok there counted =
    elim (Bool-cases (m.icanon && same (q.buf q.tail) m.veof)) [
      | inl e ↦ rw e (
          TakenOut-one m 0 q ok there counted _ refl (to_eof (q.buf q.tail) refl (ground arith))
            (omega arith) (λ f. absurd (cc f)))
      | inr e ↦
          rw e
            (TakenOut-one m 0 q ok there counted _ refl (whole refl) (omega arith) (λ f. inl refl))
    ]
take_chars-TakenOut m (suc nr) q ok there counted =
    elim (Bool-cases (m.icanon && same (q.buf q.tail) m.veof)) [
      | inl e ↦ rw e (
          TakenOut-one m (suc nr) q ok there counted _ refl
            (to_eof (q.buf q.tail) refl (ground arith)) (omega arith) (λ f. absurd (cc f)))
      | inr e ↦ elim (Bool-cases (is_empty (get m q))) [
        | inl none_left ↦
            rw (e, none_left)
              (TakenOut-one m (suc nr) q ok there counted _ refl (whole refl) (omega arith)
                (λ f. inr (oldest-empty (get m q) (get-IsQueue m q ok there) none_left)))
        | inr left_ ↦
            rw (e, left_)
              (TakenOut-more m nr q ok there _ (
                take_chars-TakenOut m nr (get m q) (get-IsQueue m q ok there)
                  (chars-pos (get m q) (get-IsQueue m q ok there) left_)
                  (get-lines m q ok there counted (small m q counted))))
      ]
    ]
