-- ===== src/Pipe/Reading.antt =====
-- Reading from a pipe takes the oldest bytes of the queue.
use linux_0_11_learning.Base.{
  ℕ, zero, suc, ◌+◌, ◌-◌, ◌%◌, ◌≤◌, ◌<◌, ◌≡◌, ◌≢◌, ◌⊎◌, refl, sym, ap, ◌∙◌, inl, inr, some, List,
  [], ◌∷◌, ◌++◌, ◌==◌, false, arith, Bool-cases, length, take, drop, min, length-append,
  take-append, drop-append, take_all, drop_all,
}
use linux_0_11_learning.Pipe.{
  Pipe, page_size, pipe_size, copy_out, Read, returns, sleeps, behind, read_loop, read_pipe,
}
use linux_0_11_learning.Pipe.Fifo.{
  contents, IsPipe, pop, contents-pop, length-contents, contents-empty,
}

pipe_size-contents :
    (p p' : Pipe) (xs : List ℕ)
    → contents p ≡ xs ++ contents p'
    → pipe_size p ≡ length xs + pipe_size p'
pipe_size-contents p p' xs e =
    sym (length-contents p)
    ∙ ap (λ l. length l) e
    ∙ length-append xs (contents p')
    ∙ rw (length-contents p')

length-copy_out : (page : ℕ → ℕ) (i n : ℕ) → length (copy_out page i n) ≡ n
unfolding copy_out
length-copy_out page i zero = refl
length-copy_out page i (suc n) = ap suc (length-copy_out page (i + 1) n)

abbrev advance : ℕ → Pipe → Pipe
advance n p = record p { tail = (p.tail + n) % page_size }

-- A round reads the first bytes of the queue, and takes them off.
chunk :
    (n : ℕ) (p : Pipe)
    → IsPipe p
    → n ≤ pipe_size p
    → p.tail + n ≤ page_size
    → contents p ≡ copy_out p.page p.tail n ++ contents (advance n p)
unfolding copy_out
chunk zero p ok le fits = let same : (p.tail + 0) % page_size ≡ p.tail = omega arith in rw same
chunk (suc zero) p ok le fits = contents-pop p ok le
chunk (suc (suc n)) p ok le fits =
    let next : (p.tail + 1) % page_size ≡ p.tail + 1 = omega arith in
    let all : (p.tail + 1 + suc n) % page_size ≡ (p.tail + suc (suc n)) % page_size = omega arith in
    let here = contents-pop p ok (omega arith) in
    let size = pipe_size-contents p (pop p) (p.page p.tail ∷ []) here in
    let rest = chunk (suc n) (pop p) (ok.0, omega arith) (omega arith) (omega arith) in
    here ∙ ap (λ l. p.page p.tail ∷ l) (rest ∙ rw (next, all))

-- What a reader of `count` bytes gets of a queue, and what it leaves.
pub record Taken (count : ℕ) (p : Pipe) (bytes : List ℕ) (p' : Pipe) : Type 0 where
  pub got : bytes ≡ take count (contents p)
  pub left : contents p' ≡ drop count (contents p)
  pub pointers : IsPipe p'
  pub users : p'.i_count ≡ p.i_count

-- A reader returns with all that it asked for, or with what there was where nobody can write; it
-- sleeps where there was less and somebody can.
pub data ReadOut (count : ℕ) (p : Pipe) : Read → Type 0 where
  full :
      {bytes : List ℕ} {p' : Pipe}
      → count ≤ pipe_size p
      → Taken count p bytes p'
      → ReadOut count p (returns bytes p')
  ended :
      {bytes : List ℕ} {p' : Pipe}
      → pipe_size p < count
      → p.i_count ≢ 2
      → Taken count p bytes p'
      → ReadOut count p (returns bytes p')
  empty :
      {bytes : List ℕ} {left : ℕ} {p' : Pipe}
      → pipe_size p < count
      → left ≡ count - pipe_size p
      → p.i_count ≡ 2
      → Taken count p bytes p'
      → ReadOut count p (sleeps bytes left p')

module _ (c : ℕ) (p : Pipe) (ok : IsPipe p) (some_there : 0 < pipe_size p) where
  abbrev chars : ℕ
  chars = min (pipe_size p) (min (suc c) (page_size - p.tail))

  abbrev got : List ℕ
  got = copy_out p.page p.tail chars

  next : contents p ≡ got ++ contents (advance chars p)
  next = chunk chars p ok (omega arith) (omega arith)

  size : pipe_size p ≡ chars + pipe_size (advance chars p)
  size = pipe_size-contents p (advance chars p) got next ∙ rw (length-copy_out p.page p.tail chars)

  Taken-behind :
      {bytes : List ℕ} {p' : Pipe}
      → Taken (suc c - chars) (advance chars p) bytes p'
      → Taken (suc c) p (got ++ bytes) p'
  Taken-behind t =
      let len = length-copy_out p.page p.tail chars in
      record {
        got =
            let fits : length got ≤ suc c = omega arith in
            ap (λ l. got ++ l) t.got
            ∙ rw (next, take-append got (contents (advance chars p)) (suc c) fits, len);
        left =
            let fits : length got ≤ suc c = omega arith in
            t.left ∙ rw (next, drop-append got (contents (advance chars p)) (suc c) fits, len);
        pointers = t.pointers;
        users = t.users;
      }

  ReadOut-behind :
      (r : Read)
      → ReadOut (suc c - chars) (advance chars p) r
      → (r' : Read) × (behind got (some r) ≡ some r') × ReadOut (suc c) p r'
  ReadOut-behind (returns bytes p') (full le t) =
      (returns (got ++ bytes) p', refl, ReadOut.full (let s = size in omega arith) (Taken-behind t))
  ReadOut-behind (returns bytes p') (ended lt other t) = (
    returns (got ++ bytes) p',
    refl,
    ReadOut.ended (let s = size in omega arith) other (Taken-behind t),
  )
  ReadOut-behind (sleeps bytes left p') (empty lt e two t) = (
    sleeps (got ++ bytes) left p',
    refl,
    ReadOut.empty (let s = size in omega arith) (let s = size in omega arith) two (Taken-behind t),
  )

  read_loop-suc :
      (fuel : ℕ)
      → read_loop (suc fuel) (suc c) p
        ≡ behind got (read_loop fuel (suc c - chars) (advance chars p))
  unfolding read_loop
  read_loop-suc fuel = let more : (pipe_size p == 0) ≡ false = ground arith in rw more

Taken-nothing :
    (count : ℕ) (p : Pipe) → IsPipe p → (count ≡ 0) ⊎ (pipe_size p ≡ 0) → Taken count p [] p
Taken-nothing count p ok (inl e) =
    rw e (record { got = refl; left = refl; pointers = ok; users = refl })
Taken-nothing count p ok (inr e) =
    let none_there = contents-empty p e in
    record {
      got = rw none_there (sym (take_all [] count (omega arith)));
      left = rw none_there (sym (drop_all [] count (omega arith)));
      pointers = ok;
      users = refl;
    }

read_loop-ReadOut :
    (fuel count : ℕ) (p : Pipe)
    → count < fuel
    → IsPipe p
    → (r : Read) × (read_loop fuel count p ≡ some r) × ReadOut count p r
unfolding read_loop
read_loop-ReadOut zero count p h ok = absurd (omega arith)
read_loop-ReadOut (suc fuel) zero p h ok =
    (returns [] p, refl, ReadOut.full (omega arith) (Taken-nothing 0 p ok (inl refl)))
read_loop-ReadOut (suc fuel) (suc c) p h ok = elim (Bool-cases (pipe_size p == 0)) [
  | inl none_there ↦
      let t = Taken-nothing (suc c) p ok (inr (ground arith)) in
      elim (Bool-cases (p.i_count == 2)) [
        | inl both ↦ (
          sleeps [] (suc c) p,
          rw (none_there, both),
          ReadOut.empty (ground arith) (ground arith) (ground arith) t,
        )
        | inr closed ↦
            (returns [] p, rw (none_there, closed), ReadOut.ended (ground arith) (ground arith) t)
      ]
  | inr more ↦
      let n = chars c p ok (ground arith) in
      let there : 0 < pipe_size p = ground arith in
      let (r, run, out) =
        read_loop-ReadOut fuel (suc c - n) (advance n p) (omega arith) (ok.0, omega arith) in
      let (r', run', out') = ReadOut-behind c p ok there r out in
      (r', read_loop-suc c p ok there fuel ∙ rw run run', out')
]

-- `read_pipe` returns or sleeps. It has then read the oldest bytes of the pipe, as many as it was
-- asked for or as there were, and the others are left in the pipe. It returns with fewer only where
-- the other end is closed, and sleeps, with the rest to go, only where there were fewer and the
-- other end is open.
pub read_pipe-ReadOut :
    (count : ℕ) (p : Pipe)
    → IsPipe p
    → (r : Read) × (read_pipe count p ≡ some r) × ReadOut count p r
unfolding read_pipe
read_pipe-ReadOut count p ok = read_loop-ReadOut (count + 1) count p (omega arith) ok
