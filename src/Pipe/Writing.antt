-- ===== src/Pipe/Writing.antt =====
-- Writing to a pipe puts bytes behind those of the queue.
use linux_0_11_learning.Base.{
  ℕ, zero, suc, ◌+◌, ◌-◌, ◌%◌, ◌≤◌, ◌<◌, ◌≡◌, ◌≢◌, refl, sym, ap, ◌∙◌, inl, inr, some, List, [],
  ◌∷◌, ◌++◌, ◌==◌, false, arith, Bool-cases, length, take, drop, min, length-append, length-take,
  length-drop, append_assoc, append_nil, take-add, drop-add,
}
use linux_0_11_learning.Pipe.{
  Pipe, page_size, pipe_size, copy_in, Write, wrote, broken, waits, after, write_loop, write_pipe,
}
use linux_0_11_learning.Pipe.Fifo.{contents, IsPipe, push, contents-push, length-contents}

abbrev stored : List ℕ → Pipe → Pipe
stored bs p = record p { head = (p.head + length bs) % page_size; page = copy_in p.page p.head bs }

pipe_size-push :
    (b : ℕ) (p : Pipe)
    → contents (push b p) ≡ contents p ++ (b ∷ [])
    → pipe_size (push b p) ≡ suc (pipe_size p)
pipe_size-push b p e =
    sym (length-contents (push b p))
    ∙ ap (λ l. length l) e
    ∙ length-append (contents p) (b ∷ [])
    ∙ rw (length-contents p) (omega arith)

-- A round writes bytes behind the queue.
chunk :
    (bs : List ℕ) (p : Pipe)
    → IsPipe p
    → pipe_size p + length bs < page_size
    → p.head + length bs ≤ page_size
    → contents (stored bs p) ≡ contents p ++ bs
unfolding copy_in
chunk [] p ok le fits =
    let same : (p.head + 0) % page_size ≡ p.head = omega arith in rw (same, append_nil (contents p))
chunk (b ∷ []) p ok le fits = contents-push b p ok (omega arith)
chunk (b ∷ c ∷ bs) p ok le fits =
    let next : (p.head + 1) % page_size ≡ p.head + 1 = omega arith in
    let all : (p.head + 1 + length (c ∷ bs)) % page_size
        ≡ (p.head + length (b ∷ c ∷ bs)) % page_size =
      omega arith in
    let here = contents-push b p ok (omega arith) in
    let size = pipe_size-push b p here in
    let rest = chunk (c ∷ bs) (push b p) (omega arith, ok.1) (omega arith) (omega arith) in
    let step : contents (stored (b ∷ c ∷ bs) p) ≡ contents (stored (c ∷ bs) (push b p)) =
      rw (next, all) in
    step ∙ rest ∙ ap (λ l. l ++ (c ∷ bs)) here ∙ append_assoc (contents p) (b ∷ []) (c ∷ bs)

-- What a writer puts behind a queue: `n` of its bytes.
pub record Put (n : ℕ) (buf : List ℕ) (p p' : Pipe) : Type 0 where
  pub put : contents p' ≡ contents p ++ take n buf
  pub pointers : IsPipe p'
  pub users : p'.i_count ≡ p.i_count

-- A writer returns when all is written; with the pipe full it gets SIGPIPE where nobody can read,
-- and sleeps, with the other bytes to go, where somebody can.
pub data WriteIn (buf : List ℕ) (p : Pipe) : Write → Type 0 where
  all : {n : ℕ} {p' : Pipe} → n ≡ length buf → Put n buf p p' → WriteIn buf p (wrote n p')
  no_reader :
      {n : ℕ} {p' : Pipe}
      → n < length buf
      → pipe_size p + n ≡ page_size - 1
      → p.i_count ≢ 2
      → Put n buf p p'
      → WriteIn buf p (broken n p')
  full :
      {n : ℕ} {left : List ℕ} {p' : Pipe}
      → n < length buf
      → pipe_size p + n ≡ page_size - 1
      → p.i_count ≡ 2
      → left ≡ drop n buf
      → Put n buf p p'
      → WriteIn buf p (waits n left p')

module _ (b : ℕ) (bs : List ℕ) (p : Pipe) (ok : IsPipe p) (room : pipe_size p < page_size - 1) where
  abbrev whole : List ℕ
  whole = b ∷ bs

  abbrev chars : ℕ
  chars = min (page_size - 1 - pipe_size p) (min (length whole) (page_size - p.head))

  abbrev next : Pipe
  next = record p {
    head = (p.head + chars) % page_size;
    page = copy_in p.page p.head (take chars whole);
  }

  length-chars : length (take chars whole) ≡ chars
  length-chars = length-take chars whole ∙ omega arith

  next-stored : stored (take chars whole) p ≡ next
  next-stored =
      ap
        (λ (n : ℕ). record p {
          head = (p.head + n) % page_size;
          page = copy_in p.page p.head (take chars whole);
        })
        length-chars

  contents-next : contents next ≡ contents p ++ take chars whole
  contents-next =
      let len = length-chars in
      ap contents (sym next-stored) ∙ chunk (take chars whole) p ok (omega arith) (omega arith)

  size : pipe_size next ≡ pipe_size p + chars
  size =
      sym (length-contents next)
      ∙ ap (λ l. length l) contents-next
      ∙ length-append (contents p) (take chars whole)
      ∙ rw (length-contents p, length-chars)

  Put-after : {n : ℕ} {p' : Pipe} → Put n (drop chars whole) next p' → Put (chars + n) whole p p'
  Put-after {n} t = record {
    put =
        t.put
        ∙ ap (λ l. l ++ take n (drop chars whole)) contents-next
        ∙ append_assoc (contents p) (take chars whole) (take n (drop chars whole))
        ∙ rw (take-add chars n whole);
    pointers = t.pointers;
    users = t.users;
  }

  WriteIn-after :
      (w : Write)
      → WriteIn (drop chars whole) next w
      → (w' : Write) × (after chars (some w) ≡ some w') × WriteIn whole p w'
  WriteIn-after (wrote n p') (all e t) =
      let rest = length-drop chars whole in
      (wrote (chars + n) p', refl, WriteIn.all (omega arith) (Put-after t))
  WriteIn-after (broken n p') (no_reader lt e other t) =
      let rest = length-drop chars whole in
      let s = size in
      (
        broken (chars + n) p',
        refl,
        WriteIn.no_reader (omega arith) (omega arith) other (Put-after t),
      )
  WriteIn-after (waits n left p') (full lt e two l t) =
      let rest = length-drop chars whole in
      let s = size in
      (
        waits (chars + n) left p',
        refl,
        WriteIn.full (omega arith) (omega arith) two (l ∙ sym (drop-add chars n whole))
            (Put-after t),
      )

  write_loop-suc :
      (fuel : ℕ)
      → write_loop (suc fuel) whole p ≡ after chars (write_loop fuel (drop chars whole) next)
  unfolding write_loop
  write_loop-suc fuel =
      let more : (page_size - 1 - pipe_size p == 0) ≡ false = ground arith in rw more

Put-nothing : (buf : List ℕ) (p : Pipe) → IsPipe p → Put 0 buf p p
Put-nothing buf p ok = record { put = sym (append_nil (contents p)); pointers = ok; users = refl }

pipe_size-lt : (p : Pipe) → pipe_size p < page_size
unfolding pipe_size
pipe_size-lt p = omega arith

write_loop-WriteIn :
    (fuel : ℕ) (buf : List ℕ) (p : Pipe)
    → length buf < fuel
    → IsPipe p
    → (w : Write) × (write_loop fuel buf p ≡ some w) × WriteIn buf p w
unfolding write_loop
write_loop-WriteIn zero buf p h ok = absurd (omega arith)
write_loop-WriteIn (suc fuel) [] p h ok = (wrote 0 p, refl, WriteIn.all refl (Put-nothing [] p ok))
write_loop-WriteIn (suc fuel) (b ∷ bs) p h ok =
    elim (Bool-cases (page_size - 1 - pipe_size p == 0)) [
      | inl no_room ↦
          let t = Put-nothing (b ∷ bs) p ok in
          let lt = pipe_size-lt p in
          let size' : pipe_size p + 0 ≡ page_size - 1 = ground arith in
          elim (Bool-cases (p.i_count == 2)) [
            | inl both ↦ (
              waits 0 (b ∷ bs) p,
              rw (no_room, both),
              WriteIn.full (omega arith) size' (ground arith) refl t,
            )
            | inr closed ↦ (
              broken 0 p,
              rw (no_room, closed),
              WriteIn.no_reader (omega arith) size' (ground arith) t,
            )
          ]
      | inr more ↦
          let room : pipe_size p < page_size - 1 = ground arith in
          let n = chars b bs p ok room in
          let rest = length-drop n (b ∷ bs) in
          let (w, run, inside) =
            write_loop-WriteIn fuel (drop n (b ∷ bs)) (next b bs p ok room) (omega arith)
              (omega arith, ok.1) in
          let (w', run', inside') = WriteIn-after b bs p ok room w inside in
          (w', write_loop-suc b bs p ok room fuel ∙ rw run run', inside')
    ]

-- `write_pipe` returns or sleeps. It has then put the first bytes of the buffer behind those of the
-- pipe, and no byte of the pipe is lost. It returns with all written, or, the pipe full, gets SIGPIPE
-- only where the other end is closed, and sleeps, with the other bytes to go, only where it is open.
pub write_pipe-WriteIn :
    (buf : List ℕ) (p : Pipe)
    → IsPipe p
    → (w : Write) × (write_pipe buf p ≡ some w) × WriteIn buf p w
unfolding write_pipe
write_pipe-WriteIn buf p ok = write_loop-WriteIn (length buf + 1) buf p (omega arith) ok
