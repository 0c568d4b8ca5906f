-- ===== src/Pipe/Fifo.antt =====
-- The bytes of a pipe as a queue: what one byte more at the head, or one less at the tail, does.
use linux_0_11_learning.Base.{
  ℕ, zero, suc, ◌+◌, ◌-◌, ◌%◌, ◌<◌, ◌≡◌, ◌≢◌, refl, ap, ◌∙◌, List, [], ◌∷◌, ◌++◌, ◌==◌, false,
  arith, length,
}
use linux_0_11_learning.Pipe.{Pipe, page_size, pipe_size, update}

-- The `n` bytes from `i` on, going round the page.
unfoldable pub around : (ℕ → ℕ) → (i n : ℕ) → List ℕ
around page i zero = []
around page i (suc n) = page i ∷ around page ((i + 1) % page_size) n

-- The bytes of the pipe, the oldest first.
unfoldable pub contents : Pipe → List ℕ
unfolding around
contents p = around p.page p.tail (pipe_size p)

-- The pointers are in the page.
abbrev pub IsPipe : Pipe → Type 0
IsPipe p = (p.head < page_size) × (p.tail < page_size)

length-around : (page : ℕ → ℕ) (i n : ℕ) → length (around page i n) ≡ n
unfolding around
length-around page i zero = refl
length-around page i (suc n) = ap suc (length-around page ((i + 1) % page_size) n)

pub length-contents : (p : Pipe) → length (contents p) ≡ pipe_size p
unfolding contents
length-contents p = length-around p.page p.tail (pipe_size p)

pub contents-empty : (p : Pipe) → pipe_size p ≡ 0 → contents p ≡ []
unfolding contents around
contents-empty p e = rw e

abbrev pub pop : Pipe → Pipe
pop p = record p { tail = (p.tail + 1) % page_size }

pipe_size-pop : (p : Pipe) → IsPipe p → 0 < pipe_size p → pipe_size p ≡ suc (pipe_size (pop p))
unfolding pipe_size
pipe_size-pop p ok h = omega arith

pub contents-pop :
    (p : Pipe) → IsPipe p → 0 < pipe_size p → contents p ≡ p.page p.tail ∷ contents (pop p)
unfolding contents around
contents-pop p ok h = ap (λ n. around p.page p.tail n) (pipe_size-pop p ok h)

around-last :
    (page : ℕ → ℕ) (i n : ℕ)
    → i < page_size
    → around page i (suc n) ≡ around page i n ++ (page ((i + n) % page_size) ∷ [])
unfolding around
around-last page i zero h = let e : (i + 0) % page_size ≡ i = omega arith in rw e
around-last page i (suc n) h =
    let e : ((i + 1) % page_size + n) % page_size ≡ (i + suc n) % page_size = omega arith in
    ap (λ l. page i ∷ l) (around-last page ((i + 1) % page_size) n (omega arith) ∙ rw e)

around-update :
    (page : ℕ → ℕ) (h b i n : ℕ)
    → i < page_size
    → ((k : ℕ) → k < n → h ≢ (i + k) % page_size)
    → around (update page h b) i n ≡ around page i n
unfolding around
around-update page h b i zero lt out = refl
around-update page h b i (suc n) lt out =
    let other : (h == i) ≡ false = let o = out 0 (omega arith) in ground arith in
    rw (
      other,
      around-update page h b ((i + 1) % page_size) n (omega arith)
          (λ k lt'. let o = out (suc k) (omega arith) in omega arith),
    )

abbrev pub push : ℕ → Pipe → Pipe
push b p = record p { head = (p.head + 1) % page_size; page = update p.page p.head b }

pipe_size-push :
    (b : ℕ) (p : Pipe)
    → IsPipe p
    → pipe_size p < page_size - 1
    → pipe_size (push b p) ≡ suc (pipe_size p)
unfolding pipe_size
pipe_size-push b p ok h = omega arith

head-size : (p : Pipe) → IsPipe p → (p.tail + pipe_size p) % page_size ≡ p.head
unfolding pipe_size
head-size p ok = omega arith

head-free :
    (p : Pipe) (k : ℕ)
    → IsPipe p
    → pipe_size p < page_size
    → k < pipe_size p
    → p.head ≢ (p.tail + k) % page_size
unfolding pipe_size
head-free p k ok h lt = omega arith

pub contents-push :
    (b : ℕ) (p : Pipe)
    → IsPipe p
    → pipe_size p < page_size - 1
    → contents (push b p) ≡ contents p ++ (b ∷ [])
unfolding contents
contents-push b p ok h =
    let page' = update p.page p.head b in
    let end : (p.tail + pipe_size p) % page_size ≡ p.head = head-size p ok in
    let same =
      around-update p.page p.head b p.tail (pipe_size p) ok.1
        (λ k lt. head-free p k ok (omega arith) lt) in
    let stored : page' p.head ≡ b = ground arith in
    ap (λ n. around page' p.tail n) (pipe_size-push b p ok h)
    ∙ around-last page' p.tail (pipe_size p) ok.1
    ∙ rw (end, same, stored)
