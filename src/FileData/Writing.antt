-- ===== src/FileData/Writing.antt =====
-- `file_write` stores bytes block by block, which stores them byte by byte in the file.
use mathlib.Core.Path.{fun_ext}
use linux_0_11_learning.Base.Int.{ℤ, pos, negsuc}
use linux_0_11_learning.Base.{
  ℕ, zero, suc, ◌+◌, ◌-◌, ◌/◌, ◌%◌, ◌<◌, ◌≡◌, ◌≢◌, refl, sym, ap, ◌∙◌, ◌⊎◌, inl, inr, Bool, true,
  false, not, List, [], ◌∷◌, ◌++◌, ◌==◌, if◌then◌else◌, min, max, arith, length, take, drop,
  length-take, length-drop, length-append, append_assoc, take-append-drop,
}
use linux_0_11_learning.FileData.{
  File, block_size, create_block, store, put_chunk, write_loop, file_write,
}
use linux_0_11_learning.FileData.Storing.{
  content, IsFile, store-append, put_chunk-content, put_chunk-IsFile, Made, made, none_free,
  create_block-Made,
}

-- The bytes that were written, in order, are those of the file from the position on; its other bytes
-- are as before; it reaches behind them; and all were written unless no block is free.
pub record Written (p : ℕ) (buf : List ℕ) (s : File) (r : List ℕ × File) : Type 0 where
  pub done : List ℕ
  pub whole : buf ≡ done ++ r.0
  pub bytes : (q : ℕ) → content r.1 q ≡ store (content s) p done q
  pub size : r.1.i_size ≡ (if length done == 0 then s.i_size else max s.i_size (p + length done))
  pub stops : (r.0 ≡ []) ⊎ (r.1.free ≡ [])
  pub file : IsFile r.1

Written-nothing :
    (p : ℕ) (buf : List ℕ) (s : File)
    → IsFile s
    → (buf ≡ []) ⊎ (s.free ≡ [])
    → Written p buf s (buf, s)
unfolding store
Written-nothing p buf s ok stops = record {
  done = [];
  whole = refl;
  bytes = λ q. refl;
  size = refl;
  stops = stops;
  file = ok;
}

module _ (p block : ℕ) (buf : List ℕ) (s s' : File) where
  abbrev c : ℕ
  c = min (block_size - p % block_size) (length buf)

  abbrev stored : File
  stored = put_chunk block p (take c buf) s'

  stored-size : stored.i_size ≡ max s'.i_size (p + length (take c buf))
  unfolding put_chunk
  stored-size = ground arith

  Written-chunk :
      (r : List ℕ × File)
      → 0 < length buf
      → block ≢ 0
      → s'.zone (p / block_size) ≡ block
      → IsFile s'
      → ((q : ℕ) → content s' q ≡ content s q)
      → s'.i_size ≡ s.i_size
      → Written (p + c) (drop c buf) stored r
      → Written p buf s r
  Written-chunk r some_ nz e ok same size w =
      let len : length (take c buf) ≡ c = length-take c buf ∙ omega arith in
      let now_ : content stored ≡ store (content s') p (take c buf) =
        fun_ext
          (λ q. put_chunk-content s' ok block p q (take c buf) nz (sym e) (rw len (omega arith))) in
      let before : content s' ≡ content s = fun_ext same in
      let all = take-append-drop c buf in
      record {
        done = take c buf ++ w.done;
        whole =
            sym all
            ∙ ap (λ l. take c buf ++ l) w.whole
            ∙ sym (append_assoc (take c buf) w.done r.0);
        bytes = λ q.
            w.bytes q ∙ rw (now_, before, store-append (take c buf) w.done (content s) p, len) refl;
        size =
            let l : length (take c buf ++ w.done) ≡ c + length w.done =
              length-append (take c buf) w.done ∙ rw len refl in
            let z = stored-size in rw (l, w.size, z, size, len) (ground arith);
        stops = w.stops;
        file = w.file;
      }

abbrev write_on : (fuel now p : ℕ) → (buf : List ℕ) → ℕ × File → List ℕ × File
write_on fuel now p buf r =
    let n = min (block_size - p % block_size) (length buf) in
    let rest = write_loop fuel now (p + n) (drop n buf) (put_chunk r.0 p (take n buf) r.1) in
    if r.0 == 0 then (buf, r.1) else if not (r.1.readable r.0) then (buf, r.1) else rest

write_loop-Written :
    (fuel now p : ℕ) (buf : List ℕ) (s : File)
    → length buf < fuel
    → IsFile s
    → Written p buf s (write_loop fuel now p buf s)
unfolding write_loop
write_loop-Written zero now p buf s h ok = absurd (omega arith)
write_loop-Written (suc fuel) now p [] s h ok = Written-nothing p [] s ok (inl refl)
write_loop-Written (suc fuel) now p (x ∷ xs) s h ok =
    let some_ : (length (x ∷ xs) == 0) ≡ false = ground arith in
    let r = create_block now (p / block_size) s in
    rw some_ (
      on (λ p' buf' s' h' ok'. write_loop-Written fuel now p' buf' s' h' ok') r
        (create_block-Made now (p / block_size) s ok s.free refl))
  where
    on :
        ((p' : ℕ) (buf' : List ℕ) (s' : File)
          → length buf' < fuel
          → IsFile s'
          → Written p' buf' s' (write_loop fuel now p' buf' s'))
        → (r : ℕ × File) → Made (p / block_size) s r
        → Written p (x ∷ xs) s (write_on fuel now p (x ∷ xs) r)
    on ih (b, s1) (none_free e) = Written-nothing p (x ∷ xs) s ok (inr e)
    on ih (b, s1) (made nz e ok1 same size) =
        let there : (b == 0) ≡ false = ground arith in
        let n = c p b (x ∷ xs) s s1 in
        rw (there, ok1.can_read b)
          (Written-chunk p b (x ∷ xs) s s1 _ (omega arith) nz e ok1 same size (
            ih (p + n) (drop n (x ∷ xs)) (stored p b (x ∷ xs) s s1)
              (let l = length-drop n (x ∷ xs) in omega arith)
              (put_chunk-IsFile s1 ok1 b p (take n (x ∷ xs)))))

-- What `file_write` has done.
pub record FileWritten (buf : List ℕ) (s : File) (r : ℤ × File) : Type 0 where
  pub done : List ℕ
  pub left : List ℕ
  pub whole : buf ≡ done ++ left
  pub bytes :
      (q : ℕ) → content r.1 q ≡ store (content s) (if s.o_append then s.i_size else s.f_pos) done q
  pub stops : (left ≡ []) ⊎ (r.1.free ≡ [])
  pub result : r.0 ≡ (if length done == 0 then negsuc 0 else pos (length done))
  pub position : s.o_append ≡ false → r.1.f_pos ≡ s.f_pos + length done
  pub file : IsFile r.1

abbrev ended : (now start : ℕ) → (append : Bool) → (buf : List ℕ) → List ℕ × File → ℤ × File
ended now start append buf (left, s1) =
    let written = length buf - length left in
    let s2 = record s1 { i_mtime = now } in
    (
      if written == 0 then negsuc 0 else pos written,
      if append then s2 else record s2 { f_pos = start + written; i_ctime = now },
    )

length-done :
    (start : ℕ) (buf : List ℕ) (s : File) (r : List ℕ × File)
    → (w : Written start buf s r) → length buf - length r.0 ≡ length w.done
length-done start buf s r w =
    let l : length buf ≡ length w.done + length r.0 =
      ap (λ l. length l) w.whole ∙ length-append w.done r.0 in
    omega arith

ended-FileWritten :
    (now start : ℕ) (append : Bool) (buf : List ℕ) (s : File) (r : List ℕ × File)
    → s.o_append ≡ append
    → start ≡ (if append then s.i_size else s.f_pos)
    → Written start buf s r
    → FileWritten buf s (ended now start append buf r)
unfolding content
ended-FileWritten now start true buf s (left, s1) a e w = record {
  done = w.done;
  left = left;
  whole = w.whole;
  bytes = λ q. w.bytes q ∙ rw (a, e) refl;
  stops = w.stops;
  result = rw (length-done start buf s (left, s1) w) refl;
  position = λ b. absurd (cc (a, b));
  file = record { distinct = w.file.distinct; fresh = w.file.fresh; can_read = w.file.can_read };
}
ended-FileWritten now start false buf s (left, s1) a e w = record {
  done = w.done;
  left = left;
  whole = w.whole;
  bytes = λ q. w.bytes q ∙ rw (a, e) refl;
  stops = w.stops;
  result = rw (length-done start buf s (left, s1) w) refl;
  position = λ b. rw (length-done start buf s (left, s1) w, e) refl;
  file = record { distinct = w.file.distinct; fresh = w.file.fresh; can_read = w.file.can_read };
}

-- Where every block can be read, `file_write` writes the first bytes of the buffer, from the position
-- on, or from the end of the file where it appends: they are then the bytes of the file there, and its
-- other bytes are as before. All are written, or no block is free. It returns how many were written,
-- or -1 for none, and the position of a file that does not append goes on behind them.
pub file_write-FileWritten :
    (now : ℕ) (buf : List ℕ) (s : File) → IsFile s → FileWritten buf s (file_write now buf s)
unfolding file_write
file_write-FileWritten now buf s ok =
    let start = if s.o_append then s.i_size else s.f_pos in
    ended-FileWritten now start s.o_append buf s _ refl refl
      (write_loop-Written (length buf + 1) now start buf s (omega arith) ok)
