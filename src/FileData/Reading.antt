-- ===== src/FileData/Reading.antt =====
-- `file_read` reads block by block what the file has byte by byte.
use linux_0_11_learning.Base.{
  ℕ, zero, suc, ◌+◌, ◌-◌, ◌/◌, ◌%◌, ◌≤◌, ◌<◌, ◌≡◌, refl, sym, ap, ◌∙◌, false, Option, none, some,
  List, [], ◌∷◌, ◌++◌, ◌==◌, if◌then◌else◌, min, arith, Bool-cases, inl, inr, length,
}
use linux_0_11_learning.Base.Int.{ℤ, pos, negsuc}
use linux_0_11_learning.FileData.{File, block_size, chunk, unreadable, read_loop, file_read}

-- The byte of the file at a position: 0 in a hole; none where the block cannot be read.
abbrev pub byte_at : File → ℕ → Option ℕ
byte_at s p =
    let nr = s.zone (p / block_size) in
    if unreadable s nr then none else some (if nr == 0 then 0 else s.byte nr (p % block_size))

abbrev pub before_rest : Option ℕ → List ℕ → List ℕ
before_rest none rest = []
before_rest (some b) rest = b ∷ rest

-- The next bytes of the file, up to the first that cannot be read.
unfoldable pub bytes_of : File → (p n : ℕ) → List ℕ
bytes_of s p zero = []
bytes_of s p (suc n) = before_rest (byte_at s p) (bytes_of s (p + 1) n)

module _ (s : File) where
  -- The bytes of one block.
  chunk-suc :
      (nr k n : ℕ)
      → chunk s nr k (suc n) ≡ (if nr == 0 then 0 else s.byte nr k) ∷ chunk s nr (k + 1) n
  unfolding chunk
  chunk-suc nr k n = elim (Bool-cases (nr == 0)) [ inl e ↦ rw e refl | inr e ↦ rw e refl ]

  chunk-zero : (nr k : ℕ) → chunk s nr k 0 ≡ []
  unfolding chunk
  chunk-zero nr k = elim (Bool-cases (nr == 0)) [ inl e ↦ rw e refl | inr e ↦ rw e refl ]

  bytes_of-chunk :
      (nr p c n : ℕ)
      → nr ≡ s.zone (p / block_size)
      → unreadable s nr ≡ false
      → c ≤ block_size - p % block_size
      → bytes_of s p (c + n) ≡ chunk s nr (p % block_size) c ++ bytes_of s (p + c) n
  unfolding bytes_of
  bytes_of-chunk nr p zero n e can le =
      let e0 : 0 + n ≡ n = omega arith in
      let e1 : p + 0 ≡ p = omega arith in rw (chunk-zero nr (p % block_size), e0, e1) refl
  bytes_of-chunk nr p (suc zero) n e can le =
      let e0 : suc zero + n ≡ suc n = omega arith in
      rw (e0, chunk-suc nr (p % block_size) 0, chunk-zero nr (p % block_size + 1), ← e, can) refl
  bytes_of-chunk nr p (suc (suc c)) n e can le =
      let e0 : suc (suc c) + n ≡ suc (suc c + n) = omega arith in
      let next : (p + 1) % block_size ≡ p % block_size + 1 = omega arith in
      let same : (p + 1) / block_size ≡ p / block_size = omega arith in
      let e1 : p + suc (suc c) ≡ p + 1 + suc c = omega arith in
      let ih = bytes_of-chunk nr (p + 1) (suc c) n (rw same e) can (omega arith) in
      rw (e0, e1, chunk-suc nr (p % block_size) (suc c), ← e, can, ih, next) refl

  read_loop-bytes_of : (fuel p left : ℕ) → left < fuel → read_loop fuel s p left ≡ bytes_of s p left
  unfolding read_loop bytes_of
  read_loop-bytes_of zero p left h = absurd (omega arith)
  read_loop-bytes_of (suc fuel) p left h = elim (Bool-cases (left == 0)) [
    | inl e ↦ let z : left ≡ 0 = ground arith in rw z refl
    | inr more ↦
        let nr = s.zone (p / block_size) in
        elim (Bool-cases (unreadable s nr)) [
          | inl lost ↦
              let one : left ≡ suc (left - 1) = ground arith in
              let stops : bytes_of s p left ≡ [] = rw (one, bytes_of, lost) refl in
              rw (more, lost, stops) refl
          | inr can ↦
              let c = min (block_size - p % block_size) left in
              let n : left ≡ c + (left - c) = omega arith in
              let pos_ : 0 < c = ground arith in
              let ih = read_loop-bytes_of fuel (p + c) (left - c) (omega arith) in
              let whole = bytes_of-chunk nr p c (left - c) refl can (omega arith) in
              rw (more, can, ih) (sym whole ∙ ap (λ k. bytes_of s p k) (sym n))
        ]
  ]

-- What a read gives: the bytes of the file from the position on, as many as were asked for or as
-- there are before a block that cannot be read; the position goes on behind them, and the access time
-- is set. A read that gets none of the bytes that it was asked for fails.
pub record ReadBytes (now count : ℕ) (s : File) (r : List ℕ × ℤ × File) : Type 0 where
  pub bytes : r.0 ≡ bytes_of s s.f_pos count
  pub failed : 0 < count → length r.0 ≡ 0 → r.1 ≡ negsuc 98
  pub done : 0 < length r.0 → r.1 ≡ pos (length r.0)
  pub file : 0 < count → r.2 ≡ record s { f_pos = s.f_pos + length r.0; i_atime = now }
  pub same : count ≡ 0 → r.2 ≡ s

-- `file_read`, which copies block by block, returns what the file has byte by byte.
pub file_read-ReadBytes : (now count : ℕ) (s : File) → ReadBytes now count s (file_read now count s)
unfolding file_read
file_read-ReadBytes now zero s = record {
  bytes = unfold bytes_of in refl;
  failed = λ h. absurd (omega arith);
  done = λ h. absurd (omega arith);
  file = λ h. absurd (omega arith);
  same = λ e. refl;
}
file_read-ReadBytes now (suc n) s =
    let got = read_loop (suc n + 1) s s.f_pos (suc n) in
    let nonzero : (suc n == 0) ≡ false = ground arith in
    rw nonzero (record {
      bytes = read_loop-bytes_of s (suc n + 1) s.f_pos (suc n) (omega arith);
      failed = λ h e. rw e refl;
      done = λ h. let some_ : (length got == 0) ≡ false = ground arith in rw some_ refl;
      file = λ h. refl;
      same = λ e. absurd (omega arith);
    })
