-- ===== src/Truncate/Names.antt =====
-- What a file names: the blocks that `bmap` finds, and the blocks of block numbers on the way to them.
use linux_0_11_learning.Base.{
  ℕ, zero, suc, ◌+◌, ◌*◌, ◌/◌, ◌%◌, ◌≡◌, ◌≢◌, refl, sym, ap, ◌∙◌, Bool, true, false, List, [], ◌∷◌,
  ◌++◌, ◌==◌, if◌then◌else◌, arith, Bool-cases, inl, inr, count, count-append, how_many,
  how_many-add, how_many-agree, how_many-none,
}
use linux_0_11_learning.Inode.{File}
use linux_0_11_learning.Inode.Lookup.{named}
use linux_0_11_learning.Truncate.{entries_loop, free_ind, free_dind}

abbrev pub once : Bool → ℕ
once true = 1
once false = 0

pub how_many-suc :
    (f : ℕ → ℕ) (x i n : ℕ) → how_many f x i (suc n) ≡ once (f i == x) + how_many f x (i + 1) n
unfolding how_many
how_many-suc f x i n = ground arith

module _ (readable : ℕ → Bool) (s : File) where
  -- What is found through the entries of a block of blocks of block numbers.
  abbrev pub through_two : (block m : ℕ) → ℕ
  through_two block m = named readable s (named readable s block (m / 512)) (m % 512)

module _ (readable : ℕ → Bool) (s : File) (x : ℕ) (some_block : x ≢ 0) where
  -- An absent block names nothing.
  named-none : (n : ℕ) → how_many (named readable s 0) x 0 n ≡ 0
  named-none n = how_many-none (named readable s 0) x 0 n (λ k. ground arith)

  loop-count :
      (block i n : ℕ)
      → count x (entries_loop readable s.entry (λ z. z ∷ []) block i n)
        ≡ how_many (s.entry block) x i n
  unfolding entries_loop count how_many
  loop-count block i zero = refl
  loop-count block i (suc n) =
      let h = loop-count block (i + 1) n in
      elim (Bool-cases (s.entry block i == 0)) [
        | inl z ↦ let off : (s.entry block i == x) ≡ false = ground arith in rw (z, off) h
        | inr nz ↦ rw nz (ground (arith, h))
      ]

  -- A block of block numbers is freed after the blocks that are freed for its entries, unless it is
  -- absent.
  freed-count :
      (block : ℕ) (for_entries : List ℕ) (named : ℕ)
      → (block ≡ 0 → named ≡ 0)
      → (readable block ≡ false → named ≡ 0)
      → (readable block ≡ true → (block == 0) ≡ false → count x for_entries ≡ named)
      → count x
          (if block == 0 then [] else (if readable block then for_entries else []) ++ block ∷ [])
        ≡ named + once (block == x)
  unfolding count
  freed-count block for_entries named absent lost there = elim (Bool-cases (block == 0)) [
    | inl z ↦
        let off : (block == x) ≡ false = ground arith in rw (z, off, absent (ground arith)) refl
    | inr nz ↦ elim (Bool-cases (readable block)) [
      | inl r ↦
          let h = there r nz in
          let e = count-append x for_entries (block ∷ []) in rw (nz, r, e, h) (ground arith)
      | inr l ↦ rw (nz, l, lost l) (ground arith)
    ]
  ]

  named-lost :
      (block : ℕ) → readable block ≡ false → (n : ℕ) → how_many (named readable s block) x 0 n ≡ 0
  named-lost block l n = how_many-none (named readable s block) x 0 n (λ k. ground arith)

  named-there :
      (block : ℕ)
      → readable block ≡ true
      → (block == 0) ≡ false
      → (k : ℕ) → named readable s block k ≡ s.entry block k
  named-there block r nz k = rw (nz, r) refl

  -- `free_ind` frees what the block names, and the block.
  pub free_ind-count :
      (block : ℕ)
      → count x (free_ind readable s.entry block)
        ≡ how_many (named readable s block) x 0 512 + once (block == x)
  unfolding free_ind
  free_ind-count block =
      freed-count block (entries_loop readable s.entry (λ z. z ∷ []) block 0 512)
        (how_many (named readable s block) x 0 512) (λ e. rw e (named-none 512))
        (λ l. named-lost block l 512)
        (λ r nz.
          loop-count block 0 512
          ∙ how_many-agree (s.entry block) (named readable s block) x 0 0 512
              (λ k lt. sym (named-there block r nz (0 + k))))

  chunk :
      (block i : ℕ)
      → readable block ≡ true
      → (block == 0) ≡ false
      → how_many (through_two readable s block) x (i * 512) 512
        ≡ how_many (named readable s (s.entry block i)) x 0 512
  chunk block i r nz =
      how_many-agree (through_two readable s block) (named readable s (s.entry block i)) x (i * 512)
        0 512
        (λ k lt.
          let d : (i * 512 + k) / 512 ≡ i = omega arith in
          let m : (i * 512 + k) % 512 ≡ 0 + k = omega arith in rw (d, m, nz, r) refl)

  free_entry :
      (e : ℕ)
      → count x (if e == 0 then [] else free_ind readable s.entry e)
        ≡ how_many (named readable s e) x 0 512 + once (e == x)
  unfolding count
  free_entry e = elim (Bool-cases (e == 0)) [
    | inl z ↦
        let is : e ≡ 0 = ground arith in
        let off : (e == x) ≡ false = ground arith in rw (z, off, is, named-none 512) refl
    | inr nz ↦ rw nz (free_ind-count e)
  ]

  nothing_counted :
      (block i : ℕ)
      → count x []
        ≡ how_many (through_two readable s block) x (i * 512) (0 * 512)
          + how_many (s.entry block) x i 0
  unfolding count how_many
  nothing_counted block i = refl

  loop_two-count :
      (block i n : ℕ)
      → readable block ≡ true
      → (block == 0) ≡ false
      → count x (entries_loop readable s.entry (free_ind readable s.entry) block i n)
        ≡ how_many (through_two readable s block) x (i * 512) (n * 512)
          + how_many (s.entry block) x i n
  unfolding entries_loop
  loop_two-count block i zero r nz = nothing_counted block i
  loop_two-count block i (suc n) r nz =
      let e = s.entry block i in
      let two = through_two readable s block in
      let later = entries_loop readable s.entry (free_ind readable s.entry) block (i + 1) n in
      let split = count-append x (if e == 0 then [] else free_ind readable s.entry e) later in
      let here = free_entry e in
      let rest = loop_two-count block (i + 1) n r nz in
      let rows : suc n * 512 ≡ 512 + n * 512 = omega arith in
      let next : (i + 1) * 512 ≡ i * 512 + 512 = omega arith in
      let rest' = rw next at rest in
      let parts = ap (how_many two x (i * 512)) rows ∙ how_many-add two x (i * 512) 512 (n * 512) in
      let first = chunk block i r nz in
      let last = how_many-suc (s.entry block) x i n in
      omega (arith, split, here, rest', parts, first, last)

  -- Where the entries of the block are not found, nothing is found through them.
  two-none :
      (block : ℕ)
      → ((k : ℕ) → named readable s block k ≡ 0)
      → how_many (through_two readable s block) x 0 (512 * 512)
          + how_many (named readable s block) x 0 512
        ≡ 0
  two-none block none_ =
      let a =
        how_many-none (through_two readable s block) x 0 (512 * 512)
          (λ m. rw (none_ (m / 512)) (ground arith)) in
      let b = how_many-none (named readable s block) x 0 512 (λ k. rw (none_ k) (ground arith)) in
      omega (arith, a, b)

  -- `free_dind` frees what is found through the entries of the block, what they name, and the block.
  pub free_dind-count :
      (block : ℕ)
      → count x (free_dind readable s.entry block)
        ≡ how_many (through_two readable s block) x 0 (512 * 512)
          + how_many (named readable s block) x 0 512
          + once (block == x)
  unfolding free_dind
  free_dind-count block =
      freed-count block (entries_loop readable s.entry (free_ind readable s.entry) block 0 512)
        (how_many (through_two readable s block) x 0 (512 * 512)
          + how_many (named readable s block) x 0 512)
        (λ e. two-none block (λ k. rw e refl)) (λ l. two-none block (λ k. ground arith))
        (λ r nz.
          loop_two-count block 0 512 r nz
          ∙ ap (λ q. how_many (through_two readable s block) x 0 (512 * 512) + q)
              (how_many-agree (s.entry block) (named readable s block) x 0 0 512
                (λ k lt. sym (named-there block r nz (0 + k)))))
