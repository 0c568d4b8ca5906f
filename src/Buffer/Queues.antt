-- ===== src/Buffer/Queues.antt =====
-- The queues of the buffer cache: the invariant that no block has two buffers, and what finding a
-- block in its queue tells about all buffers.
use linux_0_11_learning.Base.{
  count, ℕ, ◌+◌, ◌-◌, ◌≤◌, ◌<◌, ◌≡◌, ◌≢◌, false, none, some, List, [], ◌∷◌, ◌++◌, ◌==◌,
  if◌then◌else◌, arith, Bool-cases, inl, inr,
}
use linux_0_11_learning.Buffer.{Head, Cache, home, hashfn, holds, erase, find_in, find_buffer}

pub count-erase :
    (i j : ℕ) (xs : List ℕ) → count j (erase i xs) ≡ (if i == j then count j xs - 1 else count j xs)
unfolding count erase
count-erase i j [] = ground arith
count-erase i j (x ∷ xs) = ground (arith, count-erase i j xs)

pub count-append_one :
    (i j : ℕ) (xs : List ℕ)
    → count j (xs ++ i ∷ []) ≡ (if i == j then count j xs + 1 else count j xs)
unfolding count
count-append_one i j [] = ground arith
count-append_one i j (x ∷ xs) = ground (arith, count-append_one i j xs)

-- Every buffer that has a block stands in the queue of the block, once, and in no other; the ring
-- has each buffer once at most, and those that have a block; and no block has two buffers.
pub record IsCache (c : Cache) : Type 0 where
  pub placed :
      (h i : ℕ) → 0 < count i (c.hash_table h) → ((c.bufs i).b_dev ≢ 0) × (home (c.bufs i) ≡ h)
  pub once : (h i : ℕ) → count i (c.hash_table h) ≤ 1
  pub linked : (i : ℕ) → (c.bufs i).b_dev ≢ 0 → 0 < count i (c.hash_table (home (c.bufs i)))
  pub ring : (i : ℕ) → count i c.free_list ≤ 1
  pub in_ring : (i : ℕ) → (c.bufs i).b_dev ≢ 0 → 0 < count i c.free_list
  pub unique :
      (i j : ℕ)
      → (c.bufs i).b_dev ≢ 0
      → (c.bufs i).b_dev ≡ (c.bufs j).b_dev
      → (c.bufs i).b_blocknr ≡ (c.bufs j).b_blocknr
      → i ≡ j

module _ (bufs : ℕ → Head) (dev block : ℕ) where
  find_in-some :
      (xs : List ℕ) {i : ℕ}
      → find_in bufs dev block xs ≡ some i
      → (0 < count i xs) × ((bufs i).b_dev ≡ dev) × ((bufs i).b_blocknr ≡ block)
  unfolding find_in count
  find_in-some [] h = absurd (ground arith)
  find_in-some (x ∷ xs) {i} h = elim (Bool-cases (holds dev block (bufs x))) [
    | inl here ↦ ground arith
    | inr other ↦ let (c, d, b) = find_in-some xs {i = i} (rw other at h) in ground arith
  ]

  find_in-none :
      (xs : List ℕ)
      → find_in bufs dev block xs ≡ none
      → (i : ℕ) → 0 < count i xs
      → holds dev block (bufs i) ≡ false
  unfolding find_in count
  find_in-none [] h i there = absurd (omega arith)
  find_in-none (x ∷ xs) h i there = elim (Bool-cases (holds dev block (bufs x))) [
    | inl here ↦ absurd (ground arith)
    | inr other ↦ elim (Bool-cases (x == i)) [
      | inl e ↦ let same : x ≡ i = ground arith in rw same at other
      | inr n ↦ find_in-none xs (rw other at h) i (rw n at there)
    ]
  ]

module _ (dev block : ℕ) (c : Cache) where
  pub find_buffer-some :
      {i : ℕ}
      → find_buffer dev block c ≡ some i
      → ((c.bufs i).b_dev ≡ dev) × ((c.bufs i).b_blocknr ≡ block)
  unfolding find_buffer
  find_buffer-some h =
      let (n, d, b) = find_in-some c.bufs dev block (c.hash_table (hashfn dev block)) h in (d, b)

  -- A block that its queue lacks has no buffer at all.
  pub find_buffer-none :
      IsCache c
      → dev ≢ 0
      → find_buffer dev block c ≡ none
      → (i : ℕ) → holds dev block (c.bufs i) ≡ false
  unfolding find_buffer
  find_buffer-none ok nz h i = elim (Bool-cases (holds dev block (c.bufs i))) [
    | inr other ↦ other
    | inl same ↦
        let d : (c.bufs i).b_dev ≡ dev = ground arith in
        let b : (c.bufs i).b_blocknr ≡ block = ground arith in
        let there = ok.linked i (λ e. nz (omega arith)) in
        find_in-none c.bufs dev block (c.hash_table (hashfn dev block)) h i (rw (d, b) at there)
  ]
