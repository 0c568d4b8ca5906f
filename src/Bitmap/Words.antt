-- ===== src/Bitmap/Words.antt =====
-- The bit operations on the words of a bitmap, read as one sequence of bits.
use native.Mathlib.Nat.{pow-suc}
use linux_0_11_learning.Base.{
  ℕ, zero, suc, ◌+◌, ◌-◌, ◌*◌, ◌/◌, ◌%◌, ◌^◌, ◌≤◌, ◌<◌, ◌≡◌, sym, inl, inr, refl, ap, ◌∙◌, Bool,
  true, false, List, [], ◌∷◌, arith, ltb, ◌==◌, not, if◌then◌else◌, Bool-cases, get_or, set, length,
}
use linux_0_11_learning.Base.Bits.{
  test_bit, set_bit, clear_bit, test_bit-set_bit, test_bit-clear_bit,
}
use linux_0_11_learning.Bitmap.{bts, btr, lowest_clear, find_first_zero}

-- The bit `nr` of the words.
abbrev pub bit_at : ℕ → List ℕ → Bool
bit_at nr words = test_bit (nr % 32) (get_or words (nr / 32) 0)

-- A word that is not all ones has a clear bit, and a word of ones has none.
lowest_clear-first :
    (n i w : ℕ)
    → let k = lowest_clear n i w in
      (i ≤ k)
      × (k ≤ i + n)
      × (k < i + n → test_bit k w ≡ false)
      × ((j : ℕ) → i ≤ j → j < k → test_bit j w ≡ true)
unfolding lowest_clear
lowest_clear-first zero i w =
    (omega arith, omega arith, λ h. absurd (omega arith), λ j lo hi. absurd (omega arith))
lowest_clear-first (suc n) i w = elim (Bool-cases (test_bit i w)) [
  | inl one ↦
      let (lo, hi, clear, below) = lowest_clear-first n (i + 1) w in
      rw one (
        omega arith,
        omega arith,
        λ h. clear (omega arith),
        λ j l h. elim (Bool-cases (i == j)) [
          | inl same ↦ ground arith
          | inr other ↦ below j (ground arith) h
        ],
      )
  | inr none' ↦ rw none' (omega arith, omega arith, λ h. none', λ j l h. absurd (omega arith))
]

pow_pos : (n : ℕ) → 1 ≤ 2 ^ n
pow_pos zero = omega arith
pow_pos (suc n) = omega (arith, pow-suc 2 n, pow_pos n)

-- The only word of `n` bits with all of them set is 2 ^ n - 1.
ones : (n w : ℕ) → w < 2 ^ n → ((j : ℕ) → j < n → test_bit j w ≡ true) → w ≡ 2 ^ n - 1
unfolding test_bit
ones zero w h all = omega arith
ones (suc n) w h all =
    let half = ones n (w / 2) (omega (arith, pow-suc 2 n)) (λ j lt. all (suc j) (omega arith)) in
    let odd : w % 2 ≡ 1 = let e = all 0 (omega arith) in ground arith in
    omega (arith, pow-suc 2 n, pow_pos n)

test_bit-ones : (n j : ℕ) → j < n → test_bit j (2 ^ n - 1) ≡ true
unfolding test_bit
test_bit-ones zero j h = absurd (omega arith)
test_bit-ones (suc n) zero h =
    let odd : (2 ^ suc n - 1) % 2 ≡ 1 = omega (arith, pow-suc 2 n, pow_pos n) in rw odd
test_bit-ones (suc n) (suc j) h =
    let half : (2 ^ suc n - 1) / 2 ≡ 2 ^ n - 1 = omega (arith, pow-suc 2 n, pow_pos n) in
    rw half (test_bit-ones n j (omega arith))

-- The words have 32 bits.
abbrev pub AllWords : List ℕ → Type 0
AllWords [] = Unit {0}
AllWords (w ∷ ws) = (w < 2 ^ 32) × AllWords ws

lowest_clear-lt : (w : ℕ) → w < 2 ^ 32 → (w == 2 ^ 32 - 1) ≡ false → lowest_clear 32 0 w < 32
lowest_clear-lt w h ne =
    let (lo, hi, clear, below) = lowest_clear-first 32 0 w in
    elim (Bool-cases (ltb (lowest_clear 32 0 w) 32)) [
      | inl lt ↦ ground arith
      | inr ge ↦
          let all = ones 32 w h (λ j lt. below j (omega arith) (ground arith)) in
          absurd (ground arith)
    ]

bit_at-cons : (j w : ℕ) (ws : List ℕ) → bit_at (j + 32) (w ∷ ws) ≡ bit_at j ws
bit_at-cons j w ws =
    let r : (j + 32) % 32 ≡ j % 32 = omega arith in
    let q : (j + 32) / 32 ≡ suc (j / 32) = omega arith in rw (r, q)

bit_at-first : (j w : ℕ) (ws : List ℕ) → j < 32 → bit_at j (w ∷ ws) ≡ test_bit j w
bit_at-first j w ws h =
    let r : j % 32 ≡ j = omega arith in let q : j / 32 ≡ 0 = omega arith in rw (r, q)

-- `find_first_zero` returns the first clear bit of the words, or their number of bits if every bit
-- is set.
pub find_first_zero-first :
    (base : ℕ) (ws : List ℕ)
    → AllWords ws
    → let k = find_first_zero base ws in
      (j : ℕ) × (k ≡ base + j)
      × (j ≤ 32 * length ws)
      × (j < 32 * length ws → bit_at j ws ≡ false)
      × ((i : ℕ) → i < j → bit_at i ws ≡ true)
unfolding find_first_zero
find_first_zero-first base [] words =
    (0, omega arith, omega arith, λ h. absurd (omega arith), λ i h. absurd (omega arith))
find_first_zero-first base (w ∷ ws) words = elim (Bool-cases (w == 2 ^ 32 - 1)) [
  | inl full ↦
      let (j, e, le, clear, below) = find_first_zero-first (base + 32) ws words.1 in
      let all : w ≡ 2 ^ 32 - 1 = ground arith in
      (
        j + 32,
        rw full (omega arith),
        omega arith,
        λ h. bit_at-cons j w ws ∙ clear (omega arith),
        λ i h. elim (Bool-cases (ltb i 32)) [
          | inl low ↦
              bit_at-first i w ws (ground arith)
              ∙ ap (test_bit i) all
              ∙ test_bit-ones 32 i (ground arith)
          | inr high ↦
              let back : i - 32 + 32 ≡ i = ground arith in
              ap (λ (k : ℕ). bit_at k (w ∷ ws)) (sym back)
              ∙ bit_at-cons (i - 32) w ws
              ∙ below (i - 32) (ground arith)
        ],
      )
  | inr some_clear ↦
      let k = lowest_clear 32 0 w in
      let lt = lowest_clear-lt w words.0 some_clear in
      let (lo, hi, clear, below) = lowest_clear-first 32 0 w in
      (
        k,
        rw some_clear,
        omega arith,
        λ h. bit_at-first k w ws lt ∙ clear (omega arith),
        λ i h. bit_at-first i w ws (omega arith) ∙ below i (omega arith) h,
      )
]

get_or-set :
    (ws : List ℕ) (i j v : ℕ)
    → i < length ws
    → get_or (set ws i v) j 0 ≡ (if i == j then v else get_or ws j 0)
get_or-set [] i j v h = absurd (omega arith)
get_or-set (w ∷ ws) zero zero v h = refl
get_or-set (w ∷ ws) zero (suc j) v h = ground arith
get_or-set (w ∷ ws) (suc i) zero v h = ground arith
get_or-set (w ∷ ws) (suc i) (suc j) v h = get_or-set ws i j v (omega arith) ∙ ground arith

-- `bts` tells the bit and sets it, and no other.
pub bit_at-bts :
    (nr j : ℕ) (ws : List ℕ)
    → nr < 32 * length ws
    → ((bts nr ws).0 ≡ bit_at nr ws)
      × (bit_at j (bts nr ws).1 ≡ (if nr == j then true else bit_at j ws))
unfolding bts
bit_at-bts nr j ws h = (
  refl,
  elim (Bool-cases (nr / 32 == j / 32)) [
    | inl same ↦
        let q : nr / 32 ≡ j / 32 = ground arith in
        let w = get_or ws (j / 32) 0 in
        rw
          (
            get_or-set ws (nr / 32) (j / 32) (set_bit (nr % 32) (get_or ws (nr / 32) 0))
                (omega arith),
            same,
            q,
          )
          (ground (arith, test_bit-set_bit (nr % 32) (j % 32) w))
    | inr other ↦
        let ne : (nr == j) ≡ false = ground arith in
        rw (
          get_or-set ws (nr / 32) (j / 32) (set_bit (nr % 32) (get_or ws (nr / 32) 0))
              (omega arith),
          other,
          ne,
        )
  ],
)

pub bit_at-btr :
    (nr j : ℕ) (ws : List ℕ)
    → nr < 32 * length ws
    → ((btr nr ws).0 ≡ not (bit_at nr ws))
      × (bit_at j (btr nr ws).1 ≡ (if nr == j then false else bit_at j ws))
unfolding btr
bit_at-btr nr j ws h = (
  refl,
  elim (Bool-cases (nr / 32 == j / 32)) [
    | inl same ↦
        let q : nr / 32 ≡ j / 32 = ground arith in
        let w = get_or ws (j / 32) 0 in
        rw
          (
            get_or-set ws (nr / 32) (j / 32) (clear_bit (nr % 32) (get_or ws (nr / 32) 0))
                (omega arith),
            same,
            q,
          )
          (ground (arith, test_bit-clear_bit (nr % 32) (j % 32) w))
    | inr other ↦
        let ne : (nr == j) ≡ false = ground arith in
        rw (
          get_or-set ws (nr / 32) (j / 32) (clear_bit (nr % 32) (get_or ws (nr / 32) 0))
              (omega arith),
          other,
          ne,
        )
  ],
)
