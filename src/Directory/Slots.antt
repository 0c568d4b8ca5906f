-- ===== src/Directory/Slots.antt =====
-- A directory as its slots in order, wherever their blocks are.
use linux_0_11_learning.Base.{
  ℕ, zero, suc, ◌+◌, ◌-◌, ◌/◌, ◌%◌, ◌≤◌, ◌<◌, ◌≡◌, refl, inl, inr, Bool, true, false, ◌&&◌, Option,
  none, some, List, ◌==◌, if◌then◌else◌, arith, Bool-cases,
}
use linux_0_11_learning.Directory.{Directory, Found, per_block, has_block, matches}

-- Where a slot is.
abbrev pub place : Directory → ℕ → Found
place d i = record { block = d.zone (i / per_block); at = i % per_block }

-- The slot can be read and has the name.
abbrev pub has_name : Directory → List ℕ → ℕ → Bool
has_name d name i =
    has_block d (d.zone (i / per_block))
    && matches name (d.entry (d.zone (i / per_block)) (i % per_block))

-- The first of the next slots with the name.
unfoldable pub first_from : Directory → List ℕ → (next i : ℕ) → Option ℕ
first_from d name zero i = none
first_from d name (suc next) i =
    if has_name d name i then some i else first_from d name next (i + 1)

-- The first slot with the name, among those of a range; or the range has none.
pub data IsFirst (d : Directory) (name : List ℕ) (i end : ℕ) : Option ℕ → Type 0 where
  here :
      {j : ℕ}
      → i ≤ j
      → j < end
      → has_name d name j ≡ true
      → ((k : ℕ) → i ≤ k → k < j → has_name d name k ≡ false)
      → IsFirst d name i end (some j)
  nowhere : ((k : ℕ) → i ≤ k → k < end → has_name d name k ≡ false) → IsFirst d name i end none

module _ (d : Directory) (name : List ℕ) where
  IsFirst-later :
      (i end : ℕ)
      → has_name d name i ≡ false
      → (o : Option ℕ) → IsFirst d name (i + 1) end o
      → IsFirst d name i end o
  IsFirst-later i end e (some j) (here le lt has before) = here (omega arith) lt has (λ k le' lt'.
      elim (Bool-cases (i == k)) [
        | inl same ↦ let s : i ≡ k = ground arith in rw (← s) e
        | inr other ↦ before k (ground arith) lt'
      ])
  IsFirst-later i end e none (nowhere none_has) = nowhere (λ k le' lt'. elim (Bool-cases (i == k)) [
    | inl same ↦ let s : i ≡ k = ground arith in rw (← s) e
    | inr other ↦ none_has k (ground arith) lt'
  ])

  pub first_from-IsFirst :
      (next i end : ℕ) → end ≡ i + next → IsFirst d name i end (first_from d name next i)
  unfolding first_from
  first_from-IsFirst zero i end e = nowhere (λ k le lt. absurd (omega arith))
  first_from-IsFirst (suc next) i end e = elim (Bool-cases (has_name d name i)) [
    | inl h ↦ rw h (here (omega arith) (omega arith) h (λ k le lt. absurd (omega arith)))
    | inr h ↦ rw h (IsFirst-later i end h _ (first_from-IsFirst next (i + 1) end (omega arith)))
  ]

  -- Slots without the name are passed over.
  pub first_from-skip :
      (n next i : ℕ)
      → ((k : ℕ) → i ≤ k → k < i + n → has_name d name k ≡ false)
      → first_from d name next i ≡ first_from d name (next - n) (i + n)
  unfolding first_from
  first_from-skip zero next i none_has =
      let e : next - 0 ≡ next = omega arith in let e' : i + 0 ≡ i = omega arith in rw (e, e') refl
  first_from-skip (suc n) zero i none_has = let e : zero - suc n ≡ zero = omega arith in rw e refl
  first_from-skip (suc n) (suc next) i none_has =
      let e : suc next - suc n ≡ next - n = omega arith in
      let e' : i + suc n ≡ i + 1 + n = omega arith in
      rw (none_has i (omega arith) (omega arith), e, e')
        (first_from-skip n next (i + 1) (λ k le lt. none_has k (omega arith) (omega arith)))
