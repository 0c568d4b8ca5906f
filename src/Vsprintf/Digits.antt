-- ===== src/Vsprintf/Digits.antt =====
-- The digits that `number` prints: how many, and that `skip_atoi` reads them back.
use native.Mathlib.Nat.{pow-suc, mul-le-mul_right, mul-div-le}
use linux_0_11_learning.Base.{
  ℕ, zero, suc, ◌+◌, ◌-◌, ◌*◌, ◌/◌, ◌%◌, ◌^◌, ◌≤◌, ◌<◌, ◌≡◌, refl, ◌∙◌, inl, inr, Bool, true, false,
  some, List, [], ◌∷◌, ◌++◌, arith, ◌==◌, Bool-cases, Option-cases, length, append_assoc,
}
use linux_0_11_learning.Vsprintf.{
  is_digit, skip_digits, skip_atoi, digit, tmp_loop, tmp_digits, reversed,
}

-- Halving is the slowest: `fuel` rounds do for a number below 2 ^ fuel.
tmp_loop-lt :
    (fuel : ℕ) (small : Bool) (base num : ℕ)
    → 2 ≤ base
    → num < 2 ^ fuel
    → (ds : List ℕ) × (tmp_loop (suc fuel) small base num ≡ some ds) × (length ds ≤ fuel)
unfolding tmp_loop
tmp_loop-lt zero small base num b h =
    let z : (num == 0) ≡ true = ground arith in ([], rw z, omega arith)
tmp_loop-lt (suc fuel) small base num b h = elim (Bool-cases (num == 0)) [
  | inl z ↦ ([], rw z, omega arith)
  | inr more ↦
      let less : num / base < 2 ^ fuel =
        let q = mul-le-mul_right {m = 2} {n = base} (num / base) b in
        let r = mul-div-le num base in omega (arith, pow-suc 2 fuel) in
      let (ds, run, few) = tmp_loop-lt fuel small base (num / base) b less in
      (digit small (num % base) ∷ ds, rw (more, run), omega arith)
]

tmp_loop-pos :
    (fuel : ℕ) (small : Bool) (base num : ℕ) (ds : List ℕ)
    → (num == 0) ≡ false
    → tmp_loop fuel small base num ≡ some ds
    → 1 ≤ length ds
unfolding tmp_loop
tmp_loop-pos zero small base num ds more e = absurd (ground arith)
tmp_loop-pos (suc fuel) small base num ds more e =
    elim (Option-cases (tmp_loop fuel small base (num / base))) [
      | inl stuck ↦ absurd (ground arith)
      | inr (rest, run) ↦
          let same : digit small (num % base) ∷ rest ≡ ds = ground arith in
          rw (← same) (omega arith)
    ]

-- The digits of a 32-bit number in a base from 2 on: there is one at least and 32 at most, so that
-- `tmp`, which has room for 36, holds them.
pub tmp_digits-fit :
    (small : Bool) (base num : ℕ)
    → 2 ≤ base
    → num < 2 ^ 32
    → (ds : List ℕ) × (tmp_digits small base num ≡ some ds) × (1 ≤ length ds) × (length ds ≤ 32)
unfolding tmp_digits
tmp_digits-fit small base num b h = elim (Bool-cases (num == 0)) [
  | inl z ↦ (48 ∷ [], rw z, omega arith, omega arith)
  | inr more ↦
      let (ds, run, few) = tmp_loop-lt 32 small base num b h in
      (ds, rw (more, run), tmp_loop-pos 33 small base num ds more run, few)
]

decimal-is_digit :
    (small : Bool) (d : ℕ) → d < 10 → (digit small d ≡ 48 + d) × (is_digit (digit small d) ≡ true)
unfolding digit is_digit
decimal-is_digit small d h = ground arith

skip_digits-digit :
    (i c : ℕ) (cs : List ℕ)
    → is_digit c ≡ true
    → skip_digits i (c ∷ cs) ≡ skip_digits (i * 10 + c - 48) cs
unfolding skip_digits
skip_digits-digit i c cs h = rw h

-- Reading the digits of a number gives the number.
skip_digits-tmp_loop :
    (fuel : ℕ) (small : Bool) (num : ℕ) (ds cs : List ℕ)
    → tmp_loop fuel small 10 num ≡ some ds
    → skip_digits 0 (reversed ds ++ cs) ≡ skip_digits num cs
unfolding tmp_loop reversed
skip_digits-tmp_loop zero small num ds cs e = absurd (ground arith)
skip_digits-tmp_loop (suc fuel) small num ds cs e = elim (Bool-cases (num == 0)) [
  | inl z ↦
      let none_left : ds ≡ [] = ground arith in
      let zero' : num ≡ 0 = ground arith in rw (none_left, zero')
  | inr more ↦ elim (Option-cases (tmp_loop fuel small 10 (num / 10))) [
    | inl stuck ↦ absurd (ground arith)
    | inr (rest, run) ↦
        let same : ds ≡ digit small (num % 10) ∷ rest = ground arith in
        let (value, is) = decimal-is_digit small (num % 10) (omega arith) in
        let whole : num / 10 * 10 + digit small (num % 10) - 48 ≡ num = omega arith in
        rw (same, append_assoc (reversed rest) (digit small (num % 10) ∷ []) cs)
          (skip_digits-tmp_loop fuel small (num / 10) rest (digit small (num % 10) ∷ cs) run
            ∙ skip_digits-digit (num / 10) (digit small (num % 10)) cs is
            ∙ rw whole)
  ]
]

skip_digits-zero : (cs : List ℕ) → skip_digits 0 (reversed (48 ∷ []) ++ cs) ≡ skip_digits 0 cs
unfolding reversed is_digit
skip_digits-zero cs = skip_digits-digit 0 48 cs refl

pub skip_atoi-tmp_digits :
    (small : Bool) (num : ℕ) (ds cs : List ℕ)
    → tmp_digits small 10 num ≡ some ds
    → skip_atoi (reversed ds ++ cs) ≡ skip_digits num cs
unfolding tmp_digits skip_atoi
skip_atoi-tmp_digits small num ds cs e = elim (Bool-cases (num == 0)) [
  | inl z ↦
      let only : ds ≡ 48 ∷ [] = ground arith in
      let zero' : num ≡ 0 = ground arith in rw (only, zero') (skip_digits-zero cs)
  | inr more ↦ skip_digits-tmp_loop 33 small num ds cs (ground arith)
]
