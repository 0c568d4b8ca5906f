-- ===== src/Vsprintf/Tests.antt =====
-- Numbers printed and read.
use linux_0_11_learning.Base.{
  ℕ, ◌+◌, ◌≤◌, ◌≡◌, refl, true, false, some, List, [], ◌∷◌, ◌++◌, arith, length, max,
}
use linux_0_11_learning.Vsprintf.{
  Flags, number, layout, tmp_digits, tmp_loop, digit, reversed, sign_of, prefix, skip_atoi,
  is_digit,
}
use linux_0_11_learning.Vsprintf.Number.{plain, number-length, skip_atoi-number}

-- `%#06x`
abbrev hex : Flags
hex = record {
  zeropad = true;
  sign = false;
  plus = false;
  space = false;
  left = false;
  special = true;
  small = true;
}

-- 0x00ff
number-run : number 255 16 6 0 hex ≡ some (48 ∷ 120 ∷ 48 ∷ 48 ∷ 102 ∷ 102 ∷ [])
unfolding number layout tmp_digits tmp_loop digit reversed
number-run = refl

number-length_example :
    (out : List ℕ) × (n : ℕ) × (number 255 16 6 0 hex ≡ some out)
    × (1 ≤ n)
    × (n ≤ 32)
    × (length out ≡ max 6 (length (sign_of hex 255) + length (prefix hex 16) + max 0 n))
number-length_example = number-length 255 16 6 0 hex (omega arith) (omega arith) (omega arith)

not_digit : is_digit 115 ≡ false
unfolding is_digit
not_digit = refl

skip_atoi-number_example :
    (out : List ℕ) × (number 2026 10 0 0 (plain false) ≡ some out)
    × (skip_atoi (out ++ (115 ∷ [])) ≡ (2026, 115 ∷ []))
skip_atoi-number_example = skip_atoi-number 2026 false (115 ∷ []) (omega arith) not_digit
