-- ===== src/Vsprintf/Number.antt =====
-- The width of what `number` prints, and that `skip_atoi` reads it back.
use linux_0_11_learning.Base.{
  ℕ, ◌+◌, ◌-◌, ◌^◌, ◌≤◌, ◌<◌, ◌≡◌, refl, ap, ◌∙◌, Bool, true, false, some, List, [], ◌∷◌, ◌++◌,
  arith, ltb, ◌||◌, ◌&&◌, not, if◌then◌else◌, length, replicate, max, length-append,
  length-replicate, append_nil,
}
use linux_0_11_learning.Vsprintf.{
  Flags, is_digit, skip_digits, skip_atoi, tmp_digits, reversed, magnitude, sign_of, prefix, layout,
  number,
}
use linux_0_11_learning.Vsprintf.Digits.{tmp_digits-fit, skip_atoi-tmp_digits}

length-reversed : (cs : List ℕ) → length (reversed cs) ≡ length cs
unfolding reversed
length-reversed [] = refl
length-reversed (c ∷ cs) = length-append (reversed cs) (c ∷ []) ∙ omega (arith, length-reversed cs)

-- The padding stands in one of three places.
length-parts :
    (a s p b z t c : List ℕ)
    → length (a ++ (s ++ (p ++ (b ++ (z ++ (t ++ c))))))
      ≡ length a + length s + length p + length b + length z + length t + length c
length-parts a s p b z t c = omega (
  arith,
  length-append a (s ++ (p ++ (b ++ (z ++ (t ++ c))))),
  length-append s (p ++ (b ++ (z ++ (t ++ c)))),
  length-append p (b ++ (z ++ (t ++ c))),
  length-append b (z ++ (t ++ c)),
  length-append z (t ++ c),
  length-append t c,
)

abbrev before : (left zeropad : Bool) → ℕ → List ℕ
before left zeropad n = if (zeropad && not left) || left then [] else replicate n 32

abbrev within : (left zeropad : Bool) → ℕ → List ℕ
within left zeropad n = if left then [] else if zeropad && not left then replicate n 48 else []

abbrev behind : (left : Bool) → ℕ → List ℕ
behind left n = if left then replicate n 32 else []

length-pads :
    (left zeropad : Bool) (n : ℕ)
    → length (before left zeropad n) + length (within left zeropad n) + length (behind left n) ≡ n
length-pads true true n = omega (arith, length-replicate {A = ℕ} n 32)
length-pads true false n = omega (arith, length-replicate {A = ℕ} n 32)
length-pads false true n = omega (arith, length-replicate {A = ℕ} n 48)
length-pads false false n = omega (arith, length-replicate {A = ℕ} n 32)

length-layout :
    (base num size precision : ℕ) (f : Flags) (tmp : List ℕ)
    → length (layout base num size precision f tmp)
      ≡ max size (length (sign_of f num) + length (prefix f base) + max precision (length tmp))
unfolding layout
length-layout base num size precision f tmp =
    let s = sign_of f num in
    let p = prefix f base in
    let digits = max precision (length tmp) in
    let pad = size - length s - length p - digits in
    let zeros = replicate (digits - length tmp) 48 in
    let pads = length-pads f.left f.zeropad pad in
    let parts =
      length-parts (before f.left f.zeropad pad) s p (within f.left f.zeropad pad) zeros
        (reversed tmp) (behind f.left pad) in
    parts ∙ omega (arith, length-replicate {A = ℕ} (digits - length tmp) 48, length-reversed tmp)

number-layout :
    (num base size precision : ℕ) (f : Flags) {tmp : List ℕ}
    → 2 ≤ base
    → base ≤ 36
    → tmp_digits f.small base (magnitude f num) ≡ some tmp
    → number num base size precision f ≡ some (layout base num size precision f tmp)
unfolding number
number-layout num base size precision f lo hi e =
    let good : (ltb base 2 || ltb 36 base) ≡ false = ground arith in rw (good, e)

magnitude-lt : (f : Flags) (num : ℕ) → num < 2 ^ 32 → magnitude f num < 2 ^ 32
magnitude-lt f num h = ground arith

-- A 32-bit number is printed in any base from 2 to 36, with 1 to 32 digits, as wide as was asked for
-- or as wide as its sign, its prefix and its digits, of which there are as many as the precision
-- asks for at least.
pub number-length :
    (num base size precision : ℕ) (f : Flags)
    → num < 2 ^ 32
    → 2 ≤ base
    → base ≤ 36
    → (out : List ℕ) × (n : ℕ) × (number num base size precision f ≡ some out)
      × (1 ≤ n)
      × (n ≤ 32)
      × (length out ≡ max size (length (sign_of f num) + length (prefix f base) + max precision n))
number-length num base size precision f h lo hi =
    let (tmp, run, pos, few) =
      tmp_digits-fit f.small base (magnitude f num) lo (magnitude-lt f num h) in
    (
      layout base num size precision f tmp,
      length tmp,
      number-layout num base size precision f lo hi run,
      pos,
      few,
      length-layout base num size precision f tmp,
    )

-- No flags but for the alphabet.
abbrev pub plain : (small : Bool) → Flags
plain small = record {
  zeropad = false;
  sign = false;
  plus = false;
  space = false;
  left = false;
  special = false;
  small = small;
}

-- The characters do not go on with a digit.
abbrev pub IsAfter : List ℕ → Type 0
IsAfter [] = Unit {0}
IsAfter (c ∷ cs) = is_digit c ≡ false

skip_digits-after : (i : ℕ) (cs : List ℕ) → IsAfter cs → skip_digits i cs ≡ (i, cs)
unfolding skip_digits
skip_digits-after i [] h = refl
skip_digits-after i (c ∷ cs) h = rw h

layout-plain :
    (num : ℕ) (small : Bool) (tmp : List ℕ) → layout 10 num 0 0 (plain small) tmp ≡ reversed tmp
unfolding layout
layout-plain num small tmp =
    let pad : 0 - 0 - 0 - max 0 (length tmp) ≡ 0 = omega arith in
    let zeros : max 0 (length tmp) - length tmp ≡ 0 = omega arith in
    rw (pad, zeros, append_nil (reversed tmp))

-- What `number` prints of a 32-bit number in base 10, with no flags, `skip_atoi` reads back, up to
-- the first character behind that is no digit.
pub skip_atoi-number :
    (num : ℕ) (small : Bool) (cs : List ℕ)
    → num < 2 ^ 32
    → IsAfter cs
    → (out : List ℕ) × (number num 10 0 0 (plain small) ≡ some out)
      × (skip_atoi (out ++ cs) ≡ (num, cs))
skip_atoi-number num small cs h after =
    let (tmp, run, pos, few) = tmp_digits-fit small 10 num (omega arith) h in
    (
      reversed tmp,
      number-layout num 10 0 0 (plain small) (omega arith) (omega arith) run
          ∙ ap some (layout-plain num small tmp),
      skip_atoi-tmp_digits small num tmp cs run ∙ skip_digits-after num cs after,
    )
