-- ===== src/Vsprintf.antt =====
-- kernel/vsprintf.c: `number`, which prints a number, and `skip_atoi`, which reads one.
pub mod Digits
pub mod Number
mod Tests
use linux_0_11_learning.Base.{
  ℕ, zero, suc, ◌+◌, ◌-◌, ◌*◌, ◌/◌, ◌%◌, ◌^◌, Bool, true, false, Option, none, some, List, [], ◌∷◌,
  ◌++◌, ltb, leb, ◌==◌, ◌&&◌, ◌||◌, not, if◌then◌else◌, max, length, replicate,
}

-- The flags of `type`, a Boolean for each bit.
pub record Flags : Type 0 where
  pub zeropad : Bool
  pub sign : Bool
  pub plus : Bool
  pub space : Bool
  pub left : Bool
  pub special : Bool
  pub small : Bool

-- `is_digit(c)`; a character is its code.
unfoldable pub is_digit : ℕ → Bool
is_digit c = leb 48 c && leb c 57

-- The value of the digits, with `i` of those before, and the characters after them.
unfoldable pub skip_digits : ℕ → List ℕ → ℕ × List ℕ
unfolding is_digit
skip_digits i [] = (i, [])
skip_digits i (c ∷ cs) =
    let rest = skip_digits (i * 10 + c - 48) cs in if is_digit c then rest else (i, c ∷ cs)

unfoldable pub skip_atoi : List ℕ → ℕ × List ℕ
skip_atoi cs = skip_digits 0 cs

-- `digits[d]`, in one of the two alphabets.
unfoldable pub digit : (small : Bool) → ℕ → ℕ
digit small d = if ltb d 10 then 48 + d else (if small then 97 else 65) + (d - 10)

-- `while (num!=0) tmp[i++]=digits[do_div(num,base)]`, on fuel: `tmp`, the last digit first.
unfoldable pub tmp_loop : (fuel : ℕ) → (small : Bool) → (base num : ℕ) → Option (List ℕ)
unfolding digit
tmp_loop zero small base num = none
tmp_loop (suc fuel) small base num =
    let rest = tmp_loop fuel small base (num / base) in
    if num == 0
    then some []
    else elim rest [ none ↦ none | some ds ↦ some (digit small (num % base) ∷ ds) ]

-- The digits of a 32-bit number; its value is divided 32 times at most.
unfoldable pub tmp_digits : (small : Bool) → (base num : ℕ) → Option (List ℕ)
tmp_digits small base num = if num == 0 then some (48 ∷ []) else tmp_loop 33 small base num

unfoldable pub reversed : List ℕ → List ℕ
reversed [] = []
reversed (c ∷ cs) = reversed cs ++ (c ∷ [])

-- `num` is a 32-bit word; it is negative from 2 ^ 31 on.
abbrev pub is_negative : Flags → ℕ → Bool
is_negative f num = f.sign && leb (2 ^ 31) num

abbrev pub magnitude : Flags → ℕ → ℕ
magnitude f num = if is_negative f num then 2 ^ 32 - num else num

-- The character of the sign, if there is one.
abbrev pub sign_of : Flags → ℕ → List ℕ
sign_of f num =
    if is_negative f num
    then 45 ∷ []
    else if f.plus
    then 43 ∷ []
    else if f.space
    then 32 ∷ []
    else []

-- `0` or `0x` in front of a special number.
abbrev pub prefix : Flags → (base : ℕ) → List ℕ
prefix f base =
    if not f.special
    then []
    else if base == 8
    then 48 ∷ []
    else if base == 16
    then 48 ∷ (if f.small then 120 else 88) ∷ []
    else []

-- The characters around the digits, which `tmp` has. `size` and `precision` are 0 for a negative
-- value, which asks for as little. Of the three places of the padding one is taken.
unfoldable pub layout : (base num size precision : ℕ) → Flags → (tmp : List ℕ) → List ℕ
unfolding reversed
layout base num size precision f tmp =
    let zeropad = f.zeropad && not f.left in
    let s = sign_of f num in
    let p = prefix f base in
    let digits = max precision (length tmp) in
    let pad = size - length s - length p - digits in
    (if zeropad || f.left then [] else replicate pad 32)
    ++ (s
        ++ (p
            ++ ((if f.left then [] else if zeropad then replicate pad 48 else [])
                ++ (replicate (digits - length tmp) 48
                    ++ (reversed tmp ++ (if f.left then replicate pad 32 else []))))))

-- `number`: what it appends; the null pointer for a bad base, and no fuel, are `none`.
unfoldable pub number : (num base size precision : ℕ) → Flags → Option (List ℕ)
number num base size precision f =
    if ltb base 2 || ltb 36 base then none else elim (tmp_digits f.small base (magnitude f num)) [
      | none ↦ none
      | some tmp ↦ some (layout base num size precision f tmp)
    ]
