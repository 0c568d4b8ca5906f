-- ===== src/Base/Counting.antt =====
-- How often a number stands in a list, and how often a function on numbers takes a value.
use Prim.Native.Nat.{ℕ, zero, suc, ◌+◌, ◌<◌}
use mathlib.Core.Path.{◌≡◌, refl}
use mathlib.Core.Bool.{false}
use mathlib.Core.List.{List, [], ◌∷◌, ◌++◌}
use native.Mathlib.Omega.{arith}
use linux_0_11_learning.Base.Tests.{◌==◌, if◌then◌else◌}

unfoldable pub count : ℕ → List ℕ → ℕ
count i [] = 0
count i (j ∷ js) = if j == i then suc (count i js) else count i js

pub count-append : (i : ℕ) (xs ys : List ℕ) → count i (xs ++ ys) ≡ count i xs + count i ys
unfolding count
count-append i [] ys = omega arith
count-append i (x ∷ xs) ys = ground (arith, count-append i xs ys)

-- Of the `n` numbers from `i` on, how many `f` takes to `x`.
unfoldable pub how_many : (f : ℕ → ℕ) → (x i n : ℕ) → ℕ
how_many f x i zero = 0
how_many f x i (suc n) = if f i == x then suc (how_many f x (i + 1) n) else how_many f x (i + 1) n

pub how_many-add :
    (f : ℕ → ℕ) (x i m n : ℕ) → how_many f x i (m + n) ≡ how_many f x i m + how_many f x (i + m) n
unfolding how_many
how_many-add f x i zero n =
    let e : zero + n ≡ n = omega arith in
    let e' : i + 0 ≡ i = omega arith in rw (e, e') (omega arith)
how_many-add f x i (suc m) n =
    let e : suc m + n ≡ suc (m + n) = omega arith in
    let e' : i + suc m ≡ i + 1 + m = omega arith in
    let h = how_many-add f x (i + 1) m n in rw (e, e') (ground (arith, h))

-- Two functions that agree on a range.
pub how_many-agree :
    (f g : ℕ → ℕ) (x i j n : ℕ)
    → ((k : ℕ) → k < n → f (i + k) ≡ g (j + k))
    → how_many f x i n ≡ how_many g x j n
unfolding how_many
how_many-agree f g x i j zero same = refl
how_many-agree f g x i j (suc n) same =
    let e : i + 0 ≡ i = omega arith in
    let e' : j + 0 ≡ j = omega arith in
    let now : f i ≡ g j = rw (e, e') at (same 0 (omega arith)) in
    let later = how_many-agree f g x (i + 1) (j + 1) n (λ k lt.
      let s : i + 1 + k ≡ i + suc k = omega arith in
      let s' : j + 1 + k ≡ j + suc k = omega arith in rw (s, s') (same (suc k) (omega arith))) in
    rw (now, later) refl

-- A function that does not take the value.
pub how_many-none : (f : ℕ → ℕ) (x i n : ℕ) → ((k : ℕ) → (f k == x) ≡ false) → how_many f x i n ≡ 0
unfolding how_many
how_many-none f x i zero off = refl
how_many-none f x i (suc n) off = rw (off i) (how_many-none f x (i + 1) n off)
