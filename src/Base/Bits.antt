-- ===== src/Base/Bits.antt =====
-- Single bits of a word, by position: `x & (1 << n)`, `x |= 1 << n` and `x &= ~(1 << n)`.
use linux_0_11_learning.Base.{
  ℕ, zero, suc, ◌+◌, ◌*◌, ◌/◌, ◌%◌, ◌≡◌, Bool, true, false, arith, ◌==◌, if◌then◌else◌,
}

unfoldable pub test_bit : ℕ → ℕ → Bool
test_bit zero x = x % 2 == 1
test_bit (suc n) x = test_bit n (x / 2)

unfoldable pub set_bit : ℕ → ℕ → ℕ
set_bit zero x = x / 2 * 2 + 1
set_bit (suc n) x = 2 * set_bit n (x / 2) + x % 2

unfoldable pub clear_bit : ℕ → ℕ → ℕ
clear_bit zero x = x / 2 * 2
clear_bit (suc n) x = 2 * clear_bit n (x / 2) + x % 2

pub test_bit-set_bit :
    (n m x : ℕ) → test_bit m (set_bit n x) ≡ (if n == m then true else test_bit m x)
unfolding test_bit set_bit
test_bit-set_bit zero zero x = ground arith
test_bit-set_bit zero (suc m) x =
    let half : (x / 2 * 2 + 1) / 2 ≡ x / 2 = omega arith in rw half (ground arith)
test_bit-set_bit (suc n) zero x = ground arith
test_bit-set_bit (suc n) (suc m) x =
    let half : (2 * set_bit n (x / 2) + x % 2) / 2 ≡ set_bit n (x / 2) = omega arith in
    rw half (ground (arith, test_bit-set_bit n m (x / 2)))

pub test_bit-clear_bit :
    (n m x : ℕ) → test_bit m (clear_bit n x) ≡ (if n == m then false else test_bit m x)
unfolding test_bit clear_bit
test_bit-clear_bit zero zero x = ground arith
test_bit-clear_bit zero (suc m) x =
    let half : x / 2 * 2 / 2 ≡ x / 2 = omega arith in rw half (ground arith)
test_bit-clear_bit (suc n) zero x = ground arith
test_bit-clear_bit (suc n) (suc m) x =
    let half : (2 * clear_bit n (x / 2) + x % 2) / 2 ≡ clear_bit n (x / 2) = omega arith in
    rw half (ground (arith, test_bit-clear_bit n m (x / 2)))

-- A word whose bit is set already is not changed, and so for a clear one.
pub set_bit_of_test : (n x : ℕ) → test_bit n x ≡ true → set_bit n x ≡ x
unfolding test_bit set_bit
set_bit_of_test zero x h = ground arith
set_bit_of_test (suc n) x h = omega (arith, set_bit_of_test n (x / 2) h)

pub clear_bit-set_bit : (n x : ℕ) → test_bit n x ≡ false → clear_bit n (set_bit n x) ≡ x
unfolding test_bit set_bit clear_bit
clear_bit-set_bit zero x h = ground arith
clear_bit-set_bit (suc n) x h =
    let half : (2 * set_bit n (x / 2) + x % 2) / 2 ≡ set_bit n (x / 2) = omega arith in
    rw half (omega (arith, clear_bit-set_bit n (x / 2) h))
