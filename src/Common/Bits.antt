-- ===== src/Common/Bits.antt =====
-- Facts about `bit_or` and `bit_xor` at variables, from the digit recursion that the native
-- operations stand for, and a table check over the values of a byte.
use Prim.Native.Nat.{
  ℕ, zero, suc, ◌+◌, ◌*◌, ◌/◌, ◌%◌, ◌^◌, ◌≤◌, ◌<◌, max, differ, bit_or, bit_xor, digits,
  bit_or-bitwise, bit_xor-bitwise,
}
use mathlib.Core.Path.{◌≡◌, refl, ap}
use mathlib.Core.Bool.{Bool, true, ◌&&◌}
use native.Mathlib.Omega.{arith}
use native.Mathlib.Nat.{pow-suc}

unfoldable pub all_below : ℕ → (ℕ → Bool) → Bool
all_below zero test = true
all_below (suc count) test = all_below count test && test count

-- A test that holds of all values below a bound, by evaluation, holds of each.
pub all_below_sound :
    (bound : ℕ) (test : ℕ → Bool) (value : ℕ)
    → all_below bound test ≡ true
    → value < bound
    → test value ≡ true
unfolding all_below
all_below_sound zero test value holds below = absurd (omega arith)
all_below_sound (suc count) test value holds below =
    ground (all_below_sound count test value, arith)

-- The digit recursion of an operation that keeps the second number where the first has ended.
module _ (f : ℕ → ℕ → ℕ) (f-zero : (y : ℕ) → y < 2 → f 0 y ≡ y) where
  digit_run : ℕ → ℕ → ℕ → ℕ
  digit_run n a b = digits (λ y. y) f n a b

  digit_run_fuel : (n m a b : ℕ) → a ≤ n → a ≤ m → digit_run n a b ≡ digit_run m a b
  unfolding digit_run
  digit_run_fuel zero zero a b p q = refl
  digit_run_fuel zero (suc m) zero b p q = refl
  digit_run_fuel zero (suc m) (suc a) b p q = absurd (omega arith)
  digit_run_fuel (suc n) zero zero b p q = refl
  digit_run_fuel (suc n) zero (suc a) b p q = absurd (omega arith)
  digit_run_fuel (suc n) (suc m) zero b p q = refl
  digit_run_fuel (suc n) (suc m) (suc a) b p q =
      omega (arith, digit_run_fuel n m (suc a / 2) (b / 2) (omega arith) (omega arith))

  digit_run-zero : (n b : ℕ) → digit_run n 0 b ≡ b
  unfolding digit_run
  digit_run-zero zero b = refl
  digit_run-zero (suc n) b = refl

  digit_run_step :
      (a b : ℕ) → digit_run a a b ≡ digit_run (a / 2) (a / 2) (b / 2) * 2 + f (a % 2) (b % 2)
  unfolding digit_run
  digit_run_step zero b = omega (arith, f-zero (b % 2) (omega arith), digit_run-zero 0 (b / 2))
  digit_run_step (suc a) b =
      omega (arith, digit_run_fuel a (suc a / 2) (suc a / 2) (b / 2) (omega arith) (omega arith))

pub bit_or_step : (m n : ℕ) → bit_or m n ≡ bit_or (m / 2) (n / 2) * 2 + max (m % 2) (n % 2)
unfolding digit_run
bit_or_step a b = omega (
  arith,
  digit_run_step max (λ y h. omega arith) a b,
  bit_or-bitwise a b,
  bit_or-bitwise (a / 2) (b / 2),
)

pub bit_xor_step : (a b : ℕ) → bit_xor a b ≡ bit_xor (a / 2) (b / 2) * 2 + differ (a % 2) (b % 2)
unfolding digit_run
bit_xor_step a b = omega (
  arith,
  digit_run_step differ (λ y h. refl) a b,
  bit_xor-bitwise a b,
  bit_xor-bitwise (a / 2) (b / 2),
)

bit_or-zero_fuel : (n a : ℕ) → a ≤ n → bit_or a 0 ≡ a
bit_or-zero_fuel n zero h = bit_or-bitwise 0 0
bit_or-zero_fuel zero (suc a) h = absurd (omega arith)
bit_or-zero_fuel (suc n) (suc a) h =
    omega (arith, bit_or_step (suc a) 0, bit_or-zero_fuel n (suc a / 2) (omega arith))

pub bit_or-zero : (a : ℕ) → bit_or a 0 ≡ a
bit_or-zero a = bit_or-zero_fuel a a (omega arith)

pow_suc : (k : ℕ) → 2 ^ suc k ≡ 2 * 2 ^ k
pow_suc k = omega (arith, pow-suc 2 k)

-- Shifting by `k` bits leaves room for a number below `2 ^ k`.
pub bit_or_shifted : (k a b : ℕ) → b < 2 ^ k → bit_or (a * 2 ^ k) b ≡ a * 2 ^ k + b
bit_or_shifted zero a b h =
    let b' : b ≡ 0 = omega arith in
    let a' : a * 2 ^ 0 ≡ a = omega arith in rw (b', a') (omega (arith, bit_or-zero a))
bit_or_shifted (suc k) a b h =
    let e : a * 2 ^ suc k ≡ (a * 2 ^ k) * 2 = omega (arith, ap (λ (t : ℕ). a * t) (pow_suc k)) in
    let half : (a * 2 ^ k) * 2 / 2 ≡ a * 2 ^ k = omega arith in
    let ih = bit_or_shifted k a (b / 2) (omega (arith, pow_suc k)) in
    rw (e, bit_or_step, half, ih) (omega arith)

differ-lt : (x y : ℕ) → x < 2 → y < 2 → differ x y < 2
differ-lt zero y p q = q
differ-lt (suc zero) zero p q = omega arith
differ-lt (suc zero) (suc y) p q = omega arith
differ-lt (suc (suc x)) y p q = absurd (omega arith)

pub bit_xor-lt : (k a b : ℕ) → a < 2 ^ k → b < 2 ^ k → bit_xor a b < 2 ^ k
bit_xor-lt zero a b p q =
    let a' : a ≡ 0 = omega arith in let b' : b ≡ 0 = omega arith in rw (a', b') (omega arith)
bit_xor-lt (suc k) a b p q = omega (
  arith,
  pow_suc k,
  bit_xor_step a b,
  bit_xor-lt k (a / 2) (b / 2) (omega (arith, pow_suc k)) (omega (arith, pow_suc k)),
  differ-lt (a % 2) (b % 2) (omega arith) (omega arith),
)
