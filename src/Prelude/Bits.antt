-- ===== src/Prelude/Bits.antt =====
-- Exclusive or with a power of two flips one bit.
use Prim.Native.Nat.{
  ℕ, zero, suc, ◌+◌, ◌-◌, ◌*◌, ◌/◌, ◌%◌, ◌^◌, ◌≤◌, ◌<◌, bit_xor, digits, bit_xor-bitwise, differ,
}
use mathlib.Core.Path.{◌≡◌, ap, ◌∙◌}
use native.Mathlib.Nat.{pow-suc}
use native.Mathlib.Decide.{dec_lt}
use native.Mathlib.Omega.{arith}

-- The digits of an exclusive or.
abbrev xor_digits : ℕ → ℕ → ℕ → ℕ
xor_digits = digits (λ y. y) differ

spare_fuel : (spare n a b : ℕ) → a ≤ n → xor_digits (n + spare) a b ≡ xor_digits n a b
spare_fuel zero n a b le = ap (λ m. xor_digits m a b) (omega arith)
spare_fuel (suc k) zero zero b le =
    let e : 0 + suc k ≡ suc k = omega arith in ap (λ m. xor_digits m 0 b) e
spare_fuel (suc k) zero (suc a) b le = absurd (omega arith)
spare_fuel (suc k) (suc n) zero b le =
    let e : suc n + suc k ≡ suc (n + suc k) = omega arith in ap (λ m. xor_digits m 0 b) e
spare_fuel (suc k) (suc n) (suc a) b le =
    let e : suc n + suc k ≡ suc (n + suc k) = omega arith in
    ap (λ m. xor_digits m (suc a) b) e
    ∙ ap (λ q. q * 2 + differ (suc a % 2) (b % 2))
        (spare_fuel (suc k) n (suc a / 2) (b / 2) (omega arith))

half_fuel : (a b : ℕ) → xor_digits a (suc a / 2) b ≡ xor_digits (suc a / 2) (suc a / 2) b
half_fuel a b =
    ap (λ m. xor_digits m (suc a / 2) b) (omega arith)
    ∙ spare_fuel (a - suc a / 2) (suc a / 2) (suc a / 2) b (omega arith)

zero-bit_xor : (b : ℕ) → bit_xor 0 b ≡ b
zero-bit_xor b = bit_xor-bitwise 0 b

differ_bits : (x y : ℕ) → x < 2 → y < 2 → differ x y ≡ (x + y) % 2
differ_bits zero y h k = ground arith
differ_bits (suc zero) zero h k = ground arith
differ_bits (suc zero) (suc zero) h k = ground arith
differ_bits (suc zero) (suc (suc y)) h k = absurd (omega arith)
differ_bits (suc (suc x)) y h k = absurd (omega arith)

bit_xor_digit : (a b : ℕ) → bit_xor a b ≡ bit_xor (a / 2) (b / 2) * 2 + differ (a % 2) (b % 2)
bit_xor_digit zero b = ground (arith, zero-bit_xor b, zero-bit_xor (b / 2))
bit_xor_digit (suc a) b =
    simp bit_xor-bitwise (ap (λ q. q * 2 + differ (suc a % 2) (b % 2)) (half_fuel a (b / 2)))

bit_xor_step : (a b : ℕ) → bit_xor a b ≡ bit_xor (a / 2) (b / 2) * 2 + (a % 2 + b % 2) % 2
bit_xor_step a b =
    omega (arith, bit_xor_digit a b, differ_bits (a % 2) (b % 2) (omega arith) (omega arith))

bit_xor-zero_fuel : (n a : ℕ) → a ≤ n → bit_xor a 0 ≡ a
bit_xor-zero_fuel n zero h = zero-bit_xor 0
bit_xor-zero_fuel zero (suc a) h = absurd (omega arith)
bit_xor-zero_fuel (suc n) (suc a) h =
    ground (arith, bit_xor_step (suc a) 0, bit_xor-zero_fuel n (suc a / 2) (omega arith))

bit_xor_low : (k a : ℕ) → a < 2 ^ k → bit_xor a (2 ^ k) ≡ a + 2 ^ k
bit_xor_low zero a h =
    ground (arith, bit_xor_step a 1, bit_xor-zero_fuel (a / 2) (a / 2) (omega arith))
bit_xor_low (suc k) a h = ground (
  arith,
  pow-suc 2 k,
  bit_xor_step a (2 ^ suc k),
  bit_xor_low k (a / 2) (omega (arith, pow-suc 2 k)),
)

bit_xor_high : (k a : ℕ) → 2 ^ k ≤ a → a < 2 ^ k + 2 ^ k → bit_xor a (2 ^ k) + 2 ^ k ≡ a
bit_xor_high zero a h l =
    ground (arith, bit_xor_step a 1, bit_xor-zero_fuel (a / 2) (a / 2) (omega arith))
bit_xor_high (suc k) a h l = ground (
  arith,
  pow-suc 2 k,
  bit_xor_step a (2 ^ suc k),
  bit_xor_high k (a / 2) (omega (arith, pow-suc 2 k)) (omega (arith, pow-suc 2 k)),
)

-- Flipping the top bit of a 64-bit word adds 2 ^ 63, modulo 2 ^ 64.
pub bit_xor_top : (a : ℕ) → a < 2 ^ 64 → bit_xor a (2 ^ 63) ≡ (a + 2 ^ 63) % 2 ^ 64
bit_xor_top a h = elim (dec_lt a (2 ^ 63)) [
  | yes l ↦ omega (arith, bit_xor_low 63 a l)
  | no g ↦ omega (arith, bit_xor_high 63 a (omega arith) (omega arith))
]
