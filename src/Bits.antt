-- ===== src/Bits.antt =====
-- Masks and shifts of machine words as arithmetic.
use Prim.Native.Nat.{max, digits, bit_or-bitwise}
use native.Mathlib.Nat.{pow-suc}
use lafere.Base.{
  ℕ, zero, suc, ◌+◌, ◌*◌, ◌/◌, ◌%◌, ◌^◌, ◌≤◌, ◌<◌, bit_and, bit_or, ◌≡◌, refl, ap, arith, Bool,
  true, ◌&&◌, ◌==◌, ==_iff,
}

-- A claim on every number below a bound, checked by evaluation.
all_below : ℕ → (ℕ → Bool) → Bool
all_below zero p = true
all_below (suc n) p = p n && all_below n p

all_below_lem : (n : ℕ) (p : ℕ → Bool) (x : ℕ) → all_below n p ≡ true → x < n → p x ≡ true
unfolding all_below
all_below_lem zero p x h lt = absurd (omega arith)
all_below_lem (suc n) p x h lt = ground (arith, all_below_lem n p x)

module _ (f g : ℕ → ℕ) where
  by_table : (n : ℕ) → all_below n (λ x. f x == g x) ≡ true → (x : ℕ) → x < n → f x ≡ g x
  by_table n h x lt = (==_iff (f x) (g x)).0 (all_below_lem n (λ y. f y == g y) x h lt)

pub low_seven : (b : ℕ) → b < 256 → bit_and b 0x7f ≡ b % 128
unfolding all_below
low_seven = by_table (λ b. bit_and b 0x7f) (λ b. b % 128) 256 refl

pub top_bit : (b : ℕ) → b < 256 → bit_and b 0x80 ≡ b / 128 * 128
unfolding all_below
top_bit = by_table (λ b. bit_and b 0x80) (λ b. b / 128 * 128) 256 refl

pub set_top_bit : (b : ℕ) → b < 128 → bit_or b 0x80 ≡ b + 128
unfolding all_below
set_top_bit = by_table (λ b. bit_or b 0x80) (λ b. b + 128) 128 refl

pub low_three : (b : ℕ) → b < 256 → bit_and b 7 ≡ b % 8
unfolding all_below
low_three = by_table (λ b. bit_and b 7) (λ b. b % 8) 256 refl

pub low_nibble : (b : ℕ) → b < 256 → bit_and b 0x0f ≡ b % 16
unfolding all_below
low_nibble = by_table (λ b. bit_and b 0x0f) (λ b. b % 16) 256 refl

pub low_bit : (b : ℕ) → b < 256 → bit_and b 1 ≡ b % 2
unfolding all_below
low_bit = by_table (λ b. bit_and b 1) (λ b. b % 2) 256 refl

pub clear_low_bit : (b : ℕ) → b < 256 → bit_and b 254 ≡ b / 2 * 2
unfolding all_below
clear_low_bit = by_table (λ b. bit_and b 254) (λ b. b / 2 * 2) 256 refl

pub set_low_bit : (b : ℕ) → b < 256 → bit_or b 1 ≡ b / 2 * 2 + 1
unfolding all_below
set_low_bit = by_table (λ b. bit_or b 1) (λ b. b / 2 * 2 + 1) 256 refl

-- The digit recursion that `bit_or` stands for does not depend on its fuel.
or_digits : ℕ → ℕ → ℕ → ℕ
or_digits n a b = digits (λ y. y) max n a b

or_digits_fuel : (n m a b : ℕ) → a ≤ n → a ≤ m → or_digits n a b ≡ or_digits m a b
unfolding or_digits
or_digits_fuel zero zero zero b p q = refl
or_digits_fuel zero (suc m) zero b p q = refl
or_digits_fuel (suc n) zero zero b p q = refl
or_digits_fuel (suc n) (suc m) zero b p q = refl
or_digits_fuel zero m (suc a) b p q = absurd (omega arith)
or_digits_fuel (suc n) zero (suc a) b p q = absurd (omega arith)
or_digits_fuel (suc n) (suc m) (suc a) b p q =
    omega (arith, or_digits_fuel n m (suc a / 2) (b / 2) (omega arith) (omega arith))

bit_or_step : (a b : ℕ) → bit_or a b ≡ bit_or (a / 2) (b / 2) * 2 + max (a % 2) (b % 2)
unfolding or_digits
bit_or_step zero b = omega (arith, bit_or-bitwise 0 b, bit_or-bitwise 0 (b / 2))
bit_or_step (suc a) b = omega (
  arith,
  bit_or-bitwise (suc a) b,
  bit_or-bitwise (suc a / 2) (b / 2),
  or_digits_fuel a (suc a / 2) (suc a / 2) (b / 2) (omega arith) (omega arith),
)

-- `low | (high << k)` is a sum where `low` fits `k` bits.
pub bit_or_shifted : (k low high : ℕ) → low < 2 ^ k → bit_or low (high * 2 ^ k) ≡ low + high * 2 ^ k
bit_or_shifted zero zero high h = omega (arith, bit_or-bitwise 0 (high * 2 ^ 0))
bit_or_shifted zero (suc low) high h = absurd (omega arith)
bit_or_shifted (suc k) low high h =
    let double : high * 2 ^ suc k ≡ 2 * (high * 2 ^ k) =
      omega (arith, ap (λ (t : ℕ). high * t) (pow-suc 2 k)) in
    omega (
      arith,
      double,
      pow-suc 2 k,
      ap (bit_or low) double,
      bit_or_step low (2 * (high * 2 ^ k)),
      half_double (high * 2 ^ k),
      ap (bit_or (low / 2)) (half_double (high * 2 ^ k)),
      bit_or_shifted k (low / 2) high (omega (arith, pow-suc 2 k)),
    )
  where
    half_double : (x : ℕ) → (2 * x) / 2 ≡ x
    half_double x = omega arith

bit_or_comm_fuel : (n a b : ℕ) → a ≤ n → b ≤ n → bit_or a b ≡ bit_or b a
bit_or_comm_fuel zero zero zero p q = refl
bit_or_comm_fuel zero zero (suc b) p q = absurd (omega arith)
bit_or_comm_fuel zero (suc a) b p q = absurd (omega arith)
bit_or_comm_fuel (suc n) a b p q = omega (
  arith,
  bit_or_step a b,
  bit_or_step b a,
  bit_or_comm_fuel n (a / 2) (b / 2) (omega arith) (omega arith),
)

pub bit_or_comm : (a b : ℕ) → bit_or a b ≡ bit_or b a
bit_or_comm a b = bit_or_comm_fuel (a + b) a b (omega arith) (omega arith)
