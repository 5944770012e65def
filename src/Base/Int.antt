-- ===== src/Base/Int.antt =====
-- Rust's signed integers as integers, and the casts `as` between them and the unsigned ones.
use Prim.Native.Nat.{ℕ, suc, ◌-◌, ◌*◌, ◌%◌, ◌^◌, ◌<◌}
use mathlib.Core.Path.{◌≡◌}
use native.Mathlib.Omega.{arith}
use lafere.Base.{ltb, if◌then◌else◌}

-- `negsuc n` is -(n + 1).
pub data ℤ : Type 0 where
  pos : ℕ → ℤ
  negsuc : ℕ → ℤ

-- `h` is half of the modulus: 2 ^ 31 for an i32, 2 ^ 63 for an i64.
abbrev pub IsSigned : ℕ → ℤ → Type 0
IsSigned h (pos n) = n < h
IsSigned h (negsuc n) = n < h

-- `x as u64`: the sign is extended.
abbrev pub as_u64 : ℤ → ℕ
as_u64 (pos n) = n
as_u64 (negsuc n) = 2 ^ 64 - suc n

-- `v as i32`, `v as i64`: the low bits, read as a signed number of modulus `2 * h`.
abbrev pub as_signed : ℕ → ℕ → ℤ
as_signed h v = let low = v % (2 * h) in if ltb low h then pos low else negsuc (2 * h - suc low)

pub as_i32-as_u64 : (x : ℤ) → IsSigned (2 ^ 31) x → as_signed (2 ^ 31) (as_u64 x) ≡ x
as_i32-as_u64 (pos n) h = ground arith
as_i32-as_u64 (negsuc n) h = ground arith

pub as_i64-as_u64 : (x : ℤ) → IsSigned (2 ^ 63) x → as_signed (2 ^ 63) (as_u64 x) ≡ x
as_i64-as_u64 (pos n) h = ground arith
as_i64-as_u64 (negsuc n) h = ground arith

pub as_u64-lt : (x : ℤ) → IsSigned (2 ^ 63) x → as_u64 x < 2 ^ 64
as_u64-lt (pos n) h = omega arith
as_u64-lt (negsuc n) h = omega arith
