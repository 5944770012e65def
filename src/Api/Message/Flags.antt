-- ===== src/Api/Message/Flags.antt =====
-- lafere-api/src/message.rs: `MessageFlags`, whose lowest bit says success.
use lafere.Bits.{low_bit, clear_low_bit, set_low_bit}
use lafere.Base.{
  ℕ, ◌-◌, ◌/◌, ◌%◌, ◌<◌, ◌≡◌, bit_and, bit_or, arith, Bool, true, false, not, ◌==◌, if◌then◌else◌,
}

abbrev pub success_bit : ℕ
success_bit = 1

unfoldable pub set_success : Bool → ℕ → ℕ
set_success success inner =
    if success then bit_or inner success_bit else bit_and inner (255 - success_bit)

unfoldable pub new : Bool → ℕ
unfolding set_success
new success = set_success success 0

unfoldable pub is_success : ℕ → Bool
is_success inner = not (bit_and inner success_bit == 0)

is_success_lem : (inner : ℕ) → inner < 256 → is_success inner ≡ (inner % 2 == 1)
unfolding is_success
is_success_lem inner h = rw (low_bit inner h) (ground arith)

-- Setting the success of a flags byte: it reads back, the other seven bits stay, and the result is
-- a byte.
pub is_success-set_success :
    (success : Bool) (inner : ℕ)
    → inner < 256
    → (is_success (set_success success inner) ≡ success)
      × (set_success success inner / 2 ≡ inner / 2)
      × (set_success success inner < 256)
unfolding set_success
is_success-set_success true inner h =
    let e = set_low_bit inner h in
    let b : bit_or inner 1 < 256 = omega (arith, e) in
    (rw (is_success_lem (bit_or inner 1) b, e) (ground arith), omega (arith, e), b)
is_success-set_success false inner h =
    let e = clear_low_bit inner h in
    let b : bit_and inner 254 < 256 = omega (arith, e) in
    (rw (is_success_lem (bit_and inner 254) b, e) (ground arith), omega (arith, e), b)
