-- ===== src/Protopuffer/Format/Sizes.antt =====
-- protopuffer/src/encode.rs: `SizeBuilder` against the lengths of what `MessageEncoder` writes.
use lafere.Base.{
  ℕ, suc, ◌+◌, ◌*◌, ◌/◌, ◌%◌, ◌^◌, ◌≤◌, ◌<◌, ◌≡◌, sym, ap, ◌∙◌, arith, Bool-cases, inl, inr, length,
  ltb,
}
use lafere.Protopuffer.Wire.{WireType, as_num, as_num-lt-eight}
use lafere.Protopuffer.SizeBuilder
use lafere.Protopuffer.SizeBuilder.{add_u64}
use lafere.Protopuffer.Format.{tag_bytes}
use lafere.Protopuffer.Varint.Encoding.{IsU64, varint_bytes, groups, groups_small, groups_large}
use lafere.Protopuffer.Varint.Size.{size-varint_bytes}

-- The low three bits do not change the number of bytes.
length-groups_low :
    (k x a : ℕ) → a < 8 → length (groups (suc k) (x * 8)) ≡ length (groups (suc k) (x * 8 + a))
length-groups_low k x a h = elim (Bool-cases (ltb x 16)) [
  | inl small ↦
      let low : x < 16 = ground arith in
      omega (
        arith,
        ap length (groups_small (suc k) (x * 8) (omega arith)),
        ap length (groups_small (suc k) (x * 8 + a) (omega arith)),
      )
  | inr large ↦
      let high : 16 ≤ x = ground arith in
      omega (
        arith,
        ap length (groups_large k (x * 8) (omega arith)),
        ap length (groups_large k (x * 8 + a) (omega arith)),
        ap (λ (t : ℕ). length (groups k t)) (same_rest x a h),
      )
]
  where
    same_rest : (x a : ℕ) → a < 8 → x * 8 / 128 ≡ (x * 8 + a) / 128
    same_rest x a h = omega arith

pub write_tag-size :
    (num : ℕ) (ty : WireType) (n : ℕ)
    → SizeBuilder.write_tag num ty n ≡ add_u64 n (length (tag_bytes num ty))
unfolding SizeBuilder.write_tag varint_bytes
write_tag-size num ty n = ap (add_u64 n) (
    size-varint_bytes (num * 8 % 2 ^ 64) (omega arith)
    ∙ ap (λ (t : ℕ). length (groups 9 t)) (eighth num)
    ∙ length-groups_low 8 (num % 2 ^ 61) (as_num ty) (as_num-lt-eight ty)
    ∙ ap (λ (t : ℕ). length (groups 9 (t + as_num ty))) (sym (eighth num)))
  where
    eighth : (num : ℕ) → num * 8 % 2 ^ 64 ≡ num % 2 ^ 61 * 8
    eighth num = omega arith

pub write_varint-size :
    (v n : ℕ) → IsU64 v → SizeBuilder.write_varint v n ≡ add_u64 n (length (varint_bytes v))
unfolding SizeBuilder.write_varint
write_varint-size v n h = rw (size-varint_bytes v h)

pub write_len-size :
    (v n : ℕ) → IsU64 v → SizeBuilder.write_len v n ≡ add_u64 n (length (varint_bytes v))
unfolding SizeBuilder.write_len
write_len-size v n h = write_varint-size v n h
