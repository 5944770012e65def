-- ===== src/Derive/UnitEnums.antt =====
-- protopuffer-codegen: a derived enum without fields, encoded and decoded.
use lafere.Base.{
  ℕ, ◌^◌, ◌<◌, ◌≡◌, refl, arith, Bool, true, ◌||◌, List, [], ◌∷◌, ◌==◌, if◌then◌else◌,
}
use lafere.Protopuffer.Varint.Encoding.{IsU64}
use lafere.Protopuffer.Encode.Scalars.Laws.{varint_lawful}
use lafere.Protopuffer.Decode.RoundTrip.{Mirror}
use lafere.Protopuffer.Decode.Scalars.{varint_mirror}
use lafere.Derive.Enums.{merge_variants, unit_enum_encode, unit_enum_decode}
use lafere.Derive.Fields.{FieldMirror, varint_field}

-- The number is a discriminant of the enum.
abbrev pub has_variant : List ℕ → ℕ → Bool
has_variant [] num = num == 0
has_variant (n ∷ nums) num = num == n || has_variant nums num

pub merge_variants_lem :
    (nums : List ℕ) (num : ℕ) → merge_variants nums num ≡ (if has_variant nums num then num else 0)
unfolding merge_variants
merge_variants_lem [] num = ground arith
merge_variants_lem (n ∷ nums) num = ground (arith, merge_variants_lem nums num)

module _ (nums : List ℕ) where
  abbrev pub IsVariant : ℕ → Type 0
  IsVariant num = (has_variant nums num ≡ true) × (num < 2 ^ 31)

  undo : (num : ℕ) → IsVariant num → merge_variants nums num ≡ num
  undo num (known, small) = rw (merge_variants_lem nums num, known) refl

  is_u64 : (num : ℕ) → IsVariant num → IsU64 num
  is_u64 num (known, small) = omega arith

  is_zero : (num : ℕ) → IsVariant num → (num == 0) ≡ true → num ≡ 0
  is_zero num h e = ground (arith, e)

  -- An enum in a `Vec` or an `Option`.
  unfoldable pub unit_enum_mirror :
      Mirror (varint_lawful (λ n. n == 0) (λ n. n)) (unit_enum_decode nums)
  unfolding undo is_u64
  unit_enum_mirror =
      varint_mirror (λ n. n == 0) (λ n. n) 0 (merge_variants nums) IsVariant is_u64 undo

  -- An enum in a field of a struct.
  unfoldable pub unit_enum_field : FieldMirror unit_enum_encode (unit_enum_decode nums)
  unfolding undo is_u64 is_zero
  unit_enum_field =
      varint_field (λ n. n == 0) (λ n. n) 0 (merge_variants nums) IsVariant is_u64 undo is_zero
