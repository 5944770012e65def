-- ===== src/Protopuffer/Decode/Scalars.antt =====
-- The implementations that decode one number or one run of bytes, against those that encode it.
use mathlib.Core.List.{append_assoc}
use lafere.Base.{
  ℕ, ◌+◌, ◌-◌, ◌*◌, ◌%◌, ◌^◌, ◌<◌, ◌≡◌, refl, ap, arith, Bool, true, false, length, ◌==◌, not, ok,
}
use lafere.Base.Int.{
  ℤ, pos, negsuc, IsSigned, as_u64, as_signed, as_i32-as_u64, as_i64-as_u64, as_u64-lt,
}
use lafere.Protopuffer.Wire.{
  WireType, FieldKind, wire_type, can_be_packed, try_unwrap_varint, try_unwrap_len,
}
use lafere.Protopuffer.Varint.Encoding.{IsU64, varint_bytes}
use lafere.Protopuffer.Format.{field_bytes, tag_bytes}
use lafere.Protopuffer.Encode.Scalars
use lafere.Protopuffer.Encode.Scalars.{bool_as_u64, is_false, is_zero_ℤ, varint_message}
use lafere.Protopuffer.Encode.Scalars.Laws.{
  varint_message_bytes, varint_lawful, bool_lawful, uint_lawful, int_lawful, bytes_bytes,
  bytes_lawful,
}
use lafere.Protopuffer.Decode.{
  scalar_message, bool_message, u32_message, u64_message, i32_message, i64_message, bytes_message,
  zigzag,
}
use lafere.Protopuffer.Decode.RoundTrip.{Mirror}

-- A cast from u64 that undoes the encoder's cast gives a mirror.
module _ {T : Type 0} (is_zero : T → Bool) (cast : T → ℕ) (default : T) (back : ℕ → T)
    (Range : T → Type 0) (below : (v : T) → Range v → IsU64 (cast v))
    (undo : (v : T) → Range v → back (cast v) ≡ v) where
  unfoldable pub varint_mirror :
      Mirror
        (varint_lawful is_zero cast)
        (scalar_message WireType.varint default try_unwrap_varint back)
  unfolding varint_message_bytes field_bytes wire_type try_unwrap_varint
  varint_mirror = record {
    InRange = Range;
    valid = below;
    kind = λ v. FieldKind.varint (cast v);
    is_kind = below;
    same_type = refl;
    kind_type = λ v. refl;
    field_lem = λ v num h. refl;
    bare_lem = λ v h. refl;
    merge_lem = λ v h. ap ok (undo v h);
  }

pub bool_mirror : Mirror bool_lawful bool_message
unfolding bool_message Scalars.bool_message bool_lawful
bool_mirror =
    varint_mirror is_false bool_as_u64 false (λ num. not (num == 0)) (λ b. Unit) below undo
  where
    below : (v : Bool) → Unit {0} → IsU64 (bool_as_u64 v)
    below true h = omega arith
    below false h = omega arith

    undo : (v : Bool) → Unit {0} → not (bool_as_u64 v == 0) ≡ v
    undo true h = ground arith
    undo false h = ground arith

unfoldable pub u64_mirror : Mirror uint_lawful u64_message
unfolding u64_message Scalars.uint_message uint_lawful
u64_mirror = varint_mirror (λ n. n == 0) (λ n. n) 0 (λ num. num) IsU64 (λ v h. h) (λ v h. refl)

pub u32_mirror : Mirror uint_lawful u32_message
unfolding u32_message Scalars.uint_message uint_lawful
u32_mirror =
    varint_mirror (λ n. n == 0) (λ n. n) 0 (λ num. num % 2 ^ 32) (λ v. v < 2 ^ 32)
      (λ v h. omega arith) (λ v h. omega arith)

pub i32_mirror : Mirror int_lawful i32_message
unfolding i32_message Scalars.int_message int_lawful
i32_mirror =
    varint_mirror is_zero_ℤ as_u64 (pos 0) (as_signed (2 ^ 31)) (IsSigned (2 ^ 31)) below
      as_i32-as_u64
  where
    below : (v : ℤ) → IsSigned (2 ^ 31) v → IsU64 (as_u64 v)
    below (pos n) h = omega arith
    below (negsuc n) h = omega arith

pub i64_mirror : Mirror int_lawful i64_message
unfolding i64_message Scalars.int_message int_lawful
i64_mirror =
    varint_mirror is_zero_ℤ as_u64 (pos 0) (as_signed (2 ^ 63)) (IsSigned (2 ^ 63)) as_u64-lt
      as_i64-as_u64

pub bytes_mirror : Mirror bytes_lawful bytes_message
unfolding bytes_message Scalars.bytes_message bytes_lawful bytes_bytes field_bytes wire_type
    try_unwrap_len can_be_packed
bytes_mirror = record {
  InRange = λ bs. IsU64 (length bs);
  valid = λ v h. h;
  kind = FieldKind.len;
  is_kind = λ v h. h;
  same_type = refl;
  kind_type = λ v. refl;
  field_lem = λ v num h. append_assoc (tag_bytes num WireType.len) (varint_bytes (length v)) v;
  bare_lem = λ v h. absurd (ground (arith, h));
  merge_lem = λ v h. refl;
}

-- Protobuf's zigzag code of a number: the sign in the lowest bit.
abbrev pub zigzag_code : ℤ → ℕ
zigzag_code (pos n) = 2 * n
zigzag_code (negsuc n) = 2 * n + 1

-- `ZigZag<i32>` decodes the zigzag code of a number x to x, where -2 ^ 30 ≤ x < 2 ^ 30.
pub zigzag-zigzag_code : (x : ℤ) → IsSigned (2 ^ 30) x → zigzag (2 ^ 31) (zigzag_code x) ≡ x
unfolding zigzag
zigzag-zigzag_code (pos n) h = ground arith
zigzag-zigzag_code (negsuc n) h = ground arith

-- n - 2 ^ 31 for n, and 2 ^ 31 - 1 - n for -(n + 1): of the other sign than x.
abbrev pub mirrored : ℤ → ℤ
mirrored (pos n) = negsuc (2 ^ 31 - 1 - n)
mirrored (negsuc n) = pos (2 ^ 31 - 1 - n)

-- `ZigZag<i32>` decodes the zigzag code of an i32 outside of -2 ^ 30 ≤ x < 2 ^ 30 to a number of
-- the other sign: a nonnegative n to n - 2 ^ 31, and -(n + 1) to 2 ^ 31 - 1 - n.
pub zigzag_wraps :
    (x : ℤ)
    → IsSigned (2 ^ 31) x
    → ¬ IsSigned (2 ^ 30) x
    → zigzag (2 ^ 31) (zigzag_code x) ≡ mirrored x
unfolding zigzag
zigzag_wraps (pos n) h large = ground arith
zigzag_wraps (negsuc n) h large = ground arith
