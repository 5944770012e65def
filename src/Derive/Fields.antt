-- ===== src/Derive/Fields.antt =====
-- The types of fields: the runs of field kinds that a value is written as, and how they are merged.
use lafere.Base.{
  ℕ, ◌^◌, ◌≡◌, refl, sym, ap, ◌∙◌, arith, Bool, true, ◌==◌, some, List, [], ◌∷◌, length, All,
  concat_map, Result, ok, for_each,
}
use mathlib.Core.List.{append-nil, append_assoc}
use lafere.Base.{==_iff}
use lafere.Base.Int.{ℤ, pos, negsuc, IsSigned, as_u64, as_signed, as_i32-as_u64}
use lafere.Protopuffer.Wire.{
  DecodeError, FieldKind, WireType, wire_type, IsKind, try_unwrap_varint, try_unwrap_len,
}
use lafere.Protopuffer.Varint.Encoding.{IsU64, varint_bytes}
use lafere.Protopuffer.Format.{field_bytes, tag_bytes}
use lafere.Protopuffer.Encode.{EncodeMessage, is_empty, field_new}
use lafere.Protopuffer.Encode.Scalars.{varint_message, is_zero_ℤ}
use lafere.Protopuffer.Encode.Scalars
use lafere.Protopuffer.Encode.Laws.{Lawful}
use lafere.Protopuffer.Encode.Scalars.Laws.{
  varint_lawful, varint_message_bytes, bytes_lawful, bytes_bytes,
}
use lafere.Protopuffer.Decode.{
  DecodeMessage, scalar_message, bytes_message, u64_message, i32_message,
}

-- `v.merge(kind, true)` for one kind after the other.
unfoldable pub merge_all :
    {T : Type 0} → DecodeMessage T → List FieldKind → T → Result DecodeError T
merge_all D kinds v = for_each (λ kind. D.merge kind true) kinds v

-- `D` reads back the fields that `E` writes.
pub record FieldMirror {T : Type 0} (E : EncodeMessage T) (D : DecodeMessage T) : Type 1 where
  pub lawful : Lawful E
  pub InRange : T → Type 0
  pub valid : (v : T) → InRange v → lawful.Valid v
  pub kinds : T → List FieldKind
  pub are_kinds : (v : T) → InRange v → All IsKind (kinds v)
  pub bytes_lem :
      (v : T) (num : ℕ)
      → InRange v
      → lawful.bytes v (some (field_new num)) ≡ concat_map (field_bytes num) (kinds v)
  pub merge_lem : (v : T) → InRange v → merge_all D (kinds v) D.decode_default ≡ ok v
  pub default_lem : (v : T) → InRange v → E.is_default v ≡ true → v ≡ D.decode_default

-- The integers and `bool`.
module _ {T : Type 0} (is_zero : T → Bool) (cast : T → ℕ) (default : T) (back : ℕ → T)
    (Range : T → Type 0) (below : (v : T) → Range v → IsU64 (cast v))
    (undo : (v : T) → Range v → back (cast v) ≡ v)
    (zero_lem : (v : T) → Range v → is_zero v ≡ true → v ≡ default) where
  unfoldable pub varint_field :
      FieldMirror
        (varint_message is_zero cast)
        (scalar_message WireType.varint default try_unwrap_varint back)
  unfolding varint_message_bytes field_bytes wire_type try_unwrap_varint merge_all for_each
  varint_field = record {
    lawful = varint_lawful is_zero cast;
    InRange = Range;
    valid = below;
    kinds = λ v. FieldKind.varint (cast v) ∷ [];
    are_kinds = λ v h. (below v h, tt);
    bytes_lem = λ v num h. sym (append-nil _);
    merge_lem = λ v h. ap ok (undo v h);
    default_lem = zero_lem;
  }

pub is_empty-nil : {A : Type 0} (bs : List A) → is_empty bs ≡ true → bs ≡ []
is_empty-nil [] e = refl
is_empty-nil (b ∷ bs) e = absurd (ground (arith, e))

-- `Vec<u8>`
unfoldable pub bytes_field : FieldMirror Scalars.bytes_message bytes_message
unfolding bytes_message Scalars.bytes_message bytes_lawful bytes_bytes field_bytes wire_type
    try_unwrap_len merge_all for_each is_empty-nil
bytes_field = record {
  lawful = bytes_lawful;
  InRange = λ bs. IsU64 (length bs);
  valid = λ v h. h;
  kinds = λ v. FieldKind.len v ∷ [];
  are_kinds = λ v h. (h, tt);
  bytes_lem = λ v num h.
      append_assoc (tag_bytes num WireType.len) (varint_bytes (length v)) v ∙ sym (append-nil _);
  merge_lem = λ v h. refl;
  default_lem = λ v h e. is_empty-nil v e;
}

unfoldable pub u64_field : FieldMirror Scalars.uint_message u64_message
unfolding u64_message Scalars.uint_message
u64_field =
    varint_field (λ n. n == 0) (λ n. n) 0 (λ num. num) IsU64 (λ v h. h) (λ v h. refl)
      (λ v h e. (==_iff v 0).0 e)

is_zero-zero : (x : ℤ) → is_zero_ℤ x ≡ true → x ≡ pos 0
is_zero-zero (pos n) e = ap pos (ground (arith, e))
is_zero-zero (negsuc n) e = absurd (ground (arith, e))

as_u64-IsU64 : (x : ℤ) → IsSigned (2 ^ 31) x → IsU64 (as_u64 x)
as_u64-IsU64 (pos n) h = omega arith
as_u64-IsU64 (negsuc n) h = omega arith

unfoldable pub i32_field : FieldMirror Scalars.int_message i32_message
unfolding i32_message Scalars.int_message as_u64-IsU64 is_zero-zero
i32_field =
    varint_field is_zero_ℤ as_u64 (pos 0) (as_signed (2 ^ 31)) (IsSigned (2 ^ 31)) as_u64-IsU64
      as_i32-as_u64 (λ x h e. is_zero-zero x e)
