-- ===== src/Derive.antt =====
-- protopuffer-codegen: the implementations of `EncodeMessage` and `DecodeMessage` that the derive
-- macros write for structs. A struct is the list of its fields, in the order of the source.
pub mod EnumRoundTrip
pub mod Enums
pub mod Fields
pub mod Items
pub mod Merging
pub mod Repeated
pub mod Structs
pub mod Tuples
pub mod Unknown
pub mod UnitEnums
pub mod Variants
use lafere.Base.{
  ℕ, zero, suc, Bool, true, false, List, [], ◌∷◌, ◌==◌, if◌then◌else◌, Result, ok, err, ◌>>=◌,
}
use lafere.Bytes.{BytesRead}
use lafere.Protopuffer.Wire.{DecodeError, WireType, Field, try_unwrap_len}
use lafere.Protopuffer.Decoder.{next}
use lafere.Protopuffer.Encode.{EncodeMessage}
use lafere.Protopuffer.Encode.Tuples.{TupleField, tuple_field, tuple_message}
use lafere.Protopuffer.Decode.{DecodeMessage, read_all}

-- `#[field(fieldnum)]` and the two implementations for the field's type.
pub record FieldAttr : Type 1 where
  pub fieldnum : ℕ
  pub Value : Type 0
  pub E : EncodeMessage Value
  pub D : DecodeMessage Value

abbrev pub Values : List FieldAttr → Type 0
Values [] = Unit
Values (a ∷ as_) = a.Value × Values as_

-- A field is written like that of a tuple: nothing where it has its default value.
abbrev pub fields_of : (as_ : List FieldAttr) → Values as_ → List TupleField
fields_of [] vs = []
fields_of (a ∷ as_) (v, vs) = tuple_field a.E a.fieldnum v ∷ fields_of as_ vs

abbrev pub struct_encode : (as_ : List FieldAttr) → EncodeMessage (Values as_)
struct_encode as_ = tuple_message (fields_of as_)

abbrev pub default_fields : (as_ : List FieldAttr) → Values as_
default_fields [] = tt
default_fields (a ∷ as_) = (a.D.decode_default, default_fields as_)

-- The `match field.number`: unknown fields are ignored.
unfoldable pub merge_fields :
    (as_ : List FieldAttr) → Field → Values as_ → Result DecodeError (Values as_)
merge_fields [] f vs = ok vs
merge_fields (a ∷ as_) f (v, vs) =
    let rest = merge_fields as_ f vs in
    if f.number == a.fieldnum
    then (a.D.merge f.kind true v >>= λ v'. ok (v', vs))
    else (rest >>= λ vs'. ok (v, vs'))

abbrev pub struct_decode : BytesRead → (as_ : List FieldAttr) → DecodeMessage (Values as_)
struct_decode R as_ = record {
  wire_type = WireType.len;
  decode_default = default_fields as_;
  merge = λ kind is_field vs. do
    bytes ← try_unwrap_len kind
    read_all (next R) (merge_fields as_) bytes vs;
}

-- A tuple: the types of `as_`, whose fields are numbered from `idx`.
abbrev pub numbered : (idx : ℕ) → List FieldAttr → List FieldAttr
numbered idx [] = []
numbered idx (a ∷ as_) = record a { fieldnum = idx } ∷ numbered (suc idx) as_

abbrev pub tuple_encode : (as_ : List FieldAttr) → EncodeMessage (Values (numbered 0 as_))
tuple_encode as_ = struct_encode (numbered 0 as_)

abbrev pub tuple_decode :
    BytesRead → (as_ : List FieldAttr) → DecodeMessage (Values (numbered 0 as_))
tuple_decode R as_ = struct_decode R (numbered 0 as_)
