-- ===== src/Derive/Enums.antt =====
-- protopuffer-codegen: the implementations that the derive macros write for enums. An enum is the
-- list of its variants, in the order of the source.
use lafere.Base.{
  ℕ, suc, Bool, true, false, Option, none, some, List, [], ◌∷◌, ◌==◌, ◌⊎◌, inl, inr, if◌then◌else◌,
  Result, ok, ◌>>=◌,
}
use mathlib.Core.Option
use lafere.Bytes.{BytesRead, BytesWrite}
use lafere.Protopuffer.Wire.{
  DecodeError, WireType, Field, FieldKind, try_unwrap_len, try_unwrap_varint,
}
use lafere.Protopuffer.Decoder.{next}
use lafere.Protopuffer.Encoder.{EncodeError, write_tag, write_len, write_empty_field}
use lafere.Protopuffer.SizeBuilder
use lafere.Protopuffer.Encode.{EncodeMessage, FieldOpt, field_new}
use lafere.Protopuffer.Encode.Scalars.{varint_message}
use lafere.Protopuffer.Decode.{DecodeMessage, read_all, scalar_message}

-- `#[repr(i32)]`: an enum without fields, whose values are their discriminants. One of them is 0,
-- the default, and `nums` are the others.
unfoldable pub merge_variants : List ℕ → ℕ → ℕ
merge_variants [] num = 0
merge_variants (n ∷ nums) num = let rest = merge_variants nums num in if num == n then n else rest

-- Discriminants are literals, which are not negative, so that `varint as u64` is the number.
abbrev pub unit_enum_encode : EncodeMessage ℕ
unit_enum_encode = varint_message (λ n. n == 0) (λ n. n)

abbrev pub unit_enum_decode : List ℕ → DecodeMessage ℕ
unit_enum_decode nums = scalar_message WireType.varint 0 try_unwrap_varint (merge_variants nums)

-- `#[field(fieldnum)]` or `#[field(fieldnum, default)]`
pub record Attr : Type 0 where
  pub fieldnum : ℕ
  pub is_default : Bool

-- A variant with a field has also the implementations for the field's type, and its
-- `Default::default()`.
pub data Variant : Type 1 where
  plain : Attr → Variant
  holds : Attr → (T : Type 0) → EncodeMessage T → DecodeMessage T → (default : T) → Variant

abbrev pub attr : Variant → Attr
attr (plain a) = a
attr (holds a T E D default) = a

abbrev pub Content : Variant → Type 0
Content (plain a) = Unit
Content (holds a T E D default) = T

-- A value of the enum: one variant with its content.
abbrev pub Value : List Variant → Type 0
Value [] = ⊥
Value (v ∷ vs) = Content v ⊎ Value vs

-- `size` after the `match self` of `encoded_size`.
abbrev pub content_size : (v : Variant) → Content v → ℕ → Result EncodeError ℕ
content_size (plain a) c size = ok (SizeBuilder.write_empty_field a.fieldnum size)
content_size (holds a T E D default) c size = E.encoded_size c (some (field_new a.fieldnum)) size

unfoldable pub variant_size : (vs : List Variant) → Value vs → ℕ → Result EncodeError ℕ
variant_size [] x size = elim x [ ]
variant_size (v ∷ vs) (inl c) size = content_size v c size
variant_size (v ∷ vs) (inr x) size = variant_size vs x size

abbrev pub content_encode :
    (v : Variant) (W : BytesWrite) → Content v → List ℕ → Result EncodeError (List ℕ)
content_encode (plain a) W c w = write_empty_field W a.fieldnum w
content_encode (holds a T E D default) W c w = E.encode W c (some (field_new a.fieldnum)) w

unfoldable pub variant_encode :
    (vs : List Variant) (W : BytesWrite) → Value vs → List ℕ → Result EncodeError (List ℕ)
variant_encode [] W x w = elim x [ ]
variant_encode (v ∷ vs) W (inl c) w = content_encode v W c w
variant_encode (v ∷ vs) W (inr x) w = variant_encode vs W x w

abbrev pub head_size : Option FieldOpt → (size builder : ℕ) → ℕ
head_size none size builder = builder
head_size (some f) size builder =
    SizeBuilder.write_len size (SizeBuilder.write_tag f.num WireType.len builder)

module _ (vs : List Variant) where
  unfoldable pub enum_size : Value vs → Option FieldOpt → ℕ → Result EncodeError ℕ
  enum_size x field builder = do
    size ← variant_size vs x SizeBuilder.new
    ok (SizeBuilder.write_bytes size (head_size field size builder))

  abbrev pub head_encode :
      (W : BytesWrite) → Value vs → Option FieldOpt → List ℕ → Result EncodeError (List ℕ)
  head_encode W x none w = ok w
  head_encode W x (some f) w = do
    w' ← write_tag W f.num WireType.len w
    size ← variant_size vs x SizeBuilder.new
    write_len W size w'

  unfoldable pub enum_encode :
      (W : BytesWrite) → Value vs → Option FieldOpt → List ℕ → Result EncodeError (List ℕ)
  enum_encode W x field w = do w' ← head_encode W x field w; variant_encode vs W x w'

  abbrev pub enum_message_encode : EncodeMessage (Value vs)
  enum_message_encode = record {
    wire_type = WireType.len;
    is_default = λ x. false;
    encoded_size = enum_size;
    encode = enum_encode;
  }

-- The field of a variant is merged into the content, if it is the variant that the value has.
abbrev pub merge_content :
    (v : Variant) → FieldKind → Option (Content v) → Result DecodeError (Content v)
merge_content (plain a) kind c = ok tt
merge_content (holds a T E D default) kind (some c) = D.merge kind true c
merge_content (holds a T E D default) kind none = D.merge kind true default

abbrev pub here : {A B : Type 0} → Option (A ⊎ B) → Option A
here none = none
here (some (inl a)) = some a
here (some (inr b)) = none

abbrev pub there : {A B : Type 0} → Option (A ⊎ B) → Option B
there none = none
there (some (inl a)) = none
there (some (inr b)) = some b

-- The new value, where the field's number is that of a variant.
unfoldable pub match_fields :
    (vs : List Variant) → Field → Option (Value vs) → Result DecodeError (Option (Value vs))
match_fields [] f x = ok none
match_fields (v ∷ vs) f x =
    let rest = match_fields vs f (there x) in
    if f.number == (attr v).fieldnum
    then (merge_content v f.kind (here x) >>= λ c. ok (some (inl c)))
    else (rest >>= λ y. ok (Option.map inr y))

-- Other numbers change nothing.
abbrev pub or_else : {A : Type 0} → A → Option A → A
or_else x none = x
or_else x (some y) = y

unfoldable pub merge_variant :
    (vs : List Variant) → Field → Value vs → Result DecodeError (Value vs)
merge_variant vs f x = match_fields vs f (some x) >>= λ y. ok (or_else x y)

abbrev pub default_content : (v : Variant) → Content v
default_content (plain a) = tt
default_content (holds a T E D default) = D.decode_default

-- `variants.iter().find(|(attr, _, _)| attr.default.is_some())`
unfoldable pub default_variant : (vs : List Variant) → Option (Value vs)
default_variant [] = none
default_variant (v ∷ vs) =
    let rest = default_variant vs in
    if (attr v).is_default then some (inl (default_content v)) else Option.map inr rest

unfoldable pub count_defaults : List Variant → ℕ
count_defaults [] = 0
count_defaults (v ∷ vs) =
    let rest = count_defaults vs in if (attr v).is_default then suc rest else rest

abbrev pub enum_message_decode :
    BytesRead → (vs : List Variant) → (default : Value vs) → DecodeMessage (Value vs)
enum_message_decode R vs default = record {
  wire_type = WireType.len;
  decode_default = default;
  merge = λ kind is_field x. do
    bytes ← try_unwrap_len kind
    read_all (next R) (merge_variant vs) bytes x;
}

-- The macro wants exactly one default variant.
unfoldable pub expand_enum : BytesRead → (vs : List Variant) → Option (DecodeMessage (Value vs))
unfolding default_variant count_defaults
expand_enum R vs =
    if count_defaults vs == 1
    then Option.map (enum_message_decode R vs) (default_variant vs)
    else none
