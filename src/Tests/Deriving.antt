-- ===== src/Tests/Deriving.antt =====
-- Runs of derived structs and enums.
use lafere.Base.{ℕ, ◌≡◌, refl, arith, true, false, some, List, [], ◌∷◌, concat_map, ok, inl, inr}
use lafere.Base.Int.{ℤ, pos, negsuc}
use lafere.Bytes.{slice_reader, growing}
use lafere.Protopuffer.Wire.{can_be_packed, Field, FieldKind, wire_type, as_num}
use lafere.Protopuffer.Encode.{slice_message, write_to_bytes, is_packed}
use lafere.Protopuffer.Encode.Scalars
use lafere.Protopuffer.Encode.Scalars.Laws.{uint_lawful, varint_message_bytes}
use lafere.Protopuffer.Decode.{
  DecodeMessage, parse_from_bytes, u64_message, i32_message, vec_message,
}
use lafere.Protopuffer.Decode.Scalars.{u64_mirror, varint_mirror}
use lafere.Protopuffer.Format.{field_bytes}
use lafere.Protopuffer.Varint.Encoding.{varint_bytes, groups}
use lafere.Derive.{FieldAttr, Values, struct_encode, struct_decode}
use lafere.Derive.Fields.{FieldMirror, u64_field, i32_field, varint_field}
use lafere.Derive.Repeated.{vec_field_mirror}
use lafere.Derive.Items.{Mirrors}
use lafere.Derive.Structs.{struct_roundtrip, struct_field}
use lafere.Derive.Unknown.{known_only, unknown_fields_skipped}
use lafere.Derive.Merging.{encoded}
use lafere.Derive.Enums.{
  Variant, plain, holds, Value, enum_message_encode, enum_message_decode, expand_enum,
  default_variant, count_defaults,
}
use lafere.Derive.Variants.{first, later}
use lafere.Derive.EnumRoundTrip.{enum_roundtrip, empty_content_lost}

-- `struct Point { #[field(1)] x: i32, #[field(2)] y: u64 }`
abbrev pub point : List FieldAttr
point =
    record { fieldnum = 1; Value = ℤ; E = Scalars.int_message; D = i32_message }
    ∷ record { fieldnum = 2; Value = ℕ; E = Scalars.uint_message; D = u64_message }
    ∷ []

abbrev pub point_mirrors : Mirrors point
point_mirrors = (i32_field, (u64_field, tt))

-- `struct Line { #[field(1)] start: Point, #[field(3)] tags: Vec<u64> }`
abbrev line : List FieldAttr
line =
    record {
      fieldnum = 1;
      Value = Values point;
      E = struct_encode point;
      D = struct_decode slice_reader point;
    }
    ∷ record {
      fieldnum = 3;
      Value = List ℕ;
      E = slice_message Scalars.uint_message;
      D = vec_message slice_reader u64_message;
    }
    ∷ []

abbrev line_mirrors : Mirrors line
line_mirrors = (
  struct_field point point_mirrors slice_reader
      (omega arith, ((λ e. omega (arith, e)), tt), (omega arith, tt, tt)),
  (vec_field_mirror slice_reader u64_mirror, tt),
)

abbrev a_line : Values line
a_line = ((negsuc 4, (0, tt)), (300 ∷ 7 ∷ [], tt))

struct_roundtrip_example :
    (bs : List ℕ) × (write_to_bytes (struct_encode line) growing a_line ≡ ok bs)
    × (parse_from_bytes (struct_decode slice_reader line) bs ≡ ok a_line)
unfolding struct_field vec_field_mirror u64_mirror varint_mirror i32_field u64_field varint_field
    is_packed field_bytes varint_bytes groups wire_type as_num
struct_roundtrip_example =
    struct_roundtrip line line_mirrors slice_reader
      (omega arith, ((λ e. omega (arith, e)), tt), (omega arith, tt, tt)) a_line
      (
        ((omega arith, (omega arith, tt)), omega arith),
        (((omega arith, (omega arith, tt)), omega arith), tt),
      )

-- The number 9 is not known to a point.
abbrev newer : List Field
newer =
    record { number = 1; kind = FieldKind.varint 8 }
    ∷ record { number = 9; kind = FieldKind.len (1 ∷ []) }
    ∷ record { number = 2; kind = FieldKind.varint 4 }
    ∷ []

unknown_fields_skipped_example :
    parse_from_bytes (struct_decode slice_reader point) (concat_map encoded newer)
    ≡ parse_from_bytes
        (struct_decode slice_reader point)
        (concat_map encoded (known_only point newer))
unknown_fields_skipped_example =
    unknown_fields_skipped slice_reader point newer
      ((omega arith, omega arith), ((omega arith, omega arith), ((omega arith, omega arith), tt)))

abbrev tags : Variant
tags =
    holds (record { fieldnum = 3; is_default = false }) (List ℕ)
      (slice_message Scalars.uint_message) (vec_message slice_reader u64_message) []

-- `enum Event { #[field(1, default)] Nothing, #[field(2)] At(Point), #[field(3)] Tags(Vec<u64>) }`
abbrev event : List Variant
event =
    plain (record { fieldnum = 1; is_default = true })
    ∷ holds (record { fieldnum = 2; is_default = false }) (Values point) (struct_encode point)
        (struct_decode slice_reader point) (pos 0, (0, tt))
    ∷ tags
    ∷ []

abbrev event_decode : DecodeMessage (Value event)
event_decode = enum_message_decode slice_reader event (inl tt)

event_decode_lem : expand_enum slice_reader event ≡ some event_decode
unfolding expand_enum default_variant count_defaults
event_decode_lem = refl

abbrev tags_mirror :
    FieldMirror (slice_message Scalars.uint_message) (vec_message slice_reader u64_message)
tags_mirror = vec_field_mirror slice_reader u64_mirror

enum_roundtrip_example :
    (bs : List ℕ) × (write_to_bytes (enum_message_encode event) growing (inr (inr (inl (5 ∷ []))))
      ≡ ok bs)
    × (parse_from_bytes event_decode bs ≡ ok (inr (inr (inl (5 ∷ [])))))
unfolding vec_field_mirror u64_mirror varint_mirror is_packed can_be_packed uint_lawful
    varint_message_bytes varint_bytes groups
enum_roundtrip_example =
    enum_roundtrip {vs = event} {v = tags} (later (later first)) (tags_mirror, refl) (5 ∷ [])
      ((omega arith, tt), omega arith) slice_reader event_decode event_decode_lem
      ((λ e. omega (arith, e)), ((λ e. omega (arith, e)), tt)) (omega arith) (FieldKind.varint 5) []
      refl

empty_content_lost_example :
    (default : Value event) × (default_variant event ≡ some default)
    × (write_to_bytes (enum_message_encode event) growing (inr (inr (inl []))) ≡ ok [])
    × (parse_from_bytes event_decode [] ≡ ok default)
unfolding vec_field_mirror u64_mirror varint_mirror is_packed can_be_packed uint_lawful
empty_content_lost_example =
    empty_content_lost {vs = event} {v = tags} (later (later first)) (tags_mirror, refl) []
      (tt, omega arith) slice_reader event_decode event_decode_lem refl
