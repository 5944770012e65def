-- ===== src/Derive/EnumRoundTrip.antt =====
-- protopuffer-codegen: a derived enum with fields, encoded and decoded.
use lafere.Base.{
  ℕ, ◌%◌, ◌^◌, Bool, true, false, ◌==◌, if◌then◌else◌, ◌<◌, ◌≡◌, refl, sym, ap, ◌∙◌, arith, Option,
  none, some, List, [], ◌∷◌, ◌++◌, length, length-append, concat_map, ok,
}
use mathlib.Core.List.{append-nil}
use mathlib.Core.Option
use lafere.Bytes.{BytesRead, BytesWrite, growing}
use lafere.Bytes.Writes.{Writes, Writes-seq}
use lafere.Bytes.Writes
use lafere.Protopuffer.Wire.{FieldKind, WireType, wire_type, try_unwrap_len}
use lafere.Protopuffer.Varint.Encoding.{IsU64, varint_bytes}
use lafere.Protopuffer.Format.{field_bytes, tag_bytes, write_tag-Writes, write_len-Writes}
use lafere.Protopuffer.Format.Sizes.{write_tag-size, write_len-size}
use lafere.Protopuffer.Decoder.{next, finish}
use lafere.Protopuffer.Encoder.{buffer_exausted, write_tag, write_len, write_empty_field}
use lafere.Protopuffer.SizeBuilder
use lafere.Protopuffer.SizeBuilder.{add_u64}
use lafere.Protopuffer.Encode.{FieldOpt, field_new, write_to_bytes}
use lafere.Protopuffer.Encode.Laws.{Counts, Appends, nested_length, from_zero}
use lafere.Protopuffer.Encode.Tuples.Laws.{framed, head_bytes, framed_lem}
use lafere.Protopuffer.Decode.{DecodeMessage, parse_from_bytes, read_all}
use lafere.Protopuffer.Decode.Loop.{read_all_unfolds, next-Progress}
use lafere.Derive.Enums.{
  Variant, plain, holds, attr, Content, Value, content_size, variant_size, content_encode,
  variant_encode, enum_size, head_encode, enum_encode, enum_message_encode, merge_variant,
  default_variant, count_defaults, enum_message_decode, expand_enum,
}
use lafere.Derive.Variants.{
  Pick, first, later, IsReached, VariantMirror, InRange, content_kinds, decode_value,
}

abbrev pub content_bytes : (v : Variant) → VariantMirror v → Content v → List ℕ
content_bytes v m c = concat_map (field_bytes (attr v).fieldnum) (content_kinds v m c)

empty_field :
    (num : ℕ)
    → field_bytes num (FieldKind.len []) ++ [] ≡ tag_bytes num WireType.len ++ varint_bytes 0
unfolding field_bytes wire_type
empty_field num = rw (append-nil, append-nil) refl

content-Counts :
    (v : Variant) (m : VariantMirror v) (c : Content v)
    → InRange v m c
    → Counts (content_bytes v m c) (content_size v c)
unfolding SizeBuilder.write_empty_field
content-Counts (plain a) m c h n hn =
    let num = a.fieldnum in
    rw (empty_field num) (
      ap ok (
        omega (
          arith,
          write_tag-size num WireType.len n,
          write_len-size 0 (SizeBuilder.write_tag num WireType.len n) (omega arith),
          length-append (tag_bytes num WireType.len) (varint_bytes 0),
        )))
content-Counts (holds a T E D default) (m, same) c h n hn =
    rw (sym (m.bytes_lem c a.fieldnum h))
      (m.lawful.counts c (some (field_new a.fieldnum)) (m.valid c h) n hn)

content-Appends :
    (v : Variant) (m : VariantMirror v) (c : Content v)
    → InRange v m c
    → Appends (content_bytes v m c) (λ W. content_encode v W c)
unfolding write_empty_field
content-Appends (plain a) m c h W w room = rw (empty_field a.fieldnum) (
    Writes-seq W buffer_exausted (tag_bytes a.fieldnum WireType.len) (varint_bytes 0)
      (write_tag W a.fieldnum WireType.len) (write_len W 0)
      (write_tag-Writes W a.fieldnum WireType.len) (write_len-Writes W 0 (omega arith)) w room)
content-Appends (holds a T E D default) (m, same) c h W w room =
    rw (sym (m.bytes_lem c a.fieldnum h))
      (m.lawful.appends c (some (field_new a.fieldnum)) (m.valid c h) W w room)

variant_size-put :
    {vs : List Variant} {v : Variant} {put : Content v → Value vs} (p : Pick vs v put)
    (c : Content v) (n : ℕ)
    → variant_size vs (put c) n ≡ content_size v c n
unfolding variant_size
variant_size-put first c n = refl
variant_size-put (later p) c n = variant_size-put p c n

variant_encode-put :
    {vs : List Variant} {v : Variant} {put : Content v → Value vs} (p : Pick vs v put)
    (W : BytesWrite) (c : Content v) (w : List ℕ)
    → variant_encode vs W (put c) w ≡ content_encode v W c w
unfolding variant_encode
variant_encode-put first W c w = refl
variant_encode-put (later p) W c w = variant_encode-put p W c w

if_map-some :
    {A B : Type 0} (f : A → B) (b : Bool) (o : Option A) (y : B)
    → (if b then Option.map f o else none) ≡ some y
    → (x : A) × (o ≡ some x) × (y ≡ f x)
if_map-some f true (some x) y e = (x, refl, cc)
if_map-some f true none y e = absurd (ground (arith, e))
if_map-some f false o y e = absurd (ground (arith, e))

-- The decoder that the macro writes starts from the default variant.
expand_enum-some :
    (R : BytesRead) (vs : List Variant) (D : DecodeMessage (Value vs))
    → expand_enum R vs ≡ some D
    → (default : Value vs) × (default_variant vs ≡ some default)
      × (D ≡ enum_message_decode R vs default)
unfolding expand_enum
expand_enum-some R vs D made =
    if_map-some (enum_message_decode R vs) (count_defaults vs == 1) (default_variant vs) D made

none_read :
    (R : BytesRead) (vs : List Variant) (default : Value vs)
    → read_all (next R) (merge_variant vs) [] default ≡ ok default
none_read R vs default =
    rw (read_all_unfolds (next R) (merge_variant vs) (next-Progress R) [] default)
      (unfold next finish in refl)

module _ {vs : List Variant} {v : Variant} {put : Content v → Value vs} (p : Pick vs v put)
    (m : VariantMirror v) (c : Content v) (h : InRange v m c) where
  variant-Counts : Counts (content_bytes v m c) (variant_size vs (put c))
  variant-Counts n hn = variant_size-put p c n ∙ content-Counts v m c h n hn

  variant-Appends : Appends (content_bytes v m c) (λ W. variant_encode vs W (put c))
  variant-Appends W w room = variant_encode-put p W c w ∙ content-Appends v m c h W w room

  pub enum_size-Counts :
      (field : Option FieldOpt)
      → (n : ℕ) → IsU64 n
      → enum_size vs (put c) field n ≡ ok (add_u64 n (length (framed field (content_bytes v m c))))
  unfolding enum_size SizeBuilder.write_bytes
  enum_size-Counts none n hn =
      rw (from_zero (content_bytes v m c) _ variant-Counts) (ap ok (omega arith))
  enum_size-Counts (some f) n hn =
      rw (from_zero (content_bytes v m c) _ variant-Counts)
        (ap ok (nested_length f.num (content_bytes v m c) n))

  head-Appends :
      (field : Option FieldOpt)
      → Appends (head_bytes field (content_bytes v m c)) (λ W. head_encode vs W (put c) field)
  head-Appends none W w room = Writes.put_nil W buffer_exausted w room
  head-Appends (some f) W w room =
      let size = length (content_bytes v m c) % 2 ^ 64 in
      rw (from_zero (content_bytes v m c) _ variant-Counts) (
        Writes-seq W buffer_exausted (tag_bytes f.num WireType.len) (varint_bytes size)
          (write_tag W f.num WireType.len) (write_len W size)
          (write_tag-Writes W f.num WireType.len) (write_len-Writes W size (omega arith)) w room)

  pub enum_encode-Appends :
      (field : Option FieldOpt)
      → (W : BytesWrite) (w : List ℕ) → W.has_room (length w) ≡ true
      → enum_encode vs W (put c) field w
        ≡ Writes.put W buffer_exausted (framed field (content_bytes v m c)) w
  unfolding enum_encode
  enum_encode-Appends field W w room = rw (framed_lem field (content_bytes v m c)) (
      Writes-seq W buffer_exausted (head_bytes field (content_bytes v m c)) (content_bytes v m c)
        (head_encode vs W (put c) field) (λ w'. variant_encode vs W (put c) w')
        (head-Appends field W) (variant-Appends W) w room)

  -- A derived enum with fields is decoded to itself from the bytes that it is encoded to in a
  -- growing buffer, if the content of its variant is written as at least one field: for a variant
  -- whose number is below 2 ^ 61 and is not that of a variant before it, whose decoder reads back
  -- what its encoder writes and starts from `Default::default()`, and a content in the range of
  -- its type.
  pub enum_roundtrip :
      (R : BytesRead) (D : DecodeMessage (Value vs))
      → expand_enum R vs ≡ some D
      → IsReached p
      → (attr v).fieldnum < 2 ^ 61
      → (k : FieldKind) (ks : List FieldKind) → content_kinds v m c ≡ k ∷ ks
      → (bs : List ℕ) × (write_to_bytes (enum_message_encode vs) growing (put c) ≡ ok bs)
        × (parse_from_bytes D bs ≡ ok (put c))
  unfolding write_to_bytes parse_from_bytes try_unwrap_len
  enum_roundtrip R D made reached small k ks e =
      let (default, is_default, same) = expand_enum-some R vs D made in
      (
        content_bytes v m c,
        enum_encode-Appends none growing [] refl,
        ap (λ (d : DecodeMessage (Value vs)). parse_from_bytes d (content_bytes v m c)) same
            ∙ decode_value p reached m default is_default R c k ks small h e,
      )

  -- A derived enum whose variant holds a content that is written as no field, such as an empty
  -- `Vec`, is encoded to no bytes at all, and these are decoded to the default variant.
  pub empty_content_lost :
      (R : BytesRead) (D : DecodeMessage (Value vs))
      → expand_enum R vs ≡ some D
      → content_kinds v m c ≡ []
      → (default : Value vs) × (default_variant vs ≡ some default)
        × (write_to_bytes (enum_message_encode vs) growing (put c) ≡ ok [])
        × (parse_from_bytes D [] ≡ ok default)
  unfolding write_to_bytes parse_from_bytes try_unwrap_len
  empty_content_lost R D made e =
      let (default, is_default, same) = expand_enum-some R vs D made in
      (
        default,
        is_default,
        enum_encode-Appends none growing [] refl
            ∙ ap (λ kinds. ok (concat_map (field_bytes (attr v).fieldnum) kinds)) e,
        ap (λ (d : DecodeMessage (Value vs)). parse_from_bytes d []) same ∙ none_read R vs default,
      )
