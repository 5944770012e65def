-- ===== src/Derive/Structs.antt =====
-- protopuffer-codegen: a derived struct, encoded and decoded.
use lafere.Base.{
  ℕ, ◌≡◌, refl, sym, ap, ◌∙◌, arith, true, false, Option, none, List, [], ◌∷◌, length, concat_map,
  ok, for_each, Bool-cases, inl, inr,
}
use mathlib.Core.List.{append-nil}
use lafere.Bytes.{BytesRead, growing}
use lafere.Protopuffer.Wire.{FieldKind, wire_type, try_unwrap_len, can_be_packed}
use lafere.Protopuffer.Varint.Encoding.{IsU64}
use lafere.Protopuffer.Decoder.{next}
use lafere.Bytes.Writes.{put}
use lafere.Protopuffer.Encoder.{buffer_exausted}
use lafere.Protopuffer.SizeBuilder.{add_u64}
use lafere.Protopuffer.Encode.{FieldOpt, write_to_bytes}
use lafere.Protopuffer.Encode.Laws.{Lawful, Counts, Appends}
use lafere.Protopuffer.Encode.Tuples.{tuple_field, tuple_encode, tuple_size}
use lafere.Protopuffer.Encode.Tuples.Laws.{
  LawfulField, lawful_field, written, codes, framed, tuple_size-Counts, tuple_encode-Appends,
}
use lafere.Protopuffer.Decode.{parse_from_bytes, read_all}
use lafere.Protopuffer.Decode.RoundTrip.{Mirror, nested_field}
use lafere.Derive.{
  FieldAttr, Values, fields_of, struct_encode, default_fields, merge_fields, struct_decode,
}
use lafere.Derive.Fields.{FieldMirror, merge_all}
use lafere.Derive.Merging.{encoded, read_fields}
use lafere.Derive.Items.{
  concat_map-append, concat_map-fields_at, fields_at, Mirrors, IsDistinct, InRange, items,
  items-IsField, merge_items,
}

abbrev pub lawful_fields :
    (as_ : List FieldAttr) (ms : Mirrors as_) (vs : Values as_)
    → InRange as_ ms vs
    → List LawfulField
lawful_fields [] ms vs h = []
lawful_fields (a ∷ as_) (m, ms) (v, vs) (hv, hs) =
    lawful_field m.lawful a.fieldnum v (m.valid v hv) ∷ lawful_fields as_ ms vs hs

codes-lawful_fields :
    (as_ : List FieldAttr) (ms : Mirrors as_) (vs : Values as_) (h : InRange as_ ms vs)
    → codes (lawful_fields as_ ms vs h) ≡ fields_of as_ vs
codes-lawful_fields [] ms vs h = refl
codes-lawful_fields (a ∷ as_) (m, ms) (v, vs) (hv, hs) =
    ap (◌∷◌ (tuple_field a.E a.fieldnum v)) (codes-lawful_fields as_ ms vs hs)

-- The bytes of the fields.
abbrev pub body : (as_ : List FieldAttr) → Mirrors as_ → Values as_ → List ℕ
body as_ ms vs = concat_map encoded (items as_ ms vs)

written_lem :
    (as_ : List FieldAttr) (ms : Mirrors as_) (vs : Values as_) (h : InRange as_ ms vs)
    → concat_map written (lawful_fields as_ ms vs h) ≡ body as_ ms vs
written_lem [] ms vs h = refl
written_lem (a ∷ as_) (m, ms) (v, vs) (hv, hs) = elim (Bool-cases (a.E.is_default v)) [
  | inl default ↦ rw default (written_lem as_ ms vs hs)
  | inr given ↦
      rw
        (
          given,
          concat_map-append encoded (fields_at a.fieldnum (m.kinds v)) (items as_ ms vs),
          concat_map-fields_at a.fieldnum (m.kinds v),
          m.bytes_lem v a.fieldnum hv,
          written_lem as_ ms vs hs,
        )
        refl
]

pub true-false : false ≡ true → ⊥
true-false e = ground (arith, e)

module _ (as_ : List FieldAttr) (ms : Mirrors as_) where
  pub struct-Counts :
      (vs : Values as_) (field : Option FieldOpt)
      → InRange as_ ms vs
      → Counts (framed field (body as_ ms vs)) ((struct_encode as_).encoded_size vs field)
  struct-Counts vs field h n hn =
      let cs = lawful_fields as_ ms vs h in
      ap (λ codes. tuple_size codes field n) (sym (codes-lawful_fields as_ ms vs h))
      ∙ tuple_size-Counts cs field n hn
      ∙ ap (λ bs. ok (add_u64 n (length (framed field bs)))) (written_lem as_ ms vs h)

  pub struct-Appends :
      (vs : Values as_) (field : Option FieldOpt)
      → InRange as_ ms vs
      → Appends (framed field (body as_ ms vs)) (λ W. (struct_encode as_).encode W vs field)
  struct-Appends vs field h W w room =
      let cs = lawful_fields as_ ms vs h in
      ap (λ codes. tuple_encode W codes field w) (sym (codes-lawful_fields as_ ms vs h))
      ∙ tuple_encode-Appends cs field W w room
      ∙ ap (λ bs. put W buffer_exausted (framed field bs) w) (written_lem as_ ms vs h)

  unfoldable pub struct_lawful : Lawful (struct_encode as_)
  struct_lawful = record {
    Valid = InRange as_ ms;
    bytes = λ vs f. framed f (body as_ ms vs);
    counts = struct-Counts;
    appends = struct-Appends;
  }

  module _ (R : BytesRead) (distinct : IsDistinct as_) where
    pub struct_read :
        (vs : Values as_)
        → InRange as_ ms vs
        → read_all (next R) (merge_fields as_) (body as_ ms vs) (default_fields as_) ≡ ok vs
    struct_read vs h =
        read_fields R (merge_fields as_) (items as_ ms vs) (default_fields as_)
          (items-IsField as_ ms vs distinct h)
        ∙ merge_items as_ ms vs distinct h

    -- A derived struct is decoded to itself from the bytes that it is encoded to in a growing
    -- buffer, fields with their default value left out: for any fields of different numbers below
    -- 2 ^ 61 whose decoders read back what their encoders write, and values in the ranges of the
    -- types.
    pub struct_roundtrip :
        (vs : Values as_)
        → InRange as_ ms vs
        → (bs : List ℕ) × (write_to_bytes (struct_encode as_) growing vs ≡ ok bs)
          × (parse_from_bytes (struct_decode R as_) bs ≡ ok vs)
    unfolding write_to_bytes parse_from_bytes try_unwrap_len struct_lawful
    struct_roundtrip vs h =
        (body as_ ms vs, struct_lawful.appends vs none h growing [] refl, struct_read vs h)

    -- A struct in a `Vec` or an `Option`.
    unfoldable pub struct_mirror : Mirror struct_lawful (struct_decode R as_)
    unfolding struct_lawful wire_type try_unwrap_len can_be_packed
    struct_mirror = record {
      InRange = λ vs. InRange as_ ms vs × IsU64 (length (body as_ ms vs));
      valid = λ vs (h, small). h;
      kind = λ vs. FieldKind.len (body as_ ms vs);
      is_kind = λ vs (h, small). small;
      same_type = refl;
      kind_type = λ vs. refl;
      field_lem = λ vs num (h, small). nested_field num (body as_ ms vs) small ∙ append-nil _;
      bare_lem = λ vs h. absurd (true-false h);
      merge_lem = λ vs (h, small). struct_read vs h;
    }

    -- A struct in a field of another struct.
    unfoldable pub struct_field : FieldMirror (struct_encode as_) (struct_decode R as_)
    unfolding struct_lawful merge_all for_each try_unwrap_len
    struct_field = record {
      lawful = struct_lawful;
      InRange = λ vs. InRange as_ ms vs × IsU64 (length (body as_ ms vs));
      valid = λ vs (h, small). h;
      kinds = λ vs. FieldKind.len (body as_ ms vs) ∷ [];
      are_kinds = λ vs (h, small). (small, tt);
      bytes_lem = λ vs num (h, small). nested_field num (body as_ ms vs) small;
      merge_lem = λ vs (h, small). rw (struct_read vs h) refl;
      default_lem = λ vs h e. absurd (true-false e);
    }
