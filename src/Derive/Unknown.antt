-- ===== src/Derive/Unknown.antt =====
-- protopuffer-codegen: a derived struct that meets fields it does not know.
use lafere.Base.{
  ℕ, ◌≡◌, refl, sym, ◌∙◌, arith, Bool, true, false, ◌||◌, List, [], ◌∷◌, ◌==◌, if◌then◌else◌,
  Bool-cases, inl, inr, All, ok, for_each, Result-cases, concat_map,
}
use lafere.Bytes.{BytesRead}
use lafere.Protopuffer.Wire.{Field, try_unwrap_len}
use lafere.Protopuffer.Decode.{parse_from_bytes}
use lafere.Derive.{FieldAttr, Values, default_fields, merge_fields, struct_decode}
use lafere.Derive.Merging.{encoded, IsField, read_fields}

-- The struct has a field of the number.
abbrev pub has_field : List FieldAttr → ℕ → Bool
has_field [] num = false
has_field (a ∷ as_) num = num == a.fieldnum || has_field as_ num

abbrev pub known_only : List FieldAttr → List Field → List Field
known_only as_ [] = []
known_only as_ (f ∷ fs) =
    if has_field as_ f.number then f ∷ known_only as_ fs else known_only as_ fs

or_false : (a b : Bool) → (a || b) ≡ false → (a ≡ false) × (b ≡ false)
or_false true b h = absurd (ground (arith, h))
or_false false b h = (refl, h)

merge_unknown :
    (as_ : List FieldAttr) (f : Field) (vs : Values as_)
    → has_field as_ f.number ≡ false
    → merge_fields as_ f vs ≡ ok vs
unfolding merge_fields
merge_unknown [] f vs h = refl
merge_unknown (a ∷ as_) f (v, vs) h =
    let (other, rest) = or_false (f.number == a.fieldnum) (has_field as_ f.number) h in
    rw (other, merge_unknown as_ f vs rest) refl

merge_known :
    (as_ : List FieldAttr) (fs : List Field) (vs : Values as_)
    → for_each (merge_fields as_) fs vs ≡ for_each (merge_fields as_) (known_only as_ fs) vs
unfolding for_each
merge_known as_ [] vs = refl
merge_known as_ (f ∷ fs) vs = elim (Bool-cases (has_field as_ f.number)) [
  | inl known ↦ rw known (elim (Result-cases (merge_fields as_ f vs)) [
    | inl (vs', e) ↦ rw e (merge_known as_ fs vs')
    | inr (bad, e) ↦ rw e refl
  ])
  | inr unknown ↦ rw (unknown, merge_unknown as_ f vs unknown) (merge_known as_ fs vs)
]

known_only-IsField :
    (as_ : List FieldAttr) (fs : List Field) → All IsField fs → All IsField (known_only as_ fs)
known_only-IsField as_ [] h = tt
known_only-IsField as_ (f ∷ fs) (hf, hs) = elim (Bool-cases (has_field as_ f.number)) [
  | inl known ↦ rw known (hf, known_only-IsField as_ fs hs)
  | inr unknown ↦ rw unknown (known_only-IsField as_ fs hs)
]

-- A derived struct decodes the bytes of any fields, in any order and of any kinds, to what it
-- decodes the fields alone to whose numbers it has.
pub unknown_fields_skipped :
    (R : BytesRead) (as_ : List FieldAttr) (fs : List Field)
    → All IsField fs
    → parse_from_bytes (struct_decode R as_) (concat_map encoded fs)
      ≡ parse_from_bytes (struct_decode R as_) (concat_map encoded (known_only as_ fs))
unfolding parse_from_bytes try_unwrap_len
unknown_fields_skipped R as_ fs h =
    read_fields R (merge_fields as_) fs (default_fields as_) h
    ∙ merge_known as_ fs (default_fields as_)
    ∙ sym (
        read_fields R (merge_fields as_) (known_only as_ fs) (default_fields as_)
          (known_only-IsField as_ fs h))
