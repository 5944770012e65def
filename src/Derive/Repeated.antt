-- ===== src/Derive/Repeated.antt =====
-- Fields of the types `Vec<V>` and `Option<V>`.
use lafere.Base.{
  ℕ, ◌≡◌, refl, sym, ap, ◌∙◌, arith, true, Option, none, some, List, [], ◌∷◌, ◌++◌, map, length,
  All, concat_map, ok, for_each, Bool-cases, inl, inr, if◌then◌else◌,
}
use mathlib.Core.List.{append-nil, append_assoc}
use lafere.Bytes.{BytesRead}
use lafere.Protopuffer.Wire.{FieldKind, IsKind, try_unwrap_len, is_len, can_be_packed}
use lafere.Protopuffer.Varint.Encoding.{IsU64}
use lafere.Protopuffer.Format.{field_bytes}
use lafere.Protopuffer.Encode.{EncodeMessage, field_nested, is_packed, slice_message}
use lafere.Protopuffer.Encode.Laws.{Lawful}
use lafere.Protopuffer.Encode.Slices.{slice_lawful, flat_bytes, slice_bytes}
use lafere.Protopuffer.Encode.Options
use lafere.Protopuffer.Encode.Options.{is_none}
use lafere.Protopuffer.Encode.Options.Laws.{
  ValidOption, option_lawful, option_bytes, option_flat_bytes,
}
use lafere.Protopuffer.Decode.{
  option_message, option_field, DecodeMessage, vec_message, in_message, vec_field,
}
use lafere.Protopuffer.Decode.RoundTrip.{
  Mirror, nested_field, and_left, All-valid, vec_field_one, packed_read,
}
use lafere.Derive.Fields.{FieldMirror, merge_all, is_empty-nil}

module _ (R : BytesRead) {V : Type 0} {E : EncodeMessage V} {L : Lawful E} {D : DecodeMessage V}
    (M : Mirror L D) where
  abbrev packed_body : List V → List ℕ
  packed_body vs = concat_map (λ v. L.bytes v none) vs

  -- One run of bytes where the elements are packed, else one kind for each.
  abbrev pub vec_kinds : List V → List FieldKind
  vec_kinds vs = if is_packed E vs then FieldKind.len (packed_body vs) ∷ [] else map M.kind vs

  abbrev pub InRangeVec : List V → Type 0
  InRangeVec vs = All M.InRange vs × IsU64 (length (packed_body vs))

  map-All : (vs : List V) → All M.InRange vs → All IsKind (map M.kind vs)
  map-All [] h = tt
  map-All (v ∷ vs) (hv, hs) = (M.is_kind v hv, map-All vs hs)

  apart_bytes :
      (vs : List V) (num : ℕ)
      → All M.InRange vs
      → concat_map (λ v. L.bytes v (some (field_nested num))) vs
        ≡ concat_map (field_bytes num) (map M.kind vs)
  apart_bytes [] num h = refl
  apart_bytes (v ∷ vs) num (hv, hs) = rw (M.field_lem v num hv, apart_bytes vs num hs) refl

  apart_merge :
      (vs acc : List V)
      → All M.InRange vs
      → merge_all (vec_message R D) (map M.kind vs) acc ≡ ok (acc ++ vs)
  unfolding merge_all for_each vec_message in_message
  apart_merge [] acc h = rw append-nil refl
  apart_merge (v ∷ vs) acc (hv, hs) =
      rw (vec_field_one R M v acc hv, apart_merge vs (acc ++ (v ∷ [])) hs, append_assoc) refl

  packed_merge :
      (vs : List V)
      → can_be_packed D.wire_type ≡ true
      → All M.InRange vs
      → merge_all (vec_message R D) (FieldKind.len (packed_body vs) ∷ []) [] ≡ ok vs
  unfolding merge_all for_each vec_message in_message vec_field is_len try_unwrap_len
  packed_merge vs hp h = rw (hp, packed_read R M vs [] hp h) refl

  can_pack : (vs : List V) → is_packed E vs ≡ true → can_be_packed D.wire_type ≡ true
  unfolding is_packed
  can_pack vs packed = ap can_be_packed M.same_type ∙ and_left _ _ packed

  -- `Vec<V>`
  unfoldable pub vec_field_mirror : FieldMirror (slice_message E) (vec_message R D)
  unfolding map-All apart_bytes packed_merge can_pack apart_merge slice_bytes flat_bytes
      slice_lawful slice_message vec_message
  vec_field_mirror = record {
    lawful = slice_lawful L;
    InRange = InRangeVec;
    valid = λ vs (h, small). All-valid R M vs h;
    kinds = vec_kinds;
    are_kinds = λ vs (h, small). elim (Bool-cases (is_packed E vs)) [
      | inl packed ↦ rw packed (small, tt)
      | inr apart ↦ rw apart (map-All vs h)
    ];
    bytes_lem = λ vs num (h, small). elim (Bool-cases (is_packed E vs)) [
      | inl packed ↦ rw packed (nested_field num (packed_body vs) small)
      | inr apart ↦ rw apart (apart_bytes vs num h)
    ];
    merge_lem = λ vs (h, small). elim (Bool-cases (is_packed E vs)) [
      | inl packed ↦ rw packed (packed_merge vs (can_pack vs packed) h)
      | inr apart ↦ rw apart (apart_merge vs [] h)
    ];
    default_lem = λ vs h e. is_empty-nil vs e;
  }

  -- `Option<V>`
  abbrev pub option_kinds : Option V → List FieldKind
  option_kinds none = []
  option_kinds (some v) = M.kind v ∷ []

  abbrev pub InRangeOption : Option V → Type 0
  InRangeOption none = Unit
  InRangeOption (some v) = M.InRange v

  option_valid : (o : Option V) → InRangeOption o → ValidOption L o
  option_valid none h = tt
  option_valid (some v) h = M.valid v h

  option_are_kinds : (o : Option V) → InRangeOption o → All IsKind (option_kinds o)
  option_are_kinds none h = tt
  option_are_kinds (some v) h = (M.is_kind v h, tt)

  option_bytes_lem :
      (o : Option V) (num : ℕ)
      → InRangeOption o
      → option_flat_bytes L o num ≡ concat_map (field_bytes num) (option_kinds o)
  unfolding option_flat_bytes
  option_bytes_lem none num h = refl
  option_bytes_lem (some v) num h = M.field_lem v num h ∙ sym (append-nil _)

  option_merge :
      (o : Option V) → InRangeOption o → merge_all (option_message R D) (option_kinds o) none ≡ ok o
  unfolding option_message merge_all for_each in_message option_field
  option_merge none h = refl
  option_merge (some v) h = rw (M.merge_lem v h) refl

  is_none-none : (o : Option V) → is_none o ≡ true → o ≡ none
  is_none-none none e = refl
  is_none-none (some v) e = absurd (ground (arith, e))

  unfoldable pub option_field_mirror : FieldMirror (Options.option_message E) (option_message R D)
  unfolding option_lawful option_bytes Options.option_message option_message option_valid
      option_are_kinds option_bytes_lem option_merge is_none-none
  option_field_mirror = record {
    lawful = option_lawful L;
    InRange = InRangeOption;
    valid = option_valid;
    kinds = option_kinds;
    are_kinds = option_are_kinds;
    bytes_lem = option_bytes_lem;
    merge_lem = option_merge;
    default_lem = λ o h e. is_none-none o e;
  }
