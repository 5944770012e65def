-- ===== src/Protopuffer/Decode/RoundTrip.antt =====
-- protopuffer/src/decode.rs and encode.rs: decoding what was encoded.
use mathlib.Core.List.{append-nil, append_assoc}
use lafere.Base.{
  ℕ, ◌^◌, ◌<◌, ◌≡◌, refl, sym, ap, ◌∙◌, arith, Bool, true, false, ◌&&◌, none, some, List, [], ◌∷◌,
  ◌++◌, length, length-append, ltb, All, concat_map, Bool-cases, inl, inr, ok, ◌>>=◌,
}
use lafere.Bytes.{BytesRead, growing}
use lafere.Protopuffer.Wire.{
  WireType, FieldKind, IsKind, wire_type, is_len, can_be_packed, try_unwrap_len,
}
use lafere.Protopuffer.Decoder.{next, next_kind, maybe_next_kind, finish}
use lafere.Protopuffer.Varint.Encoding.{varint_bytes, length-varint_bytes}
use lafere.Protopuffer.Format.{payload, field_bytes, tag_bytes}
use lafere.Protopuffer.Format.Fields.{next_kind-payload, next-field_bytes}
use lafere.Protopuffer.Encode.{
  field_nested, EncodeMessage, is_packed, slice_message, write_to_bytes,
}
use lafere.Protopuffer.Encode.Laws.{Lawful, nested_bytes}
use lafere.Protopuffer.Encode.Slices.{flat_bytes, slice_bytes, slice_encode-Appends}
use lafere.Protopuffer.Decode.{
  DecodeMessage, parse_from_bytes, in_message, first_field, push, vec_field, vec_message, read_all,
}
use lafere.Protopuffer.Decode.Loop.{read_all_unfolds, next-Progress, maybe_next_kind-Progress}

-- `D` decodes what `E` encodes: a value is one field kind, which merging reads back. `InRange` holds
-- of the values of the Rust type.
pub record Mirror {T : Type 0} {E : EncodeMessage T} (L : Lawful E) (D : DecodeMessage T)
    : Type 1 where
  pub InRange : T → Type 0
  pub valid : (v : T) → InRange v → L.Valid v
  pub kind : T → FieldKind
  pub is_kind : (v : T) → InRange v → IsKind (kind v)
  pub same_type : D.wire_type ≡ E.wire_type
  pub kind_type : (v : T) → wire_type (kind v) ≡ D.wire_type
  pub field_lem :
      (v : T) (num : ℕ) → InRange v → L.bytes v (some (field_nested num)) ≡ field_bytes num (kind v)
  pub bare_lem : (v : T) → can_be_packed D.wire_type ≡ true → L.bytes v none ≡ payload (kind v)
  pub merge_lem : (v : T) → InRange v → D.merge (kind v) false D.decode_default ≡ ok v

pub and_left : (a b : Bool) → (a && b) ≡ true → a ≡ true
and_left true b h = refl
and_left false b h = absurd (ground (arith, h))

pub nested_field :
    (num : ℕ) (body : List ℕ)
    → length body < 2 ^ 64
    → nested_bytes num body ≡ field_bytes num (FieldKind.len body) ++ []
unfolding nested_bytes field_bytes wire_type
nested_field num body small =
    rw (append-nil)
      (ap (λ (n : ℕ). tag_bytes num WireType.len ++ (varint_bytes n ++ body)) (omega arith))

payload_cons : (kind : FieldKind) → 0 < length (payload kind)
payload_cons (FieldKind.varint v) = omega (arith, length-varint_bytes v)
payload_cons (FieldKind.i32 v) = omega arith
payload_cons (FieldKind.i64 v) = omega arith
payload_cons (FieldKind.len bs) =
    omega (arith, length-varint_bytes (length bs), length-append (varint_bytes (length bs)) bs)

module _ (R : BytesRead) where
  maybe_next_kind_lem :
      (ty : WireType) (r : List ℕ)
      → 0 < length r
      → maybe_next_kind R ty r ≡ (next_kind R ty r >>= λ (kind, r'). ok (some kind, r'))
  unfolding maybe_next_kind
  maybe_next_kind_lem ty [] h = absurd (omega arith)
  maybe_next_kind_lem ty (b ∷ r) h = refl

  maybe_next_kind-payload :
      (kind : FieldKind) (rest : List ℕ)
      → IsKind kind
      → maybe_next_kind R (wire_type kind) (payload kind ++ rest) ≡ ok (some kind, rest)
  maybe_next_kind-payload kind rest h =
      rw
        (
          maybe_next_kind_lem (wire_type kind) (payload kind ++ rest)
              (omega (arith, payload_cons kind, length-append (payload kind) rest)),
          next_kind-payload R kind rest h,
        )
        refl

module _ (R : BytesRead) {V : Type 0} {E : EncodeMessage V} {L : Lawful E} {D : DecodeMessage V}
    (M : Mirror L D) where
  pub All-valid : (vs : List V) → All M.InRange vs → All L.Valid vs
  All-valid [] h = tt
  All-valid (v ∷ vs) (hv, hs) = (M.valid v hv, All-valid vs hs)

  done_read : (vs : List V) → read_all (next R) (first_field (vec_field R D)) [] vs ≡ ok vs
  done_read vs =
      rw (read_all_unfolds (next R) (first_field (vec_field R D)) (next-Progress R) [] vs)
        (unfold next finish in refl)

  push_lem : (v : V) (acc : List V) → M.InRange v → push R D (M.kind v) acc ≡ ok (acc ++ (v ∷ []))
  unfolding push
  push_lem v acc h = rw (M.merge_lem v h) refl

  not_packed : (kind : FieldKind) → (is_len kind && can_be_packed (wire_type kind)) ≡ false
  unfolding is_len can_be_packed wire_type
  not_packed (FieldKind.varint v) = refl
  not_packed _ = refl

  pub vec_field_one :
      (v : V) (acc : List V) → M.InRange v → vec_field R D (M.kind v) acc ≡ ok (acc ++ (v ∷ []))
  unfolding vec_field
  vec_field_one v acc h =
      let apart : (is_len (M.kind v) && can_be_packed D.wire_type) ≡ false =
        ap (λ ty. is_len (M.kind v) && can_be_packed ty) (sym (M.kind_type v))
        ∙ not_packed (M.kind v) in
      rw apart (push_lem v acc h)

  apart_read :
      (vs acc : List V)
      → All M.InRange vs
      → read_all
          (next R)
          (first_field (vec_field R D))
          (concat_map (λ v. L.bytes v (some (field_nested 1))) vs)
          acc
        ≡ ok (acc ++ vs)
  apart_read [] acc h =
      rw
        (
          read_all_unfolds (next R) (first_field (vec_field R D)) (next-Progress R) [] acc,
          append-nil,
        )
        (unfold next finish in refl)
  apart_read (v ∷ vs) acc (hv, hs) =
      let rest = concat_map (λ v. L.bytes v (some (field_nested 1))) vs in
      rw
        (
          read_all_unfolds (next R) (first_field (vec_field R D)) (next-Progress R)
              (L.bytes v (some (field_nested 1)) ++ rest) acc,
          M.field_lem v 1 hv,
          next-field_bytes R 1 (M.kind v) rest (omega arith) (M.is_kind v hv),
          vec_field_one v acc hv,
          apart_read vs (acc ++ (v ∷ [])) hs,
          append_assoc,
        )
        refl

  pub packed_read :
      (vs acc : List V)
      → can_be_packed D.wire_type ≡ true
      → All M.InRange vs
      → read_all
          (maybe_next_kind R D.wire_type)
          (push R D)
          (concat_map (λ v. L.bytes v none) vs)
          acc
        ≡ ok (acc ++ vs)
  packed_read [] acc hp h =
      rw
        (
          read_all_unfolds (maybe_next_kind R D.wire_type) (push R D)
              (maybe_next_kind-Progress R D.wire_type) [] acc,
          append-nil,
        )
        (unfold maybe_next_kind finish in refl)
  packed_read (v ∷ vs) acc hp (hv, hs) =
      let rest = concat_map (λ v. L.bytes v none) vs in
      let read_one : maybe_next_kind R D.wire_type (payload (M.kind v) ++ rest)
          ≡ ok (some (M.kind v), rest) =
        ap (λ ty. maybe_next_kind R ty (payload (M.kind v) ++ rest)) (sym (M.kind_type v))
        ∙ maybe_next_kind-payload R (M.kind v) rest (M.is_kind v hv) in
      rw
        (
          read_all_unfolds (maybe_next_kind R D.wire_type) (push R D)
              (maybe_next_kind-Progress R D.wire_type) (L.bytes v none ++ rest) acc,
          M.bare_lem v hp,
          read_one,
          push_lem v acc hv,
          packed_read vs (acc ++ (v ∷ [])) hp hs,
          append_assoc,
        )
        refl

  one_packed :
      (vs : List V)
      → can_be_packed D.wire_type ≡ true
      → All M.InRange vs
      → length (concat_map (λ v. L.bytes v none) vs) < 2 ^ 64
      → read_all
          (next R)
          (first_field (vec_field R D))
          (nested_bytes 1 (concat_map (λ v. L.bytes v none) vs))
          []
        ≡ ok vs
  unfolding vec_field is_len try_unwrap_len
  one_packed vs hp h small =
      let body = concat_map (λ v. L.bytes v none) vs in
      rw
        (
          nested_field 1 body small,
          read_all_unfolds (next R) (first_field (vec_field R D)) (next-Progress R)
              (field_bytes 1 (FieldKind.len body) ++ []) [],
          next-field_bytes R 1 (FieldKind.len body) [] (omega arith) small,
          hp,
          packed_read vs [] hp h,
        )
        (done_read vs)

  whole_read :
      (vs : List V)
      → All M.InRange vs
      → length (concat_map (λ v. L.bytes v none) vs) < 2 ^ 64
      → read_all (next R) (first_field (vec_field R D)) (flat_bytes L vs 1) [] ≡ ok vs
  unfolding flat_bytes is_packed
  whole_read vs h small = elim (Bool-cases (can_be_packed E.wire_type && ltb 1 (length vs))) [
    | inl packed ↦
        rw packed (one_packed vs (ap can_be_packed M.same_type ∙ and_left _ _ packed) h small)
    | inr apart ↦ rw apart (apart_read vs [] h)
  ]

  -- A vector is decoded to itself from the bytes that it is encoded to in a growing buffer, packed
  -- or not: for any element type whose decoder mirrors its encoder, elements in the range of the
  -- type, and elements that take less than 2 ^ 64 bytes.
  pub vec_roundtrip :
      (vs : List V)
      → All M.InRange vs
      → length (concat_map (λ v. L.bytes v none) vs) < 2 ^ 64
      → (bs : List ℕ) × (write_to_bytes (slice_message E) growing vs ≡ ok bs)
        × (parse_from_bytes (vec_message R D) bs ≡ ok vs)
  unfolding write_to_bytes parse_from_bytes slice_message vec_message in_message try_unwrap_len
      slice_bytes
  vec_roundtrip vs h small = (
    slice_bytes L vs none,
    slice_encode-Appends L vs none (All-valid vs h) growing [] refl,
    whole_read vs h small,
  )
