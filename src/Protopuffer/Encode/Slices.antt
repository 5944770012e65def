-- ===== src/Protopuffer/Encode/Slices.antt =====
-- protopuffer/src/encode.rs: the bytes of a `[V]`.
use lafere.Protopuffer.Varint.Encoding.{IsU64}
use lafere.Protopuffer.SizeBuilder.{add_u64}
use lafere.Protopuffer.Encoder.{buffer_exausted}
use lafere.Bytes.Writes.{put}
use lafere.Bytes.{BytesWrite}
use lafere.Base.{
  ℕ, Option, none, some, List, All, concat_map, Bool-cases, inl, inr, if◌then◌else◌, ◌≡◌, length,
  ok, true,
}
use lafere.Protopuffer.Encode.{
  FieldOpt, field_nested, field_or_one, EncodeMessage, is_packed, slice_size_flat,
  slice_encode_flat, slice_size, slice_encode, slice_message,
}
use lafere.Protopuffer.Encode.Laws.{
  Counts, Appends, Lawful, for_each-Counts, for_each-Writes, nested_bytes, nested_size-Counts,
  nested_encode-Writes,
}

module _ {V : Type 0} {E : EncodeMessage V} (L : Lawful E) where
  -- The elements without tags behind one length, or each behind a tag of its own.
  unfoldable pub flat_bytes : List V → ℕ → List ℕ
  flat_bytes vs num =
      if is_packed E vs
      then nested_bytes num (concat_map (λ v. L.bytes v none) vs)
      else concat_map (λ v. L.bytes v (some (field_nested num))) vs

  unfoldable pub slice_bytes : List V → Option FieldOpt → List ℕ
  slice_bytes vs field =
      let f = field_or_one field in
      if f.is_nested then nested_bytes f.num (flat_bytes vs 1) else flat_bytes vs f.num

  flat-Counts :
      (vs : List V) (num : ℕ)
      → All L.Valid vs
      → Counts (flat_bytes vs num) (slice_size_flat E vs num)
  unfolding slice_size_flat flat_bytes
  flat-Counts vs num h = elim (Bool-cases (is_packed E vs)) [
    | inl packed ↦ λ n hn. rw packed (
        nested_size-Counts num (concat_map (λ v. L.bytes v none) vs) _
          (for_each-Counts L.Valid (λ v. L.bytes v none) _ (λ v. L.counts v none) vs h) n hn)
    | inr apart ↦ λ n hn. rw apart (
        for_each-Counts L.Valid (λ v. L.bytes v (some (field_nested num))) _
          (λ v. L.counts v (some (field_nested num))) vs h n hn)
  ]

  flat-Appends :
      (vs : List V) (num : ℕ)
      → All L.Valid vs
      → Appends (flat_bytes vs num) (λ W. slice_encode_flat E W vs num)
  unfolding slice_encode_flat flat_bytes
  flat-Appends vs num h W w room = elim (Bool-cases (is_packed E vs)) [
    | inl packed ↦ rw packed (
        nested_encode-Writes W num (concat_map (λ v. L.bytes v none) vs) _ _
          (for_each-Counts L.Valid (λ v. L.bytes v none) _ (λ v. L.counts v none) vs h)
          (for_each-Writes L.Valid (λ v. L.bytes v none) W _ (λ v hv. L.appends v none hv W) vs h) w
          room)
    | inr apart ↦ rw apart (
        for_each-Writes L.Valid (λ v. L.bytes v (some (field_nested num))) W _
          (λ v hv. L.appends v (some (field_nested num)) hv W) vs h w room)
  ]

  -- `encoded_size` of a slice whose elements are valid adds, modulo 2 ^ 64, the number of the
  -- bytes that `encode` appends to any size builder, packed or not, nested or not.
  pub slice_size-Counts :
      (vs : List V) (field : Option FieldOpt)
      → All L.Valid vs
      → (n : ℕ) → IsU64 n
      → slice_size E vs field n ≡ ok (add_u64 n (length (slice_bytes vs field)))
  unfolding slice_size slice_bytes
  slice_size-Counts vs field h = elim (Bool-cases (field_or_one field).is_nested) [
    | inl nested ↦ λ n hn.
        rw nested (
          nested_size-Counts (field_or_one field).num (flat_bytes vs 1) _ (flat-Counts vs 1 h) n hn)
    | inr top ↦ λ n hn. rw top (flat-Counts vs (field_or_one field).num h n hn)
  ]

  -- `encode` of a slice whose elements are valid, as a field, nested or alone, appends the bytes
  -- of the slice, packed or an element at a time, to any buffer that is not overfull, or fails
  -- where they do not fit.
  pub slice_encode-Appends :
      (vs : List V) (field : Option FieldOpt)
      → All L.Valid vs
      → (W : BytesWrite) (w : List ℕ) → W.has_room (length w) ≡ true
      → slice_encode E W vs field w ≡ put W buffer_exausted (slice_bytes vs field) w
  unfolding slice_encode slice_bytes
  slice_encode-Appends vs field h W w room = elim (Bool-cases (field_or_one field).is_nested) [
    | inl nested ↦ rw nested (
        nested_encode-Writes W (field_or_one field).num (flat_bytes vs 1) _ _ (flat-Counts vs 1 h)
          (flat-Appends vs 1 h W) w room)
    | inr top ↦ rw top (flat-Appends vs (field_or_one field).num h W w room)
  ]

  unfoldable pub slice_lawful : Lawful (slice_message E)
  unfolding slice_message
  slice_lawful = record {
    Valid = All L.Valid;
    bytes = slice_bytes;
    counts = slice_size-Counts;
    appends = slice_encode-Appends;
  }
