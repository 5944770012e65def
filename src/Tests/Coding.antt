-- ===== src/Tests/Coding.antt =====
-- Runs of protopuffer's codec.
use lafere.Base.{
  ℕ, ◌^◌, ◌≤◌, ◌<◌, ◌≡◌, refl, arith, none, some, List, [], ◌∷◌, ◌++◌, All, concat_map, length, ok,
  err,
}
use lafere.Base.Int.{negsuc}
use lafere.Bytes.{slice_reader, growing}
use lafere.Bytes.Writes.{put}
use lafere.Protopuffer.Wire.{FieldKind}
use lafere.Protopuffer.Varint.{read, read_loop, read_end, read_error, write, write_error}
use lafere.Protopuffer.Varint.Encoding.{IsU64, groups, varint_bytes}
use lafere.Protopuffer.Varint.Read.{read_takes, read_endless}
use lafere.Protopuffer.Varint.Write.{write-varint_bytes}
use lafere.Protopuffer.Decoder.{next}
use lafere.Protopuffer.Format.{field_bytes}
use lafere.Protopuffer.Format.Fields.{next-field_bytes}
use lafere.Protopuffer.Encode.{field_new, slice_message, slice_encode, write_to_bytes}
use lafere.Protopuffer.Encoder.{buffer_exausted}
use lafere.Protopuffer.Encode.Slices.{slice_bytes, slice_encode-Appends}
use lafere.Protopuffer.Encode.Scalars.{uint_message}
use lafere.Protopuffer.Encode.Scalars.Laws.{uint_lawful, varint_message_bytes}
use lafere.Protopuffer.Encode.Tuples.{tuple_encode}
use lafere.Protopuffer.Encode.Tuples.Laws.{
  LawfulField, lawful_field, codes, written, framed, tuple_encode-Appends,
}
use lafere.Protopuffer.Decode.{vec_message, u64_message, parse_from_bytes, zigzag}
use lafere.Protopuffer.Decode.Ends.{Ends, read_all-Ends}
use lafere.Protopuffer.Wire.{WireType}
use lafere.Protopuffer.Decoder.{maybe_next_kind}
use lafere.Protopuffer.Decode.{push, first_field, vec_field, read_all}
use lafere.Protopuffer.Decode.RoundTrip.{vec_roundtrip}
use lafere.Protopuffer.Decode.Scalars.{
  u64_mirror, varint_mirror, zigzag_code, mirrored, zigzag_wraps,
}

abbrev numbers : List ℕ
numbers = 3 ∷ 270 ∷ 86942 ∷ []

numbers-IsU64 : All IsU64 numbers
numbers-IsU64 = (omega arith, (omega arith, (omega arith, tt)))

reads_300 : read slice_reader (172 ∷ 2 ∷ 1 ∷ []) ≡ ok (300, 1 ∷ [])
unfolding read read_loop read_end slice_reader
reads_300 = refl

read_takes_example : IsU64 300 × (3 ≤ 11) × (1 < 3)
read_takes_example =
    read_takes slice_reader (172 ∷ 2 ∷ 1 ∷ []) 300 (1 ∷ [])
      (omega arith, (omega arith, (omega arith, tt))) reads_300

read_endless_example : read slice_reader (255 ∷ 128 ∷ []) ≡ err read_error
read_endless_example =
    read_endless slice_reader (255 ∷ 128 ∷ [])
      ((omega arith, omega arith), ((omega arith, omega arith), tt))

write-varint_bytes_example :
    write growing 300 (9 ∷ []) ≡ put growing write_error (varint_bytes 300) (9 ∷ [])
write-varint_bytes_example = write-varint_bytes growing 300 (9 ∷ []) (omega arith) refl

next-field_bytes_example :
    next slice_reader (field_bytes 4 (FieldKind.len (104 ∷ 105 ∷ [])) ++ (40 ∷ 1 ∷ []))
    ≡ ok (some (record { number = 4; kind = FieldKind.len (104 ∷ 105 ∷ []) }), 40 ∷ 1 ∷ [])
next-field_bytes_example =
    next-field_bytes slice_reader 4 (FieldKind.len (104 ∷ 105 ∷ [])) (40 ∷ 1 ∷ []) (omega arith)
      (omega arith)

slice_encode-Appends_example :
    slice_encode uint_message growing numbers (some (field_new 6)) (9 ∷ [])
    ≡ put growing buffer_exausted (slice_bytes uint_lawful numbers (some (field_new 6))) (9 ∷ [])
unfolding uint_lawful
slice_encode-Appends_example =
    slice_encode-Appends uint_lawful numbers (some (field_new 6)) numbers-IsU64 growing (9 ∷ [])
      refl

abbrev entries : List (ℕ × ℕ)
entries = (1, 300) ∷ (0, 5) ∷ []

read_all-Ends_example :
    Ends (next slice_reader) (first_field (vec_field slice_reader u64_message)) (8 ∷ 5 ∷ []) [] (
      read_all
        (next slice_reader)
        (first_field (vec_field slice_reader u64_message))
        (8 ∷ 5 ∷ [])
        [])
    × Ends
        (maybe_next_kind slice_reader WireType.varint)
        (push slice_reader u64_message)
        (8 ∷ 5 ∷ [])
        []
        (read_all
          (maybe_next_kind slice_reader WireType.varint)
          (push slice_reader u64_message)
          (8 ∷ 5 ∷ [])
          [])
read_all-Ends_example =
    read_all-Ends slice_reader WireType.varint (first_field (vec_field slice_reader u64_message))
      (push slice_reader u64_message) (8 ∷ 5 ∷ []) []

numbers-small : length (concat_map (λ v. uint_lawful.bytes v none) numbers) < 2 ^ 64
unfolding uint_lawful varint_message_bytes varint_bytes groups
numbers-small = omega arith

vec_roundtrip_example :
    (bs : List ℕ) × (write_to_bytes (slice_message uint_message) growing numbers ≡ ok bs)
    × (parse_from_bytes (vec_message slice_reader u64_message) bs ≡ ok numbers)
unfolding u64_mirror varint_mirror uint_lawful
vec_roundtrip_example = vec_roundtrip slice_reader u64_mirror numbers numbers-IsU64 numbers-small

zigzag_wraps_example :
    zigzag (2 ^ 31) (zigzag_code (negsuc 2147483647)) ≡ mirrored (negsuc 2147483647)
zigzag_wraps_example = zigzag_wraps (negsuc 2147483647) (omega arith) (λ h. omega (arith, h))

-- A pair of numbers whose second has its default value.
abbrev fields : List LawfulField
unfolding uint_lawful
fields =
    lawful_field uint_lawful 0 300 (omega arith) ∷ lawful_field uint_lawful 1 0 (omega arith) ∷ []

tuple_encode-Appends_example :
    tuple_encode growing (codes fields) (some (field_new 3)) (9 ∷ [])
    ≡ put growing buffer_exausted (framed (some (field_new 3)) (concat_map written fields)) (9 ∷ [])
tuple_encode-Appends_example =
    tuple_encode-Appends fields (some (field_new 3)) growing (9 ∷ []) refl
