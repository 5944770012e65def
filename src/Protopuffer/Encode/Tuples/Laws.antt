-- ===== src/Protopuffer/Encode/Tuples/Laws.antt =====
-- protopuffer/src/encode.rs: the bytes of tuples and maps.
use lafere.Protopuffer.SizeBuilder.{add_u64}
use lafere.Bytes.{BytesWrite}
use mathlib.Core.List.{append_assoc}
use lafere.Base.{
  ℕ, ◌%◌, ◌^◌, ◌≡◌, refl, ap, arith, Option, none, some, List, [], ◌∷◌, ◌++◌, length, All,
  concat_map, ok, for_each, Bool-cases, inl, inr, if◌then◌else◌, true,
}
use lafere.Bytes.Writes.{Writes-seq, put_nil, put}
use lafere.Protopuffer.Wire.{WireType}
use lafere.Protopuffer.Encoder.{buffer_exausted, write_tag, write_len}
use lafere.Protopuffer.SizeBuilder
use lafere.Protopuffer.Format.{tag_bytes, write_tag-Writes, write_len-Writes}
use lafere.Protopuffer.Varint.Encoding.{varint_bytes, IsU64}
use lafere.Protopuffer.Encode.{FieldOpt, field_new, field_nested, field_or_one, EncodeMessage}
use lafere.Protopuffer.Encode.Laws.{
  Counts, Appends, Lawful, Counts-nil, for_each-Counts, for_each-Writes, nested_bytes,
  nested_size-Counts, nested_encode-Writes, nested_length, from_zero, Counts-seq,
}
use lafere.Protopuffer.Encode.Tuples.{
  TupleField, tuple_field, field_size, field_encode, tuple_head_size, tuple_size, tuple_head_encode,
  tuple_encode, tuple2_message, map_size_flat, map_encode_flat, map_size, map_encode,
}

-- The bytes of a field that is written.
pub record LawfulField : Type 0 where
  pub code : TupleField
  pub bytes : List ℕ
  pub counts : Counts bytes (code.encoded_size (some (field_new code.index)))
  pub appends : Appends bytes (λ W. code.encode W (some (field_new code.index)))

abbrev pub written : LawfulField → List ℕ
written c = if c.code.is_default then [] else c.bytes

abbrev pub codes : List LawfulField → List TupleField
codes [] = []
codes (c ∷ cs) = c.code ∷ codes cs

-- A tuple alone, and behind a tag and a length.
abbrev pub framed : Option FieldOpt → List ℕ → List ℕ
framed none body = body
framed (some f) body = nested_bytes f.num body

field_size-Counts : (c : LawfulField) → Counts (written c) (field_size c.code)
unfolding field_size
field_size-Counts c = elim (Bool-cases c.code.is_default) [
  | inl default ↦ λ n hn. rw default (Counts-nil n hn)
  | inr given ↦ λ n hn. rw given (c.counts n hn)
]

field_encode-Appends : (c : LawfulField) → Appends (written c) (λ W. field_encode W c.code)
unfolding field_encode
field_encode-Appends c W w room = elim (Bool-cases c.code.is_default) [
  | inl default ↦ rw default (put_nil W buffer_exausted w room)
  | inr given ↦ rw given (c.appends W w room)
]

fields-Counts :
    (cs : List LawfulField) → Counts (concat_map written cs) (λ n. for_each field_size (codes cs) n)
unfolding for_each
fields-Counts [] = Counts-nil
fields-Counts (c ∷ cs) =
    Counts-seq (written c) (concat_map written cs) (field_size c.code)
      (λ n. for_each field_size (codes cs) n) (field_size-Counts c) (fields-Counts cs)

fields-Appends :
    (cs : List LawfulField)
    → Appends (concat_map written cs) (λ W w. for_each (field_encode W) (codes cs) w)
unfolding for_each
fields-Appends [] W w room = put_nil W buffer_exausted w room
fields-Appends (c ∷ cs) W w room =
    Writes-seq W buffer_exausted (written c) (concat_map written cs) (field_encode W c.code)
      (λ w'. for_each (field_encode W) (codes cs) w') (field_encode-Appends c W)
      (fields-Appends cs W) w room

-- `encoded_size` of a tuple whose fields keep the encoder's promise counts, modulo 2 ^ 64, the
-- fields that do not have their default value, and its tag and length where it is a field itself.
pub tuple_size-Counts :
    (cs : List LawfulField) (field : Option FieldOpt)
    → (n : ℕ) → IsU64 n
    → tuple_size (codes cs) field n ≡ ok (add_u64 n (length (framed field (concat_map written cs))))
unfolding tuple_size tuple_head_size SizeBuilder.write_bytes
tuple_size-Counts cs none n hn =
    rw (from_zero (concat_map written cs) _ (fields-Counts cs)) (ap ok (omega arith))
tuple_size-Counts cs (some f) n hn =
    rw (from_zero (concat_map written cs) _ (fields-Counts cs))
      (ap ok (nested_length f.num (concat_map written cs) n))

abbrev pub head_bytes : Option FieldOpt → List ℕ → List ℕ
head_bytes none body = []
head_bytes (some f) body = tag_bytes f.num WireType.len ++ varint_bytes (length body % 2 ^ 64)

pub framed_lem :
    (field : Option FieldOpt) (body : List ℕ) → framed field body ≡ head_bytes field body ++ body
unfolding nested_bytes
framed_lem none body = refl
framed_lem (some f) body = rw append_assoc

head-Appends :
    (cs : List LawfulField) (field : Option FieldOpt)
    → Appends (head_bytes field (concat_map written cs)) (λ W. tuple_head_encode W (codes cs) field)
unfolding tuple_head_encode
head-Appends cs none W w room = put_nil W buffer_exausted w room
head-Appends cs (some f) W w room =
    let size = length (concat_map written cs) % 2 ^ 64 in
    rw (from_zero (concat_map written cs) _ (fields-Counts cs)) (
      Writes-seq W buffer_exausted (tag_bytes f.num WireType.len) (varint_bytes size)
        (write_tag W f.num WireType.len) (write_len W size) (write_tag-Writes W f.num WireType.len)
        (write_len-Writes W size (omega arith)) w room)

-- `encode` of a tuple whose fields keep the encoder's promise appends the fields that do not have
-- their default value, behind a tag and their length where the tuple is a field itself, to any
-- buffer that is not overfull, or fails where they do not fit.
pub tuple_encode-Appends :
    (cs : List LawfulField) (field : Option FieldOpt)
    → (W : BytesWrite) (w : List ℕ) → W.has_room (length w) ≡ true
    → tuple_encode W (codes cs) field w
      ≡ put W buffer_exausted (framed field (concat_map written cs)) w
unfolding tuple_encode
tuple_encode-Appends cs field W w room = rw (framed_lem field (concat_map written cs)) (
    Writes-seq W buffer_exausted (head_bytes field (concat_map written cs)) (concat_map written cs)
      (tuple_head_encode W (codes cs) field) (λ w'. for_each (field_encode W) (codes cs) w')
      (head-Appends cs field W) (fields-Appends cs W) w room)

abbrev pub lawful_field :
    {T : Type 0} {E : EncodeMessage T} (L : Lawful E) (index : ℕ) (v : T) → L.Valid v → LawfulField
lawful_field {E = E} L index v h = record {
  code = tuple_field E index v;
  bytes = L.bytes v (some (field_new index));
  counts = L.counts v (some (field_new index)) h;
  appends = L.appends v (some (field_new index)) h;
}

module _ {A B : Type 0} {EA : EncodeMessage A} {EB : EncodeMessage B} (LA : Lawful EA)
    (LB : Lawful EB) where
  abbrev pub ValidPair : A × B → Type 0
  ValidPair (a, b) = LA.Valid a × LB.Valid b

  abbrev pub pair_fields : (v : A × B) → ValidPair v → List LawfulField
  pair_fields (a, b) (ha, hb) = lawful_field LA 0 a ha ∷ lawful_field LB 1 b hb ∷ []

  -- The two fields, each unless it has its default value.
  abbrev pub pair_body : A × B → List ℕ
  pair_body (a, b) =
      (if EA.is_default a then [] else LA.bytes a (some (field_new 0)))
      ++ ((if EB.is_default b then [] else LB.bytes b (some (field_new 1))) ++ [])

  abbrev pub tuple2_lawful : Lawful (tuple2_message EA EB)
  unfolding tuple2_message
  tuple2_lawful = record {
    Valid = ValidPair;
    bytes = λ v f. framed f (pair_body v);
    counts = λ v f h. tuple_size-Counts (pair_fields v h) f;
    appends = λ v f h. tuple_encode-Appends (pair_fields v h) f;
  }

  -- The entries of a map, each a field of its own.
  pub map_flat_bytes : List (A × B) → ℕ → List ℕ
  map_flat_bytes entries num =
      concat_map (λ kv. framed (some (field_nested num)) (pair_body kv)) entries

  pub map_bytes : List (A × B) → Option FieldOpt → List ℕ
  map_bytes entries field =
      let f = field_or_one field in
      if f.is_nested
      then nested_bytes f.num (map_flat_bytes entries 1)
      else map_flat_bytes entries f.num

  map_flat-Counts :
      (entries : List (A × B)) (num : ℕ)
      → All ValidPair entries
      → Counts (map_flat_bytes entries num) (map_size_flat EA EB entries num)
  unfolding map_size_flat map_flat_bytes
  map_flat-Counts entries num h =
      for_each-Counts ValidPair (λ kv. framed (some (field_nested num)) (pair_body kv)) _
        (λ kv hkv. tuple_size-Counts (pair_fields kv hkv) (some (field_nested num))) entries h

  map_flat-Appends :
      (entries : List (A × B)) (num : ℕ)
      → All ValidPair entries
      → Appends (map_flat_bytes entries num) (λ W. map_encode_flat EA EB W entries num)
  unfolding map_encode_flat map_flat_bytes
  map_flat-Appends entries num h W =
      for_each-Writes ValidPair (λ kv. framed (some (field_nested num)) (pair_body kv)) W _
        (λ kv hkv. tuple_encode-Appends (pair_fields kv hkv) (some (field_nested num)) W) entries h

  -- `encoded_size` of a map whose keys and values are valid, nested or not, counts, modulo 2 ^ 64,
  -- the bytes that `encode` appends.
  pub map_size-Counts :
      (entries : List (A × B)) (field : Option FieldOpt)
      → All ValidPair entries
      → (n : ℕ) → IsU64 n
      → map_size EA EB entries field n ≡ ok (add_u64 n (length (map_bytes entries field)))
  unfolding map_size map_bytes
  map_size-Counts entries field h = elim (Bool-cases (field_or_one field).is_nested) [
    | inl nested ↦ λ n hn. rw nested (
        nested_size-Counts (field_or_one field).num (map_flat_bytes entries 1) _
          (map_flat-Counts entries 1 h) n hn)
    | inr top ↦ λ n hn. rw top (map_flat-Counts entries (field_or_one field).num h n hn)
  ]

  -- `encode` of a map whose keys and values are valid, nested or not, appends a field for each
  -- entry to any buffer that is not overfull, or fails where they do not fit.
  pub map_encode-Appends :
      (entries : List (A × B)) (field : Option FieldOpt)
      → All ValidPair entries
      → (W : BytesWrite) (w : List ℕ) → W.has_room (length w) ≡ true
      → map_encode EA EB W entries field w ≡ put W buffer_exausted (map_bytes entries field) w
  unfolding map_encode map_bytes
  map_encode-Appends entries field h W w room = elim (Bool-cases (field_or_one field).is_nested) [
    | inl nested ↦ rw nested (
        nested_encode-Writes W (field_or_one field).num (map_flat_bytes entries 1) _ _
          (map_flat-Counts entries 1 h) (map_flat-Appends entries 1 h W) w room)
    | inr top ↦ rw top (map_flat-Appends entries (field_or_one field).num h W w room)
  ]
