-- ===== src/Protopuffer/Encode/Tuples.antt =====
-- protopuffer/src/encode.rs: tuples and `HashMap<K, V>`. The macro for tuples repeats one text for
-- each field: here it runs over the list of the fields.
pub mod Laws
use lafere.Base.{
  ℕ, Bool, true, false, Option, none, some, List, [], ◌∷◌, Result, ok, ◌>>=◌, for_each,
  if◌then◌else◌,
}
use lafere.Bytes.{BytesWrite}
use lafere.Protopuffer.Wire.{WireType}
use lafere.Protopuffer.Encoder.{EncodeError, write_tag, write_len}
use lafere.Protopuffer.SizeBuilder
use lafere.Protopuffer.Encode.{
  FieldOpt, field_new, field_nested, field_or_one, EncodeMessage, nested_size, nested_encode,
  is_empty,
}

-- `self.$idx` with its methods.
pub record TupleField : Type 0 where
  pub index : ℕ
  pub is_default : Bool
  pub encoded_size : Option FieldOpt → ℕ → Result EncodeError ℕ
  pub encode : (W : BytesWrite) → Option FieldOpt → List ℕ → Result EncodeError (List ℕ)

abbrev pub tuple_field : {T : Type 0} → EncodeMessage T → ℕ → T → TupleField
tuple_field E index v = record {
  index = index;
  is_default = E.is_default v;
  encoded_size = E.encoded_size v;
  encode = λ W. E.encode W v;
}

-- A field that has its default value is left out.
unfoldable pub field_size : TupleField → ℕ → Result EncodeError ℕ
field_size c builder =
    if c.is_default then ok builder else c.encoded_size (some (field_new c.index)) builder

unfoldable pub field_encode : BytesWrite → TupleField → List ℕ → Result EncodeError (List ℕ)
field_encode W c w = if c.is_default then ok w else c.encode W (some (field_new c.index)) w

tuple_head_size : Option FieldOpt → ℕ → ℕ → ℕ
tuple_head_size none fields_size builder = builder
tuple_head_size (some f) fields_size builder =
    SizeBuilder.write_len fields_size (SizeBuilder.write_tag f.num WireType.len builder)

unfoldable pub tuple_size : List TupleField → Option FieldOpt → ℕ → Result EncodeError ℕ
unfolding tuple_head_size
tuple_size fields field builder = do
  size ← for_each field_size fields SizeBuilder.new
  ok (SizeBuilder.write_bytes size (tuple_head_size field size builder))

tuple_head_encode :
    BytesWrite → List TupleField → Option FieldOpt → List ℕ → Result EncodeError (List ℕ)
tuple_head_encode W fields none w = ok w
tuple_head_encode W fields (some f) w = do
  w' ← write_tag W f.num WireType.len w
  size ← for_each field_size fields SizeBuilder.new
  write_len W size w'

unfoldable pub tuple_encode :
    (W : BytesWrite) → List TupleField → Option FieldOpt → List ℕ → Result EncodeError (List ℕ)
unfolding tuple_head_encode
tuple_encode W fields field w = do
  w' ← tuple_head_encode W fields field w
  for_each (field_encode W) fields w'

abbrev pub tuple_message : {T : Type 0} → (T → List TupleField) → EncodeMessage T
tuple_message fields = record {
  wire_type = WireType.len;
  is_default = λ v. false;
  encoded_size = λ v. tuple_size (fields v);
  encode = λ W v. tuple_encode W (fields v);
}

module _ {A B : Type 0} (EA : EncodeMessage A) (EB : EncodeMessage B) where
  abbrev pub fields2 : A × B → List TupleField
  fields2 (a, b) = tuple_field EA 0 a ∷ tuple_field EB 1 b ∷ []

  unfoldable pub tuple2_message : EncodeMessage (A × B)
  tuple2_message = tuple_message fields2

-- `HashMap<K, V>`, as the list of its entries in the order of iteration.
module _ {K V : Type 0} (EK : EncodeMessage K) (EV : EncodeMessage V) where
  unfoldable pub map_size_flat : List (K × V) → ℕ → ℕ → Result EncodeError ℕ
  unfolding tuple2_message
  map_size_flat entries num builder =
      for_each (λ kv. (tuple2_message EK EV).encoded_size kv (some (field_nested num))) entries
        builder

  unfoldable pub map_encode_flat :
      (W : BytesWrite) → List (K × V) → ℕ → List ℕ → Result EncodeError (List ℕ)
  unfolding tuple2_message
  map_encode_flat W entries num w =
      for_each (λ kv. (tuple2_message EK EV).encode W kv (some (field_nested num))) entries w

  unfoldable pub map_size : List (K × V) → Option FieldOpt → ℕ → Result EncodeError ℕ
  map_size entries field builder =
      let f = field_or_one field in
      if f.is_nested
      then nested_size (map_size_flat entries 1) f.num builder
      else map_size_flat entries f.num builder

  unfoldable pub map_encode :
      (W : BytesWrite) → List (K × V) → Option FieldOpt → List ℕ → Result EncodeError (List ℕ)
  map_encode W entries field w =
      let f = field_or_one field in
      if f.is_nested
      then nested_encode W (map_size_flat entries 1) (map_encode_flat W entries 1) f.num w
      else map_encode_flat W entries f.num w

  unfoldable pub map_message : EncodeMessage (List (K × V))
  map_message = record {
    wire_type = WireType.len;
    is_default = is_empty;
    encoded_size = map_size;
    encode = map_encode;
  }
