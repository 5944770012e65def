-- ===== src/Protopuffer/Encode.antt =====
-- protopuffer/src/encode.rs: the trait `EncodeMessage` and its implementations. The methods take
-- `&mut self`, and no implementation changes the value. Debug assertions are left out.
pub mod Laws
pub mod Slices
pub mod Scalars
pub mod Options
pub mod Tuples
use lafere.Base.{
  ℕ, ◌<◌, Bool, true, false, ◌&&◌, Option, none, some, List, [], ◌∷◌, length, ltb, ◌==◌, ◌%◌, ◌^◌,
  if◌then◌else◌, Result, ok, err, ◌>>=◌, for_each,
}
use lafere.Base.Int.{ℤ, pos, negsuc, as_u64}
use lafere.Bytes.{BytesWrite, growing}
use lafere.Protopuffer.Wire.{WireType, can_be_packed}
use lafere.Protopuffer.Encoder.{
  EncodeError, write_tag, write_len, write_varint, write_i32, write_i64, write_bytes,
}
use lafere.Protopuffer.SizeBuilder

pub record FieldOpt : Type 0 where
  pub num : ℕ
  pub is_nested : Bool

abbrev pub field_new : ℕ → FieldOpt
field_new num = record { num = num; is_nested = false }

abbrev pub field_nested : ℕ → FieldOpt
field_nested num = record { num = num; is_nested = true }

-- `field.unwrap_or(FieldOpt::new(1))`
abbrev pub field_or_one : Option FieldOpt → FieldOpt
field_or_one none = field_new 1
field_or_one (some f) = f

pub record EncodeMessage (T : Type 0) : Type 0 where
  pub wire_type : WireType
  pub is_default : T → Bool
  pub encoded_size : T → Option FieldOpt → ℕ → Result EncodeError ℕ
  pub encode : (W : BytesWrite) → T → Option FieldOpt → List ℕ → Result EncodeError (List ℕ)

unfoldable pub write_to_bytes :
    {T : Type 0} → EncodeMessage T → BytesWrite → T → Result EncodeError (List ℕ)
write_to_bytes E W v = E.encode W v none []

-- A field that cannot be repeated: its tag, and a message of its own with the fields that `size`
-- and `encode` stand for.
unfoldable pub nested_size : (ℕ → Result EncodeError ℕ) → ℕ → ℕ → Result EncodeError ℕ
nested_size flat num builder = do
  let builder' = SizeBuilder.write_tag num WireType.len builder
  size ← flat SizeBuilder.new
  ok (SizeBuilder.write_bytes size (SizeBuilder.write_len size builder'))

unfoldable pub nested_encode :
    (W : BytesWrite)
    → (ℕ → Result EncodeError ℕ)
    → (List ℕ → Result EncodeError (List ℕ))
    → ℕ
    → List ℕ
    → Result EncodeError (List ℕ)
nested_encode W flat_size flat num w = do
  w' ← write_tag W num WireType.len w
  size ← flat_size SizeBuilder.new
  w'' ← write_len W size w'
  flat w''

abbrev pub is_empty : {A : Type 0} → List A → Bool
is_empty [] = true
is_empty (x ∷ xs) = false

-- `impl EncodeMessage for [V]`, which `Vec<V>` and `[V; S]` call.
module _ {V : Type 0} (E : EncodeMessage V) where
  unfoldable pub is_packed : List V → Bool
  is_packed vs = can_be_packed E.wire_type && ltb 1 (length vs)

  unfoldable pub slice_size_flat : List V → ℕ → ℕ → Result EncodeError ℕ
  unfolding is_packed
  slice_size_flat vs num builder =
      if is_packed vs
      then nested_size (λ b. for_each (λ v. E.encoded_size v none) vs b) num builder
      else for_each (λ v. E.encoded_size v (some (field_nested num))) vs builder

  unfoldable pub slice_encode_flat :
      (W : BytesWrite) → List V → ℕ → List ℕ → Result EncodeError (List ℕ)
  unfolding is_packed
  slice_encode_flat W vs num w =
      if is_packed vs
      then nested_encode W (λ b. for_each (λ v. E.encoded_size v none) vs b)
          (λ w'. for_each (λ v. E.encode W v none) vs w') num w
      else for_each (λ v. E.encode W v (some (field_nested num))) vs w

  unfoldable pub slice_size : List V → Option FieldOpt → ℕ → Result EncodeError ℕ
  slice_size vs field builder =
      let f = field_or_one field in
      if f.is_nested
      then nested_size (slice_size_flat vs 1) f.num builder
      else slice_size_flat vs f.num builder

  unfoldable pub slice_encode :
      (W : BytesWrite) → List V → Option FieldOpt → List ℕ → Result EncodeError (List ℕ)
  slice_encode W vs field w =
      let f = field_or_one field in
      if f.is_nested
      then nested_encode W (slice_size_flat vs 1) (slice_encode_flat W vs 1) f.num w
      else slice_encode_flat W vs f.num w

  unfoldable pub slice_message : EncodeMessage (List V)
  slice_message = record {
    wire_type = WireType.len;
    is_default = is_empty;
    encoded_size = slice_size;
    encode = slice_encode;
  }
