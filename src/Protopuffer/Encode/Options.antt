-- ===== src/Protopuffer/Encode/Options.antt =====
-- protopuffer/src/encode.rs: `impl EncodeMessage for Option<T>`.
pub mod Laws
use lafere.Base.{ℕ, Bool, true, false, Option, none, some, List, Result, ok, if◌then◌else◌}
use lafere.Bytes.{BytesWrite}
use lafere.Protopuffer.Wire.{WireType}
use lafere.Protopuffer.Encoder.{EncodeError}
use lafere.Protopuffer.Encode.{
  FieldOpt, field_nested, field_or_one, EncodeMessage, nested_size, nested_encode,
}

abbrev pub is_none : {A : Type 0} → Option A → Bool
is_none none = true
is_none (some a) = false

module _ {T : Type 0} (E : EncodeMessage T) where
  unfoldable pub option_size_flat : Option T → ℕ → ℕ → Result EncodeError ℕ
  option_size_flat none num builder = ok builder
  option_size_flat (some v) num builder = E.encoded_size v (some (field_nested num)) builder

  unfoldable pub option_encode_flat :
      (W : BytesWrite) → Option T → ℕ → List ℕ → Result EncodeError (List ℕ)
  option_encode_flat W none num w = ok w
  option_encode_flat W (some v) num w = E.encode W v (some (field_nested num)) w

  unfoldable pub option_size : Option T → Option FieldOpt → ℕ → Result EncodeError ℕ
  option_size v field builder =
      let f = field_or_one field in
      if f.is_nested
      then nested_size (option_size_flat v 1) f.num builder
      else option_size_flat v f.num builder

  unfoldable pub option_encode :
      (W : BytesWrite) → Option T → Option FieldOpt → List ℕ → Result EncodeError (List ℕ)
  option_encode W v field w =
      let f = field_or_one field in
      if f.is_nested
      then nested_encode W (option_size_flat v 1) (option_encode_flat W v 1) f.num w
      else option_encode_flat W v f.num w

  unfoldable pub option_message : EncodeMessage (Option T)
  option_message = record {
    wire_type = WireType.len;
    is_default = is_none;
    encoded_size = option_size;
    encode = option_encode;
  }
