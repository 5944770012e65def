-- ===== src/Protopuffer/Encode/Scalars.antt =====
-- protopuffer/src/encode.rs: `bool`, the integers, the floats, and byte slices.
pub mod Laws
use lafere.Base.{
  ℕ, ◌+◌, ◌%◌, ◌^◌, Bool, true, false, Option, none, some, List, length, ◌==◌, Result, ok, ◌>>=◌,
}
use lafere.Base.Int.{ℤ, pos, negsuc, as_u64}
use lafere.Bytes.{BytesWrite}
use lafere.Protopuffer.Wire.{WireType}
use lafere.Protopuffer.Encoder.{
  EncodeError, write_tag, write_len, write_varint, write_i32, write_i64, write_bytes,
}
use lafere.Protopuffer.SizeBuilder
use lafere.Protopuffer.Encode.{FieldOpt, EncodeMessage, is_empty}

-- `if let Some(field) = field { write_tag(field.num, wtype) }`
unfoldable pub tag_size : WireType → Option FieldOpt → ℕ → ℕ
tag_size ty none builder = builder
tag_size ty (some f) builder = SizeBuilder.write_tag f.num ty builder

unfoldable pub tag_encode :
    BytesWrite → WireType → Option FieldOpt → List ℕ → Result EncodeError (List ℕ)
tag_encode W ty none w = ok w
tag_encode W ty (some f) w = write_tag W f.num ty w

-- `bool` and the integers: `cast` is `**self as u64`.
module _ {T : Type 0} (is_zero : T → Bool) (cast : T → ℕ) where
  unfoldable pub varint_size : T → Option FieldOpt → ℕ → Result EncodeError ℕ
  varint_size v field builder =
      ok (SizeBuilder.write_varint (cast v) (tag_size WireType.varint field builder))

  unfoldable pub varint_encode :
      (W : BytesWrite) → T → Option FieldOpt → List ℕ → Result EncodeError (List ℕ)
  varint_encode W v field w = do
    w' ← tag_encode W WireType.varint field w
    write_varint W (cast v) w'

  abbrev pub varint_message : EncodeMessage T
  varint_message = record {
    wire_type = WireType.varint;
    is_default = is_zero;
    encoded_size = varint_size;
    encode = varint_encode;
  }

abbrev pub is_false : Bool → Bool
is_false true = false
is_false false = true

abbrev pub bool_as_u64 : Bool → ℕ
bool_as_u64 true = 1
bool_as_u64 false = 0

abbrev pub is_zero_ℤ : ℤ → Bool
is_zero_ℤ (pos n) = n == 0
is_zero_ℤ (negsuc n) = false

unfoldable pub bool_message : EncodeMessage Bool
bool_message = varint_message is_false bool_as_u64

-- `u32` and `u64`.
unfoldable pub uint_message : EncodeMessage ℕ
uint_message = varint_message (λ n. n == 0) (λ n. n)

-- `i32` and `i64`.
unfoldable pub int_message : EncodeMessage ℤ
int_message = varint_message is_zero_ℤ as_u64

-- A float is its bits; it equals 0 where all but the sign are clear.
unfoldable pub f32_size : ℕ → Option FieldOpt → ℕ → Result EncodeError ℕ
f32_size bits field builder = ok (SizeBuilder.write_i32 bits (tag_size WireType.i32 field builder))

unfoldable pub f32_encode :
    (W : BytesWrite) → ℕ → Option FieldOpt → List ℕ → Result EncodeError (List ℕ)
f32_encode W bits field w = do w' ← tag_encode W WireType.i32 field w; write_i32 W bits w'

unfoldable pub f32_message : EncodeMessage ℕ
f32_message = record {
  wire_type = WireType.i32;
  is_default = λ bits. bits % 2 ^ 31 == 0;
  encoded_size = f32_size;
  encode = f32_encode;
}

unfoldable pub f64_size : ℕ → Option FieldOpt → ℕ → Result EncodeError ℕ
f64_size bits field builder = ok (SizeBuilder.write_i64 bits (tag_size WireType.i64 field builder))

unfoldable pub f64_encode :
    (W : BytesWrite) → ℕ → Option FieldOpt → List ℕ → Result EncodeError (List ℕ)
f64_encode W bits field w = do w' ← tag_encode W WireType.i64 field w; write_i64 W bits w'

unfoldable pub f64_message : EncodeMessage ℕ
f64_message = record {
  wire_type = WireType.i64;
  is_default = λ bits. bits % 2 ^ 63 == 0;
  encoded_size = f64_size;
  encode = f64_encode;
}

-- `&[u8]`, which `Vec<u8>`, `[u8; S]`, `String` and `str` call.
len_size : Option FieldOpt → ℕ → ℕ → ℕ
len_size none len builder = builder
len_size (some f) len builder =
    SizeBuilder.write_len len (SizeBuilder.write_tag f.num WireType.len builder)

len_encode : BytesWrite → Option FieldOpt → ℕ → List ℕ → Result EncodeError (List ℕ)
len_encode W none len w = ok w
len_encode W (some f) len w = do w' ← write_tag W f.num WireType.len w; write_len W len w'

unfoldable pub bytes_size : List ℕ → Option FieldOpt → ℕ → Result EncodeError ℕ
unfolding len_size
bytes_size bs field builder =
    ok (SizeBuilder.write_bytes (length bs) (len_size field (length bs) builder))

unfoldable pub bytes_encode :
    (W : BytesWrite) → List ℕ → Option FieldOpt → List ℕ → Result EncodeError (List ℕ)
unfolding len_encode
bytes_encode W bs field w = do w' ← len_encode W field (length bs) w; write_bytes W bs w'

unfoldable pub bytes_message : EncodeMessage (List ℕ)
bytes_message = record {
  wire_type = WireType.len;
  is_default = is_empty;
  encoded_size = bytes_size;
  encode = bytes_encode;
}
