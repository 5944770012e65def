-- ===== src/Protopuffer/Wire.antt =====
-- protopuffer/src/lib.rs and decode.rs: wire types, field kinds and the errors.
use Prim.Native.String.{String}
use lafere.Base.{
  ℕ, ◌+◌, ◌*◌, ◌%◌, ◌^◌, ◌<◌, ◌≡◌, bit_and, arith, Bool, true, false, List, ◌==◌, if◌then◌else◌,
  Result, ok, err, length,
}
use lafere.Bits.{low_three}

pub data DecodeError : Type 0 where
  unexpected_eof expected_eof invalid_varint : DecodeError
  invalid_wire_type : ℕ → DecodeError
  wire_type_mismatch expected_varint_wire_type expected_i32_wire_type : DecodeError
  expected_i64_wire_type expected_len_wire_type expected_utf8 : DecodeError
  expected_array_len : ℕ → DecodeError
  other : String → DecodeError

pub data WireType : Type 0 where
  varint i32 i64 len : WireType

-- `tag as u8` is `tag % 256`.
unfoldable pub from_tag : ℕ → Result DecodeError WireType
from_tag tag =
    let b = bit_and (tag % 256) 7 in
    if b == 0
    then ok WireType.varint
    else if b == 1
    then ok WireType.i64
    else if b == 2
    then ok WireType.len
    else if b == 5
    then ok WireType.i32
    else err (invalid_wire_type b)

unfoldable pub as_num : WireType → ℕ
as_num WireType.varint = 0
as_num WireType.i64 = 1
as_num WireType.len = 2
as_num WireType.i32 = 5

unfoldable pub can_be_packed : WireType → Bool
can_be_packed WireType.len = false
can_be_packed _ = true

-- A `&[u8]` is the list of its bytes; `I32` and `I64` hold the bits of the number.
pub data FieldKind : Type 0 where
  varint : ℕ → FieldKind
  i32 : ℕ → FieldKind
  i64 : ℕ → FieldKind
  len : List ℕ → FieldKind

pub record Field : Type 0 where
  pub number : ℕ
  pub kind : FieldKind

unfoldable pub is_len : FieldKind → Bool
is_len (FieldKind.len bs) = true
is_len _ = false

unfoldable pub wire_type : FieldKind → WireType
wire_type (FieldKind.varint v) = WireType.varint
wire_type (FieldKind.i32 v) = WireType.i32
wire_type (FieldKind.i64 v) = WireType.i64
wire_type (FieldKind.len bs) = WireType.len

unfoldable pub try_unwrap_varint : FieldKind → Result DecodeError ℕ
try_unwrap_varint (FieldKind.varint n) = ok n
try_unwrap_varint _ = err expected_varint_wire_type

unfoldable pub try_unwrap_i32 : FieldKind → Result DecodeError ℕ
try_unwrap_i32 (FieldKind.i32 n) = ok n
try_unwrap_i32 _ = err expected_i32_wire_type

unfoldable pub try_unwrap_i64 : FieldKind → Result DecodeError ℕ
try_unwrap_i64 (FieldKind.i64 n) = ok n
try_unwrap_i64 _ = err expected_i64_wire_type

unfoldable pub try_unwrap_len : FieldKind → Result DecodeError (List ℕ)
try_unwrap_len (FieldKind.len bs) = ok bs
try_unwrap_len _ = err expected_len_wire_type

-- What the Rust types guarantee of a kind.
abbrev pub IsKind : FieldKind → Type 0
IsKind (FieldKind.varint v) = v < 2 ^ 64
IsKind (FieldKind.i32 v) = v < 2 ^ 32
IsKind (FieldKind.i64 v) = v < 2 ^ 64
IsKind (FieldKind.len bs) = length bs < 2 ^ 64

pub as_num-lt-eight : (ty : WireType) → as_num ty < 8
unfolding as_num
as_num-lt-eight WireType.varint = omega arith
as_num-lt-eight _ = omega arith

-- Every wire type is read back from a tag whose low three bits are its number.
pub from_tag-as_num : (n : ℕ) (ty : WireType) → from_tag (n * 8 + as_num ty) ≡ ok ty
unfolding from_tag as_num
from_tag-as_num n WireType.varint = ground (arith, low_three ((n * 8 + 0) % 256))
from_tag-as_num n WireType.i32 = ground (arith, low_three ((n * 8 + 5) % 256))
from_tag-as_num n WireType.i64 = ground (arith, low_three ((n * 8 + 1) % 256))
from_tag-as_num n WireType.len = ground (arith, low_three ((n * 8 + 2) % 256))
