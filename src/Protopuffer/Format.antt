-- ===== src/Protopuffer/Format.antt =====
-- protopuffer/src/encode.rs: the bytes of a field in plain arithmetic, and the encoder's methods.
pub mod Sizes
pub mod Fields
use lafere.Base.{
  ℕ, ◌+◌, ◌*◌, ◌/◌, ◌%◌, ◌^◌, ◌≤◌, ◌<◌, ◌≡◌, ap, ◌∙◌, arith, bit_or, true, false, Bool, List, [],
  ◌∷◌, ◌++◌, length, length-append, Result, ok, err, ok_or, map_err, ◌>>=◌, if◌then◌else◌,
  Bool-cases, inl, inr,
}
use lafere.Bits.{bit_or_shifted, bit_or_comm}
use lafere.Bytes.{BytesWrite, to_le, length-to_le}
use lafere.Bytes.Writes.{put, Writes, Writes-seq}
use lafere.Protopuffer.Wire.{WireType, FieldKind, wire_type, as_num, as_num-lt-eight}
use lafere.Protopuffer.Encoder.{
  EncodeError, buffer_exausted, write_varint, write_tag, write_len, write_bytes, write_i32,
  write_i64, write_empty_field,
}
use lafere.Protopuffer.Varint
use lafere.Protopuffer.Varint.{WriteError, write_error}
use lafere.Protopuffer.Varint.Encoding.{IsU64, varint_bytes}
use lafere.Protopuffer.Varint.Write.{write-varint_bytes}

-- A field number keeps its low 61 bits.
abbrev pub tag : ℕ → WireType → ℕ
tag num ty = num * 8 % 2 ^ 64 + as_num ty

abbrev pub tag_bytes : ℕ → WireType → List ℕ
tag_bytes num ty = varint_bytes (tag num ty)

abbrev pub payload : FieldKind → List ℕ
payload (FieldKind.varint v) = varint_bytes v
payload (FieldKind.i32 v) = to_le 4 v
payload (FieldKind.i64 v) = to_le 8 v
payload (FieldKind.len bs) = varint_bytes (length bs) ++ bs

unfoldable pub field_bytes : ℕ → FieldKind → List ℕ
field_bytes num kind = tag_bytes num (wire_type kind) ++ payload kind

or_num : (x : ℕ) (ty : WireType) → bit_or (x * 8) (as_num ty) ≡ x * 8 + as_num ty
or_num x ty =
    omega
      (arith, bit_or_comm (x * 8) (as_num ty), bit_or_shifted 3 (as_num ty) x (as_num-lt-eight ty))

pub tag_or : (num : ℕ) (ty : WireType) → bit_or (num * 8 % 2 ^ 64) (as_num ty) ≡ tag num ty
tag_or num ty =
    ap (λ (t : ℕ). bit_or t (as_num ty)) (eighth num) ∙ or_num (num % 2 ^ 61) ty ∙ omega arith
  where
    eighth : (num : ℕ) → num * 8 % 2 ^ 64 ≡ num % 2 ^ 61 * 8
    eighth num = omega arith

pub tag-IsU64 : (num : ℕ) (ty : WireType) → IsU64 (tag num ty)
tag-IsU64 num ty = omega (arith, as_num-lt-eight ty)

module _ (W : BytesWrite) where
  pub write_varint-Writes :
      (v : ℕ) → IsU64 v → Writes W buffer_exausted (varint_bytes v) (write_varint W v)
  unfolding write_varint
  write_varint-Writes v h w room = rw (write-varint_bytes W v w h room) (ground arith)

  pub write_len-Writes :
      (v : ℕ) → IsU64 v → Writes W buffer_exausted (varint_bytes v) (write_len W v)
  unfolding write_len
  write_len-Writes v h w room = rw (write-varint_bytes W v w h room) (ground arith)

  pub write_tag-Writes :
      (num : ℕ) (ty : WireType) → Writes W buffer_exausted (tag_bytes num ty) (write_tag W num ty)
  unfolding write_tag
  write_tag-Writes num ty w room =
      rw (tag_or num ty, write-varint_bytes W (tag num ty) w (tag-IsU64 num ty) room) (ground arith)

  pub write_bytes-Writes : (bs : List ℕ) → Writes W buffer_exausted bs (write_bytes W bs)
  unfolding write_bytes
  write_bytes-Writes bs w room = rw W.write_lem (ground arith)

  pub write_i32-Writes : (v : ℕ) → Writes W buffer_exausted (to_le 4 v) (write_i32 W v)
  unfolding write_i32
  write_i32-Writes v w room = rw W.le_u32_lem (ground arith)

  pub write_i64-Writes : (v : ℕ) → Writes W buffer_exausted (to_le 8 v) (write_i64 W v)
  unfolding write_i64
  write_i64-Writes v w room = rw W.le_u64_lem (ground arith)
