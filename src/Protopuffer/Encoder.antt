-- ===== src/Protopuffer/Encoder.antt =====
-- protopuffer/src/encode.rs: `MessageEncoder`, as the bytes that its buffer holds.
use Prim.Native.String.{String}
use lafere.Base.{ℕ, ◌*◌, ◌%◌, ◌^◌, bit_or, List, Result, ok_or, map_err, ◌>>=◌}
use lafere.Bytes.{BytesWrite}
use lafere.Protopuffer.Wire.{WireType, as_num}
use lafere.Protopuffer.Varint

pub data EncodeError : Type 0 where
  buffer_exausted : EncodeError
  other : String → EncodeError

module _ (W : BytesWrite) where
  unfoldable pub write_varint : ℕ → List ℕ → Result EncodeError (List ℕ)
  write_varint val w = map_err (λ _. buffer_exausted) (Varint.write W val w)

  unfoldable pub write_tag : ℕ → WireType → List ℕ → Result EncodeError (List ℕ)
  write_tag fieldnum wtype w =
      let tag = bit_or (fieldnum * 8 % 2 ^ 64) (as_num wtype) in
      map_err (λ _. buffer_exausted) (Varint.write W tag w)

  unfoldable pub write_len : ℕ → List ℕ → Result EncodeError (List ℕ)
  write_len len w = map_err (λ _. buffer_exausted) (Varint.write W len w)

  unfoldable pub write_bytes : List ℕ → List ℕ → Result EncodeError (List ℕ)
  write_bytes bytes w = ok_or (W.try_write bytes w) buffer_exausted

  unfoldable pub write_i32 : ℕ → List ℕ → Result EncodeError (List ℕ)
  write_i32 val w = ok_or (W.try_write_le_u32 val w) buffer_exausted

  unfoldable pub write_i64 : ℕ → List ℕ → Result EncodeError (List ℕ)
  write_i64 val w = ok_or (W.try_write_le_u64 val w) buffer_exausted

  unfoldable pub write_empty_field : ℕ → List ℕ → Result EncodeError (List ℕ)
  write_empty_field fieldnum w = do w' ← write_tag fieldnum WireType.len w; write_len 0 w'
