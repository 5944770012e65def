-- ===== src/Protopuffer/Decoder.antt =====
-- protopuffer/src/decode.rs: `MessageDecoder`, as the bytes that are left.
use lafere.Base.{ℕ, ◌/◌, List, [], ◌∷◌, Option, none, some, Result, ok, err, ok_or, map_err, ◌>>=◌}
use lafere.Bytes.{BytesRead}
use lafere.Protopuffer.Wire.{
  DecodeError, unexpected_eof, expected_eof, invalid_varint, WireType, FieldKind, Field, from_tag,
}
use lafere.Protopuffer.Varint

module _ (R : BytesRead) where
  unfoldable pub next_varint : List ℕ → Result DecodeError (ℕ × List ℕ)
  next_varint r = map_err (λ _. invalid_varint) (Varint.read R r)

  unfoldable pub next_kind : WireType → List ℕ → Result DecodeError (FieldKind × List ℕ)
  next_kind WireType.varint r = do (v, r') ← next_varint r; ok (FieldKind.varint v, r')
  next_kind WireType.i64 r = do
    (v, r') ← ok_or (R.try_read_le_u64 r) unexpected_eof
    ok (FieldKind.i64 v, r')
  next_kind WireType.i32 r = do
    (v, r') ← ok_or (R.try_read_le_u32 r) unexpected_eof
    ok (FieldKind.i32 v, r')
  next_kind WireType.len r = do
    (n, r') ← next_varint r
    (bytes, r'') ← ok_or (R.try_read_ref n r') unexpected_eof
    ok (FieldKind.len bytes, r'')

  unfoldable pub maybe_next_kind :
      WireType → List ℕ → Result DecodeError (Option FieldKind × List ℕ)
  maybe_next_kind ty [] = ok (none, [])
  maybe_next_kind ty (b ∷ bs) = do (kind, r') ← next_kind ty (b ∷ bs); ok (some kind, r')

  -- `none` says that there will be no more fields.
  unfoldable pub next : List ℕ → Result DecodeError (Option Field × List ℕ)
  next [] = ok (none, [])
  next (b ∷ bs) = do
    (tag, r') ← next_varint (b ∷ bs)
    wtype ← from_tag tag
    let number = tag / 8
    (kind, r'') ← next_kind wtype r'
    ok (some (record { number = number; kind = kind }), r'')

unfoldable pub finish : List ℕ → Result DecodeError (Unit {0})
finish [] = ok tt
finish (b ∷ bs) = err expected_eof
