-- ===== src/Protopuffer/Format/Fields.antt =====
-- protopuffer/src/decode.rs: `MessageDecoder` on the bytes of a field.
use lafere.Base.{
  ℕ, ◌/◌, ◌^◌, ◌<◌, ◌≡◌, refl, ap, ◌∙◌, arith, List, [], ◌∷◌, ◌++◌, length, length-append,
  take-append_length, drop-append_length, some, ok, ◌>>=◌,
}
use mathlib.Core.List.{append_assoc}
use lafere.Bytes.{BytesRead, to_le, length-to_le, from_le, from_le-to_le, split_at, split_word}
use lafere.Protopuffer.Wire.{
  FieldKind, wire_type, from_tag, IsKind, as_num-lt-eight, from_tag-as_num,
}
use lafere.Protopuffer.Decoder.{next_varint, next_kind, next}
use lafere.Protopuffer.Format.{tag, tag_bytes, payload, field_bytes, tag-IsU64}
use lafere.Protopuffer.Varint.Encoding.{IsU64, varint_bytes, length-varint_bytes}
use lafere.Protopuffer.Varint.Read.{read-varint_bytes}

split_at_append : (bs rest : List ℕ) → split_at (length bs) (bs ++ rest) ≡ some (bs, rest)
split_at_append bs rest =
    ground (arith, length-append bs rest, take-append_length bs rest, drop-append_length bs rest)

split_word-length :
    (bs rest : List ℕ) → split_word (length bs) (bs ++ rest) ≡ some (from_le bs, rest)
split_word-length bs rest =
    ground (arith, length-append bs rest, take-append_length bs rest, drop-append_length bs rest)

split_word_append :
    (n v : ℕ) (rest : List ℕ) → v < 256 ^ n → split_word n (to_le n v ++ rest) ≡ some (v, rest)
split_word_append n v rest h =
    rw (length-to_le n v, from_le-to_le n v h) at (split_word-length (to_le n v) rest)

module _ (R : BytesRead) where
  next_varint-varint_bytes :
      (v : ℕ) (rest : List ℕ) → IsU64 v → next_varint R (varint_bytes v ++ rest) ≡ ok (v, rest)
  unfolding next_varint
  next_varint-varint_bytes v rest h = rw (read-varint_bytes R v rest h)

  -- Of a kind that the Rust types allow, the payload is read back.
  pub next_kind-payload :
      (kind : FieldKind) (rest : List ℕ)
      → IsKind kind
      → next_kind R (wire_type kind) (payload kind ++ rest) ≡ ok (kind, rest)
  unfolding next_kind wire_type
  next_kind-payload (FieldKind.varint v) rest h = rw (next_varint-varint_bytes v rest h)
  next_kind-payload (FieldKind.i32 v) rest h = rw (R.le_u32_lem, split_word_append 4 v rest h)
  next_kind-payload (FieldKind.i64 v) rest h = rw (R.le_u64_lem, split_word_append 8 v rest h)
  next_kind-payload (FieldKind.len bs) rest h = rw (
    append_assoc,
    next_varint-varint_bytes (length bs) (bs ++ rest) h,
    R.ref_lem,
    split_at_append bs rest,
  )

  next_lem :
      (r : List ℕ)
      → 0 < length r
      → next R r ≡ (
          next_varint R r >>= λ (tag, r'). from_tag tag >>= λ wtype.
          next_kind R wtype r' >>= λ (kind, r'').
          ok (some (record { number = tag / 8; kind = kind }), r''))
  unfolding next
  next_lem [] h = absurd (omega arith)
  next_lem (b ∷ bs) h = refl

  -- `next` reads back a field of any kind whose number has at most 61 bits and whose payload is
  -- within the range of its type, and leaves what follows it.
  pub next-field_bytes :
      (num : ℕ) (kind : FieldKind) (rest : List ℕ)
      → num < 2 ^ 61
      → IsKind kind
      → next R (field_bytes num kind ++ rest)
        ≡ ok (some (record { number = num; kind = kind }), rest)
  unfolding field_bytes
  next-field_bytes num kind rest hn hk =
      let ty = wire_type kind in
      let number : tag num ty / 8 ≡ num = omega (arith, as_num-lt-eight ty) in
      let wtype : from_tag (tag num ty) ≡ ok ty =
        ap from_tag (omega arith) ∙ from_tag-as_num num ty in
      rw (
        append_assoc,
        next_lem (tag_bytes num ty ++ (payload kind ++ rest)) (
            omega (
              arith,
              length-append (tag_bytes num ty) (payload kind ++ rest),
              length-varint_bytes (tag num ty),
            )),
        next_varint-varint_bytes (tag num ty) (payload kind ++ rest) (tag-IsU64 num ty),
        wtype,
        next_kind-payload kind rest hk,
        number,
      )
