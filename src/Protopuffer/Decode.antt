-- ===== src/Protopuffer/Decode.antt =====
-- protopuffer/src/decode.rs: the trait `DecodeMessage` and its implementations. `merge` takes the
-- value that it changes; after an error every caller gives the value up.
pub mod Loop
pub mod Ends
pub mod RoundTrip
pub mod Scalars
use lafere.Base.{
  ℕ, ◌+◌, ◌-◌, ◌*◌, ◌/◌, ◌%◌, ◌^◌, zero, suc, Bool, true, false, not, ◌&&◌, Option, none, some,
  List, [], ◌∷◌, ◌++◌, length, replicate, ◌==◌, if◌then◌else◌, Result, ok, err, ◌>>=◌,
}
use lafere.Base.Int.{ℤ, pos, negsuc, as_signed}
use lafere.Bytes.{BytesRead}
use lafere.Protopuffer.Wire.{
  DecodeError, expected_utf8, expected_array_len, WireType, FieldKind, Field, is_len, can_be_packed,
  try_unwrap_varint, try_unwrap_i32, try_unwrap_i64, try_unwrap_len,
}
use lafere.Protopuffer.Decoder.{next, maybe_next_kind, finish}

-- `while let Some(a) = get(&mut parser)? { step(a)?; }  parser.finish()`. `n` is fuel: the number
-- of bytes that are left is enough.
module _ {A T : Type 0} (get : List ℕ → Result DecodeError (Option A × List ℕ))
    (step : A → T → Result DecodeError T) where
  abbrev pub go_on :
      (List ℕ → T → Result DecodeError T) → T → Option A × List ℕ → Result DecodeError T
  go_on rest v (none, r) = finish r >>= λ _. ok v
  go_on rest v (some a, r) = step a v >>= rest r

  unfoldable pub loop : ℕ → List ℕ → T → Result DecodeError T
  loop zero r v = finish r >>= λ _. ok v
  loop (suc n) r v = get r >>= go_on (λ r' v'. loop n r' v') v

  unfoldable pub read_all : List ℕ → T → Result DecodeError T
  unfolding loop
  read_all r v = loop (length r) r v

pub record DecodeMessage (T : Type 0) : Type 0 where
  pub wire_type : WireType
  pub decode_default : T
  pub merge : FieldKind → (is_field : Bool) → T → Result DecodeError T

unfoldable pub parse_from_bytes : {T : Type 0} → DecodeMessage T → List ℕ → Result DecodeError T
parse_from_bytes D b = D.merge (FieldKind.len b) false D.decode_default

-- A message with one field, of number 1, which may be repeated; other fields are skipped.
abbrev pub first_field :
    {T : Type 0} → (FieldKind → T → Result DecodeError T) → Field → T → Result DecodeError T
first_field field f v = if f.number == 1 then field f.kind v else ok v

unfoldable pub in_message :
    {T : Type 0}
    → BytesRead
    → (FieldKind → T → Result DecodeError T)
    → FieldKind
    → Bool
    → T
    → Result DecodeError T
in_message R field kind true v = field kind v
in_message R field kind false v = do
  bytes ← try_unwrap_len kind
  read_all (next R) (first_field field) bytes v

-- `Vec<V>`
module _ (R : BytesRead) {V : Type 0} (D : DecodeMessage V) where
  -- `let mut v = V::decode_default(); v.merge(kind, false)?; self.push(v)`
  unfoldable pub push : FieldKind → List V → Result DecodeError (List V)
  push kind vs = do v ← D.merge kind false D.decode_default; ok (vs ++ (v ∷ []))

  unfoldable pub vec_field : FieldKind → List V → Result DecodeError (List V)
  vec_field kind vs =
      if is_len kind && can_be_packed D.wire_type
      then (try_unwrap_len kind >>= λ bytes. read_all (maybe_next_kind R D.wire_type) push bytes vs)
      else push kind vs

  unfoldable pub vec_message : DecodeMessage (List V)
  vec_message = record {
    wire_type = WireType.len;
    decode_default = [];
    merge = in_message R vec_field;
  }

-- `Option<V>`
module _ (R : BytesRead) {V : Type 0} (D : DecodeMessage V) where
  unfoldable pub option_field : FieldKind → Option V → Result DecodeError (Option V)
  option_field kind (some v) = D.merge kind false v >>= λ v'. ok (some v')
  option_field kind none = D.merge kind false D.decode_default >>= λ v'. ok (some v')

  unfoldable pub option_message : DecodeMessage (Option V)
  option_message = record {
    wire_type = WireType.len;
    decode_default = none;
    merge = in_message R option_field;
  }

-- A pair: its fields have the numbers 0 and 1, and others are skipped.
module _ (R : BytesRead) {A B : Type 0} (DA : DecodeMessage A) (DB : DecodeMessage B) where
  unfoldable pub pair_field : Field → A × B → Result DecodeError (A × B)
  pair_field f (a, b) =
      if f.number == 0
      then (DA.merge f.kind true a >>= λ a'. ok (a', b))
      else if f.number == 1
      then (DB.merge f.kind true b >>= λ b'. ok (a, b'))
      else ok (a, b)

  unfoldable pub pair_message : DecodeMessage (A × B)
  pair_message = record {
    wire_type = WireType.len;
    decode_default = (DA.decode_default, DB.decode_default);
    merge = λ kind is_field v. do
      bytes ← try_unwrap_len kind
      read_all (next R) pair_field bytes v;
  }

-- `HashMap<K, V>` as the list of its entries: a new entry takes the place of one with its key.
module _ (R : BytesRead) {K V : Type 0} (same : K → K → Bool) (DK : DecodeMessage K)
    (DV : DecodeMessage V) where
  unfoldable pub without : K → List (K × V) → List (K × V)
  without k [] = []
  without k ((j, v) ∷ m) = let rest = without k m in if same j k then rest else (j, v) ∷ rest

  unfoldable pub map_field : FieldKind → List (K × V) → Result DecodeError (List (K × V))
  map_field kind m = do
    let D = pair_message R DK DV
    (k, v) ← D.merge kind false D.decode_default
    ok (without k m ++ ((k, v) ∷ []))

  unfoldable pub map_message : DecodeMessage (List (K × V))
  map_message = record {
    wire_type = WireType.len;
    decode_default = [];
    merge = in_message R map_field;
  }

-- A value that is read from the number of one field.
abbrev pub scalar_message :
    {N T : Type 0} → WireType → T → (FieldKind → Result DecodeError N) → (N → T) → DecodeMessage T
scalar_message ty default unwrap cast = record {
  wire_type = ty;
  decode_default = default;
  merge = λ kind is_field v. unwrap kind >>= λ num. ok (cast num);
}

unfoldable pub bool_message : DecodeMessage Bool
bool_message = scalar_message WireType.varint false try_unwrap_varint (λ num. not (num == 0))

unfoldable pub u32_message : DecodeMessage ℕ
u32_message = scalar_message WireType.varint 0 try_unwrap_varint (λ num. num % 2 ^ 32)

unfoldable pub u64_message : DecodeMessage ℕ
u64_message = scalar_message WireType.varint 0 try_unwrap_varint (λ num. num)

unfoldable pub i32_message : DecodeMessage ℤ
i32_message = scalar_message WireType.varint (pos 0) try_unwrap_varint (as_signed (2 ^ 31))

unfoldable pub i64_message : DecodeMessage ℤ
i64_message = scalar_message WireType.varint (pos 0) try_unwrap_varint (as_signed (2 ^ 63))

-- Floats are their bits.
unfoldable pub f32_message : DecodeMessage ℕ
f32_message = scalar_message WireType.i32 0 try_unwrap_i32 (λ num. num)

unfoldable pub f64_message : DecodeMessage ℕ
f64_message = scalar_message WireType.i64 0 try_unwrap_i64 (λ num. num)

-- `Vec<u8>`
unfoldable pub bytes_message : DecodeMessage (List ℕ)
bytes_message = scalar_message WireType.len [] try_unwrap_len (λ bytes. bytes)

-- `[u8; S]`
unfoldable pub array_message : ℕ → DecodeMessage (List ℕ)
array_message s = record {
  wire_type = WireType.len;
  decode_default = replicate s 0;
  merge = λ kind is_field v. do
    bytes ← try_unwrap_len kind
    if length bytes == s then ok bytes else err (expected_array_len s);
}

-- A `String` is its bytes; `utf8` stands for `std::str::from_utf8`.
unfoldable pub string_message : (utf8 : List ℕ → Bool) → DecodeMessage (List ℕ)
string_message utf8 = record {
  wire_type = WireType.len;
  decode_default = [];
  merge = λ kind is_field v. do
    bytes ← try_unwrap_len kind
    if utf8 bytes then ok bytes else err expected_utf8;
}

-- `Fixed<u32>` .. `Fixed<i64>`
unfoldable pub fixed_u32_message : DecodeMessage ℕ
fixed_u32_message = scalar_message WireType.i32 0 try_unwrap_i32 (λ num. num)

unfoldable pub fixed_u64_message : DecodeMessage ℕ
fixed_u64_message = scalar_message WireType.i64 0 try_unwrap_i64 (λ num. num)

unfoldable pub fixed_i32_message : DecodeMessage ℤ
fixed_i32_message = scalar_message WireType.i32 (pos 0) try_unwrap_i32 (as_signed (2 ^ 31))

unfoldable pub fixed_i64_message : DecodeMessage ℤ
fixed_i64_message = scalar_message WireType.i64 (pos 0) try_unwrap_i64 (as_signed (2 ^ 63))

-- Half of a signed number, rounded down: `num >> 1`.
abbrev pub half : ℤ → ℤ
half (pos n) = pos (n / 2)
half (negsuc n) = negsuc (n / 2)

-- `-(num & 1)` is 0 or -1, so that `^` keeps the number or flips all its bits.
abbrev pub is_odd : ℤ → Bool
is_odd (pos n) = n % 2 == 1
is_odd (negsuc n) = n % 2 == 0

abbrev pub flipped : ℤ → ℤ
flipped (pos n) = negsuc n
flipped (negsuc n) = pos n

-- `h` is half of the modulus, as for `as_signed`.
unfoldable pub zigzag : (h num : ℕ) → ℤ
zigzag h num = let n = as_signed h num in if is_odd n then flipped (half n) else half n

unfoldable pub zigzag_message : ℕ → DecodeMessage ℤ
zigzag_message h = scalar_message WireType.varint (pos 0) try_unwrap_varint (zigzag h)
