-- ===== src/Protopuffer/Encode/Scalars/Laws.antt =====
-- protopuffer/src/encode.rs: the bytes of numbers and byte slices.
use lafere.Base.{ℕ, refl, ap, arith, Bool, Option, none, some, List, [], ◌++◌, length, ok}
use lafere.Base.Int.{as_u64}
use lafere.Bytes.{BytesWrite, to_le}
use lafere.Bytes.Writes.{Writes, Writes-seq, put_nil}
use lafere.Protopuffer.Wire.{WireType}
use lafere.Protopuffer.Encoder.{
  buffer_exausted, write_tag, write_len, write_bytes, write_varint, write_i32, write_i64,
}
use lafere.Protopuffer.SizeBuilder
use lafere.Protopuffer.SizeBuilder.{add_u64}
use lafere.Protopuffer.Format.{
  tag_bytes, write_tag-Writes, write_len-Writes, write_varint-Writes, write_i32-Writes,
  write_i64-Writes, write_bytes-Writes,
}
use lafere.Protopuffer.Format.Sizes.{write_tag-size, write_len-size, write_varint-size}
use lafere.Protopuffer.Varint.Encoding.{IsU64, varint_bytes}
use lafere.Protopuffer.Encode.{FieldOpt}
use lafere.Protopuffer.Encode.Laws.{Counts, Appends, Lawful, Counts-seq}
use lafere.Protopuffer.Encode.Scalars.{
  tag_size, tag_encode, varint_size, varint_encode, varint_message, bool_as_u64, is_zero_ℤ,
  is_false, bool_message, uint_message, int_message, f32_size, f32_encode, f64_size, f64_encode,
  len_size, len_encode, bytes_size, bytes_encode, bytes_message,
}

abbrev pub opt_tag_bytes : WireType → Option FieldOpt → List ℕ
opt_tag_bytes ty none = []
opt_tag_bytes ty (some f) = tag_bytes f.num ty

tag_size-Counts :
    (ty : WireType) (f : Option FieldOpt) → Counts (opt_tag_bytes ty f) (λ n. ok (tag_size ty f n))
unfolding tag_size
tag_size-Counts ty none n h = ap ok (omega arith)
tag_size-Counts ty (some f) n h = ap ok (write_tag-size f.num ty n)

tag_encode-Writes :
    (W : BytesWrite) (ty : WireType) (f : Option FieldOpt)
    → Writes W buffer_exausted (opt_tag_bytes ty f) (tag_encode W ty f)
unfolding tag_encode
tag_encode-Writes W ty none w room = put_nil W buffer_exausted w room
tag_encode-Writes W ty (some f) w room = write_tag-Writes W f.num ty w room

module _ {T : Type 0} (is_zero : T → Bool) (cast : T → ℕ) where
  unfoldable pub varint_message_bytes : T → Option FieldOpt → List ℕ
  varint_message_bytes v f = opt_tag_bytes WireType.varint f ++ varint_bytes (cast v)

  pub varint_size-Counts :
      (v : T) (f : Option FieldOpt)
      → IsU64 (cast v)
      → Counts (varint_message_bytes v f) (varint_size is_zero cast v f)
  unfolding varint_size varint_message_bytes
  varint_size-Counts v f h =
      Counts-seq (opt_tag_bytes WireType.varint f) (varint_bytes (cast v))
        (λ n. ok (tag_size WireType.varint f n)) (λ n. ok (SizeBuilder.write_varint (cast v) n))
        (tag_size-Counts WireType.varint f) (λ n hn. ap ok (write_varint-size (cast v) n h))

  pub varint_encode-Appends :
      (v : T) (f : Option FieldOpt)
      → IsU64 (cast v)
      → Appends (varint_message_bytes v f) (λ W. varint_encode is_zero cast W v f)
  unfolding varint_encode varint_message_bytes
  varint_encode-Appends v f h W =
      Writes-seq W buffer_exausted (opt_tag_bytes WireType.varint f) (varint_bytes (cast v))
        (tag_encode W WireType.varint f) (write_varint W (cast v))
        (tag_encode-Writes W WireType.varint f) (write_varint-Writes W (cast v) h)

  abbrev pub varint_lawful : Lawful (varint_message is_zero cast)
  varint_lawful = record {
    Valid = λ v. IsU64 (cast v);
    bytes = varint_message_bytes;
    counts = varint_size-Counts;
    appends = varint_encode-Appends;
  }

unfoldable pub bool_lawful : Lawful bool_message
unfolding bool_message
bool_lawful = varint_lawful is_false bool_as_u64

unfoldable pub uint_lawful : Lawful uint_message
unfolding uint_message
uint_lawful = varint_lawful _ _

unfoldable pub int_lawful : Lawful int_message
unfolding int_message
int_lawful = varint_lawful is_zero_ℤ as_u64

unfoldable pub f32_bytes : ℕ → Option FieldOpt → List ℕ
f32_bytes bits f = opt_tag_bytes WireType.i32 f ++ to_le 4 bits

pub f32_size-Counts : (bits : ℕ) (f : Option FieldOpt) → Counts (f32_bytes bits f) (f32_size bits f)
unfolding f32_size f32_bytes SizeBuilder.write_i32
f32_size-Counts bits f =
    Counts-seq (opt_tag_bytes WireType.i32 f) (to_le 4 bits) (λ n. ok (tag_size WireType.i32 f n))
      (λ n. ok (SizeBuilder.write_i32 bits n)) (tag_size-Counts WireType.i32 f) (λ n hn. refl)

pub f32_encode-Appends :
    (bits : ℕ) (f : Option FieldOpt) → Appends (f32_bytes bits f) (λ W. f32_encode W bits f)
unfolding f32_encode f32_bytes
f32_encode-Appends bits f W =
    Writes-seq W buffer_exausted (opt_tag_bytes WireType.i32 f) (to_le 4 bits)
      (tag_encode W WireType.i32 f) (write_i32 W bits) (tag_encode-Writes W WireType.i32 f)
      (write_i32-Writes W bits)

unfoldable pub f64_bytes : ℕ → Option FieldOpt → List ℕ
f64_bytes bits f = opt_tag_bytes WireType.i64 f ++ to_le 8 bits

pub f64_size-Counts : (bits : ℕ) (f : Option FieldOpt) → Counts (f64_bytes bits f) (f64_size bits f)
unfolding f64_size f64_bytes SizeBuilder.write_i64
f64_size-Counts bits f =
    Counts-seq (opt_tag_bytes WireType.i64 f) (to_le 8 bits) (λ n. ok (tag_size WireType.i64 f n))
      (λ n. ok (SizeBuilder.write_i64 bits n)) (tag_size-Counts WireType.i64 f) (λ n hn. refl)

pub f64_encode-Appends :
    (bits : ℕ) (f : Option FieldOpt) → Appends (f64_bytes bits f) (λ W. f64_encode W bits f)
unfolding f64_encode f64_bytes
f64_encode-Appends bits f W =
    Writes-seq W buffer_exausted (opt_tag_bytes WireType.i64 f) (to_le 8 bits)
      (tag_encode W WireType.i64 f) (write_i64 W bits) (tag_encode-Writes W WireType.i64 f)
      (write_i64-Writes W bits)

abbrev pub opt_len_bytes : Option FieldOpt → ℕ → List ℕ
opt_len_bytes none len = []
opt_len_bytes (some f) len = tag_bytes f.num WireType.len ++ varint_bytes len

unfoldable pub bytes_bytes : List ℕ → Option FieldOpt → List ℕ
bytes_bytes bs f = opt_len_bytes f (length bs) ++ bs

len_size-Counts :
    (f : Option FieldOpt) (len : ℕ)
    → IsU64 len
    → Counts (opt_len_bytes f len) (λ n. ok (len_size f len n))
unfolding len_size
len_size-Counts none len h n hn = ap ok (omega arith)
len_size-Counts (some f) len h n hn =
    Counts-seq (tag_bytes f.num WireType.len) (varint_bytes len)
      (λ n. ok (SizeBuilder.write_tag f.num WireType.len n)) (λ n. ok (SizeBuilder.write_len len n))
      (λ n hn. ap ok (write_tag-size f.num WireType.len n)) (λ n hn. ap ok (write_len-size len n h))
      n hn

pub bytes_size-Counts :
    (bs : List ℕ) (f : Option FieldOpt)
    → IsU64 (length bs)
    → Counts (bytes_bytes bs f) (bytes_size bs f)
unfolding bytes_size bytes_bytes SizeBuilder.write_bytes
bytes_size-Counts bs f h =
    Counts-seq (opt_len_bytes f (length bs)) bs (λ n. ok (len_size f (length bs) n))
      (λ n. ok (SizeBuilder.write_bytes (length bs) n)) (len_size-Counts f (length bs) h)
      (λ n hn. refl)

len_encode-Writes :
    (W : BytesWrite) (f : Option FieldOpt) (len : ℕ)
    → IsU64 len
    → Writes W buffer_exausted (opt_len_bytes f len) (len_encode W f len)
unfolding len_encode
len_encode-Writes W none len h w room = put_nil W buffer_exausted w room
len_encode-Writes W (some f) len h w room =
    Writes-seq W buffer_exausted (tag_bytes f.num WireType.len) (varint_bytes len)
      (write_tag W f.num WireType.len) (write_len W len) (write_tag-Writes W f.num WireType.len)
      (write_len-Writes W len h) w room

pub bytes_encode-Appends :
    (bs : List ℕ) (f : Option FieldOpt)
    → IsU64 (length bs)
    → Appends (bytes_bytes bs f) (λ W. bytes_encode W bs f)
unfolding bytes_encode bytes_bytes
bytes_encode-Appends bs f h W =
    Writes-seq W buffer_exausted (opt_len_bytes f (length bs)) bs (len_encode W f (length bs))
      (write_bytes W bs) (len_encode-Writes W f (length bs) h) (write_bytes-Writes W bs)

unfoldable pub bytes_lawful : Lawful bytes_message
unfolding bytes_message
bytes_lawful = record {
  Valid = λ bs. IsU64 (length bs);
  bytes = bytes_bytes;
  counts = bytes_size-Counts;
  appends = bytes_encode-Appends;
}
