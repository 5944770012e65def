-- ===== src/Protopuffer/Encode/Laws.antt =====
-- What an implementation of `EncodeMessage` promises: `encode` appends known bytes to any buffer,
-- and `encoded_size` adds their number to the builder.
use lafere.Base.{
  ℕ, ◌+◌, ◌%◌, ◌^◌, ◌≡◌, sym, ap, ◌∙◌, arith, Option, List, [], ◌∷◌, ◌++◌, length, length-append,
  All, concat_map, Result, ok, ◌>>=◌, for_each,
}
use lafere.Bytes.{BytesWrite}
use lafere.Bytes.Writes.{Writes, Writes-seq, put_nil}
use lafere.Protopuffer.Wire.{WireType}
use lafere.Protopuffer.Encoder.{EncodeError, buffer_exausted, write_tag, write_len}
use lafere.Protopuffer.SizeBuilder
use lafere.Protopuffer.SizeBuilder.{add_u64}
use lafere.Protopuffer.Format.{tag_bytes, write_tag-Writes, write_len-Writes}
use lafere.Protopuffer.Format.Sizes.{write_tag-size, write_len-size}
use lafere.Protopuffer.Varint.Encoding.{IsU64, varint_bytes}
use lafere.Protopuffer.Encode.{FieldOpt, EncodeMessage, nested_size, nested_encode}

-- Code that adds the length of `bs` to any size builder.
abbrev pub Counts : List ℕ → (ℕ → Result EncodeError ℕ) → Type 0
Counts bs m = (n : ℕ) → IsU64 n → m n ≡ ok (add_u64 n (length bs))

abbrev pub Appends : List ℕ → ((W : BytesWrite) → List ℕ → Result EncodeError (List ℕ)) → Type 0
Appends bs m = (W : BytesWrite) → Writes W buffer_exausted bs (m W)

-- `Valid` holds of the values of the Rust type.
pub record Lawful {T : Type 0} (E : EncodeMessage T) : Type 1 where
  pub Valid : T → Type 0
  pub bytes : T → Option FieldOpt → List ℕ
  pub counts : (v : T) (f : Option FieldOpt) → Valid v → Counts (bytes v f) (E.encoded_size v f)
  pub appends : (v : T) (f : Option FieldOpt) → Valid v → Appends (bytes v f) (λ W. E.encode W v f)

pub add_u64-add_u64 : (n a b : ℕ) → add_u64 (add_u64 n a) b ≡ add_u64 n (a + b)
add_u64-add_u64 n a b = omega arith

pub Counts-seq :
    (a b : List ℕ) (m k : ℕ → Result EncodeError ℕ)
    → Counts a m
    → Counts b k
    → Counts (a ++ b) (λ n. m n >>= k)
Counts-seq a b m k hm hk n h = rw (hm n h) (
    hk (add_u64 n (length a)) (omega arith)
    ∙ ap ok (add_u64-add_u64 n (length a) (length b) ∙ ap (add_u64 n) (sym (length-append a b))))

pub Counts-nil : Counts [] ok
Counts-nil n h = ap ok (omega arith)

-- A loop over lawful steps.
module _ {A : Type 0} (P : A → Type 0) (bs : A → List ℕ) where
  pub for_each-Counts :
      (m : A → ℕ → Result EncodeError ℕ)
      → ((a : A) → P a → Counts (bs a) (m a))
      → (xs : List A) → All P xs
      → Counts (concat_map bs xs) (λ n. for_each m xs n)
  unfolding for_each
  for_each-Counts m step [] h = Counts-nil
  for_each-Counts m step (x ∷ xs) (hx, hs) =
      Counts-seq (bs x) (concat_map bs xs) (m x) (λ n. for_each m xs n) (step x hx)
        (for_each-Counts m step xs hs)

  pub for_each-Writes :
      (W : BytesWrite) (m : A → List ℕ → Result EncodeError (List ℕ))
      → ((a : A) → P a → Writes W buffer_exausted (bs a) (m a))
      → (xs : List A) → All P xs
      → Writes W buffer_exausted (concat_map bs xs) (λ w. for_each m xs w)
  unfolding for_each
  for_each-Writes W m step [] h w room = put_nil W buffer_exausted w room
  for_each-Writes W m step (x ∷ xs) (hx, hs) w room =
      Writes-seq W buffer_exausted (bs x) (concat_map bs xs) (m x) (λ w. for_each m xs w)
        (step x hx) (for_each-Writes W m step xs hs) w room

-- A nested message: its length is written as a u64.
unfoldable pub nested_bytes : ℕ → List ℕ → List ℕ
nested_bytes num body = tag_bytes num WireType.len ++ (varint_bytes (length body % 2 ^ 64) ++ body)

length-nested_bytes :
    (num : ℕ) (body : List ℕ)
    → length (nested_bytes num body)
      ≡ length (tag_bytes num WireType.len)
        + (length (varint_bytes (length body % 2 ^ 64)) + length body)
unfolding nested_bytes
length-nested_bytes num body = omega (
  arith,
  length-append (tag_bytes num WireType.len) (varint_bytes (length body % 2 ^ 64) ++ body),
  length-append (varint_bytes (length body % 2 ^ 64)) body,
)

pub nested_length :
    (num : ℕ) (body : List ℕ) (n : ℕ)
    → SizeBuilder.write_bytes
        (length body % 2 ^ 64)
        (SizeBuilder.write_len (length body % 2 ^ 64) (SizeBuilder.write_tag num WireType.len n))
      ≡ add_u64 n (length (nested_bytes num body))
unfolding SizeBuilder.write_bytes
nested_length num body n =
    let size = length body % 2 ^ 64 in
    omega (
      arith,
      write_tag-size num WireType.len n,
      write_len-size size (SizeBuilder.write_tag num WireType.len n) (omega arith),
      length-nested_bytes num body,
    )

pub from_zero :
    (body : List ℕ) (flat : ℕ → Result EncodeError ℕ)
    → Counts body flat
    → flat SizeBuilder.new ≡ ok (length body % 2 ^ 64)
from_zero body flat h = h 0 (omega arith) ∙ ap ok (omega arith)

pub nested_size-Counts :
    (num : ℕ) (body : List ℕ) (flat : ℕ → Result EncodeError ℕ)
    → Counts body flat
    → Counts (nested_bytes num body) (nested_size flat num)
unfolding nested_size
nested_size-Counts num body flat h n hn =
    rw (from_zero body flat h) (ap ok (nested_length num body n))

pub nested_encode-Writes :
    (W : BytesWrite) (num : ℕ) (body : List ℕ) (flat_size : ℕ → Result EncodeError ℕ)
    (flat : List ℕ → Result EncodeError (List ℕ))
    → Counts body flat_size
    → Writes W buffer_exausted body flat
    → Writes W buffer_exausted (nested_bytes num body) (nested_encode W flat_size flat num)
unfolding nested_encode nested_bytes
nested_encode-Writes W num body flat_size flat hs hf =
    let size = length body % 2 ^ 64 in
    Writes-seq W buffer_exausted (tag_bytes num WireType.len) (varint_bytes size ++ body)
      (write_tag W num WireType.len) (λ w. flat_size 0 >>= λ s. write_len W s w >>= flat)
      (write_tag-Writes W num WireType.len)
      (λ w room. rw (from_zero body flat_size hs) (
        Writes-seq W buffer_exausted (varint_bytes size) body (write_len W size) flat
          (write_len-Writes W size (omega arith)) hf w room))
