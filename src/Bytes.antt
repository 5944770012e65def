-- ===== src/Bytes.antt =====
-- The byte readers and writers of the `bytes` crate, which is not part of the repository: what
-- protopuffer and lafere rely on of `BytesRead`, `BytesReadRef` and `BytesWrite`, as parameters.
-- A reader stands for the bytes that it has not read yet (`remaining`), a writer for the bytes
-- that were written so far.
pub mod Writes
use native.Mathlib.Nat.{pow-suc}
use lafere.Base.{
  ℕ, zero, suc, ◌+◌, ◌*◌, ◌/◌, ◌%◌, ◌^◌, ◌≤◌, ◌<◌, ◌≡◌, refl, ap, arith, Bool, true, Option, none,
  some, List, [], ◌∷◌, ◌++◌, length, take, drop, leb, if◌then◌else◌,
}

-- The `n` low bytes of a word, least significant first, and back.
abbrev pub to_le : ℕ → ℕ → List ℕ
to_le zero v = []
to_le (suc n) v = (v % 256) ∷ to_le n (v / 256)

abbrev pub from_le : List ℕ → ℕ
from_le [] = 0
from_le (b ∷ bs) = b + 256 * from_le bs

pub length-to_le : (n v : ℕ) → length (to_le n v) ≡ n
length-to_le zero v = refl
length-to_le (suc n) v = ap suc (length-to_le n (v / 256))

pub from_le-to_le : (n v : ℕ) → v < 256 ^ n → from_le (to_le n v) ≡ v
from_le-to_le zero v h = omega arith
from_le-to_le (suc n) v h = omega (arith, from_le-to_le n (v / 256) (omega (arith, pow-suc 256 n)))

-- What a read of `n` bytes gives: the bytes and what is left, or the `ReadError`.
abbrev pub split_at : ℕ → List ℕ → Option (List ℕ × List ℕ)
split_at n bs = if leb n (length bs) then some (take n bs, drop n bs) else none

abbrev pub split_word : ℕ → List ℕ → Option (ℕ × List ℕ)
split_word n bs = if leb n (length bs) then some (from_le (take n bs), drop n bs) else none

-- `none` is the crate's `ReadError`.
pub record BytesRead : Type 0 where
  pub try_read_u8 : List ℕ → Option (ℕ × List ℕ)
  pub try_read_le_u32 : List ℕ → Option (ℕ × List ℕ)
  pub try_read_le_u64 : List ℕ → Option (ℕ × List ℕ)
  pub try_read_ref : ℕ → List ℕ → Option (List ℕ × List ℕ)
  pub u8_empty : try_read_u8 [] ≡ none
  pub u8_next : (b : ℕ) (bs : List ℕ) → try_read_u8 (b ∷ bs) ≡ some (b, bs)
  pub le_u32_lem : (bs : List ℕ) → try_read_le_u32 bs ≡ split_word 4 bs
  pub le_u64_lem : (bs : List ℕ) → try_read_le_u64 bs ≡ split_word 8 bs
  pub ref_lem : (n : ℕ) (bs : List ℕ) → try_read_ref n bs ≡ split_at n bs

-- A write appends, if the buffer has room for the new length.
abbrev pub append_if : Bool → List ℕ → List ℕ → Option (List ℕ)
append_if room w bs = if room then some (w ++ bs) else none

-- `none` is the crate's `WriteError`. `has_room n` tells whether the buffer can hold `n` bytes:
-- always for a buffer that grows, up to its size for a fixed one.
pub record BytesWrite : Type 0 where
  pub has_room : ℕ → Bool
  pub try_write : List ℕ → List ℕ → Option (List ℕ)
  pub try_write_u8 : ℕ → List ℕ → Option (List ℕ)
  pub try_write_le_u32 : ℕ → List ℕ → Option (List ℕ)
  pub try_write_le_u64 : ℕ → List ℕ → Option (List ℕ)
  pub has_room_below : (m n : ℕ) → m ≤ n → has_room n ≡ true → has_room m ≡ true
  pub write_lem :
      (bs w : List ℕ) → try_write bs w ≡ append_if (has_room (length w + length bs)) w bs
  pub u8_lem :
      (b : ℕ) (w : List ℕ) → try_write_u8 b w ≡ append_if (has_room (length w + 1)) w (b ∷ [])
  pub le_u32_lem :
      (v : ℕ) (w : List ℕ)
      → try_write_le_u32 v w ≡ append_if (has_room (length w + 4)) w (to_le 4 v)
  pub le_u64_lem :
      (v : ℕ) (w : List ℕ)
      → try_write_le_u64 v w ≡ append_if (has_room (length w + 8)) w (to_le 8 v)

-- A reader over a slice, and the two kinds of writers, as values that meet the laws.
next_byte : List ℕ → Option (ℕ × List ℕ)
next_byte [] = none
next_byte (b ∷ bs) = some (b, bs)

unfoldable pub slice_reader : BytesRead
unfolding next_byte
slice_reader = record {
  try_read_u8 = next_byte;
  try_read_le_u32 = split_word 4;
  try_read_le_u64 = split_word 8;
  try_read_ref = split_at;
  u8_empty = refl;
  u8_next = λ b bs. refl;
  le_u32_lem = λ bs. refl;
  le_u64_lem = λ bs. refl;
  ref_lem = λ n bs. refl;
}

abbrev pub growing : BytesWrite
growing = record {
  has_room = λ n. true;
  try_write = λ bs w. some (w ++ bs);
  try_write_u8 = λ b w. some (w ++ (b ∷ []));
  try_write_le_u32 = λ v w. some (w ++ to_le 4 v);
  try_write_le_u64 = λ v w. some (w ++ to_le 8 v);
  has_room_below = λ m n h k. refl;
  write_lem = λ bs w. refl;
  u8_lem = λ b w. refl;
  le_u32_lem = λ v w. refl;
  le_u64_lem = λ v w. refl;
}
