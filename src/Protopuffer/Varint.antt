-- ===== src/Protopuffer/Varint.antt =====
-- protopuffer/src/varint.rs: 64-bit numbers in 1 to 10 bytes. A u64 is a number below 2 ^ 64.
pub mod Encoding
pub mod Write
pub mod Read
pub mod Size
use Prim.Native.Nat.{max}
use lafere.Base.{
  ℕ, zero, suc, ◌+◌, ◌-◌, ◌*◌, ◌/◌, ◌%◌, ◌^◌, bit_and, bit_or, arith, Bool, true, false, Option,
  none, some, List, [], ◌∷◌, ltb, ◌==◌, if◌then◌else◌, Result, ok, err, ◌>>=◌, ok_or,
}
use lafere.Bytes.{BytesRead, BytesWrite}

-- The `bytes` crate's unit structs.
pub data ReadError : Type 0 where
  read_error : ReadError

pub data WriteError : Type 0 where
  write_error : WriteError

module _ (R : BytesRead) where
  -- The check after the loop: the last byte read must not announce another.
  unfoldable pub read_end : ℕ → Bool → List ℕ → Result ReadError (ℕ × List ℕ)
  read_end val msb r = if msb then err read_error else ok (val, r)

  -- `n` rounds are left and `i` is the loop's counter.
  unfoldable pub read_loop : ℕ → ℕ → ℕ → Bool → List ℕ → Result ReadError (ℕ × List ℕ)
  unfolding read_end
  read_loop zero i val msb r = read_end val msb r
  read_loop (suc n) i val msb r = do
    (b, r') ← ok_or (R.try_read_u8 r) read_error
    let val' = bit_or val (bit_and b 0x7f * 2 ^ (i * 7) % 2 ^ 64)
    let msb' = ltb 0 (bit_and b 0x80)
    let more = read_loop n (i + 1) val' msb' r'
    if msb' then more else read_end val' msb' r'

  unfoldable pub read : List ℕ → Result ReadError (ℕ × List ℕ)
  read r = read_loop 10 0 0 false r

module _ (W : BytesWrite) where
  unfoldable pub write_loop : ℕ → ℕ → List ℕ → Result WriteError (List ℕ)
  write_loop zero val w = ok w
  write_loop (suc n) val w = do
    let low = bit_and (val % 256) 0x7f
    let rest = val / 128
    let msb = ltb 0 rest
    let b = if msb then bit_or low 0x80 else low
    w' ← ok_or (W.try_write_u8 b w) write_error
    let more = write_loop n rest w'
    if msb then more else ok w'

  unfoldable pub write : ℕ → List ℕ → Result WriteError (List ℕ)
  write val w = write_loop 10 val w

-- `leading_zeros` of a u64 counts from bit 63 down: 64 less the position of the highest bit set.
unfoldable pub bit_length : ℕ → ℕ → ℕ
bit_length zero v = 0
bit_length (suc n) v = let above = bit_length n (v / 2) in if v == 0 then 0 else suc above

unfoldable pub leading_zeros : ℕ → ℕ
leading_zeros v = 64 - bit_length 64 v

-- `(bits as f32 / 7f32).ceil()`: at most 64 bits, so the quotient is rounded to no other integer.
unfoldable pub size : ℕ → ℕ
unfolding leading_zeros bit_length
size v = let bits = 64 - leading_zeros v in let bytes = (bits + 6) / 7 in max bytes 1
