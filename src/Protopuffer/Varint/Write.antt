-- ===== src/Protopuffer/Varint/Write.antt =====
-- protopuffer/src/varint.rs: what `Varint::write` puts into the buffer.
use native.Mathlib.Nat.{pow-suc}
use lafere.Base.{
  ℕ, zero, suc, ◌+◌, ◌/◌, ◌%◌, ◌^◌, ◌≤◌, ◌<◌, ◌≡◌, bit_and, bit_or, arith, List, [], ◌∷◌, length,
  true, Bool-cases, inl, inr, ok_or, ◌>>=◌, ◌∙◌, ltb,
}
use lafere.Bits.{low_seven, set_top_bit}
use lafere.Bytes.{BytesWrite}
use lafere.Bytes.Writes.{put, Writes, then_Writes}
use lafere.Protopuffer.Varint.{write_error, write_loop, write}
use lafere.Protopuffer.Varint.Encoding.{IsU64, groups, varint_bytes, groups_small, groups_large}

low_group : (v : ℕ) → bit_and (v % 256) 0x7f ≡ v % 128
low_group v = omega (arith, low_seven (v % 256) (omega arith))

inner_group : (v : ℕ) → bit_or (bit_and (v % 256) 0x7f) 0x80 ≡ v % 128 + 128
inner_group v = rw low_group (set_top_bit (v % 128) (omega arith))

module _ (W : BytesWrite) where
  write_byte :
      (b : ℕ) (w : List ℕ) → ok_or (W.try_write_u8 b w) write_error ≡ put W write_error (b ∷ []) w
  write_byte b w = rw W.u8_lem (ground arith)

  write_last :
      (k val : ℕ) (w : List ℕ)
      → val < 128
      → write_loop W (suc k) val w ≡ put W write_error (val ∷ []) w
  unfolding write_loop
  write_last k val w h = ground (arith, low_group val, write_byte val w)

  write_more :
      (k val : ℕ) (w : List ℕ)
      → 128 ≤ val
      → write_loop W (suc k) val w
        ≡ (put W write_error ((val % 128 + 128) ∷ []) w >>= λ w'. write_loop W k (val / 128) w')
  unfolding write_loop
  write_more k val w h = ground (arith, inner_group val, write_byte (val % 128 + 128) w)

  write_loop-groups :
      (k val : ℕ)
      → val < 128 ^ suc k
      → Writes W write_error (groups k val) (write_loop W (suc k) val)
  write_loop-groups zero val h w room =
      rw (groups_small 0 val (omega arith)) (write_last 0 val w (omega arith))
  write_loop-groups (suc k) val h w room = elim (Bool-cases (ltb val 128)) [
    | inl small ↦
        let low : val < 128 = ground arith in
        rw (groups_small (suc k) val low) (write_last (suc k) val w low)
    | inr large ↦
        let high : 128 ≤ val = ground arith in
        rw (groups_large k val high) (
          write_more (suc k) val w high
          ∙ then_Writes W write_error ((val % 128 + 128) ∷ []) (groups k (val / 128))
              (write_loop W (suc k) (val / 128))
              (write_loop-groups k (val / 128) (omega (arith, pow-suc 128 (suc k)))) w)
  ]

  -- On every u64 and every buffer that is not overfull, `write` appends the varint, or fails where
  -- the buffer has no room for it.
  pub write-varint_bytes :
      (val : ℕ) (w : List ℕ)
      → IsU64 val
      → W.has_room (length w) ≡ true
      → write W val w ≡ put W write_error (varint_bytes val) w
  unfolding write varint_bytes
  write-varint_bytes val w h room = write_loop-groups 9 val (omega arith) w room
