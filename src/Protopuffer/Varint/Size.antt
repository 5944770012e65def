-- ===== src/Protopuffer/Varint/Size.antt =====
-- protopuffer/src/varint.rs: `Varint::size` against the format of a varint.
use Prim.Native.Nat.{max}
use native.Mathlib.Nat.{pow-suc}
use lafere.Base.{
  ℕ, zero, suc, ◌+◌, ◌*◌, ◌/◌, ◌^◌, ◌≤◌, ◌<◌, ◌≡◌, ap, arith, length, ltb, Bool-cases, inl, inr,
}
use lafere.Protopuffer.Varint.{bit_length, leading_zeros, size}
use lafere.Protopuffer.Varint.Encoding.{IsU64, groups, varint_bytes, groups_small, groups_large}

bit_length-le : (n v f : ℕ) → v < 2 ^ n → bit_length f v ≤ n
unfolding bit_length
bit_length-le n v zero h = omega arith
bit_length-le zero v (suc f) h = ground arith
bit_length-le (suc n) v (suc f) h =
    ground (arith, bit_length-le n (v / 2) f (omega (arith, pow-suc 2 n)))

-- 64 bits are one bit and nine groups of seven.
abbrev width : ℕ → ℕ
width zero = 1
width (suc k) = suc (suc (suc (suc (suc (suc (suc (width k)))))))

bit_length-pos : (f v : ℕ) → 0 < v → bit_length (suc f) v ≡ suc (bit_length f (v / 2))
unfolding bit_length
bit_length-pos f v h = ground arith

div_halves : (v : ℕ) → v / 2 / 2 / 2 / 2 / 2 / 2 / 2 ≡ v / 128
div_halves v = omega arith

bit_length_group :
    (k v : ℕ) → 128 ≤ v → bit_length (width (suc k)) v ≡ 7 + bit_length (width k) (v / 128)
bit_length_group k v h =
    let f = width k in
    omega (
      arith,
      bit_length-pos (suc (suc (suc (suc (suc (suc f)))))) v (omega arith),
      bit_length-pos (suc (suc (suc (suc (suc f))))) (v / 2) (omega arith),
      bit_length-pos (suc (suc (suc (suc f)))) (v / 2 / 2) (omega arith),
      bit_length-pos (suc (suc (suc f))) (v / 2 / 2 / 2) (omega arith),
      bit_length-pos (suc (suc f)) (v / 2 / 2 / 2 / 2) (omega arith),
      bit_length-pos (suc f) (v / 2 / 2 / 2 / 2 / 2) (omega arith),
      bit_length-pos f (v / 2 / 2 / 2 / 2 / 2 / 2) (omega arith),
      ap (bit_length f) (div_halves v),
    )

bit_length-width_pos : (k v : ℕ) → 0 < v → 0 < bit_length (width k) v
bit_length-width_pos zero v h = omega (arith, bit_length-pos 0 v h)
bit_length-width_pos (suc k) v h =
    omega (arith, bit_length-pos (suc (suc (suc (suc (suc (suc (width k))))))) v h)

ceil_groups :
    (k v : ℕ) → v < 2 * 128 ^ k → max ((bit_length (width k) v + 6) / 7) 1 ≡ length (groups k v)
ceil_groups zero v h = ground (arith, bit_length-le 1 v 1, groups_small 0 v)
ceil_groups (suc k) v h = elim (Bool-cases (ltb v 128)) [
  | inl small ↦ ground (arith, bit_length-le 7 v (width (suc k)), groups_small (suc k) v)
  | inr large ↦
      let high : 128 ≤ v = ground arith in
      omega (
        arith,
        bit_length_group k v high,
        bit_length-width_pos k (v / 128) (omega arith),
        ap length (groups_large k v high),
        ceil_groups k (v / 128) (omega (arith, pow-suc 128 k)),
      )
]

-- On every u64, `size` is the number of bytes of the varint.
pub size-varint_bytes : (v : ℕ) → IsU64 v → size v ≡ length (varint_bytes v)
unfolding size leading_zeros varint_bytes
size-varint_bytes v h = omega (arith, bit_length-le 64 v 64 h, ceil_groups 9 v (omega arith))
