-- ===== src/Protopuffer/Varint/Read.antt =====
-- `Varint::read` on any input, and on what `Varint::write` puts out.
use native.Mathlib.Nat.{pow-suc, add_assoc, pow-le-pow_right}
use native.Mathlib.Numerals.{towards_suc}
use lafere.Base.{
  ℕ, zero, suc, ◌+◌, ◌*◌, ◌/◌, ◌%◌, ◌^◌, ◌≤◌, ◌<◌, ◌≡◌, refl, ap, ◌∙◌, ◌⊎◌, bit_and, bit_or, arith,
  List, [], ◌∷◌, ◌++◌, length, true, false, if◌then◌else◌, ok, err, Bool, Bool-cases, inl, inr, ltb,
  leb, All,
}
use lafere.Bits.{low_seven, top_bit, bit_or_shifted}
use lafere.Bytes.{BytesRead}
use lafere.Protopuffer.Varint.{read_error, read_loop, read}
use lafere.Protopuffer.Varint.Encoding.{
  IsByte, IsU64, groups, varint_bytes, groups_small, groups_large,
}

shift_seven : (i : ℕ) → 2 ^ ((i + 1) * 7) ≡ 128 * 2 ^ (i * 7)
shift_seven i = ap (λ (t : ℕ). 2 ^ t) (eight i) ∙ simp towards_suc (omega arith)
  where
    eight : (i : ℕ) → (i + 1) * 7 ≡ i * 7 + 7
    eight i = omega arith

-- The lowest group of `w` and the rest, both from bit `i * 7` on.
split_group : (w i : ℕ) → w * 2 ^ (i * 7) ≡ w % 128 * 2 ^ (i * 7) + w / 128 * 2 ^ ((i + 1) * 7)
split_group w i = omega (
  arith,
  shift_seven i,
  ap (λ (t : ℕ). w / 128 * t) (shift_seven i),
  ap (λ (t : ℕ). t * 2 ^ (i * 7)) (div_mod w),
)
  where
    div_mod : (w : ℕ) → w ≡ 128 * (w / 128) + w % 128
    div_mod w = omega arith

-- Bits that stay within 64 are added.
or_group :
    (val g i : ℕ)
    → val < 2 ^ (i * 7)
    → val + g * 2 ^ (i * 7) < 2 ^ 64
    → bit_or val (g * 2 ^ (i * 7) % 2 ^ 64) ≡ val + g * 2 ^ (i * 7)
or_group val g i h fits =
    ap (bit_or val) (whole (g * 2 ^ (i * 7)) (omega arith)) ∙ bit_or_shifted (i * 7) val g h
  where
    whole : (x : ℕ) → x < 2 ^ 64 → x % 2 ^ 64 ≡ x
    whole x lt = omega arith

group_below : (g p : ℕ) → g < 128 → g * p ≤ 127 * p
group_below g p h = grind arith

low_group_of : (g : ℕ) → g < 128 → bit_and (g + 128) 0x7f ≡ g
low_group_of g h = omega (arith, low_seven (g + 128) (omega arith))

top_bit_lem : (b : ℕ) → b < 256 → ltb 0 (bit_and b 0x80) ≡ leb 128 b
top_bit_lem b h = ground (arith, top_bit b)

top_bit_of : (g : ℕ) → g < 128 → ltb 0 (bit_and (g + 128) 0x80) ≡ true
top_bit_of g h = ground (arith, top_bit (g + 128))

nine_or_less : (i : ℕ) → i ≤ 9 → (i ≤ 8) ⊎ (i ≡ 9)
nine_or_less i h = omega arith

abbrev or_into : ℕ → ℕ → ℕ → ℕ
or_into val g i = bit_or val (g * 2 ^ (i * 7) % 2 ^ 64)

-- Nine groups stay below bit 63.
or_into-inner :
    (val g i : ℕ)
    → i ≤ 8
    → g < 128
    → val < 2 ^ (i * 7)
    → (or_into val g i < 2 ^ ((i + 1) * 7)) × (or_into val g i < 2 ^ 64)
or_into-inner val g i hi hg hv =
    let small : 2 ^ (i * 7) ≤ 2 ^ 56 = pow-le-pow_right (omega arith) {j = 56} (omega arith) in
    let below : val + g * 2 ^ (i * 7) < 128 * 2 ^ (i * 7) =
      omega (arith, group_below g (2 ^ (i * 7)) hg) in
    rw (or_group val g i hv (omega arith)) (omega (arith, shift_seven i), omega arith)

-- Of the tenth group only the lowest bit is kept.
or_into-last : (val g : ℕ) → val < 2 ^ 63 → or_into val g 9 ≡ val + g % 2 * 2 ^ 63
or_into-last val g hv = ap (bit_or val) (omega arith) ∙ bit_or_shifted 63 val (g % 2) hv

or_into-IsU64 : (val g i : ℕ) → i ≤ 9 → g < 128 → val < 2 ^ (i * 7) → or_into val g i < 2 ^ 64
or_into-IsU64 val g i hi hg hv = elim (nine_or_less i hi) [
  | inl inner ↦ (or_into-inner val g i inner hg hv).1
  | inr last ↦
      let below : val < 2 ^ 63 = rw last at hv in rw (last, or_into-last val g below) (omega arith)
]

module _ (R : BytesRead) where
  last_byte :
      (k i val w : ℕ) (msb : Bool) (rest : List ℕ)
      → w < 128
      → val < 2 ^ (i * 7)
      → val + w * 2 ^ (i * 7) < 2 ^ 64
      → read_loop R (suc k) i val msb (w ∷ rest) ≡ ok (val + w * 2 ^ (i * 7), rest)
  unfolding read_loop
  last_byte k i val w msb rest hw hv fits =
      rw R.u8_next (ground (arith, low_seven w, top_bit w, or_group val w i hv fits))

  inner_byte :
      (k i val g : ℕ) (msb : Bool) (rest : List ℕ)
      → g < 128
      → val < 2 ^ (i * 7)
      → val + g * 2 ^ (i * 7) < 2 ^ 64
      → read_loop R (suc k) i val msb ((g + 128) ∷ rest)
        ≡ read_loop R k (i + 1) (val + g * 2 ^ (i * 7)) true rest
  unfolding read_loop
  inner_byte k i val g msb rest hg hv fits =
      rw (R.u8_next, low_group_of g hg, or_group val g i hv fits, top_bit_of g hg)

  read_loop-groups :
      (k i val w : ℕ) (msb : Bool) (rest : List ℕ)
      → w < 128 ^ suc k
      → val < 2 ^ (i * 7)
      → val + w * 2 ^ (i * 7) < 2 ^ 64
      → read_loop R (suc k) i val msb (groups k w ++ rest) ≡ ok (val + w * 2 ^ (i * 7), rest)
  read_loop-groups zero i val w msb rest hw hv fits =
      rw (groups_small 0 w (omega arith)) (last_byte 0 i val w msb rest (omega arith) hv fits)
  read_loop-groups (suc k) i val w msb rest hw hv fits = elim (Bool-cases (ltb w 128)) [
    | inl small ↦
        let low : w < 128 = ground arith in
        rw (groups_small (suc k) w low) (last_byte (suc k) i val w msb rest low hv fits)
    | inr large ↦
        let high : 128 ≤ w = ground arith in
        let val' = val + w % 128 * 2 ^ (i * 7) in
        let below : val' < 2 ^ ((i + 1) * 7) =
          omega (arith, shift_seven i, group_below (w % 128) (2 ^ (i * 7)) (omega arith)) in
        rw (groups_large k w high, split_group w i, ← add_assoc val)
          (inner_byte (suc k) i val (w % 128) msb (groups k (w / 128) ++ rest) (omega arith) hv
              (omega (arith, split_group w i))
            ∙ read_loop-groups k (i + 1) val' (w / 128) true rest
                (omega (arith, pow-suc 128 (suc k))) below (omega (arith, split_group w i)))
  ]

  -- `read` gives back the u64 whose varint comes first, and leaves what follows.
  pub read-varint_bytes :
      (v : ℕ) (rest : List ℕ) → IsU64 v → read R (varint_bytes v ++ rest) ≡ ok (v, rest)
  unfolding read varint_bytes
  read-varint_bytes v rest h =
      read_loop-groups 9 0 0 v false rest (omega arith) (omega arith) (omega arith)
      ∙ ap (λ (t : ℕ). ok (t, rest)) (omega arith)

  -- One round: `msb` is the flag that the round sets, and `val` the value that it makes.
  read_round :
      (n i val : ℕ) (msb : Bool) (b : ℕ) (src : List ℕ)
      → b < 256
      → read_loop R (suc n) i val msb (b ∷ src) ≡ (
          if leb 128 b
          then read_loop R n (i + 1) (or_into val (b % 128) i) true src
          else ok (or_into val (b % 128) i, src))
  unfolding read_loop
  read_round n i val msb b src hb = elim (Bool-cases (leb 128 b)) [
    | inl more ↦ rw (R.u8_next, low_seven b hb, top_bit_lem b hb, more)
    | inr last ↦ rw (R.u8_next, low_seven b hb, top_bit_lem b hb, last)
  ]

  spent :
      {p : ℕ × List ℕ} (n i val : ℕ) (src : List ℕ)
      → n ≡ 0
      → read_loop R n i val true src ≡ ok p
      → ⊥
  unfolding read_loop
  spent zero i val src hn e = cc
  spent (suc n) i val src hn e = absurd (omega arith)

  read_loop_endless :
      (n i val : ℕ) (msb : Bool) (src : List ℕ)
      → All (λ b. (128 ≤ b) × (b < 256)) src
      → (0 < n) ⊎ (msb ≡ true)
      → read_loop R n i val msb src ≡ err read_error
  read_loop_endless zero i val msb src h hm = unfold read_loop in ground arith
  read_loop_endless (suc n) i val msb [] h hm = unfold read_loop in rw R.u8_empty
  read_loop_endless (suc n) i val msb (b ∷ src) (hb, hs) hm =
      let more : leb 128 b ≡ true = ground arith in
      rw (read_round n i val msb b src hb.1, more)
        (read_loop_endless n (i + 1) (or_into val (b % 128) i) true src hs (inr refl))

  -- `n` rounds are left of ten, and `i` are done.
  read_loop_takes :
      (n i val : ℕ) (src : List ℕ) (v : ℕ) (rest : List ℕ)
      → i + n ≡ 10
      → val < 2 ^ (i * 7)
      → All IsByte src
      → read_loop R n i val true src ≡ ok (v, rest)
      → IsU64 v × (length src ≤ length rest + n) × (length rest < length src)
  read_loop_takes zero i val src v rest hi hv hb e = unfold read_loop in cc
  read_loop_takes (suc n) i val [] v rest hi hv hb e = unfold read_loop in cc R.u8_empty
  read_loop_takes (suc n) i val (b ∷ src) v rest hi hv (hb, hs) e = elim (Bool-cases (leb 128 b)) [
    | inl more ↦
        let val' = or_into val (b % 128) i in
        let e' : read_loop R n (i + 1) val' true src ≡ ok (v, rest) =
          rw (read_round n i val true b src hb, more) at e in
        elim (nine_or_less i (omega arith)) [
          | inl inner ↦ omega (
            arith,
            read_loop_takes n (i + 1) val' src v rest (omega arith)
                (or_into-inner val (b % 128) i inner (omega arith) hv).0 hs e',
          )
          | inr last ↦ absurd (spent n (i + 1) val' src (omega arith) e')
        ]
    | inr last ↦ ground (arith, read_round n i val true b src hb, or_into-IsU64 val (b % 128) i)
  ]

  -- On any bytes, a `read` that succeeds returns a u64 and takes 1 to 10 bytes.
  pub read_takes :
      (src : List ℕ) (v : ℕ) (rest : List ℕ)
      → All IsByte src
      → read R src ≡ ok (v, rest)
      → IsU64 v × (length src ≤ length rest + 10) × (length rest < length src)
  unfolding read
  read_takes src v rest hb e =
      read_loop_takes 10 0 0 src v rest (omega arith) (omega arith) hb (first src e)
    where
      first :
          (src : List ℕ)
          → read_loop R 10 0 0 false src ≡ ok (v, rest)
          → read_loop R 10 0 0 true src ≡ ok (v, rest)
      first [] h = unfold read_loop in h
      first (b ∷ bs) h = unfold read_loop in h

  -- An input whose bytes all announce another byte is refused, whether it ends before the tenth
  -- byte or goes on after it.
  pub read_endless :
      (src : List ℕ) → All (λ b. (128 ≤ b) × (b < 256)) src → read R src ≡ err read_error
  unfolding read
  read_endless src h = read_loop_endless 10 0 0 false src h (inl (omega arith))
