-- ===== src/Protopuffer/Varint/Encoding.antt =====
-- The format of a varint in plain arithmetic: groups of seven bits, lowest first, and 128 added to
-- every byte but the last.
use lafere.Base.{
  ℕ, zero, suc, ◌+◌, ◌/◌, ◌%◌, ◌^◌, ◌≤◌, ◌<◌, ◌≡◌, arith, List, [], ◌∷◌, ltb, length, All,
  if◌then◌else◌,
}

abbrev pub IsByte : ℕ → Type 0
IsByte b = b < 256

abbrev pub IsU64 : ℕ → Type 0
IsU64 v = v < 2 ^ 64

unfoldable pub groups : ℕ → ℕ → List ℕ
groups zero v = v ∷ []
groups (suc k) v =
    let more = (v % 128 + 128) ∷ groups k (v / 128) in if ltb v 128 then v ∷ [] else more

-- Ten groups hold 70 bits.
unfoldable pub varint_bytes : ℕ → List ℕ
varint_bytes v = groups 9 v

pub groups_small : (k v : ℕ) → v < 128 → groups k v ≡ v ∷ []
unfolding groups
groups_small zero v h = ground arith
groups_small (suc k) v h = ground arith

pub groups_large : (k v : ℕ) → 128 ≤ v → groups (suc k) v ≡ (v % 128 + 128) ∷ groups k (v / 128)
unfolding groups
groups_large k v h = ground arith

groups-IsByte : (k v : ℕ) → v < 128 ^ suc k → All IsByte (groups k v)
unfolding groups
groups-IsByte zero v h = omega arith
groups-IsByte (suc k) v h = ground (arith, groups-IsByte k (v / 128) (omega arith))

pub varint_bytes-IsByte : (v : ℕ) → IsU64 v → All IsByte (varint_bytes v)
unfolding varint_bytes
varint_bytes-IsByte v h = groups-IsByte 9 v (omega arith)

length-groups : (k v : ℕ) → (1 ≤ length (groups k v)) × (length (groups k v) ≤ k + 1)
unfolding groups
length-groups zero v = omega arith
length-groups (suc k) v = ground (arith, length-groups k (v / 128))

pub length-varint_bytes : (v : ℕ) → (1 ≤ length (varint_bytes v)) × (length (varint_bytes v) ≤ 10)
unfolding varint_bytes
length-varint_bytes v = length-groups 9 v
