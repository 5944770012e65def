-- ===== src/Derive/Tuples.antt =====
-- protopuffer/src/decode.rs and encode.rs: tuples of any length, encoded and decoded.
use lafere.Base.{ℕ, suc, ◌+◌, ◌^◌, ◌≤◌, ◌<◌, ◌≡◌, ◌≢◌, arith, List, [], ◌∷◌, length, All, ok}
use lafere.Bytes.{BytesRead, growing}
use lafere.Protopuffer.Encode.{write_to_bytes}
use lafere.Protopuffer.Decode.{parse_from_bytes}
use lafere.Derive.{FieldAttr, Values, numbered, tuple_encode, tuple_decode}
use lafere.Derive.Items.{Mirrors, IsDistinct, InRange}
use lafere.Derive.Structs.{struct_roundtrip}

later_numbers :
    (num idx : ℕ) (as_ : List FieldAttr)
    → num < idx
    → All (λ b. b.fieldnum ≢ num) (numbered idx as_)
later_numbers num idx [] lt = tt
later_numbers num idx (a ∷ as_) lt =
    (λ e. omega (arith, e), later_numbers num (suc idx) as_ (omega arith))

numbered-IsDistinct :
    (idx : ℕ) (as_ : List FieldAttr) → idx + length as_ ≤ 2 ^ 61 → IsDistinct (numbered idx as_)
numbered-IsDistinct idx [] le = tt
numbered-IsDistinct idx (a ∷ as_) le = (
  omega arith,
  later_numbers idx (suc idx) as_ (omega arith),
  numbered-IsDistinct (suc idx) as_ (omega arith),
)

pub tuple_roundtrip :
    (R : BytesRead) (as_ : List FieldAttr) (ms : Mirrors (numbered 0 as_))
    → length as_ ≤ 2 ^ 61
    → (vs : Values (numbered 0 as_)) → InRange (numbered 0 as_) ms vs
    → (bs : List ℕ) × (write_to_bytes (tuple_encode as_) growing vs ≡ ok bs)
      × (parse_from_bytes (tuple_decode R as_) bs ≡ ok vs)
tuple_roundtrip R as_ ms few vs h =
    struct_roundtrip (numbered 0 as_) ms R (numbered-IsDistinct 0 as_ (omega arith)) vs h
