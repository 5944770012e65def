-- ===== src/Packet/Flags.antt =====
-- lafere/src/packet/packet.rs: `Kind` and `Flags`. The kind is the high nibble of the flags.
use lafere.Base.{
  ℕ, ◌+◌, ◌*◌, ◌/◌, ◌%◌, ◌<◌, ◌≡◌, refl, ap, ◌∙◌, bit_and, bit_or, arith, ◌==◌, if◌then◌else◌,
}
use lafere.Bits.{low_nibble, bit_or_shifted}

pub data Kind : Type 0 where
  request response no_response stream request_receiver request_sender : Kind
  stream_closed close ping malformed_request enable_server_requests unknown : Kind

abbrev pub max_kind : ℕ
max_kind = 255 / 16

unfoldable pub from_num : ℕ → Kind
from_num num =
    if num == 1
    then request
    else if num == 2
    then response
    else if num == 3
    then no_response
    else if num == 4
    then stream
    else if num == 5
    then request_receiver
    else if num == 6
    then request_sender
    else if num == 7
    then stream_closed
    else if num == 8
    then close
    else if num == 9
    then ping
    else if num == 10
    then malformed_request
    else if num == 11
    then enable_server_requests
    else unknown

unfoldable pub as_num : Kind → ℕ
as_num request = 1
as_num response = 2
as_num no_response = 3
as_num stream = 4
as_num request_receiver = 5
as_num request_sender = 6
as_num stream_closed = 7
as_num close = 8
as_num ping = 9
as_num malformed_request = 10
as_num enable_server_requests = 11
as_num unknown = max_kind

-- `self.inner >> KIND_OFFSET`
unfoldable pub kind : ℕ → Kind
kind inner = from_num (inner / 16)

-- `inner &= !KIND_MASK; inner |= num << KIND_OFFSET`
unfoldable pub set_kind : Kind → ℕ → ℕ
set_kind k inner = let cleared = bit_and inner 0x0f in bit_or cleared (as_num k * 16 % 256)

unfoldable pub new : Kind → ℕ
unfolding set_kind
new k = set_kind k 0

from_num-as_num : (k : Kind) → from_num (as_num k) ≡ k
unfolding from_num as_num
from_num-as_num request = refl
from_num-as_num _ = refl

as_num-lt : (k : Kind) → as_num k < 16
unfolding as_num
as_num-lt request = omega arith
as_num-lt _ = omega arith

set_kind-sum : (k : Kind) (inner : ℕ) → inner < 256 → set_kind k inner ≡ inner % 16 + as_num k * 16
unfolding set_kind
set_kind-sum k inner h = rw (low_nibble inner h) (
    ap (bit_or (inner % 16)) (whole (as_num k) (as_num-lt k))
    ∙ bit_or_shifted 4 (inner % 16) (as_num k) (omega arith))
  where
    whole : (n : ℕ) → n < 16 → n * 16 % 256 ≡ n * 16
    whole n h = omega arith

-- Setting the kind of a flags byte: the kind reads back, for every kind, the reserved bits stay,
-- and the result is a byte.
pub kind-set_kind :
    (k : Kind) (inner : ℕ)
    → inner < 256
    → (kind (set_kind k inner) ≡ k)
      × (set_kind k inner % 16 ≡ inner % 16)
      × (set_kind k inner < 256)
unfolding kind
kind-set_kind k inner h = (
  ap from_num (omega (arith, set_kind-sum k inner h)) ∙ from_num-as_num k,
  omega (arith, set_kind-sum k inner h),
  omega (arith, set_kind-sum k inner h, as_num-lt k),
)

pub kind-new : (k : Kind) → kind (new k) ≡ k
unfolding new
kind-new k = (kind-set_kind k 0 (omega arith)).0
