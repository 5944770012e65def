-- ===== src/Tests/Messages.antt =====
-- Runs of the messages of lafere-api and of the flags of packets.
use lafere.Base.{
  ℕ, ◌+◌, ◌*◌, ◌/◌, ◌%◌, ◌^◌, ◌<◌, ◌≡◌, refl, ap, arith, Bool, true, false, Option, none, some,
  List, [], ◌∷◌, ok, ◌>>=◌, ◌==◌, if◌then◌else◌, ◌++◌,
}
use lafere.Packet.Flags.{Kind}
use lafere.Api.Message.{
  Words, Action, MaybeAction, Header, Message, into_bytes, message_from, check_limit, from_bytes,
  action_from,
}
use lafere.Packet.Receiver
use lafere.Packet.Receiver.{
  Arrivals, Format, ready, fill, header_complete, read_header, take_message, body_complete,
  over_limit, read_body, receive,
}
use lafere.Api.Message.Stream.{plain_format}
use lafere.Packet.Receiver.Abort.{resumed, receive_resumes}
use lafere.Api.EncDec.{encode, decode}
use lafere.Api.EncDec.Sent.{labelled_message, sent_value}
use lafere.Derive.{struct_encode, struct_decode}
use lafere.Derive.Fields.{i32_field, u64_field, varint_field}
use lafere.Protopuffer.Wire
use lafere.Protopuffer.Wire.{wire_type}
use lafere.Protopuffer.Format.{field_bytes}
use lafere.Protopuffer.Varint.Encoding.{varint_bytes, groups}
use lafere.Base.Int.{pos}
use lafere.Bytes.{slice_reader, growing}
use lafere.Tests.Deriving.{point, point_mirrors}
use lafere.Api.Message.{action_of}
use lafere.Api.Message.RoundTrip.{message_from-into_bytes}

-- Words with the most significant byte first.
abbrev pub be16 : ℕ → List ℕ
be16 v = (v / 256) ∷ (v % 256) ∷ []

abbrev pub be32 : ℕ → List ℕ
be32 v = (v / 16777216) ∷ (v / 65536 % 256) ∷ (v / 256 % 256) ∷ (v % 256) ∷ []

abbrev pub read8 : List ℕ → ℕ × List ℕ
read8 [] = (0, [])
read8 (a ∷ r) = (a, r)

abbrev pub read16 : List ℕ → ℕ × List ℕ
read16 (a ∷ b ∷ r) = (a * 256 + b, r)
read16 r = (0, r)

abbrev pub read32 : List ℕ → ℕ × List ℕ
read32 (a ∷ b ∷ c ∷ d ∷ r) = (a * 16777216 + b * 65536 + c * 256 + d, r)
read32 r = (0, r)

abbrev pub big_endian : Words
big_endian = record {
  write_u16 = be16;
  write_u32 = be32;
  read_u8 = read8;
  read_u16 = read16;
  read_u32 = read32;
  length_u16 = λ v. refl;
  length_u32 = λ v. refl;
  read_u8_lem = λ b rest. refl;
  read_u16_lem = λ v rest h. ap (λ (n : ℕ). (n, rest)) (omega arith);
  read_u32_lem = λ v rest h. ap (λ (n : ℕ). (n, rest)) (omega arith);
}

-- Two actions, of the numbers 1 and 2, with bodies of at most 3 bytes.
abbrev pub from_num : ℕ → Option Bool
from_num num = if num == 1 then some false else if num == 2 then some true else none

abbrev pub as_num : Bool → ℕ
as_num false = 1
as_num true = 2

pub as_num-lt : (a : Bool) → (0 < as_num a) × (as_num a < 2 ^ 16)
as_num-lt false = (omega arith, omega arith)
as_num-lt true = (omega arith, omega arith)

pub from_num-as_num : (a : Bool) → from_num (as_num a) ≡ some a
from_num-as_num false = refl
from_num-as_num true = refl

abbrev pub actions : Action Bool
actions = record {
  from_u16 = from_num;
  as_u16 = as_num;
  max_body_size = λ h. some 3;
  as_u16_lt = as_num-lt;
  from_u16-as_u16 = from_num-as_num;
}

abbrev pub header : Header Bool
header = record {
  body_len = 0;
  flags = 16;
  msg_flags = 1;
  id = 70000;
  action = MaybeAction.action true;
}

abbrev pub message : Message Bool
message = record { header = header; body = 5 ∷ 6 ∷ [] }

message_from-into_bytes_example :
    message_from actions big_endian (into_bytes actions big_endian message) ≡ (
      check_limit actions (record header { body_len = 2 }) >>= λ checked.
      ok (record { header = checked; body = 5 ∷ 6 ∷ [] }))
message_from-into_bytes_example =
    message_from-into_bytes actions big_endian message (omega arith, omega arith, tt) (omega arith)

abbrev plain : Format (Header Bool) (Message Bool)
plain = plain_format actions big_endian

-- The message in three runs of bytes, and the first byte of the next packet.
abbrev start : Arrivals
start = (0 ∷ 0 ∷ []) ∷ []

abbrev later : Arrivals
later = (0 ∷ 2 ∷ 16 ∷ 1 ∷ 0 ∷ 1 ∷ 17 ∷ 112 ∷ 0 ∷ 2 ∷ 5 ∷ []) ∷ (6 ∷ 9 ∷ []) ∷ []

receives :
    receive plain (Receiver.new 0) (start ++ later)
    ≡ ready
        (Receiver.new 0)
        ((9 ∷ []) ∷ [])
        (ok (record { header = record header { body_len = 2 }; body = 5 ∷ 6 ∷ [] }))
unfolding receive read_header read_body fill header_complete body_complete take_message over_limit
    Receiver.new from_bytes check_limit action_from be16 be32 read8 read16 read32 from_num
receives = refl

receive_resumes_example :
    receive plain (Receiver.new 0) (start ++ later)
    ≡ resumed plain (receive plain (Receiver.new 0) start) later
receive_resumes_example = receive_resumes plain (Receiver.new 0) start later

sent_value_example :
    (m : Message Bool) × (r : Message Bool) × (encode (struct_encode point) growing (pos 4, (0, tt))
      ≡ ok m)
    × (message_from actions big_endian (
          into_bytes actions big_endian (labelled_message actions big_endian Kind.request 3 true m))
        ≡ ok r)
    × (action_of r ≡ some true)
    × (decode (struct_decode slice_reader point) r ≡ ok (pos 4, (0, tt)))
unfolding check_limit i32_field u64_field varint_field field_bytes wire_type Wire.as_num
    varint_bytes groups
sent_value_example =
    sent_value actions big_endian slice_reader point point_mirrors
      (omega arith, ((λ e. omega (arith, e)), tt), (omega arith, tt, tt)) (pos 4, (0, tt))
      (omega arith, (omega arith, tt)) Kind.request 3 true (omega arith) (omega arith) refl
