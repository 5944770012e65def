-- ===== src/Api/Message.antt =====
-- lafere-api/src/message.rs: a message is a header of 12 bytes and a body.
pub mod Flags
pub mod RoundTrip
pub mod Stream
pub mod Buffered
pub mod Enciphered
use lafere.Base.{
  ℕ, ◌+◌, ◌*◌, ◌/◌, ◌%◌, ◌^◌, ◌<◌, ◌≡◌, refl, arith, Bool, true, false, Option, some, List, [], ◌∷◌,
  ◌++◌, length, take, drop, ltb, ◌==◌, if◌then◌else◌, Result, ok, err, ◌>>=◌,
}
use lafere.Packet.{Packet, PacketError, body_limit_reached}
use Flags

-- What the reads and writes of whole words of the `bytes` crate come to: the bytes that a write
-- appends, and the word at the start of the bytes with what is left. Bytes are left as they are.
pub record Words : Type 0 where
  pub write_u16 : ℕ → List ℕ
  pub write_u32 : ℕ → List ℕ
  pub read_u8 : List ℕ → ℕ × List ℕ
  pub read_u16 : List ℕ → ℕ × List ℕ
  pub read_u32 : List ℕ → ℕ × List ℕ
  pub length_u16 : (v : ℕ) → length (write_u16 v) ≡ 2
  pub length_u32 : (v : ℕ) → length (write_u32 v) ≡ 4
  pub read_u8_lem : (b : ℕ) (rest : List ℕ) → read_u8 (b ∷ rest) ≡ (b, rest)
  pub read_u16_lem :
      (v : ℕ) (rest : List ℕ) → v < 2 ^ 16 → read_u16 (write_u16 v ++ rest) ≡ (v, rest)
  pub read_u32_lem :
      (v : ℕ) (rest : List ℕ) → v < 2 ^ 32 → read_u32 (write_u32 v ++ rest) ≡ (v, rest)

pub data MaybeAction (A : Type 0) : Type 0 where
  action : A → MaybeAction A
  unknown : ℕ → MaybeAction A
  none : MaybeAction A

pub record Header (A : Type 0) : Type 0 where
  pub body_len : ℕ
  pub flags : ℕ
  pub msg_flags : ℕ
  pub id : ℕ
  pub action : MaybeAction A

-- The trait `Action`: 0 is not the number of an action.
pub record Action (A : Type 0) : Type 0 where
  pub from_u16 : ℕ → Option A
  pub as_u16 : A → ℕ
  pub max_body_size : Header A → Option ℕ
  pub as_u16_lt : (a : A) → (0 < as_u16 a) × (as_u16 a < 2 ^ 16)
  pub from_u16-as_u16 : (a : A) → from_u16 (as_u16 a) ≡ some a

pub record Message (A : Type 0) : Type 0 where
  pub header : Header A
  pub body : List ℕ

unfoldable pub empty_header : {A : Type 0} → Header A
empty_header = record {
  body_len = 0;
  flags = 0;
  msg_flags = Flags.new true;
  id = 0;
  action = MaybeAction.none;
}

unfoldable pub set_action : {A : Type 0} → A → Header A → Header A
set_action a h = record h { action = MaybeAction.action a }

unfoldable pub empty : {A : Type 0} → Message A
empty = record { header = empty_header; body = [] }

-- `Message::action`
unfoldable pub action_of : {A : Type 0} → Message A → Option A
action_of m = elim m.header.action [
  | MaybeAction.action a ↦ some a
  | MaybeAction.unknown num ↦ Option.none
  | MaybeAction.none ↦ Option.none
]

unfoldable pub set_success : {A : Type 0} → Bool → Message A → Message A
set_success success m = record m {
  header = record m.header { msg_flags = Flags.set_success success m.header.msg_flags };
}

unfoldable pub is_success : {A : Type 0} → Message A → Bool
is_success m = Flags.is_success m.header.msg_flags

-- `Header::LEN`
abbrev pub header_len : ℕ
header_len = 4 + 1 + 1 + 4 + 2

module _ {A : Type 0} (Act : Action A) where
  unfoldable pub action_num : MaybeAction A → ℕ
  action_num (MaybeAction.action a) = Act.as_u16 a
  action_num (MaybeAction.unknown num) = num
  action_num MaybeAction.none = 0

  unfoldable pub action_from : ℕ → MaybeAction A
  action_from num = if num == 0 then MaybeAction.none else elim (Act.from_u16 num) [
    | some a ↦ MaybeAction.action a
    | Option.none ↦ MaybeAction.unknown num
  ]

  unfoldable pub check_limit : Header A → Result PacketError (Header A)
  check_limit me = elim (Act.max_body_size me) [
    | Option.none ↦ ok me
    | some max ↦ if ltb max me.body_len then err (body_limit_reached max) else ok me
  ]

  module _ (B : Words) where
    unfoldable pub to_bytes : Header A → List ℕ
    to_bytes h =
        B.write_u32 h.body_len
        ++ ((h.flags ∷ h.msg_flags ∷ []) ++ (B.write_u32 h.id ++ B.write_u16 (action_num h.action)))

    unfoldable pub from_bytes : List ℕ → Result PacketError (Header A)
    from_bytes bytes =
        let (body_len, r) = B.read_u32 bytes in
        let (flags, r1) = B.read_u8 r in
        let (msg_flags, r2) = B.read_u8 r1 in
        let (id, r3) = B.read_u32 r2 in
        let (num, r4) = B.read_u16 r3 in
        check_limit (record {
          body_len = body_len;
          flags = flags;
          msg_flags = msg_flags;
          id = id;
          action = action_from num;
        })

    -- The header's `body_len` is set to the length of the body as a u32.
    unfoldable pub into_bytes : Message A → List ℕ
    into_bytes m = to_bytes (record m.header { body_len = length m.body % 2 ^ 32 }) ++ m.body

    -- `Header::from_bytes(bytes.header())`, then `Message::from_bytes_and_header(bytes, header)`.
    unfoldable pub message_from : List ℕ → Result PacketError (Message A)
    message_from bytes = do
      header ← from_bytes (take header_len bytes)
      ok (record { header = header; body = drop header_len bytes })

-- A message as the handler sees it.
abbrev pub message_packet : {A : Type 0} → Packet (Message A)
message_packet = record {
  flags = λ m. m.header.flags;
  id = λ m. m.header.id;
  set_flags = λ f m. record m { header = record m.header { flags = f } };
  set_id = λ i m. record m { header = record m.header { id = i } };
  empty = empty;
  flags_set_flags = λ f m. refl;
  id_set_flags = λ f m. refl;
  flags_set_id = λ i m. refl;
  id_set_id = λ i m. refl;
}
