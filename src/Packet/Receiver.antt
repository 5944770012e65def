-- ===== src/Packet/Receiver.antt =====
-- lafere/src/packet/builder.rs: `PacketReceiver`, which reads a packet in parts. Its futures may be
-- dropped while they wait: what was read is kept in the receiver.
pub mod Abort
pub mod Pieces
pub mod Whole
use lafere.Base.{
  ℕ, ◌+◌, ◌-◌, Bool, true, false, not, ◌&&◌, Option, none, some, List, [], ◌∷◌, ◌++◌, length, take,
  drop, leb, ltb, ◌==◌, if◌then◌else◌, Result, ok, err,
}
use lafere.Packet.{PacketError, body_limit_reached}

pub data PacketReceiverError (H : Type 0) : Type 0 where
  io : PacketReceiverError H
  hard : PacketError → PacketReceiverError H
  soft : H → PacketError → PacketReceiverError H

-- What a stream has for its next reads: the runs of bytes that arrive, of which `[]` is its end.
abbrev pub Arrivals : Type 0
Arrivals = List (List ℕ)

-- The header of a packet, the packet, the buffer (`PacketBytes`), and what is done to its two parts
-- once they are complete: an encrypted stream deciphers them, a plain stream leaves them.
pub record Format (H P : Type 0) : Type 0 where
  pub full_header_len : ℕ
  pub full_body_len : ℕ → ℕ
  pub mutate_header : List ℕ → Result PacketError (List ℕ)
  pub mutate_body : List ℕ → Result PacketError (List ℕ)
  pub from_bytes : List ℕ → Result PacketError H
  pub body_len : H → ℕ
  pub from_bytes_and_header : List ℕ → List ℕ → H → Result PacketError P

-- `read` is the length of the part that is being read.
pub record Receiver (H : Type 0) : Type 0 where
  pub header_bytes : List ℕ
  pub body_bytes : List ℕ
  pub header : Option H
  pub body_limit : ℕ

unfoldable pub new : {H : Type 0} → ℕ → Receiver H
new body_limit = record {
  header_bytes = [];
  body_bytes = [];
  header = none;
  body_limit = body_limit;
}

-- The future waits, or it is ready with what is left of the arrivals, or the code panics.
pub data Progress (S A : Type 0) : Type 0 where
  waits : S → Progress S A
  panicked : Progress S A
  ready : S → Arrivals → A → Progress S A

-- The loop over a part of `len` bytes, of which `got` are read; it says whether the part is complete.
abbrev pub leftover : List ℕ → Arrivals → Arrivals
leftover [] cs = cs
leftover (b ∷ bs) cs = (b ∷ bs) ∷ cs

abbrev pub is_end : List ℕ → Bool
is_end [] = true
is_end (b ∷ bs) = false

unfoldable pub fill : ℕ → List ℕ → Arrivals → Progress (List ℕ) Bool
fill len got [] = waits got
fill len got (c ∷ cs) =
    let room = len - length got in
    let got' = got ++ take room c in
    let more = fill len got' cs in
    if leb len (length got')
    then ready got' (leftover (drop room c) cs) true
    else if is_end c
    then ready got' cs false
    else more

module _ {H P : Type 0} (F : Format H P) where
  abbrev pub Received : Type 0 → Type 0
  Received A = Progress (Receiver H) (Result (PacketReceiverError H) A)

  unfoldable pub header_complete : Receiver H → Arrivals → Received Unit
  header_complete s rest = elim (F.mutate_header s.header_bytes) [
    | err e ↦ ready s rest (err (hard e))
    | ok bytes ↦
        let s' = record s { header_bytes = bytes } in
        elim (F.from_bytes bytes) [
          | err e ↦ ready s' rest (err (hard e))
          | ok h ↦ ready (record s' { header = some h }) rest (ok tt)
        ]
  ]

  abbrev pub header_filled : Receiver H → Progress (List ℕ) Bool → Received Unit
  header_filled s (waits got) = waits (record s { header_bytes = got })
  header_filled s panicked = panicked
  header_filled s (ready got rest true) = header_complete (record s { header_bytes = got }) rest
  header_filled s (ready got rest false) = ready (record s { header_bytes = got }) rest (err io)

  unfoldable pub read_header : Receiver H → Arrivals → Received Unit
  read_header s cs = elim s.header [
    | some h ↦ ready s cs (ok tt)
    | none ↦ header_filled s (fill F.full_header_len s.header_bytes cs)
  ]

  unfoldable pub take_message : Receiver H → H → Arrivals → Received P
  take_message s h rest = elim (F.from_bytes_and_header s.header_bytes s.body_bytes h) [
    | err e ↦ ready (new s.body_limit) rest (err (soft h e))
    | ok p ↦ ready (new s.body_limit) rest (ok p)
  ]

  unfoldable pub body_complete : Receiver H → H → Arrivals → Received P
  unfolding take_message
  body_complete s h rest = elim (F.mutate_body s.body_bytes) [
    | err e ↦ ready (new s.body_limit) rest (err (soft h e))
    | ok bytes ↦ take_message (record s { body_bytes = bytes }) h rest
  ]

  abbrev pub body_filled : Receiver H → H → Progress (List ℕ) Bool → Received P
  body_filled s h (waits got) = waits (record s { body_bytes = got })
  body_filled s h panicked = panicked
  body_filled s h (ready got rest true) = body_complete (record s { body_bytes = got }) h rest
  body_filled s h (ready got rest false) = ready (record s { body_bytes = got }) rest (err io)

  -- The check that is made before the first byte of a body is read.
  unfoldable pub over_limit : Receiver H → H → Bool
  over_limit s h =
      is_end s.body_bytes && (not (s.body_limit == 0) && ltb s.body_limit (F.body_len h))

  unfoldable pub read_body : Receiver H → H → Arrivals → Received P
  read_body s h cs =
      if F.body_len h == 0
      then take_message s h cs
      else if over_limit s h
      then ready s cs (err (hard (body_limit_reached (F.body_len h))))
      else body_filled s h (fill (F.full_body_len (F.body_len h)) s.body_bytes cs)

  -- `expect("read the header first")`
  abbrev pub then_body : Received Unit → Received P
  then_body (waits s) = waits s
  then_body panicked = panicked
  then_body (ready s rest (err e)) = ready s rest (err e)
  then_body (ready s rest (ok u)) = elim s.header [ none ↦ panicked | some h ↦ read_body s h rest ]

  -- `receive` of a stream: the header, then the body.
  unfoldable pub receive : Receiver H → Arrivals → Received P
  receive s cs = then_body (read_header s cs)
