-- ===== src/Tests/Streams.antt =====
-- Runs of buffers and of enciphered streams.
use lafere.Base.{
  ℕ, ◌+◌, ◌≡◌, refl, ap, arith, List, [], ◌∷◌, ◌++◌, length, take, drop, some, ok, true, Bool,
}
use lafere.Packet.PacketBytes.{
  OffsetCursors, BodyOp, writes, reads_file, seeks, resizes, serializes, do_all, resize, from_file,
  serialize, does,
}
use lafere.Packet.PacketBytes.Body.{steps}
use lafere.Packet.PacketBytes.Plain
use lafere.Packet.PacketBytes.Plain.{plain_bytes, plain_bytes_lawful}
use lafere.Packet.PacketBytes.Lawful.{Lawful}
use lafere.Encrypted.EncryptedBytes.{as_slice, encrypt, encrypted_bytes}
use lafere.Encrypted.EncryptedBytes.Lawful.{encrypted_bytes_lawful}
use lafere.Encrypted.Stream.{
  Packets, EncryptedPacketStream, client, server, receive, send_all, receive_all,
}
use lafere.Encrypted.Stream.InOrder.{IsSendable, views, streams_in_order}
use lafere.Packet.Receiver
use lafere.Packet.Receiver.{Arrivals, ready, leftover}
use lafere.Packet.Receiver.Pieces.{joined_runs, NoEnd}
use lafere.Plain.{Config}
use lafere.Api.Message.{Header, Message, into_bytes, header_len, check_limit}
use lafere.Api.Message.Buffered.{Buffered, filled, into_buffer, into_buffer-filled}
use lafere.Api.Message.Enciphered.{messages, seen, message-IsSendable, enciphered_message}
use lafere.Tests.Timing.{sleeps}
use mathlib.Core.List.{append-nil}
use lafere.Tests.Messages.{big_endian, actions, header}
use lafere.Tests.Handshakes.{cursors, numbers, shifts}

abbrev pub offset_cursors : OffsetCursors
offset_cursors = record {
  new = λ o bs. record { contents = bs; offset = o; position = 0 };
  write = λ bs c. record c {
    contents =
        take (c.offset + c.position) c.contents
        ++ (bs ++ drop (c.offset + c.position + length bs) c.contents);
    position = c.position + length bs;
  };
  seek = λ pos c. record c { position = pos };
  new_lem = λ o bs fits. refl;
  write_lem = λ bs c fits. refl;
  seek_lem = λ pos c fits. refl;
}

abbrev pub ops : List BodyOp
ops =
    writes (1 ∷ 2 ∷ 3 ∷ [])
    ∷ seeks 1
    ∷ serializes ((8 ∷ []) ∷ (9 ∷ 7 ∷ []) ∷ [])
    ∷ resizes 6
    ∷ reads_file (5 ∷ [])
    ∷ []

ran : steps ops ([], 0) ≡ some (1 ∷ 8 ∷ 9 ∷ 7 ∷ 0 ∷ 0 ∷ 5 ∷ [], 4)
ran = refl

in_a_buffer :
    Plain.body (Plain.body_mut offset_cursors (do_all offset_cursors ops) (Plain.new 2))
    ≡ 1 ∷ 8 ∷ 9 ∷ 7 ∷ 0 ∷ 0 ∷ 5 ∷ []
unfolding Plain.new Plain.body Plain.body_mut does resize from_file serialize
in_a_buffer = refl

plain_bytes_lawful_example : Lawful offset_cursors (plain_bytes offset_cursors)
plain_bytes_lawful_example = plain_bytes_lawful offset_cursors

-- A byte at a time, and all at once.
abbrev bytewise : List ℕ → Arrivals
bytewise [] = []
bytewise (b ∷ bs) = (b ∷ []) ∷ bytewise bs

bytewise_lem : (bs : List ℕ) → (joined_runs (bytewise bs) ≡ bs) × NoEnd (bytewise bs)
bytewise_lem [] = (refl, tt)
bytewise_lem (b ∷ bs) = (ap (λ r. b ∷ r) (bytewise_lem bs).0, (refl, (bytewise_lem bs).1))

abbrev at_once : List ℕ → Arrivals
at_once bs = leftover bs []

at_once_lem : (bs : List ℕ) → (joined_runs (at_once bs) ≡ bs) × NoEnd (at_once bs)
at_once_lem [] = (refl, tt)
at_once_lem (b ∷ bs) = (ap (λ r. b ∷ r) (append-nil bs), (refl, tt))

abbrev first_key : ℕ × List ℕ → ℕ
first_key k = k.0

abbrev few : List BodyOp
few = writes (1 ∷ 2 ∷ 3 ∷ []) ∷ []

abbrev packets : Packets (Header Bool) (Buffered Bool (encrypted_bytes shifts offset_cursors))
packets = messages actions big_endian shifts cursors offset_cursors

abbrev sent_with : List BodyOp → Buffered Bool (encrypted_bytes shifts offset_cursors)
sent_with ops =
    filled (encrypted_bytes shifts offset_cursors) actions big_endian offset_cursors
      (encrypted_bytes_lawful shifts offset_cursors) header ops

abbrev got_with : List ℕ → Message Bool
got_with body = record { header = record header { body_len = length body }; body = body }

few-IsSendable :
    IsSendable shifts cursors sleeps packets
      (seen actions big_endian shifts cursors offset_cursors)
      100
      (sent_with few)
      (got_with (1 ∷ 2 ∷ 3 ∷ []))
unfolding check_limit
few-IsSendable =
    message-IsSendable actions big_endian shifts cursors offset_cursors sleeps header few
      (1 ∷ 2 ∷ 3 ∷ [], 3) 100 (omega arith, omega arith, tt) refl (omega arith) refl refl

none-IsSendable :
    IsSendable shifts cursors sleeps packets
      (seen actions big_endian shifts cursors offset_cursors)
      0
      (sent_with [])
      (got_with [])
unfolding check_limit
none-IsSendable =
    message-IsSendable actions big_endian shifts cursors offset_cursors sleeps header [] ([], 0) 0
      (omega arith, omega arith, tt) refl (omega arith) refl refl

streams_in_order_example :
    let asks : Config = record { timeout = 5; body_limit = 0 } in
    let serves : Config = record { timeout = 9; body_limit = 100 } in
    let ps = sent_with few ∷ sent_with few ∷ [] in
    let rs = sent_with [] ∷ [] in
    (s : EncryptedPacketStream shifts sleeps (Header Bool)) × (c : EncryptedPacketStream shifts
      sleeps
      (Header Bool))
    × (greeting : List ℕ) × (server numbers shifts cursors sleeps
          (Header Bool)
          first_key
          70
          serves
          true
          9
          4
          (20 ∷ [])
          (30 ∷ [])
          (3 ∷ [])
        ≡ ok (s, greeting))
    × (client numbers shifts cursors sleeps (Header Bool) first_key 70 asks true 9 3 greeting
        ≡ ok c)
    × (let (asked, c1) = send_all shifts cursors sleeps packets ps c in
        let (qs, s1) = receive_all shifts cursors sleeps packets 2 70 s (bytewise asked) in
        let (answers, s2) = send_all shifts cursors sleeps packets rs s1 in
        let (ts, c2) = receive_all shifts cursors sleeps packets 1 70 c1 (at_once answers) in
        (views shifts cursors sleeps packets
            (seen actions big_endian shifts cursors offset_cursors)
            (omega arith)
            qs
          ≡ got_with (1 ∷ 2 ∷ 3 ∷ []) ∷ got_with (1 ∷ 2 ∷ 3 ∷ []) ∷ [])
        × (views shifts cursors sleeps packets
              (seen actions big_endian shifts cursors offset_cursors)
              (omega arith)
              ts
            ≡ got_with [] ∷ []))
streams_in_order_example =
    streams_in_order numbers shifts cursors sleeps packets
      (seen actions big_endian shifts cursors offset_cursors) first_key (omega arith) bytewise
      at_once bytewise_lem at_once_lem 9 3 4 (20 ∷ []) (30 ∷ []) 70
      (record { timeout = 9; body_limit = 100 }) (record { timeout = 5; body_limit = 0 })
      (sent_with few ∷ sent_with few ∷ []) (sent_with [] ∷ [])
      (got_with (1 ∷ 2 ∷ 3 ∷ []) ∷ got_with (1 ∷ 2 ∷ 3 ∷ []) ∷ []) (got_with [] ∷ []) refl refl
      (few-IsSendable, (few-IsSendable, tt)) (none-IsSendable, tt)

abbrev filled_plain : Buffered Bool (plain_bytes offset_cursors)
filled_plain =
    filled (plain_bytes offset_cursors) actions big_endian offset_cursors
      (plain_bytes_lawful offset_cursors) header ops

into_buffer-filled_example :
    let out = into_buffer (plain_bytes offset_cursors) actions big_endian filled_plain in
    (plain_bytes_lawful offset_cursors).IsValid out
    × (Plain.header out ++ Plain.body out
        ≡ into_bytes actions big_endian
            (record { header = header; body = 1 ∷ 8 ∷ 9 ∷ 7 ∷ 0 ∷ 0 ∷ 5 ∷ [] }))
    × (length (Plain.header out) ≡ header_len)
into_buffer-filled_example =
    into_buffer-filled (plain_bytes offset_cursors) actions big_endian offset_cursors
      (plain_bytes_lawful offset_cursors) header ops (1 ∷ 8 ∷ 9 ∷ 7 ∷ 0 ∷ 0 ∷ 5 ∷ [], 4) refl

enciphered_message_example :
    let out =
      into_buffer (encrypted_bytes shifts offset_cursors) actions big_endian (sent_with few) in
    let bytes = as_slice shifts (encrypt shifts cursors 5 out).0 in
    (m : Buffered Bool (encrypted_bytes shifts offset_cursors)) × (rest : Arrivals) × (receive
        shifts cursors sleeps packets 5
        (Receiver.new 100)
        (at_once (bytes ++ (77 ∷ [])))
      ≡ (ready (Receiver.new 100) rest (ok m), (encrypt shifts cursors 5 out).1))
    × (seen actions big_endian shifts cursors offset_cursors m ≡ got_with (1 ∷ 2 ∷ 3 ∷ []))
    × (joined_runs rest ≡ 77 ∷ [])
    × NoEnd rest
unfolding check_limit
enciphered_message_example =
    let out =
      into_buffer (encrypted_bytes shifts offset_cursors) actions big_endian (sent_with few) in
    let bytes : List ℕ = as_slice shifts (encrypt shifts cursors 5 out).0 in
    enciphered_message actions big_endian shifts cursors offset_cursors sleeps 5 header few
      (1 ∷ 2 ∷ 3 ∷ [], 3) 100 (77 ∷ []) (at_once (bytes ++ (77 ∷ [])))
      (omega arith, omega arith, tt) refl (omega arith) refl refl
      (at_once_lem (bytes ++ (77 ∷ []))).0 (at_once_lem (bytes ++ (77 ∷ []))).1
