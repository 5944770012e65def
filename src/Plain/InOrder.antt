-- ===== src/Plain/InOrder.antt =====
-- lafere/src/plain/mod.rs: the messages of lafere-api over a plain stream, in their order.
use lafere.Base.{
  ℕ, ◌<◌, ◌^◌, ◌≡◌, ◌∙◌, refl, ap, arith, false, not, ◌&&◌, List, [], ◌∷◌, ◌++◌, length, ltb, ◌==◌,
  ok, ◌%◌, length-append,
}
use lafere.Timeout.{Sleeps}
use lafere.Packet.Receiver.{Arrivals, Receiver, ready, leftover}
use lafere.Packet.Receiver
use lafere.Packet.Receiver.Pieces.{joined_runs, whole, NoEnd, joined}
use lafere.Packet.Receiver.Whole.{receive-whole, joined-ready}
use lafere.Plain.{
  PlainPacketStream, Wake, weight, polled, read_from, poll_receive, receive_all, send_all, new,
}
use lafere.Api.Message.{Words, Action, Header, Message, check_limit, into_bytes, to_bytes}
use lafere.Api.Message.RoundTrip.{IsHeader, length-to_bytes}
use lafere.Api.Message.Stream.{plain_format, receive-into_bytes}

leftover_whole : (a b : List ℕ) → 0 < length a → leftover (a ++ b) [] ≡ (a ++ b) ∷ []
leftover_whole [] b h = absurd (omega (arith, h))
leftover_whole (x ∷ xs) b h = refl

module _ (Y : Sleeps) {A : Type 0} (Act : Action A) (B : Words) where
  -- A message as the other side reads it.
  abbrev pub with_body_len : Message A → Message A
  with_body_len m = record m { header = record m.header { body_len = length m.body } }

  abbrev pub all_with_body_len : List (Message A) → List (Message A)
  all_with_body_len [] = []
  all_with_body_len (m ∷ ms) = with_body_len m ∷ all_with_body_len ms

  -- A message within its types, that its action and the body limit allow.
  abbrev pub IsSendable : ℕ → Message A → Type 0
  IsSendable limit m =
      IsHeader Act m.header
      × (length m.body < 2 ^ 32)
      × (check_limit Act (with_body_len m).header ≡ ok (with_body_len m).header)
      × ((not (limit == 0) && ltb limit (length m.body)) ≡ false)

  abbrev pub AreSendable : ℕ → List (Message A) → Type 0
  AreSendable limit [] = Unit
  AreSendable limit (m ∷ ms) = IsSendable limit m × AreSendable limit ms

  header_nonempty : 0 < (plain_format Act B).full_header_len
  header_nonempty = omega arith

  body_nonempty : (n : ℕ) → (n == 0) ≡ false → 0 < n
  body_nonempty n h = ground (arith, h)

  bytes_nonempty : (m : Message A) → 0 < length (into_bytes Act B m)
  unfolding into_bytes
  bytes_nonempty m =
      let h : Header A = record m.header { body_len = length m.body % 2 ^ 32 } in
      omega (arith, length-append (to_bytes Act B h) m.body, length-to_bytes Act B h)

  -- The runs that arrive hold a message and what follows it.
  received_one :
      (now limit : ℕ) (m : Message A) (more : List ℕ) (cs : Arrivals)
      (me : PlainPacketStream Y (plain_format Act B))
      → me.builder ≡ Receiver.new limit
      → IsSendable limit m
      → joined_runs cs ≡ into_bytes Act B m ++ more
      → NoEnd cs
      → (me' : PlainPacketStream Y (plain_format Act B)) × (rest : Arrivals) × (poll_receive Y
            (plain_format Act B)
            me
            (record { now = now; later = now; arrived = cs })
          ≡ ready me' rest (ok (with_body_len m)))
        × (me'.builder ≡ Receiver.new limit)
        × (joined_runs rest ≡ more)
        × NoEnd rest
  unfolding poll_receive
  received_one now limit m more cs me e (head, small, allowed, under) bytes no_end =
      let F = plain_format Act B in
      let w : Wake = record { now = now; later = now; arrived = cs } in
      let one : whole cs ≡ (into_bytes Act B m ++ more) ∷ [] =
        ap (λ b. leftover b []) bytes
        ∙ leftover_whole (into_bytes Act B m) more (bytes_nonempty m) in
      let (same, left) = receive-whole F header_nonempty body_nonempty limit cs no_end in
      let (rest, found, bytes', no_end') =
        joined-ready (Receiver.receive F (Receiver.new limit) cs) (Receiver.new limit) more
          (ok (with_body_len m))
          (same
            ∙ ap joined (
                ap (Receiver.receive F (Receiver.new limit)) one
                ∙ receive-into_bytes Act B m limit more head small allowed under))
          left in
      let found' : Receiver.receive F me.builder cs
          ≡ ready (Receiver.new limit) rest (ok (with_body_len m)) =
        rw e found in
      (
        record {
          stream = read_from Y now (weight cs) (weight rest) me.stream;
          builder = Receiver.new limit;
        },
        rest,
        ap (polled Y F me w) found',
        refl,
        bytes',
        no_end',
      )

  received_all :
      (now limit : ℕ) (ms : List (Message A)) (cs : Arrivals)
      (me : PlainPacketStream Y (plain_format Act B))
      → me.builder ≡ Receiver.new limit
      → AreSendable limit ms
      → joined_runs cs ≡ send_all Y (plain_format Act B) (into_bytes Act B) ms
      → NoEnd cs
      → receive_all Y (plain_format Act B) (length ms) now me cs ≡ all_with_body_len ms
  unfolding receive_all
  received_all now limit [] cs me e valid bytes no_end = refl
  received_all now limit (m ∷ ms) cs me e (sendable, valid) bytes no_end =
      let more = send_all Y (plain_format Act B) (into_bytes Act B) ms in
      let (me', rest, found, e', bytes', no_end') =
        received_one now limit m more cs me e sendable bytes no_end in
      rw (found, receive_all)
        (ap (λ ms'. with_body_len m ∷ ms')
          (received_all now limit ms rest me' e' valid bytes' no_end'))

  -- Any messages that one side sends over a plain stream are received by a new stream of the other
  -- side, once their bytes have arrived, in whatever runs of at least a byte, one after the other,
  -- in their order, each with `body_len` set to the length of its body: for headers within the
  -- range of their types, and bodies of less than 2 ^ 32 bytes that their actions allow and that
  -- do not exceed the body limit, unless it is 0.
  pub receive_all-send_all :
      (now timeout limit : ℕ) (ms : List (Message A)) (cs : Arrivals)
      → AreSendable limit ms
      → joined_runs cs ≡ send_all Y (plain_format Act B) (into_bytes Act B) ms
      → NoEnd cs
      → receive_all Y
          (plain_format Act B)
          (length ms)
          now
          (new Y (plain_format Act B) now timeout limit)
          cs
        ≡ all_with_body_len ms
  unfolding new
  receive_all-send_all now timeout limit ms cs valid bytes no_end =
      received_all now limit ms cs (new Y (plain_format Act B) now timeout limit) refl valid bytes
        no_end
