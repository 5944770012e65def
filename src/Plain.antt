-- ===== src/Plain.antt =====
-- lafere/src/plain/mod.rs: `PlainPacketStream`, a packet receiver behind a timeout. What the stream
-- gives, and when its future is polled, is up to the surroundings.
pub mod InTime
pub mod InOrder
use lafere.Base.{
  ℕ, zero, suc, ◌+◌, Bool, true, false, List, [], ◌∷◌, ◌++◌, length, ltb, if◌then◌else◌, Result, ok,
  err,
}
use lafere.Timeout.{Sleeps, TimeoutReader, set_timeout, poll_timeout, poll_read, gives}
use lafere.Timeout
use lafere.Packet.Receiver.{
  Arrivals, Format, Receiver, Progress, waits, panicked, ready, PacketReceiverError, io,
}
use lafere.Packet.Receiver

pub record Config : Type 0 where
  pub timeout : ℕ
  pub body_limit : ℕ

-- A poll of a future: the time, the time at which its timer is polled, and what arrived.
pub record Wake : Type 0 where
  pub now : ℕ
  pub later : ℕ
  pub arrived : Arrivals

abbrev pub all_arrived : List Wake → Arrivals
all_arrived [] = []
all_arrived (w ∷ ws) = w.arrived ++ all_arrived ws

-- The size of what is still to be read, ends of the stream included.
abbrev pub weight : Arrivals → ℕ
weight [] = 0
weight (c ∷ cs) = length c + 1 + weight cs

module _ (Y : Sleeps) where
  -- The reader once some reads were given something.
  abbrev pub read_from : (now before after : ℕ) → TimeoutReader Y → TimeoutReader Y
  read_from now before after t =
      if ltb after before then (poll_read Y now now (gives tt) t).1 else t

module _ (Y : Sleeps) {H P : Type 0} (F : Format H P) where
  pub record PlainPacketStream : Type 0 where
    pub stream : TimeoutReader Y
    pub builder : Receiver H

  -- The parts of a packet are left as they are.
  abbrev pub plain : Format H P
  plain = record F { mutate_header = ok; mutate_body = ok }

  unfoldable pub new : (now timeout body_limit : ℕ) → PlainPacketStream
  new now timeout body_limit = record {
    stream = Timeout.new Y now timeout;
    builder = Receiver.new body_limit;
  }

  -- A new configuration is set.
  unfoldable pub configure : (now : ℕ) → Config → PlainPacketStream → PlainPacketStream
  configure now cfg me = record {
    stream = set_timeout Y now cfg.timeout me.stream;
    builder = record me.builder { body_limit = cfg.body_limit };
  }

  abbrev pub Outcome : Type 0
  Outcome = Progress PlainPacketStream (Result (PacketReceiverError H) P)

  -- A read that finds nothing waits, or fails once the timer has ended.
  abbrev pub nothing_read : Receiver H → Bool × TimeoutReader Y → Outcome
  nothing_read b (true, t) = ready (record { stream = t; builder = b }) [] (err io)
  nothing_read b (false, t) = waits (record { stream = t; builder = b })

  abbrev pub polled :
      PlainPacketStream → Wake → Progress (Receiver H) (Result (PacketReceiverError H) P) → Outcome
  polled me w (waits b) =
      nothing_read b
        (poll_timeout Y w.now w.later (read_from Y w.now (weight w.arrived) 0 me.stream))
  polled me w panicked = panicked
  polled me w (ready b rest r) =
      ready
        (record {
          stream = read_from Y w.now (weight w.arrived) (weight rest) me.stream;
          builder = b;
        })
        rest r

  -- One poll of `receive`.
  unfoldable pub poll_receive : PlainPacketStream → Wake → Outcome
  poll_receive me w = polled me w (Receiver.receive plain me.builder w.arrived)

  -- What arrives after a packet is left for the next one.
  abbrev pub go_on : (PlainPacketStream → Outcome) → Arrivals → Outcome → Outcome
  go_on k ds (waits me) = k me
  go_on k ds panicked = panicked
  go_on k ds (ready me rest r) = ready me (rest ++ ds) r

  -- `receive`, whose future may be dropped and made anew between two polls.
  unfoldable pub receive : PlainPacketStream → List Wake → Outcome
  receive me [] = waits me
  receive me (w ∷ ws) = go_on (λ me'. receive me' ws) (all_arrived ws) (poll_receive me w)

  -- What `send` writes, where the stream takes it, for the bytes of a packet.
  abbrev pub send_all : (P → List ℕ) → List P → List ℕ
  send_all into_bytes [] = []
  send_all into_bytes (p ∷ ps) = into_bytes p ++ send_all into_bytes ps

  -- As many packets as are asked for, one after the other, of what has arrived.
  unfoldable pub receive_all : ℕ → (now : ℕ) → PlainPacketStream → Arrivals → List P
  receive_all zero now me cs = []
  receive_all (suc n) now me cs =
      elim (poll_receive me (record { now = now; later = now; arrived = cs })) [
        | waits me' ↦ []
        | panicked ↦ []
        | ready me' rest r ↦
            let more = receive_all n now me' rest in elim r [ err e ↦ [] | ok p ↦ p ∷ more ]
      ]
