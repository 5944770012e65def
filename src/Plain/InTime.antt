-- ===== src/Plain/InTime.antt =====
-- lafere/src/plain/mod.rs: a packet that is polled for in time.
use mathlib.Core.Path.{subst}
use mathlib.Core.List.{append-nil}
use lafere.Base.{
  ℕ, ◌+◌, ◌<◌, ◌≡◌, refl, sym, ap, ◌∙◌, arith, Bool, true, false, Option, none, some, List, [], ◌∷◌,
  ltb,
}
use lafere.Timeout.{Sleeps, TimeoutReader, poll_timeout, poll_read}
use lafere.Timeout
use lafere.Packet.Receiver.{Arrivals, Format, Receiver, Progress, waits, panicked, ready, Received}
use lafere.Packet.Receiver
use lafere.Packet.Receiver.Abort.{resumed, receive_resumes}
use lafere.Plain.{
  Wake, all_arrived, weight, PlainPacketStream, plain, new, Outcome, read_from, polled,
  poll_receive, go_on, receive,
}

-- The time since which nothing has arrived, after a poll.
abbrev pub silent_since : Option ℕ → ℕ → Arrivals → ℕ
silent_since none now cs = now
silent_since (some since) now [] = since
silent_since (some since) now (c ∷ cs) = now

-- Each poll looks at its timer before the timeout has passed since then.
abbrev pub InTime : ℕ → Option ℕ → List Wake → Type 0
InTime timeout since [] = Unit
InTime timeout since (w ∷ ws) =
    let start = silent_since since w.now w.arrived in
    (w.later < start + timeout) × InTime timeout (some start) ws

module _ (Y : Sleeps) where
  abbrev Silent : Option ℕ → TimeoutReader Y → Type 0
  Silent none t = t.active ≡ false
  Silent (some since) t = (t.active ≡ true) × (Y.deadline t.timer ≡ since + t.timeout)

  -- The timer goes on.
  abbrev GoesOn : ℕ → ℕ → Bool × TimeoutReader Y → Type 0
  GoesOn timeout since r = (r.0 ≡ false) × (r.1.timeout ≡ timeout) × Silent (some since) r.1

  started :
      (now later : ℕ) (t : TimeoutReader Y)
      → t.active ≡ false
      → later < now + t.timeout
      → GoesOn t.timeout now (poll_timeout Y now later t)
  unfolding poll_timeout
  started now later t off before =
      let s = Y.reset (now + t.timeout) t.timer in
      let reset : Y.deadline s ≡ now + t.timeout = Y.deadline-reset (now + t.timeout) t.timer in
      rw off (
        Y.poll_lem later s ∙ ground (arith, reset, before),
        refl,
        (refl, Y.deadline-poll later s ∙ reset),
      )

  goes_on :
      (now later since : ℕ) (t : TimeoutReader Y)
      → Silent (some since) t
      → later < since + t.timeout
      → GoesOn t.timeout since (poll_timeout Y now later t)
  unfolding poll_timeout
  goes_on now later since t (on, ends) before = rw on (
    Y.poll_lem later t.timer ∙ ground (arith, ends, before),
    refl,
    (refl, Y.deadline-poll later t.timer ∙ ends),
  )

  polled_in_time :
      (now later : ℕ) (cs : Arrivals) (since : Option ℕ) (t : TimeoutReader Y)
      → Silent since t
      → later < silent_since since now cs + t.timeout
      → GoesOn t.timeout
          (silent_since since now cs)
          (poll_timeout Y now later (read_from Y now (weight cs) 0 t))
  unfolding poll_read
  polled_in_time now later [] none t off before = started now later t off before
  polled_in_time now later [] (some since) t silent before = goes_on now later since t silent before
  polled_in_time now later (c ∷ cs) none t off before =
      let some_ : ltb 0 (weight (c ∷ cs)) ≡ true = ground arith in
      rw some_ (started now later (record t { active = false }) refl before)
  polled_in_time now later (c ∷ cs) (some since) t silent before =
      let some_ : ltb 0 (weight (c ∷ cs)) ≡ true = ground arith in
      rw some_ (started now later (record t { active = false }) refl before)

  module _ {H P : Type 0} (F : Format H P) where
    -- What comes of the packet, the timer left out.
    abbrev pub seen : Outcome Y F → Received (plain Y F) P
    seen (waits me) = waits me.builder
    seen panicked = panicked
    seen (ready me rest r) = ready me.builder rest r

    -- A builder that waits, and a timer that goes on.
    abbrev Waits : ℕ → ℕ → Outcome Y F → Type 0
    Waits timeout since (waits me) =
        (Receiver.receive (plain Y F) me.builder [] ≡ waits me.builder)
        × (me.stream.timeout ≡ timeout)
        × Silent (some since) me.stream
    Waits timeout since panicked = Unit
    Waits timeout since (ready me rest r) = Unit

    in_time :
        (now later : ℕ) (cs : Arrivals) (since : Option ℕ) (me : PlainPacketStream Y F)
        (x : Received (plain Y F) P)
        → Receiver.receive (plain Y F) me.builder cs ≡ x
        → Silent since me.stream
        → later < silent_since since now cs + me.stream.timeout
        → let w : Wake = record { now = now; later = later; arrived = cs } in
          (seen (polled Y F me w x) ≡ x)
          × Waits me.stream.timeout (silent_since since now cs) (polled Y F me w x)
    in_time now later cs since me (waits b) e silent before =
        let (off, same, on) = polled_in_time now later cs since me.stream silent before in
        let again : Receiver.receive (plain Y F) b [] ≡ waits b =
          sym (ap (λ r. resumed (plain Y F) r []) e)
          ∙ sym (receive_resumes (plain Y F) me.builder cs [])
          ∙ ap (Receiver.receive (plain Y F) me.builder) (append-nil cs)
          ∙ e in
        rw off (refl, (again, same, on))
    in_time now later cs since me panicked e silent before = (refl, tt)
    in_time now later cs since me (ready b rest r) e silent before = (refl, tt)

    then_polled :
        (k : PlainPacketStream Y F → Outcome Y F) (ds : Arrivals) (y : Outcome Y F)
        → ((me : PlainPacketStream Y F)
            → y ≡ waits me
            → seen (k me) ≡ Receiver.receive (plain Y F) me.builder ds)
        → seen (go_on Y F k ds y) ≡ resumed (plain Y F) (seen y) ds
    then_polled k ds (waits me) h = h me refl
    then_polled k ds panicked h = refl
    then_polled k ds (ready me rest r) h = refl

    receive_polled :
        (ws : List Wake) (since : Option ℕ) (me : PlainPacketStream Y F)
        → Receiver.receive (plain Y F) me.builder [] ≡ waits me.builder
        → Silent since me.stream
        → InTime me.stream.timeout since ws
        → seen (receive Y F me ws) ≡ Receiver.receive (plain Y F) me.builder (all_arrived ws)
    unfolding receive poll_receive
    receive_polled [] since me again silent times = sym again
    receive_polled (w ∷ ws) since me again silent (before, times) =
        let x = Receiver.receive (plain Y F) me.builder w.arrived in
        let start = silent_since since w.now w.arrived in
        let (same, next) = in_time w.now w.later w.arrived since me x refl silent before in
        then_polled (λ me'. receive Y F me' ws) (all_arrived ws) (poll_receive Y F me w)
          (λ me' e.
            let (again', kept, silent') = subst (Waits me.stream.timeout start) e next in
            receive_polled ws (some start) me' again' silent'
              (subst (λ t. InTime t (some start) ws) (sym kept) times))
        ∙ ap (λ r. resumed (plain Y F) r (all_arrived ws)) same
        ∙ sym (receive_resumes (plain Y F) me.builder w.arrived (all_arrived ws))

    -- What a new plain stream receives, however often its future is polled, or dropped and made
    -- anew, is what its packet receiver makes of all that arrives by then, errors included, as
    -- long as each poll looks at its timer before the timeout has passed since the last poll at
    -- which something arrived, or since the first poll.
    pub receive-InTime :
        (now timeout body_limit : ℕ) (ws : List Wake)
        → InTime timeout none ws
        → seen (receive Y F (new Y F now timeout body_limit) ws)
          ≡ Receiver.receive (plain Y F) (Receiver.new body_limit) (all_arrived ws)
    unfolding new Timeout.new Receiver.new Receiver.receive Receiver.read_header Receiver.fill
    receive-InTime now timeout body_limit ws times =
        receive_polled ws none (new Y F now timeout body_limit) refl refl times
