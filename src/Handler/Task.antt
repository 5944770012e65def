-- ===== src/Handler/Task.antt =====
-- lafere/src/handler/handler.rs: `bg_stream`, the loop that drives a handler over one stream, and
-- `bg_stream_reconnect`. Which branch of `select!` a turn takes, and what the stream does, is up
-- to the surroundings.
pub mod Safety
pub mod Closing
pub mod Reconnecting
use lafere.Base.{
  ℕ, ◌/◌, ◌≤◌, ◌-◌, ◌≡◌, Bool, true, false, Option, none, some, List, [], ◌∷◌, ◌++◌, if◌then◌else◌,
  leb, Result, ok, err,
}
use lafere.Packet.{Packet, PacketError}
use lafere.Packet.Receiver.{PacketReceiverError, io, hard, soft}
use lafere.Handler.{
  Handler, TaskError, packet_error, Channels, InternalRequest, SendBack, Event, Done, ping_packet,
  send,
}
use lafere.Handler.Ids.{can_send_requests}
use lafere.Handler.Outgoing.{
  Poll, Started, sent, out_of_ids, panicked, request_to_send, users_to_send, on_packet_error, close,
  close_all_started,
}

-- The seconds between two pings, for a timeout in seconds.
unfoldable pub ping_interval : ℕ → ℕ
ping_interval timeout =
    if leb timeout 1 then timeout else if leb timeout 10 then timeout - 1 else timeout - 5

module _ (P : Type 0) where
  -- `sent` are the packets that the stream took, in order.
  pub record Task : Type 0 where
    pub handler : Handler
    pub should_close : Bool
    pub close_packet : Option P
    pub sent : List P

  pub data Outcome : Type 0 where
    running : Task → Outcome
    ended : Task → Result TaskError (Unit {0}) → Outcome
    panics : Outcome

module _ {P : Type 0} (T : Packet P) where
  unfoldable pub new_task : Handler → Task P
  new_task h = record { handler = h; should_close = false; close_packet = none; sent = [] }

  -- `stream.send(packet).await.map_err(TaskError::Io)?`
  unfoldable pub write : Bool → Task P → P → Outcome P
  write taken t p =
      if taken then running (record t { sent = t.sent ++ (p ∷ []) }) else ended t (err TaskError.io)

  unfoldable pub start_close : Task P → Bool → Task P
  start_close t with_packet =
      let (h, events, p) = close T t.handler in
      record t {
        handler = h;
        should_close = true;
        close_packet = if with_packet then some p else t.close_packet;
      }

  unfoldable pub send_back : Bool → Task P → SendBack P → Outcome P
  unfolding start_close
  send_back taken t SendBack.nothing = running t
  send_back taken t (SendBack.packet p) = write taken t p
  send_back taken t SendBack.close = running (start_close t false)
  send_back taken t SendBack.close_with_packet = running (start_close t true)

  unfoldable pub handled : Bool → Task P → Done P → Outcome P
  handled taken t (h, events, err e) = ended (record t { handler = h }) (err e)
  handled taken t (h, events, ok back) = send_back taken (record t { handler = h }) back

  -- `stream.receive()` is ready. A header is its flags and its id; `chan` is the channel that the
  -- handler creates, if it creates one.
  unfoldable pub on_received :
      Channels → ℕ → Bool → Task P → Result (PacketReceiverError (ℕ × ℕ)) P → Outcome P
  on_received env chan taken t (ok p) = handled taken t (send T env chan t.handler p)
  on_received env chan taken t (err io) = ended t (err TaskError.io)
  on_received env chan taken t (err (hard e)) = ended t (err (packet_error e))
  on_received env chan taken t (err (soft (flags, id) e)) =
      handled taken t (on_packet_error T t.handler flags id e)

  -- The `else` branch. An error of `stream.send` is logged.
  unfoldable pub finish_task : Bool → Task P → Outcome P
  finish_task taken t = elim t.close_packet [
    | none ↦ ended t (ok tt)
    | some p ↦
        let t' = record t { close_packet = none } in
        ended (if taken then record t' { sent = t.sent ++ (p ∷ []) } else t') (ok tt)
  ]

  -- A request of the user. Where no id is left `to_send` gives nothing, so that its branch is off:
  -- when closing no other is on.
  unfoldable pub on_request : Bool → Task P → Started T → Outcome P
  on_request taken t (sent h p) = write taken (record t { handler = h }) p
  on_request taken t (out_of_ids h) =
      let t' = record t { handler = h } in
      if t.should_close then finish_task taken t' else running t'
  on_request taken t panicked = panics

  -- One turn of the loop. The last one is for a user who has no request left. A branch with
  -- `if !should_close` is off once the task closes.
  pub data Turn (t : Task P) : Outcome P → Type 0 where
    receives :
        (env : Channels) (chan : ℕ) (taken : Bool) (r : Result (PacketReceiverError (ℕ × ℕ)) P)
        → t.should_close ≡ false
        → Turn t (on_received env chan taken t r)
    answers :
        (poll : ℕ → Poll P) (taken : Bool) (h : Handler) (p : P)
        → users_to_send T poll t.handler ≡ some (h, p)
        → Turn t (write taken (record t { handler = h }) p)
    requests :
        (taken : Bool) (req : InternalRequest P)
        → can_send_requests t.handler.state ≡ true
        → Turn t (on_request taken t (request_to_send T t.handler req))
    pings : (taken : Bool) → t.should_close ≡ false → Turn t (write taken t (ping_packet T))
    closes : t.should_close ≡ false → Turn t (running (start_close t true))
    configures : t.should_close ≡ false → Turn t (running t)
    finishes :
        (taken : Bool)
        → t.should_close ≡ true
        → t.handler.waiting_on_user ≡ []
        → Turn t (finish_task taken t)

  -- `bg_stream`: any number of turns, and at least one.
  pub data Run : Task P → Outcome P → Type 0 where
    stops : {t : Task P} {o : Outcome P} → Turn t o → Run t o
    turns : {t u : Task P} {o : Outcome P} → Turn t (running u) → Run u o → Run t o

-- What `bg_stream_reconnect` does when a stream has ended.
pub data Next : Type 0 where
  returns : Result TaskError (Unit {0}) → Next
  reconnects : Handler → Next

-- `recon` says that there is a strategy, `terminated` that the user closed the connection.
unfoldable pub stream_ended :
    {P : Type 0}
    → Packet P
    → (recon terminated : Bool) → Handler
    → Result TaskError (Unit {0})
    → Next
stream_ended T recon terminated h r =
    if recon
    then (if terminated
        then returns (ok tt)
        else elim r [ ok u ↦ returns (ok u) | err e ↦ reconnects (close_all_started T h).0 ])
    else returns r

-- `new_stream` failed.
unfoldable pub stream_failed : (recon : Bool) → Handler → TaskError → Next
stream_failed recon h e = if recon then reconnects h else returns (err e)

module _ {P : Type 0} (T : Packet P) where
  -- `bg_stream_reconnect`: the handlers with which a next stream is set up.
  pub data Streams (recon : Bool) : Handler → Handler → Type 0 where
    first : {h : Handler} → Streams recon h h
    retried :
        {h i j : Handler}
        → Streams recon h i
        → (e : TaskError) → stream_failed recon i e ≡ reconnects j
        → Streams recon h j
    renewed :
        {h i j : Handler} {t : Task P} {r : Result TaskError (Unit {0})}
        → Streams recon h i
        → Run T (new_task T i) (ended t r)
        → (terminated : Bool) → stream_ended T recon terminated t.handler r ≡ reconnects j
        → Streams recon h j
