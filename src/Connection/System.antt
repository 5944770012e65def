-- ===== src/Connection/System.antt =====
-- lafere/src/server.rs: a server's connection with its handler and its user.
pub mod Rights
use lafere.Base.{ℕ, ◌≡◌, Bool, true, false, Option, none, some, List, [], ◌∷◌, ◌++◌, Result}
use lafere.Packet.{Packet, PacketError}
use lafere.Handler.{Handler, Channels, Request, InternalRequest, RequestError, Event, to_user, send}
use lafere.Handler
use lafere.Handler.Ids.{can_send_requests}
use lafere.Handler.Outgoing.{
  Poll, sent, out_of_ids, users_to_send, request_to_send, on_packet_error, close,
}
use lafere.Watch.{Shared}
use lafere.Connection.{Sent}
use lafere.Connection as Ends
use lafere.Connection.Server.{
  Connection, new_raw, receive, take_receiver, update_config, clone_sender, request, request_sender,
  request_receiver,
}

-- A request that the handler did not take yet, and whether a `clone_sender_unchecked` made it.
pub record HandedOver (P : Type 0) : Type 0 where
  pub asks : InternalRequest P
  pub unchecked : Bool

-- `waiting` is what the receiver has not given yet, `handed` what the senders took and the handler
-- did not, both in order. `cloned` says that the user has a sender of `clone_sender`.
pub record System (P Cfg : Type 0) : Type 0 where
  pub handler : Handler
  pub waiting : List (Request P)
  pub connection : Connection Cfg
  pub handed : List (HandedOver P)
  pub cloned : Bool

abbrev pub told : {P : Type 0} → List (Event P) → List (Request P)
told [] = []
told (to_user r ∷ events) = r ∷ told events
told (_ ∷ events) = told events

unfoldable pub new : {P Cfg : Type 0} → Shared Cfg → System P Cfg
new config = record {
  handler = Handler.new true;
  waiting = [];
  connection = new_raw config;
  handed = [];
  cloned = false;
}

abbrev pub all_handed : {P : Type 0} → Bool → List (InternalRequest P) → List (HandedOver P)
all_handed unchecked [] = []
all_handed unchecked (req ∷ reqs) =
    record { asks = req; unchecked = unchecked } ∷ all_handed unchecked reqs

-- A call of a `Sender` that the user has.
pub data Asked (P : Type 0) : Type 0 where
  for_response : (chan : ℕ) (answer : Option (Result RequestError P)) → P → Asked P
  for_sender for_receiver : (chan : ℕ) → P → Asked P

unfoldable pub asked_of : {P : Type 0} → (taken : Bool) → Asked P → List (InternalRequest P)
asked_of taken (for_response chan answer p) = (Ends.request taken chan answer p).1
asked_of taken (for_sender chan p) = (Ends.request_sender taken chan p).1
asked_of taken (for_receiver chan p) = (Ends.request_receiver taken chan p).1

module _ {P Cfg : Type 0} (T : Packet P) where
  -- What can happen: packets that arrive, whole or not, answers and requests that are sent, and calls
  -- of the user, through its connection or senders it cloned, with and without the check.
  pub data Step (s : System P Cfg) : System P Cfg → Type 0 where
    arrives :
        (env : Channels) (chan : ℕ) (p : P)
        → Step s (record s {
          handler = (send T env chan s.handler p).0;
          waiting = s.waiting ++ told (send T env chan s.handler p).1;
        })
    breaks :
        (flags id : ℕ) (e : PacketError)
        → Step s (record s { handler = (on_packet_error T s.handler flags id e).0 })
    answers :
        (poll : ℕ → Poll P) (h : Handler) (p : P)
        → users_to_send T poll s.handler ≡ some (h, p)
        → Step s (record s { handler = h })
    sends :
        (req : HandedOver P) (rest : List (HandedOver P)) (h : Handler) (p : P)
        → s.handed ≡ req ∷ rest
        → can_send_requests s.handler.state ≡ true
        → request_to_send T s.handler req.asks ≡ sent h p
        → Step s (record s { handler = h; handed = rest })
    runs_out :
        (req : HandedOver P) (rest : List (HandedOver P)) (h : Handler)
        → s.handed ≡ req ∷ rest
        → can_send_requests s.handler.state ≡ true
        → request_to_send T s.handler req.asks ≡ out_of_ids h
        → Step s (record s { handler = h; handed = rest })
    closes : Step s (record s { handler = (close T s.handler).0 })
    hears :
        (r : Request P) (rest : List (Request P)) (c : Connection Cfg)
        → s.waiting ≡ r ∷ rest
        → receive (some r) s.connection ≡ some (some r, c)
        → Step s (record s { waiting = rest; connection = c })
    takes : Step s (record s { connection = (take_receiver s.connection).1 })
    -- From the receiver that the user took.
    hears_apart :
        (r : Request P) (rest : List (Request P))
        → s.connection.has_receiver ≡ false
        → s.waiting ≡ r ∷ rest
        → Step s (record s { waiting = rest })
    configures : (cfg : Cfg) → Step s (record s { connection = update_config cfg s.connection })
    requests :
        (taken : Bool) (chan : ℕ) (answer : Option (Result RequestError P)) (p : P) (r : Sent P P)
        → request taken chan answer p s.connection ≡ some r
        → Step s (record s { handed = s.handed ++ all_handed false r.1 })
    request_senders :
        (taken : Bool) (chan : ℕ) (p : P) (r : Sent P ℕ)
        → request_sender taken chan p s.connection ≡ some r
        → Step s (record s { handed = s.handed ++ all_handed false r.1 })
    request_receivers :
        (taken : Bool) (chan : ℕ) (p : P) (r : Sent P ℕ)
        → request_receiver taken chan p s.connection ≡ some r
        → Step s (record s { handed = s.handed ++ all_handed false r.1 })
    clones : clone_sender s.connection ≡ some tt → Step s (record s { cloned = true })
    clone_asks :
        (taken : Bool) (call : Asked P)
        → s.cloned ≡ true
        → Step s (record s { handed = s.handed ++ all_handed false (asked_of taken call) })
    unchecked_asks :
        (taken : Bool) (call : Asked P)
        → Step s (record s { handed = s.handed ++ all_handed true (asked_of taken call) })

  -- What is reached from a new connection.
  pub data Reached (config : Shared Cfg) : System P Cfg → Type 0 where
    starts : Reached config (new config)
    steps : {s t : System P Cfg} → Reached config s → Step s t → Reached config t
