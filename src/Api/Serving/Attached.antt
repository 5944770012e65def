-- ===== src/Api/Serving/Attached.antt =====
-- lafere-api/src/client.rs: `Client::attach_request_handlers`. No result is a panic.
use lafere.Base.{
  ◌≡◌, refl, Bool, true, false, Option, none, some, List, [], ◌∷◌, Result, ok, err, if◌then◌else◌,
}
use lafere.Handler.{RequestError}
use lafere.Watch.{Shared}
use lafere.Connection as Ends
use lafere.Connection.{Sent}
use lafere.Connection.Client.{
  Connection, new_raw, configurator, enable_server_requests, is_server_requests_enabled,
  take_receiver,
}

abbrev pub Attaching : Type 0 → Type 0
Attaching Cfg = Option (Result RequestError (Unit {0}) × Connection Cfg)

module _ {Cfg : Type 0} where
  -- `self.inner.take_receiver().unwrap()`, with which the handlers are started.
  abbrev pub unwrapped : Option (Bool × Connection Cfg) → Attaching Cfg
  unwrapped none = none
  unwrapped (some (false, me)) = none
  unwrapped (some (true, me)) = some (ok tt, me)

  -- The session gets a configurator.
  unfoldable pub start_handlers : Connection Cfg → Attaching Cfg
  start_handlers me = unwrapped (take_receiver (configurator me))

  abbrev pub once_enabled : {P : Type 0} → Sent P (Unit {0}) × Connection Cfg → Attaching Cfg
  once_enabled ((err e, sent), me) = some (err e, me)
  once_enabled ((ok u, sent), me) = start_handlers me

  -- `P` is the type of the messages.
  unfoldable pub attach_request_handlers :
      (P : Type 0) (taken : Bool) → Connection Cfg → Attaching Cfg
  attach_request_handlers P taken me =
      if is_server_requests_enabled me
      then start_handlers me
      else once_enabled {P = P} (enable_server_requests taken me)

  abbrev pub and_then :
      Attaching Cfg → (Connection Cfg → Option (Connection Cfg)) → Option (Connection Cfg)
  and_then none f = none
  and_then (some (r, me)) f = f me

  -- One call after the other.
  abbrev pub attach_all : Type 0 → List Bool → Connection Cfg → Option (Connection Cfg)
  attach_all P [] me = some me
  attach_all P (taken ∷ rest) me = and_then (attach_request_handlers P taken me) (attach_all P rest)

-- Whether a call comes after the first one that the handler took.
abbrev pub comes_after : List Bool → Bool
comes_after [] = false
comes_after (false ∷ rest) = comes_after rest
comes_after (true ∷ []) = false
comes_after (true ∷ (b ∷ rest)) = true

module _ {Cfg : Type 0} (P : Type 0) where
  abbrev pub panics : Option (Connection Cfg) → Bool
  panics none = true
  panics (some me) = false

  -- Of calls of `attach_request_handlers` on a new client, in the order of a list that says of
  -- each whether the handler of the connection takes what is sent, one panics exactly where it
  -- comes after a call that was taken.
  pub attach_all_lem :
      (calls : List Bool) (config : Shared Cfg)
      → panics (attach_all P calls (new_raw config)) ≡ comes_after calls
  unfolding attach_request_handlers start_handlers is_server_requests_enabled take_receiver
      configurator enable_server_requests Ends.enable_server_requests Ends.hand_over new_raw
  attach_all_lem [] config = refl
  attach_all_lem (false ∷ rest) config = attach_all_lem rest config
  attach_all_lem (true ∷ []) config = refl
  attach_all_lem (true ∷ (b ∷ rest)) config = refl
