-- ===== src/Connection.antt =====
-- lafere/src/handler/sender.rs and receiver.rs, the user's ends of a connection's handler. Whether the
-- handler still takes requests, and what it answers, is up to the surroundings.
pub mod Server
pub mod Client
pub mod Allowed
pub mod System
use lafere.Base.{ℕ, Bool, Option, none, some, List, [], ◌∷◌, Result, ok, err, if◌then◌else◌}
use lafere.Handler.{RequestError, connection_already_closed, task_failed, Request, InternalRequest}

-- The result of a call, and what it handed to the handler.
abbrev pub Sent : Type 0 → Type 0 → Type 0
Sent P X = Result RequestError X × List (InternalRequest P)

module _ {P : Type 0} where
  -- `self.inner.send(req).await.map_err(..)?`
  unfoldable pub hand_over :
      {X : Type 0} → Bool → InternalRequest P → Result RequestError X → Sent P X
  hand_over taken req then_ =
      if taken then (then_, req ∷ []) else (err connection_already_closed, [])

  unfoldable pub enable_server_requests : Bool → Sent P (Unit {0})
  unfolding hand_over
  enable_server_requests taken = hand_over taken InternalRequest.enable_requests (ok tt)

  -- `rx.await`: none where the handler drops the other end.
  abbrev pub awaited : Option (Result RequestError P) → Result RequestError P
  awaited none = err task_failed
  awaited (some r) = r

  unfoldable pub request :
      (taken : Bool) (chan : ℕ) (answer : Option (Result RequestError P)) → P → Sent P P
  unfolding hand_over
  request taken chan answer packet =
      hand_over taken (InternalRequest.request packet chan) (awaited answer)

  -- The user's end of the new channel.
  unfoldable pub request_sender : (taken : Bool) (chan : ℕ) → P → Sent P ℕ
  unfolding hand_over
  request_sender taken chan packet =
      hand_over taken (InternalRequest.request_sender packet chan) (ok chan)

  unfoldable pub request_receiver : (taken : Bool) (chan : ℕ) → P → Sent P ℕ
  unfolding hand_over
  request_receiver taken chan packet =
      hand_over taken (InternalRequest.request_receiver packet chan) (ok chan)
