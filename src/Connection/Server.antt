-- ===== src/Connection/Server.antt =====
-- lafere/src/server.rs: the connection of a server. No result is a panic.
use lafere.Base.{ℕ, Bool, true, false, Option, none, some, Result, if◌then◌else◌}
use lafere.Handler.{RequestError, Request}
use lafere.Watch
use lafere.Watch.{Shared}
use lafere.Connection.{Sent}
use lafere.Connection as Ends

pub record Connection (Cfg : Type 0) : Type 0 where
  pub sender_enabled : Bool
  pub has_receiver : Bool
  pub config : Shared Cfg

abbrev pub enabled_by : {P : Type 0} → Option (Request P) → Bool → Bool
enabled_by (some Request.enable_requests) b = true
enabled_by r b = b

module _ {Cfg : Type 0} where
  unfoldable pub new_raw : Shared Cfg → Connection Cfg
  new_raw config = record { sender_enabled = false; has_receiver = true; config = config }

  -- `Configurator::update`
  unfoldable pub update_config : Cfg → Connection Cfg → Connection Cfg
  update_config cfg me = record me { config = Watch.send Cfg cfg me.config }

  unfoldable pub configurator : Connection Cfg → Connection Cfg
  configurator me = record me { config = Watch.clone_sender Cfg me.config }

  -- Whether the receiver was there.
  unfoldable pub take_receiver : Connection Cfg → Bool × Connection Cfg
  take_receiver me = (me.has_receiver, record me { has_receiver = false })

  -- `given` is what the receiver gives, none where the handler is gone.
  unfoldable pub receive :
      {P : Type 0}
      → (given : Option (Request P)) → Connection Cfg
      → Option (Option (Request P) × Connection Cfg)
  receive given me =
      if me.has_receiver
      then some (given, record me { sender_enabled = enabled_by given me.sender_enabled })
      else none

  unfoldable pub is_server_requests_enabled : Connection Cfg → Bool
  is_server_requests_enabled me = me.sender_enabled

  -- `assert!(self.sender_enabled)` comes before each use of the sender.
  unfoldable pub if_enabled : {X : Type 0} → Connection Cfg → X → Option X
  if_enabled me x = if me.sender_enabled then some x else none

  unfoldable pub clone_sender : Connection Cfg → Option (Unit {0})
  unfolding if_enabled
  clone_sender me = if_enabled me tt

  unfoldable pub request :
      {P : Type 0}
      → (taken : Bool) (chan : ℕ) (answer : Option (Result RequestError P)) → P
      → Connection Cfg
      → Option (Sent P P)
  unfolding if_enabled
  request taken chan answer packet me = if_enabled me (Ends.request taken chan answer packet)

  unfoldable pub request_sender :
      {P : Type 0} → (taken : Bool) (chan : ℕ) → P → Connection Cfg → Option (Sent P ℕ)
  unfolding if_enabled
  request_sender taken chan packet me = if_enabled me (Ends.request_sender taken chan packet)

  unfoldable pub request_receiver :
      {P : Type 0} → (taken : Bool) (chan : ℕ) → P → Connection Cfg → Option (Sent P ℕ)
  unfolding if_enabled
  request_receiver taken chan packet me = if_enabled me (Ends.request_receiver taken chan packet)
