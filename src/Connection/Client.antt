-- ===== src/Connection/Client.antt =====
-- lafere/src/client.rs: the connection of a client, and lafere-api/src/client.rs, which attaches handlers
-- for the server's requests to it. No result is a panic.
use lafere.Base.{Bool, true, false, Option, none, some, ok, err, if◌then◌else◌}
use lafere.Handler.{Request}
use lafere.Watch
use lafere.Watch.{Shared}
use lafere.Connection.{Sent}
use lafere.Connection as Ends

pub record Connection (Cfg : Type 0) : Type 0 where
  pub has_receiver : Bool
  pub receiver_enabled : Bool
  pub config : Shared Cfg

module _ {Cfg : Type 0} where
  unfoldable pub new_raw : Shared Cfg → Connection Cfg
  new_raw config = record { has_receiver = true; receiver_enabled = false; config = config }

  unfoldable pub update_config : Cfg → Connection Cfg → Connection Cfg
  update_config cfg me = record me { config = Watch.send Cfg cfg me.config }

  unfoldable pub configurator : Connection Cfg → Connection Cfg
  configurator me = record me { config = Watch.clone_sender Cfg me.config }

  abbrev pub enabled :
      {P : Type 0} → Sent P (Unit {0}) → Connection Cfg → Sent P (Unit {0}) × Connection Cfg
  enabled (err e, sent) me = ((err e, sent), me)
  enabled (ok u, sent) me = ((ok u, sent), record me { receiver_enabled = true })

  unfoldable pub enable_server_requests :
      {P : Type 0} → (taken : Bool) → Connection Cfg → Sent P (Unit {0}) × Connection Cfg
  enable_server_requests taken me = enabled (Ends.enable_server_requests taken) me

  unfoldable pub is_server_requests_enabled : Connection Cfg → Bool
  is_server_requests_enabled me = me.receiver_enabled

  unfoldable pub take_receiver : Connection Cfg → Option (Bool × Connection Cfg)
  take_receiver me =
      if me.receiver_enabled
      then some (me.has_receiver, record me { has_receiver = false })
      else none

  unfoldable pub receive :
      {P : Type 0} → (given : Option (Request P)) → Connection Cfg → Option (Option (Request P))
  receive given me =
      if me.receiver_enabled then (if me.has_receiver then some given else none) else none
