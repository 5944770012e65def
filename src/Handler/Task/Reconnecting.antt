-- ===== src/Handler/Task/Reconnecting.antt =====
-- lafere/src/handler/handler.rs: the streams that `bg_stream_reconnect` runs, one after another.
use lafere.Base.{◌≡◌, Bool, []}
use lafere.Packet.{Packet}
use lafere.Handler
use lafere.Handler.{Handler}
use lafere.Handler.Fresh.{IsFresh}
use lafere.Handler.Task.{Streams, first, retried, renewed, Next, returns, reconnects}
use lafere.Handler.Task.Safety.{Honest}

module _ {P : Type 0} (T : Packet P) where
  -- In every stream what is received is honest, and no answer of the user is awaited when a stream
  -- ends.
  abbrev pub Idle : {recon : Bool} {h i : Handler} → Streams T recon h i → Type 0
  Idle first = Unit
  Idle (retried before e again) = Idle before
  Idle (renewed {t} before run terminated again) =
      Idle before × Honest T run × (t.handler.waiting_on_user ≡ [])

  abbrev FreshNext : Next → Type 0
  FreshNext (returns r) = Unit
  FreshNext (reconnects h) = IsFresh h
