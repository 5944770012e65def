-- ===== src/Connection/System/Rights.antt =====
-- lafere/src/server.rs: what the user asks for can be sent.
use lafere.Base.{
  ◌≡◌, refl, ap, sym, ◌∙◌, arith, Bool, true, false, none, some, List, [], ◌∷◌, ◌++◌, All,
  All-append, Bool-cases, inl, inr,
}
use mathlib.Core.Path.{subst}
use mathlib.Core.Option.{none-ne-some}
use lafere.Packet.{Packet}
use lafere.Handler.{
  Handler, Request, InternalRequest, Event, to_user, respond, stream_item, close_receiver, send,
}
use lafere.Handler.Ids.{can_send_requests}
use lafere.Handler.Outgoing.{close}
use lafere.Watch.{Shared}
use lafere.Connection.Server.{
  Connection, new_raw, receive, take_receiver, update_config, clone_sender, request, request_sender,
  request_receiver, if_enabled, enabled_by,
}
use lafere.Connection.Allowed.{
  CanSend, IsTold, IsTrue, send-Keeps, on_packet_error-same, users_to_send-same, StartedCanSend,
  request_to_send-CanSend,
}
use lafere.Connection.System.{HandedOver, System, told, new, all_handed, asked_of, Step, Reached}

module _ {P : Type 0} (T : Packet P) where
  All-told :
      (h : Handler) (events : List (Event P))
      → All (IsTrue T h) events
      → All (IsTold T h) (told events)
  All-told h [] k = tt
  All-told h (to_user r ∷ events) k = (k.0, All-told h events k.1)
  All-told h (respond c r ∷ events) k = All-told h events k.1
  All-told h (stream_item c p ∷ events) k = All-told h events k.1
  All-told h (close_receiver c ∷ events) k = All-told h events k.1

  IsTold-mono :
      (h h' : Handler) (r : Request P) → (CanSend T h → CanSend T h') → IsTold T h r → IsTold T h' r
  IsTold-mono h h' Request.enable_requests f k = f k
  IsTold-mono h h' (Request.request p tx) f k = tt
  IsTold-mono h h' (Request.request_sender p tx) f k = tt
  IsTold-mono h h' (Request.request_receiver p tx) f k = tt

  All-mono :
      (h h' : Handler) (rs : List (Request P))
      → (CanSend T h → CanSend T h')
      → All (IsTold T h) rs
      → All (IsTold T h') rs
  All-mono h h' [] f k = tt
  All-mono h h' (r ∷ rs) f k = (IsTold-mono h h' r f k.0, All-mono h h' rs f k.1)

  -- What the connection, or a sender that it checked, handed over.
  abbrev pub Handed : Handler → List (HandedOver P) → Type 0
  Handed h rs = All (λ req. req.unchecked ≡ false → CanSend T h) rs

  Handed-mono :
      (h h' : Handler) (rs : List (HandedOver P))
      → (CanSend T h → CanSend T h')
      → Handed h rs
      → Handed h' rs
  Handed-mono h h' [] f k = tt
  Handed-mono h h' (r ∷ rs) f k = (λ e. f (k.0 e), Handed-mono h h' rs f k.1)

  all_can : (h : Handler) (rs : List (HandedOver P)) → CanSend T h → Handed h rs
  all_can h [] c = tt
  all_can h (r ∷ rs) c = (λ e. c, all_can h rs c)

  unchecked-Handed :
      (h : Handler) (reqs : List (InternalRequest P)) → Handed h (all_handed true reqs)
  unchecked-Handed h [] = tt
  unchecked-Handed h (r ∷ rs) = (λ e. absurd (ground (arith, e)), unchecked-Handed h rs)

  enabled-CanSend :
      (h : Handler) (r : Request P) (b : Bool)
      → IsTold T h r
      → (b ≡ true → CanSend T h)
      → enabled_by (some r) b ≡ true
      → CanSend T h
  enabled-CanSend h Request.enable_requests b k f e = k
  enabled-CanSend h (Request.request p tx) b k f e = f e
  enabled-CanSend h (Request.request_sender p tx) b k f e = f e
  enabled-CanSend h (Request.request_receiver p tx) b k f e = f e

module _ {P Cfg : Type 0} (T : Packet P) where
  -- The connection may ask, and has asked, only for what its handler can send.
  pub record IsAllowed (s : System P Cfg) : Type 0 where
    pub asks : s.connection.sender_enabled ≡ true → CanSend T s.handler
    pub hears : All (IsTold T s.handler) s.waiting
    pub asked : Handed T s.handler s.handed
    pub clone_asks : s.cloned ≡ true → CanSend T s.handler

  -- A handler that can send no less.
  moves :
      (s : System P Cfg) (h : Handler)
      → (CanSend T s.handler → CanSend T h)
      → IsAllowed s
      → IsAllowed (record s { handler = h })
  moves s h f a = record {
    asks = λ e. f (a.asks e);
    hears = All-mono T s.handler h s.waiting f a.hears;
    asked = Handed-mono T s.handler h s.handed f a.asked;
    clone_asks = λ e. f (a.clone_asks e);
  }

  taken_off :
      (s : System P Cfg) (req : HandedOver P) (rest : List (HandedOver P)) (h : Handler)
      → s.handed ≡ req ∷ rest
      → CanSend T h
      → IsAllowed s
      → IsAllowed (record s { handler = h; handed = rest })
  taken_off s req rest h e c a = record {
    asks = λ _. c;
    hears = All-mono T s.handler h s.waiting (λ _. c) a.hears;
    asked = all_can T h rest c;
    clone_asks = λ _. c;
  }

  if_enabled_off :
      {X : Type 0} (c : Connection Cfg) (x : X) → c.sender_enabled ≡ false → if_enabled c x ≡ none
  unfolding if_enabled
  if_enabled_off c x off = rw off refl

  heard :
      (r : Request P) (c d : Connection Cfg)
      → receive (some r) c ≡ some (some r, d)
      → d.sender_enabled ≡ enabled_by (some r) c.sender_enabled
  unfolding receive
  heard r c d e = ground arith

  hears_next :
      (s : System P Cfg) (r : Request P) (rest : List (Request P)) (c : Connection Cfg)
      → s.waiting ≡ r ∷ rest
      → receive (some r) s.connection ≡ some (some r, c)
      → IsAllowed s
      → IsAllowed (record s { waiting = rest; connection = c })
  hears_next s r rest c e f a =
      let told_ : All (IsTold T s.handler) (r ∷ rest) =
        subst (All (IsTold T s.handler)) e a.hears in
      record {
        asks = λ on.
            enabled-CanSend T s.handler r s.connection.sender_enabled told_.0 a.asks
              (sym (heard r s.connection c f) ∙ on);
        hears = told_.1;
        asked = a.asked;
        clone_asks = a.clone_asks;
      }

  was_enabled :
      {X : Type 0} (c : Connection Cfg) (x out : X)
      → if_enabled c x ≡ some out
      → c.sender_enabled ≡ true
  unfolding if_enabled
  was_enabled c x out e = elim (Bool-cases c.sender_enabled) [
    | inl on ↦ on
    | inr off ↦ absurd (none-ne-some out (sym (if_enabled_off c x off) ∙ e))
  ]

  asks_more :
      (s : System P Cfg) (more : List (HandedOver P))
      → CanSend T s.handler
      → IsAllowed s
      → IsAllowed (record s { handed = s.handed ++ more })
  asks_more s more e a = record {
    asks = a.asks;
    hears = a.hears;
    asked = all_can T s.handler (s.handed ++ more) e;
    clone_asks = a.clone_asks;
  }

  step-IsAllowed : (s t : System P Cfg) → Step T s t → IsAllowed s → IsAllowed t
  unfolding request request_sender request_receiver clone_sender take_receiver update_config close
  step-IsAllowed s _ (Step.arrives env chan p) a =
      let (keeps, tells) = send-Keeps T env chan s.handler p in
      let h : Handler = (send T env chan s.handler p).0 in
      record {
        asks = λ e. keeps (a.asks e);
        hears =
            All-append (IsTold T h) s.waiting _ (All-mono T s.handler h s.waiting keeps a.hears)
              (All-told T h (send T env chan s.handler p).1 tells);
        asked = Handed-mono T s.handler h s.handed keeps a.asked;
        clone_asks = λ e. keeps (a.clone_asks e);
      }
  step-IsAllowed s _ (Step.breaks flags id e) a =
      moves s _ (λ c. ap can_send_requests (on_packet_error-same T s.handler flags id e) ∙ c) a
  step-IsAllowed s _ (Step.answers poll h p e) a =
      moves s h (λ c. ap can_send_requests (users_to_send-same T poll s.handler h p e) ∙ c) a
  step-IsAllowed s _ (Step.sends req rest h p e c f) a =
      taken_off s req rest h e
        (subst (StartedCanSend T) f (request_to_send-CanSend T s.handler req.asks)) a
  step-IsAllowed s _ (Step.runs_out req rest h e c f) a =
      taken_off s req rest h e
        (subst (StartedCanSend T) f (request_to_send-CanSend T s.handler req.asks)) a
  step-IsAllowed s _ Step.closes a = moves s _ (λ c. c) a
  step-IsAllowed s _ (Step.hears r rest c e f) a = hears_next s r rest c e f a
  step-IsAllowed s _ Step.takes a = record {
    asks = a.asks;
    hears = a.hears;
    asked = a.asked;
    clone_asks = a.clone_asks;
  }
  step-IsAllowed s _ (Step.hears_apart r rest off e) a =
      let told_ : All (IsTold T s.handler) (r ∷ rest) =
        subst (All (IsTold T s.handler)) e a.hears in
      record { asks = a.asks; hears = told_.1; asked = a.asked; clone_asks = a.clone_asks }
  step-IsAllowed s _ (Step.configures cfg) a = record {
    asks = a.asks;
    hears = a.hears;
    asked = a.asked;
    clone_asks = a.clone_asks;
  }
  step-IsAllowed s _ (Step.requests taken chan answer p r e) a =
      asks_more s (all_handed false r.1) (a.asks (was_enabled s.connection _ r e)) a
  step-IsAllowed s _ (Step.request_senders taken chan p r e) a =
      asks_more s (all_handed false r.1) (a.asks (was_enabled s.connection _ r e)) a
  step-IsAllowed s _ (Step.request_receivers taken chan p r e) a =
      asks_more s (all_handed false r.1) (a.asks (was_enabled s.connection _ r e)) a
  step-IsAllowed s _ (Step.clones e) a = record {
    asks = a.asks;
    hears = a.hears;
    asked = a.asked;
    clone_asks = λ _. a.asks (was_enabled s.connection _ tt e);
  }
  step-IsAllowed s _ (Step.clone_asks taken call e) a =
      asks_more s (all_handed false (asked_of taken call)) (a.clone_asks e) a
  step-IsAllowed s _ (Step.unchecked_asks taken call) a = record {
    asks = a.asks;
    hears = a.hears;
    asked =
        All-append (λ req. req.unchecked ≡ false → CanSend T s.handler) s.handed _ a.asked
          (unchecked-Handed T s.handler (asked_of taken call));
    clone_asks = a.clone_asks;
  }

  -- Whatever reaches a new connection of a server, packets that can be read or not, answers and
  -- requests that are sent, and calls of its user, through the connection or through senders that
  -- were cloned with or without the check: its handler can send requests whenever the connection
  -- lets its user make one or clone a sender, once the user has a sender of `clone_sender`,
  -- whenever the user has yet to hear that the client allows it, and as long as a request is not
  -- taken that was made in any way but through a sender of `clone_sender_unchecked`.
  pub reached-IsAllowed :
      (config : Shared Cfg) (s : System P Cfg) → Reached T config s → IsAllowed s
  unfolding new new_raw
  reached-IsAllowed config _ Reached.starts = record {
    asks = λ e. cc;
    hears = tt;
    asked = tt;
    clone_asks = λ e. cc;
  }
  reached-IsAllowed config t (Reached.steps {s} r step) =
      step-IsAllowed s t step (reached-IsAllowed config s r)
