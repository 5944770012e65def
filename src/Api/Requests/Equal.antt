-- ===== src/Api/Requests/Equal.antt =====
-- lafere-api: a request of the server's own, and the same request over a connection.
use lafere.Base.{ℕ, ◌≡◌, refl, ap, ◌∙◌, Bool, Option, none, some, Result, ok, err}
use mathlib.Core.Option.{none-ne-some}
use lafere.Packet.Flags.{Kind}
use lafere.Handler.{RequestError, no_response}
use lafere.Handler.Outgoing.{labelled}
use lafere.Api.Message.{set_action, Message, message_packet, action_of, is_success}
use lafere.Api.Requests.{
  MessageError, RequestHandler, RequestHandlers, Reaction, dropped, answered, react, dispatch,
  get_handler, on_request, Request, with_action, prepared, received, send_message, serve,
  response_of, request, answered_here, handled_here, server_request,
}

-- The handlers of both sides set the kind and the id of a message.
abbrev pub as_request : {A : Type 0} → ℕ → Message A → Message A
as_request id msg = labelled message_packet Kind.request id msg

abbrev pub as_response : {A : Type 0} → ℕ → Message A → Message A
as_response id msg = labelled message_packet Kind.response id msg

-- An answer is a response, and a channel that is dropped a no-response.
abbrev pub reaction_seen : {A : Type 0} → ℕ → Reaction A → Result RequestError (Message A)
reaction_seen id dropped = err no_response
reaction_seen id (answered msg) = ok (as_response id msg)

abbrev pub seen : {A S : Type 0} → ℕ → S × Reaction A → S × Result RequestError (Message A)
seen id (session, reaction) = (session, reaction_seen id reaction)

-- A request of the `Sender` to a connection with these handlers.
abbrev pub over_connection :
    {A S V : Type 0}
    → (A → A → Bool)
    → RequestHandlers A S V
    → ℕ
    → Message A
    → S
    → S × Result RequestError (Message A)
over_connection same me id msg session = seen id (on_request same me (as_request id msg) session)

-- What is there of an option.
abbrev or_this : {X : Type 0} → X → Option X → X
or_this x none = x
or_this x (some y) = y

out_of :
    {S X : Type 0} (s s' : S) (y x : X)
    → ◌≡◌ {A = S × Option X} (s, some y) (s', some x)
    → ◌≡◌ {A = S × X} (s, y) (s', x)
out_of {S} {X} s s' y x e = ap (λ (p : S × Option X). (p.0, or_this x p.1)) e

no_panic : {S X : Type 0} (s s' : S) (x : X) → ◌≡◌ {A = S × Option X} (s, none) (s', some x) → ⊥
no_panic {S} {X} s s' x e = none-ne-some x (ap (λ (p : S × Option X). p.1) e)

module _ {A S V R Resp E : Type 0} (Req : Request A R Resp E) (same : A → A → Bool)
    (me : RequestHandlers A S V) (id : ℕ)
    (handler_blind : (h : RequestHandler A S V) (m : Message A) (s : S)
      → get_handler same Req.action me.requests ≡ some h
      → h.handle (as_request id m) me.inner_data s ≡ h.handle m me.inner_data s)
    (response_blind : (m : Message A) → Req.response_from (as_response id m) ≡ Req.response_from m)
    (error_blind : (m : Message A) → Req.error_from (as_response id m) ≡ Req.error_from m) where
  response_of-as_response : (m : Message A) → response_of Req (as_response id m) ≡ response_of Req m
  unfolding response_of labelled is_success
  response_of-as_response m = rw (response_blind m, error_blind m) refl

  answered_lem :
      (res : S × Option (Result MessageError (Message A))) (session' : S) (x : Result E Resp)
      → answered_here Req res ≡ (session', some x)
      → received Req (seen id (react Req.action res)) ≡ (session', x)
  answered_lem (s, none) session' x e = absurd (no_panic s session' x e)
  answered_lem (s, some (err bad)) session' x e = out_of s session' _ x e
  answered_lem (s, some (ok msg)) session' x e =
      ap (λ res. (s, res)) (response_of-as_response (with_action Req msg)) ∙ out_of s session' _ x e

  handled_lem :
      (msg : Message A) (session session' : S) (x : Result E Resp)
      (o : Option (RequestHandler A S V))
      → get_handler same Req.action me.requests ≡ o
      → handled_here Req same me session msg o ≡ (session', some x)
      → received Req (seen id (dispatch same me (as_request id msg) session Req.action o))
        ≡ (session', x)
  handled_lem msg session session' x none found e = out_of session session' _ x e
  handled_lem msg session session' x (some h) found e =
      ap (λ res. received Req (seen id (react Req.action res))) (handler_blind h msg session found)
      ∙ answered_lem (h.handle msg me.inner_data session) session' x e

  serve_lem :
      (m : Result MessageError (Message A)) (session session' : S) (x : Result E Resp)
      → serve Req same me session (prepared Req m) ≡ (session', some x)
      → send_message Req (over_connection same me id) session (prepared Req m) ≡ (session', x)
  unfolding on_request action_of labelled set_action
  serve_lem (err bad) session session' x e = out_of session session' _ x e
  serve_lem (ok msg) session session' x e =
      handled_lem (with_action Req msg) session session' x _ refl e

  -- What `BuiltServer::request` comes to without a panic of the handler, the session included, is
  -- what the same request of a requestor comes to that is sent to a connection with the same
  -- handlers: for handlers and decoders of responses that do not read the kind and the id of a
  -- message. In particular a missing handler and a handler that fails come to a no-response on
  -- both ways.
  pub request-server_request :
      (r : R) (session session' : S) (x : Result E Resp)
      → server_request Req same me r session ≡ (session', some x)
      → request Req (over_connection same me id) r session ≡ (session', x)
  unfolding request server_request
  request-server_request r session session' x e =
      serve_lem (Req.into_message r) session session' x e
