-- ===== src/Api/EndToEnd.antt =====
-- lafere-api over lafere: a request of a client, through the handlers of both connections and the
-- handlers of the server's requests.
use lafere.Base.{
  ℕ, ◌≡◌, refl, ap, ◌∙◌, arith, Bool, true, Option, none, some, List, [], ◌∷◌, ◌==◌, if◌then◌else◌,
  Result, ok, err,
}
use lafere.Packet.Flags.{Kind}
use lafere.Handler.{
  Handler, Channels, Request, InternalRequest, StreamResponse, RequestError, task_failed, Event,
  to_user, respond, send,
}
use lafere.Handler.Table.{lookup, insert, lookup-insert}
use lafere.Handler.Ids.{HandlerState, next_id, can_receive_requests}
use lafere.Handler.Outgoing.{
  Poll, pending, closed, ready, labelled, users_to_send, Started, sent, out_of_ids, panicked, start,
  with_stream, request_to_send,
}
use lafere.Handler.Exchange.{
  kind_labelled, admitted, admit, ==_self, refusal_sent, refusal_received, answer_sent,
  response_received,
}
use lafere.Api.Message.{Message, message_packet}
use lafere.Api.Requests.{
  RequestHandlers, Reaction, dropped, on_request, prepared, send_message, received, server_request,
  RequestHandler, get_handler,
}
use lafere.Api.Requests
use lafere.Api.Requests.Equal.{
  as_request, as_response, reaction_seen, over_connection, request-server_request,
}

-- A channel for the response once it is reacted to.
abbrev pub poll_of : {A : Type 0} → Reaction A → Poll (Message A)
poll_of dropped = closed
poll_of (Reaction.answered msg) = ready msg

abbrev pub polled : {A : Type 0} → ℕ → Reaction A → ℕ → Poll (Message A)
polled resp reaction chan = if chan == resp then poll_of reaction else pending

-- The request that the user is given, with its channel.
abbrev pub given : {A : Type 0} → List (Event (Message A)) → Option (Message A × ℕ)
given [] = none
given (to_user (Request.request msg resp) ∷ events) = some (msg, resp)
given (_ ∷ events) = given events

-- What a channel for a response gets; nothing is its end.
abbrev pub delivered : {A : Type 0} → ℕ → List (Event (Message A)) → Result RequestError (Message A)
delivered tx [] = err task_failed
delivered tx (respond chan r ∷ events) =
    let rest = delivered tx events in if chan == tx then r else rest
delivered tx (_ ∷ events) = delivered tx events

module _ {A S V : Type 0} (same : A → A → Bool) (me : RequestHandlers A S V) (env env' : Channels)
    (tx chan chan' : ℕ) where
  -- The client's handler takes the packet that the server's sends.
  abbrev pub taken_back : Handler → Option (Handler × Message A) → Result RequestError (Message A)
  taken_back c none = err task_failed
  taken_back c (some (s, r)) = delivered tx (send (message_packet {A = A}) env' chan' c r).1

  -- The server's handlers react, and its handler sends what they gave.
  abbrev pub reacted : Handler → Handler → S × Reaction A → ℕ → S × Result RequestError (Message A)
  reacted c s (session, reaction) resp =
      (session, taken_back c (users_to_send (message_packet {A = A}) (polled resp reaction) s))

  abbrev pub served :
      Handler → Handler → S → Option (Message A × ℕ) → S × Result RequestError (Message A)
  served c s session none = (session, err task_failed)
  served c s session (some (msg, resp)) = reacted c s (on_request same me msg session) resp

  -- The packet of the client, at the server.
  abbrev pub arrived :
      Handler → S → Started (message_packet {A = A}) → S × Result RequestError (Message A)
  arrived s session (sent c p) =
      let d = send (message_packet {A = A}) env chan s p in served c d.0 session (given d.1)
  arrived s session (out_of_ids c) = (session, err task_failed)
  arrived s session panicked = (session, err task_failed)

  -- A request of the client's user, to the end.
  unfoldable pub over_handlers :
      (c s : Handler) → Message A → S → S × Result RequestError (Message A)
  over_handlers c s msg session =
      arrived s session
        (request_to_send (message_packet {A = A}) c (InternalRequest.request msg tx))

  module _ (c s : Handler) (id : ℕ) (state : HandlerState)
      (has_id : next_id c.state ≡ some (some id, state))
      (fresh : lookup id c.waiting_on_stream ≡ none) (can : can_receive_requests s.state ≡ true)
      (free : lookup id s.waiting_on_user ≡ none) (listens : env.requests_open ≡ true) where
    -- The client's handler once it waits.
    abbrev asking : Handler
    asking = record c {
      state = state;
      waiting_on_stream = insert id (StreamResponse.request tx) c.waiting_on_stream;
    }

    sends :
        (msg : Message A)
        → request_to_send (message_packet {A = A}) c (InternalRequest.request msg tx)
          ≡ sent asking (as_request id msg)
    unfolding request_to_send start
    sends msg = rw (has_id, request_to_send) (rw (fresh, with_stream) refl)

    waits : lookup id asking.waiting_on_stream ≡ some (StreamResponse.request tx)
    waits = ground (arith, lookup-insert id id (StreamResponse.request tx) c.waiting_on_stream)

    -- What the client's handler makes of the reaction.
    comes_back :
        (reaction : Reaction A)
        → taken_back asking (
            users_to_send
              (message_packet {A = A})
              (polled chan reaction)
              (admitted (message_packet {A = A}) s id chan))
          ≡ reaction_seen id reaction
    comes_back dropped =
        let off : polled {A = A} chan dropped chan ≡ closed = rw (==_self chan) refl in
        rw
          (
            refusal_sent (message_packet {A = A}) (polled chan dropped) chan s id off,
            refusal_received (message_packet {A = A}) env' chan' tx id asking
                (message_packet {A = A}).empty waits,
            ==_self tx,
          )
          refl
    comes_back (Reaction.answered msg) =
        rw
          (
            answer_sent (message_packet {A = A}) chan s id msg,
            response_received (message_packet {A = A}) env' chan' tx id asking msg waits,
            ==_self tx,
          )
          refl

    carries :
        (msg : Message A) (session : S)
        → over_handlers c s msg session ≡ over_connection same me id msg session
    unfolding over_handlers labelled
    carries msg session =
        let p : Message A = as_request id msg in
        let taken =
          admit (message_packet {A = A}) env chan s p
            (kind_labelled (message_packet {A = A}) Kind.request id msg) can free listens in
        rw (sends msg, taken)
          (ap (λ r. ((on_request same me p session).0, r))
            (comes_back (on_request same me p session).1))

    module _ {R Resp E : Type 0} (Req : Requests.Request A R Resp E)
        (handler_blind : (h : RequestHandler A S V) (m : Message A) (session : S)
          → get_handler same Req.action me.requests ≡ some h
          → h.handle (as_request id m) me.inner_data session ≡ h.handle m me.inner_data session)
        (response_blind : (m : Message A)
          → Req.response_from (as_response id m) ≡ Req.response_from m)
        (error_blind : (m : Message A) → Req.error_from (as_response id m) ≡ Req.error_from m) where
      sent_over :
          (m : Result E (Message A)) (session : S)
          → send_message Req (over_handlers c s) session m
            ≡ send_message Req (over_connection same me id) session m
      sent_over (err e) session = refl
      sent_over (ok msg) session = ap (received Req) (carries msg session)

      -- What `BuiltServer::request` comes to without a panic, the session included, is what the
      -- same request of a client comes to that goes through the client's handler, the server's
      -- handler and its request handlers, and back: where the client's handler has an id to hand
      -- out that it does not wait on, the server can receive requests, does not hold that id for
      -- its user, and its user listens; and for request handlers and decoders of responses that do
      -- not read the kind and the id of a message.
      pub request-over_handlers :
          (r : R) (session session' : S) (x : Result E Resp)
          → server_request Req same me r session ≡ (session', some x)
          → Requests.request Req (over_handlers c s) r session ≡ (session', x)
      unfolding Requests.request
      request-over_handlers r session session' x e =
          sent_over (prepared Req (Req.into_message r)) session
          ∙ request-server_request Req same me id handler_blind response_blind error_blind r session
              session' x e
