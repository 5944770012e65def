-- ===== src/Connection/Allowed.antt =====
-- lafere/src/server.rs with the handler of the connection: the user can only make requests that the
-- handler can send.
use lafere.Base.{ℕ, ◌≡◌, refl, arith, true, Option, none, some, All, Option-cases, inl, inr}
use mathlib.Core.Option.{none-ne-some}
use lafere.Packet.{Packet, PacketError}
use lafere.Packet.Flags.{Kind}
use lafere.Packet.Flags
use lafere.Handler.{
  Handler, Channels, Request, InternalRequest, Event, to_user, Done, deliver, await_user,
  await_stream, answer, stream_packet, close_response, close_user, if_can_receive, enable,
  send_kind, send,
}
use lafere.Handler.Outgoing.{
  Poll, Started, sent, out_of_ids, panicked, users_to_send, request_to_send, start, on_packet_error,
  packet_error_kind, answer_error,
}
use lafere.Handler.Ids.{HandlerState, can_send_requests, next_id, enable_server_requests}

module _ {P : Type 0} (T : Packet P) where
  abbrev pub CanSend : Handler → Type 0
  CanSend h = can_send_requests h.state ≡ true

  -- What the user is told holds of the handler.
  abbrev pub IsTold : Handler → Request P → Type 0
  IsTold h Request.enable_requests = CanSend h
  IsTold h r = Unit

  abbrev pub IsTrue : Handler → Event P → Type 0
  IsTrue h (to_user r) = IsTold h r
  IsTrue h e = Unit

  -- A call of the handler keeps what it can send, and tells only what holds.
  abbrev pub Keeps : Handler → Done P → Type 0
  Keeps h (h', events, r) = (CanSend h → CanSend h') × All (IsTrue h') events

  pub enabled-CanSend : (s : HandlerState) → can_send_requests (enable_server_requests s).0 ≡ true
  unfolding can_send_requests enable_server_requests
  enabled-CanSend HandlerState.uni_server = refl
  enabled-CanSend (HandlerState.uni_client none) = refl
  enabled-CanSend (HandlerState.uni_client (some id)) = ground arith
  enabled-CanSend (HandlerState.bi_server c) = refl
  enabled-CanSend (HandlerState.bi_client c) = refl

  send_kind-Keeps :
      (env : Channels) (chan : ℕ) (h : Handler) (k : Kind) (p : P)
      → Keeps h (send_kind T env chan h k p)
  unfolding send_kind deliver await_user await_stream answer stream_packet close_response close_user
      if_can_receive enable
  send_kind-Keeps env chan h Kind.enable_server_requests p = ground (arith, enabled-CanSend h.state)
  send_kind-Keeps env chan h Kind.request p = ground arith
  send_kind-Keeps env chan h Kind.request_receiver p = ground arith
  send_kind-Keeps env chan h Kind.request_sender p = ground arith
  send_kind-Keeps env chan h Kind.response p = ground arith
  send_kind-Keeps env chan h Kind.no_response p = ground arith
  send_kind-Keeps env chan h Kind.malformed_request p = ground arith
  send_kind-Keeps env chan h Kind.stream p = ground arith
  send_kind-Keeps env chan h Kind.stream_closed p = ground arith
  send_kind-Keeps env chan h Kind.close p = (λ c. c, tt)
  send_kind-Keeps env chan h Kind.ping p = (λ c. c, tt)
  send_kind-Keeps env chan h Kind.unknown p = (λ c. c, tt)

  pub send-Keeps : (env : Channels) (chan : ℕ) (h : Handler) (p : P) → Keeps h (send T env chan h p)
  unfolding send
  send-Keeps env chan h p = send_kind-Keeps env chan h (Flags.kind (T.flags p)) p

  pub next_id-CanSend :
      (s s' : HandlerState) (id : Option ℕ)
      → next_id s ≡ some (id, s')
      → can_send_requests s' ≡ true
  unfolding next_id can_send_requests
  next_id-CanSend HandlerState.uni_server s' id e = absurd (none-ne-some _ e)
  next_id-CanSend (HandlerState.uni_client c) s' id e = cc
  next_id-CanSend (HandlerState.bi_server c) s' id e = cc
  next_id-CanSend (HandlerState.bi_client c) s' id e = cc

  answer_error-same :
      (h : Handler) (id : ℕ) (e : PacketError) → (answer_error T h id e).0.state ≡ h.state
  unfolding answer_error
  answer_error-same h id e = ground arith

  packet_error_kind-same :
      (h : Handler) (k : Kind) (id : ℕ) (e : PacketError)
      → (packet_error_kind T h k id e).0.state ≡ h.state
  unfolding packet_error_kind
  packet_error_kind-same h Kind.response id e = answer_error-same h id e
  packet_error_kind-same h Kind.request id e = refl
  packet_error_kind-same h _ id e = refl

  pub on_packet_error-same :
      (h : Handler) (flags id : ℕ) (e : PacketError)
      → (on_packet_error T h flags id e).0.state ≡ h.state
  unfolding on_packet_error
  on_packet_error-same h flags id e = packet_error_kind-same h (Flags.kind flags) id e

  pub users_to_send-same :
      (poll : ℕ → Poll P) (h h' : Handler) (p : P)
      → users_to_send T poll h ≡ some (h', p)
      → h'.state ≡ h.state
  unfolding users_to_send
  users_to_send-same poll h h' p e = ground arith

  -- What a request of the user comes to.
  abbrev pub StartedCanSend : Started T → Type 0
  StartedCanSend (sent h p) = CanSend h
  StartedCanSend (out_of_ids h) = CanSend h
  StartedCanSend panicked = Unit

  start-CanSend :
      (h : Handler) (id : ℕ) (req : InternalRequest P)
      → CanSend h
      → StartedCanSend (start T h id req)
  unfolding start
  start-CanSend h id InternalRequest.enable_requests c = enabled-CanSend h.state
  start-CanSend h id (InternalRequest.request q tx) c = ground arith
  start-CanSend h id (InternalRequest.request_sender q rx) c = ground arith
  start-CanSend h id (InternalRequest.request_receiver q tx) c = ground arith

  pub request_to_send-CanSend :
      (h : Handler) (req : InternalRequest P) → StartedCanSend (request_to_send T h req)
  unfolding request_to_send
  request_to_send-CanSend h req = elim (Option-cases (next_id h.state)) [
    | inl e ↦ rw (e, request_to_send) tt
    | inr ((none, state), e) ↦ rw (e, request_to_send) (next_id-CanSend h.state state none e)
    | inr ((some id, state), e) ↦
        rw (e, request_to_send)
          (start-CanSend (record h { state = state }) id req
            (next_id-CanSend h.state state (some id) e))
  ]
