-- ===== src/Handler/Exchange.antt =====
-- lafere/src/handler/handler.rs: a request and its response, through the handlers of both sides.
use lafere.Base.{
  ℕ, ◌≡◌, refl, sym, ap, ◌∙◌, arith, true, none, some, List, [], ◌∷◌, ◌==◌, if◌then◌else◌, inl, inr,
  Option-cases, ok, err,
}
use mathlib.Core.Path.{subst}
use lafere.Packet.{Packet}
use lafere.Packet.Flags.{Kind, kind-new}
use lafere.Packet.Flags
use lafere.Handler.Table.{lookup, insert, remove, lookup-insert, lookup-remove}
use lafere.Handler.Ids.{can_receive_requests}
use lafere.Handler.Alloc.{panics, out, gives, split_on_id}
use lafere.Handler.{
  Handler, Channels, Request, InternalRequest, UserResponse, StreamResponse, respond, to_user,
  SendBack, no_response, send_kind, send, await_user, deliver, if_can_receive,
}
use lafere.Handler.Routing.{kind_of, IsAnswer, answered, answer_once}
use lafere.Handler.Outgoing.{
  Poll, pending, closed, ready, labelled, poll_user, poll_users, users_to_send, remove_done,
  Started, sent, out_of_ids, panicked, start, with_stream, request_to_send,
}

pub ==_self : (n : ℕ) → (n == n) ≡ true
==_self n = ground arith

module _ {P : Type 0} (T : Packet P) where
  pub kind_labelled : (k : Kind) (id : ℕ) (p : P) → kind_of T (labelled T k id p) ≡ k
  unfolding labelled
  kind_labelled k id p =
      ap Flags.kind (T.flags_set_id id _ ∙ T.flags_set_flags (Flags.new k) p) ∙ kind-new k

  pub id_labelled : (k : Kind) (id : ℕ) (p : P) → T.id (labelled T k id p) ≡ id
  unfolding labelled
  id_labelled k id p = T.id_set_id id _

  -- The packet is a request, and the client's handler waits for its answer on `tx`.
  abbrev pub Asked : ℕ → Handler → P → Type 0
  Asked tx h p =
      (kind_of T p ≡ Kind.request)
      × (lookup (T.id p) h.waiting_on_stream ≡ some (StreamResponse.request tx))

  abbrev AskedAfter : ℕ → Started T → Type 0
  AskedAfter tx (sent h p) = Asked tx h p
  AskedAfter tx (out_of_ids h) = Unit
  AskedAfter tx panicked = Unit

  with_stream-AskedAfter :
      (h : Handler) (id tx : ℕ) (q : P)
      → AskedAfter tx
          (with_stream T h id (StreamResponse.request tx) (labelled T Kind.request id q))
  with_stream-AskedAfter h id tx q = elim (Option-cases (lookup id h.waiting_on_stream)) [
    | inl e ↦
        rw (e, with_stream)
          (
            kind_labelled Kind.request id q,
            ap (λ (t : ℕ). lookup t (insert id (StreamResponse.request tx) h.waiting_on_stream))
                  (id_labelled Kind.request id q)
                ∙ ground
                    (arith, lookup-insert id id (StreamResponse.request tx) h.waiting_on_stream),
          )
    | inr (old, e) ↦ rw (e, with_stream) tt
  ]

  request-AskedAfter :
      (h : Handler) (tx : ℕ) (q : P)
      → AskedAfter tx (request_to_send T h (InternalRequest.request q tx))
  unfolding request_to_send start
  request-AskedAfter h tx q = elim (split_on_id h.state) [
    | panics e ↦ rw (e, request_to_send) tt
    | out s' e ↦ rw (e, request_to_send) tt
    | gives id s' e ↦
        rw (e, request_to_send) (with_stream-AskedAfter (record h { state = s' }) id tx q)
  ]

  request-Asked :
      (h h' : Handler) (tx : ℕ) (q p : P)
      → request_to_send T h (InternalRequest.request q tx) ≡ sent h' p
      → Asked tx h' p
  request-Asked h h' tx q p e = subst (AskedAfter tx) e (request-AskedAfter h tx q)

  -- The server's handler, waiting for the user's answer on `chan`.
  abbrev pub admitted : Handler → ℕ → ℕ → Handler
  admitted s id chan = record s {
    waiting_on_user = insert id (UserResponse.request chan) s.waiting_on_user;
  }

  await_user_free :
      (env : Channels) (s : Handler) (id : ℕ) (r : UserResponse) (req : Request P)
      → lookup id s.waiting_on_user ≡ none
      → env.requests_open ≡ true
      → await_user T env s id r req ≡ (
        record s { waiting_on_user = insert id r s.waiting_on_user },
        to_user req ∷ [],
        ok SendBack.nothing,
      )
  unfolding await_user deliver
  await_user_free env s id r req free open_ = rw (free, await_user) (rw open_)

  pub admit :
      (env : Channels) (chan : ℕ) (s : Handler) (p : P)
      → kind_of T p ≡ Kind.request
      → can_receive_requests s.state ≡ true
      → lookup (T.id p) s.waiting_on_user ≡ none
      → env.requests_open ≡ true
      → send T env chan s p
        ≡ (admitted s (T.id p) chan, to_user (Request.request p chan) ∷ [], ok SendBack.nothing)
  unfolding send send_kind if_can_receive
  admit env chan s p k can free open_ = rw (k, can) (await_user_free env s (T.id p) _ _ free open_)

  -- Only `chan` has something to give.
  abbrev pub only : ℕ → P → ℕ → Poll P
  only chan a c = if c == chan then ready a else pending

  first_ready :
      (poll : ℕ → Poll P) (chan id : ℕ) (a : P) (users : List (ℕ × UserResponse))
      → poll chan ≡ ready a
      → poll_users T poll ((id, UserResponse.request chan) ∷ users)
        ≡ some (labelled T Kind.response id a, some id)
  unfolding poll_users poll_user
  first_ready poll chan id a users e = rw (e, poll_users, poll_user)

  -- The server's handler once the answer is sent.
  abbrev pub done_with : Handler → ℕ → Handler
  done_with s id = record s { waiting_on_user = remove id s.waiting_on_user }

  pub answer_sent :
      (chan : ℕ) (s : Handler) (id : ℕ) (a : P)
      → users_to_send T (only chan a) (admitted s id chan)
        ≡ some (done_with (admitted s id chan) id, labelled T Kind.response id a)
  unfolding users_to_send remove_done insert
  answer_sent chan s id a =
      let first =
        first_ready (only chan a) chan id a (remove id s.waiting_on_user) (rw (==_self chan)) in
      rw (first, users_to_send)

  -- Where the user drops the channel.
  pub refusal_sent :
      (poll : ℕ → Poll P) (chan : ℕ) (s : Handler) (id : ℕ)
      → poll chan ≡ closed
      → users_to_send T poll (admitted s id chan)
        ≡ some (done_with (admitted s id chan) id, labelled T Kind.no_response id T.empty)
  unfolding users_to_send remove_done insert poll_users poll_user
  refusal_sent poll chan s id e =
      let first : poll_users T poll ((id, UserResponse.request chan) ∷ remove id s.waiting_on_user)
          ≡ some (labelled T Kind.no_response id T.empty, some id) =
        rw (e, poll_users, poll_user) refl in
      rw (first, users_to_send) refl

  pub refusal_received :
      (env : Channels) (chan tx id : ℕ) (c : Handler) (a : P)
      → lookup id c.waiting_on_stream ≡ some (StreamResponse.request tx)
      → send T env chan c (labelled T Kind.no_response id a)
        ≡ (answered T c id, respond tx (err no_response) ∷ [], ok SendBack.nothing)
  refusal_received env chan tx id c a waits =
      let r = labelled T Kind.no_response id a in
      let is_refusal = kind_labelled Kind.no_response id a in
      let same_id = id_labelled Kind.no_response id a in
      let is_answer : IsAnswer (kind_of T r) = subst IsAnswer (sym is_refusal) tt in
      let once =
        answer_once T env env chan chan c r r tx is_answer (rw same_id waits) is_answer refl in
      rw (same_id, is_refusal) at once.0

  pub response_received :
      (env : Channels) (chan tx id : ℕ) (c : Handler) (a : P)
      → lookup id c.waiting_on_stream ≡ some (StreamResponse.request tx)
      → send T env chan c (labelled T Kind.response id a) ≡ (
        answered T c id,
        respond tx (ok (labelled T Kind.response id a)) ∷ [],
        ok SendBack.nothing,
      )
  response_received env chan tx id c a waits =
      let r = labelled T Kind.response id a in
      let is_response = kind_labelled Kind.response id a in
      let same_id = id_labelled Kind.response id a in
      let is_answer : IsAnswer (kind_of T r) = subst IsAnswer (sym is_response) tt in
      let once =
        answer_once T env env chan chan c r r tx is_answer (rw same_id waits) is_answer refl in
      rw (same_id, is_response) at once.0

  -- A request and its answer, across the handlers of both sides: when the client's handler turns a
  -- user's request into the packet `p`, and the server can receive requests, does not hold the id
  -- of `p` for its user yet, and its user still listens, then the server hands `p` to its user,
  -- turns the user's answer, when only that channel has something to send, into a packet, and
  -- forgets the id; and that packet makes the client hand exactly it to the channel of the
  -- request, and to no other, and forget the request.
  pub request_response :
      (c c' s : Handler) (q p a : P) (tx chan chan' : ℕ) (env env' : Channels)
      → request_to_send T c (InternalRequest.request q tx) ≡ sent c' p
      → can_receive_requests s.state ≡ true
      → lookup (T.id p) s.waiting_on_user ≡ none
      → env.requests_open ≡ true
      → let s' = (send T env chan s p).0 in
        (s'' : Handler) × (r : P) × ((send T env chan s p).1
          ≡ to_user (Request.request p chan) ∷ [])
        × (users_to_send T (only chan a) s' ≡ some (s'', r))
        × (lookup (T.id p) s''.waiting_on_user ≡ none)
        × (send T env' chan' c' r
            ≡ (answered T c' (T.id p), respond tx (ok r) ∷ [], ok SendBack.nothing))
  request_response c c' s q p a tx chan chan' env env' e can free open_ =
      let (k, waits) = request-Asked c c' tx q p e in
      let taken = admit env chan s p k can free open_ in
      (
        done_with (admitted s (T.id p) chan) (T.id p),
        labelled T Kind.response (T.id p) a,
        rw taken,
        rw taken (answer_sent chan s (T.id p) a),
        ground (arith, lookup-remove (T.id p) (T.id p) (admitted s (T.id p) chan).waiting_on_user),
        response_received env' chan' tx (T.id p) c' a waits,
      )
