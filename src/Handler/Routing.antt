-- ===== src/Handler/Routing.antt =====
-- lafere/src/handler/handler.rs: which entries a packet of the other side concerns.
use lafere.Base.{
  ℕ, ◌≡◌, refl, ◌∙◌, ◌≢◌, arith, none, some, List, [], ◌∷◌, Bool-cases, inl, inr, Option-cases,
  Result, ok, err,
}
use lafere.Packet.{Packet}
use lafere.Packet.Flags.{Kind, kind-new}
use lafere.Packet.Flags
use lafere.Handler.Table.{lookup, insert, remove, lookup-insert, lookup-remove}
use lafere.Handler.Ids.{can_receive_requests, enable_server_requests}
use lafere.Handler.{
  Handler, Channels, Request, UserResponse, StreamResponse, respond, Done, SendBack, unknown_id,
  RequestError, no_response, malformed_request, answer, await_user, await_stream, deliver,
  stream_packet, enable, if_can_receive, send_kind, send,
}

-- The kinds that answer a request, and what the requestor gets of each.
abbrev pub IsAnswer : Kind → Type 0
IsAnswer Kind.response = Unit
IsAnswer Kind.no_response = Unit
IsAnswer Kind.malformed_request = Unit
IsAnswer _ = ⊥

abbrev pub answer_of : {P : Type 0} → Kind → P → Result RequestError P
answer_of Kind.no_response p = err no_response
answer_of Kind.malformed_request p = err malformed_request
answer_of _ p = ok p

lookup-insert_other :
    {V : Type 0} (k j : ℕ) (v : V) (m : List (ℕ × V)) → j ≢ k → lookup j (insert k v m) ≡ lookup j m
lookup-insert_other k j v m h = ground (arith, lookup-insert k j v m)

lookup-remove_other :
    {V : Type 0} (k j : ℕ) (m : List (ℕ × V)) → j ≢ k → lookup j (remove k m) ≡ lookup j m
lookup-remove_other k j m h = ground (arith, lookup-remove k j m)

lookup-remove_self : {V : Type 0} (k : ℕ) (m : List (ℕ × V)) → lookup k (remove k m) ≡ none
lookup-remove_self k m = ground (arith, lookup-remove k k m)

module _ {P : Type 0} (T : Packet P) where
  abbrev pub kind_of : P → Kind
  kind_of p = Flags.kind (T.flags p)

  -- The handler after an answer: the request is no longer waited on.
  abbrev pub answered : Handler → ℕ → Handler
  answered h id = record h { waiting_on_stream = remove id h.waiting_on_stream }

  send_answer :
      (env : Channels) (chan : ℕ) (h : Handler) (k : Kind) (p : P)
      → IsAnswer k
      → send_kind T env chan h k p ≡ answer T h (T.id p) (answer_of k p)
  unfolding send_kind
  send_answer env chan h Kind.response p a = refl
  send_answer env chan h Kind.no_response p a = refl
  send_answer env chan h Kind.malformed_request p a = refl
  send_answer env chan h _ p a = absurd a

  answer_found :
      (h : Handler) (id tx : ℕ) (r : Result RequestError P)
      → lookup id h.waiting_on_stream ≡ some (StreamResponse.request tx)
      → answer T h id r ≡ (answered h id, respond tx r ∷ [], ok SendBack.nothing)
  unfolding answer
  answer_found h id tx r e = rw (e, answer)

  answer_missing :
      (h : Handler) (id : ℕ) (r : Result RequestError P)
      → lookup id h.waiting_on_stream ≡ none
      → (answer T h id r).2 ≡ err (unknown_id id)
  unfolding answer
  answer_missing h id r e = rw (e, answer)

  -- An answer (a response, a no-response or a malformed-request packet) to a request that is
  -- waited on goes to the channel of that request and to no other, and the request is then no
  -- longer waited on: a second answer with the same id, of any of these kinds, ends with the error
  -- `unknown_id`.
  pub answer_once :
      (env env' : Channels) (chan chan' : ℕ) (h : Handler) (p q : P) (tx : ℕ)
      → IsAnswer (kind_of p)
      → lookup (T.id p) h.waiting_on_stream ≡ some (StreamResponse.request tx)
      → IsAnswer (kind_of q)
      → T.id q ≡ T.id p
      → (send T env chan h p
          ≡ (answered h (T.id p), respond tx (answer_of (kind_of p) p) ∷ [], ok SendBack.nothing))
        × ((send T env' chan' (send T env chan h p).0 q).2 ≡ err (unknown_id (T.id p)))
  unfolding send
  answer_once env env' chan chan' h p q tx ap_ e aq same =
      let first = send_answer env chan h (kind_of p) p ap_ ∙ answer_found h (T.id p) tx _ e in
      (
        first,
        rw (first, send_answer env' chan' (answered h (T.id p)) (kind_of q) q aq, same)
            (answer_missing (answered h (T.id p)) (T.id p) _
              (lookup-remove_self (T.id p) h.waiting_on_stream)),
      )

  -- The entries under the other ids.
  abbrev pub SameBut : ℕ → Handler → Handler → Type 0
  SameBut id h h' =
      (j : ℕ)
      → j ≢ id
      → (lookup j h'.waiting_on_stream ≡ lookup j h.waiting_on_stream)
        × (lookup j h'.waiting_on_user ≡ lookup j h.waiting_on_user)

  same : (id : ℕ) (h : Handler) → SameBut id h h
  same id h j ne = (refl, refl)

  answered-SameBut : (id : ℕ) (h : Handler) → SameBut id h (answered h id)
  answered-SameBut id h j ne = (lookup-remove_other id j h.waiting_on_stream ne, refl)

  answer-SameBut :
      (h : Handler) (id : ℕ) (r : Result RequestError P) → SameBut id h (answer T h id r).0
  unfolding answer
  answer-SameBut h id r = elim (Option-cases (lookup id h.waiting_on_stream)) [
    | inl e ↦ rw (e, answer) (answered-SameBut id h)
    | inr (StreamResponse.request tx, e) ↦ rw (e, answer) (answered-SameBut id h)
    | inr (StreamResponse.receiver tx, e) ↦ rw (e, answer) (answered-SameBut id h)
  ]

  await_user-SameBut :
      (env : Channels) (h : Handler) (id : ℕ) (r : UserResponse) (req : Request P)
      → SameBut id h (await_user T env h id r req).0
  unfolding await_user deliver
  await_user-SameBut env h id r req = elim (Option-cases (lookup id h.waiting_on_user)) [
    | inl e ↦ rw (e, await_user) (λ j ne. (refl, lookup-insert_other id j r h.waiting_on_user ne))
    | inr (old, e) ↦ rw (e, await_user) (same id h)
  ]

  await_stream-SameBut :
      (env : Channels) (h : Handler) (id : ℕ) (r : StreamResponse) (req : Request P)
      → SameBut id h (await_stream T env h id r req).0
  unfolding await_stream deliver
  await_stream-SameBut env h id r req = elim (Option-cases (lookup id h.waiting_on_stream)) [
    | inl e ↦
        rw (e, await_stream) (λ j ne. (lookup-insert_other id j r h.waiting_on_stream ne, refl))
    | inr (old, e) ↦ rw (e, await_stream) (same id h)
  ]

  stream_packet-SameBut :
      (env : Channels) (h : Handler) (id : ℕ) (p : P) → SameBut id h (stream_packet T env h id p).0
  unfolding stream_packet
  stream_packet-SameBut env h id p = elim (Option-cases (lookup id h.waiting_on_stream)) [
    | inl e ↦ rw (e, stream_packet) (same id h)
    | inr (StreamResponse.request tx, e) ↦ rw (e, stream_packet) (same id h)
    | inr (StreamResponse.receiver tx, e) ↦ rw (e, stream_packet) (same id h)
  ]

  enable-SameBut : (env : Channels) (id : ℕ) (h : Handler) → SameBut id h (enable T env h).0
  unfolding enable deliver
  enable-SameBut env id h = elim (Bool-cases (enable_server_requests h.state).1) [
    | inl new ↦ rw new (λ j ne. (refl, refl))
    | inr old ↦ rw old (λ j ne. (refl, refl))
  ]

  if_can_receive-SameBut :
      (k : Kind) (id : ℕ) (h : Handler) (d : Done P)
      → SameBut id h d.0
      → SameBut id h (if_can_receive T k h d).0
  unfolding if_can_receive
  if_can_receive-SameBut k id h d hd = elim (Bool-cases (can_receive_requests h.state)) [
    | inl can ↦ rw can hd
    | inr cannot ↦ rw cannot (same id h)
  ]

  send_kind-SameBut :
      (env : Channels) (chan : ℕ) (h : Handler) (k : Kind) (p : P)
      → SameBut (T.id p) h (send_kind T env chan h k p).0
  unfolding send_kind
  send_kind-SameBut env chan h Kind.enable_server_requests p = enable-SameBut env (T.id p) h
  send_kind-SameBut env chan h Kind.request p =
      if_can_receive-SameBut Kind.request (T.id p) h _ (await_user-SameBut env h (T.id p) _ _)
  send_kind-SameBut env chan h Kind.request_receiver p =
      if_can_receive-SameBut Kind.request_receiver (T.id p) h _
        (await_user-SameBut env h (T.id p) _ _)
  send_kind-SameBut env chan h Kind.request_sender p =
      if_can_receive-SameBut Kind.request_sender (T.id p) h _
        (await_stream-SameBut env h (T.id p) _ _)
  send_kind-SameBut env chan h Kind.response p = answer-SameBut h (T.id p) _
  send_kind-SameBut env chan h Kind.no_response p = answer-SameBut h (T.id p) _
  send_kind-SameBut env chan h Kind.malformed_request p = answer-SameBut h (T.id p) _
  send_kind-SameBut env chan h Kind.stream p = stream_packet-SameBut env h (T.id p) p
  send_kind-SameBut env chan h Kind.stream_closed p = answered-SameBut (T.id p) h
  send_kind-SameBut env chan h Kind.close p = same (T.id p) h
  send_kind-SameBut env chan h Kind.ping p = same (T.id p) h
  send_kind-SameBut env chan h Kind.unknown p = same (T.id p) h

  send-SameBut :
      (env : Channels) (chan : ℕ) (h : Handler) (p : P) → SameBut (T.id p) h (send T env chan h p).0
  unfolding send
  send-SameBut env chan h p = send_kind-SameBut env chan h (kind_of p) p

  -- A packet of any kind leaves the entries of both tables under all ids but its own as they are.
  pub send_other_ids :
      (env : Channels) (chan : ℕ) (h : Handler) (p : P) (j : ℕ)
      → j ≢ T.id p
      → let h' = (send T env chan h p).0 in
        (lookup j h'.waiting_on_stream ≡ lookup j h.waiting_on_stream)
        × (lookup j h'.waiting_on_user ≡ lookup j h.waiting_on_user)
  send_other_ids env chan h p j other = send-SameBut env chan h p j other
