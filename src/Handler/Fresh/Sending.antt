-- ===== src/Handler/Fresh/Sending.antt =====
-- lafere/src/handler/handler.rs: the ids that are still to be handed out, when this side sends.
use lafere.Base.{ℕ, ◌≡◌, arith, true, Option, none, some, inl, inr, Option-cases}
use mathlib.Core.Path.{subst}
use lafere.Packet.{Packet}
use lafere.Handler.Table.{lookup}
use lafere.Handler.Ids.{HandlerState, uni_server, next_id, can_send_requests}
use lafere.Handler.Alloc.{
  Unused, Hands, next_id-Hands, next_id-none, panics, out, gives, split_on_id,
}
use lafere.Handler.{Handler, InternalRequest, UserResponse, StreamResponse}
use lafere.Handler.Outgoing.{
  Started, sent, out_of_ids, panicked, start, with_stream, with_user, request_to_send,
  users_to_send, remove_done, poll_users, Poll,
}
use lafere.Handler.Fresh.{
  insert_stream-IsFresh, insert_user-IsFresh, enabled-IsFresh, Free, IsFresh, lookup-remove_none,
}

module _ {P : Type 0} (T : Packet P) where
  -- The handler after a request of the user, if there is one.
  abbrev pub FreshAfter : Started T → Type 0
  FreshAfter (sent h p) = IsFresh h
  FreshAfter (out_of_ids h) = IsFresh h
  FreshAfter panicked = ⊥

  moved-IsFresh :
      (h : Handler) (id : ℕ) (s' : HandlerState)
      → Hands h.state id s'
      → IsFresh h
      → IsFresh (record h { state = s' })
  moved-IsFresh h id s' (hc, unused, later) f = record {
    counter = hc;
    free = λ j u. f.free j (later j u).0;
  }

  -- The id that is handed out is behind all that are still unused.
  spent : (h : Handler) (id : ℕ) (s' : HandlerState) → Hands h.state id s' → ¬ (Unused s' id)
  spent h id s' (hc, unused, later) u = absurd (omega (arith, (later id u).1))

  with_stream-FreshAfter :
      (h : Handler) (id : ℕ) (r : StreamResponse) (p : P)
      → lookup id h.waiting_on_stream ≡ none
      → ¬ (Unused h.state id)
      → IsFresh h
      → FreshAfter (with_stream T h id r p)
  with_stream-FreshAfter h id r p e other f =
      rw (e, with_stream) (insert_stream-IsFresh T h id r other f)

  with_user-FreshAfter :
      (h : Handler) (id : ℕ) (r : UserResponse) (p : P)
      → lookup id h.waiting_on_user ≡ none
      → ¬ (Unused h.state id)
      → IsFresh h
      → FreshAfter (with_user T h id r p)
  with_user-FreshAfter h id r p e other f = rw (e, with_user) (insert_user-IsFresh T h id r other f)

  start-FreshAfter :
      (h : Handler) (id : ℕ) (req : InternalRequest P)
      → Free id h
      → ¬ (Unused h.state id)
      → IsFresh h
      → FreshAfter (start T h id req)
  unfolding start
  start-FreshAfter h id InternalRequest.enable_requests free other f = enabled-IsFresh T h f
  start-FreshAfter h id (InternalRequest.request p tx) free other f =
      with_stream-FreshAfter h id _ _ free.0 other f
  start-FreshAfter h id (InternalRequest.request_sender p rx) free other f =
      with_user-FreshAfter h id _ _ free.1 other f
  start-FreshAfter h id (InternalRequest.request_receiver p tx) free other f =
      with_stream-FreshAfter h id _ _ free.0 other f

  next_id-panics : (s : HandlerState) → next_id s ≡ none → can_send_requests s ≡ true → ⊥
  unfolding next_id can_send_requests
  next_id-panics uni_server e h = cc
  next_id-panics (HandlerState.uni_client c) e h = cc
  next_id-panics (HandlerState.bi_server c) e h = cc
  next_id-panics (HandlerState.bi_client c) e h = cc

  -- Where this side can send requests and the ids that it may still hand out stand for nothing, a
  -- request of the user panics neither on a duplicate id nor on a side without ids, and in the
  -- state after it the ids that may still be handed out stand for nothing.
  pub request_to_send-FreshAfter :
      (h : Handler) (req : InternalRequest P)
      → can_send_requests h.state ≡ true
      → IsFresh h
      → FreshAfter (request_to_send T h req)
  unfolding request_to_send
  request_to_send-FreshAfter h req can f = elim (split_on_id h.state) [
    | panics e ↦ absurd (next_id-panics h.state e can)
    | out s' e ↦ rw (e, request_to_send) (rw (next_id-none h.state s' e).1 f)
    | gives id s' e ↦
        let hands = next_id-Hands h.state s' id f.counter e in
        rw (e, request_to_send)
          (start-FreshAfter (record h { state = s' }) id req (f.free id hands.1)
            (spent h id s' hands) (moved-IsFresh h id s' hands f))
  ]

  remove_user-IsFresh :
      (h : Handler) (done : Option ℕ)
      → IsFresh h
      → IsFresh (record h { waiting_on_user = remove_done T done h.waiting_on_user })
  unfolding remove_done
  remove_user-IsFresh h none f = f
  remove_user-IsFresh h (some k) f = record {
    counter = f.counter;
    free = λ id u. ((f.free id u).0, lookup-remove_none k id h.waiting_on_user (f.free id u).1);
  }

  -- What the user's answers make this side send keeps the ids that this side may still hand out
  -- free.
  pub users_to_send-IsFresh :
      (poll : ℕ → Poll P) (h h' : Handler) (p : P)
      → users_to_send T poll h ≡ some (h', p)
      → IsFresh h
      → IsFresh h'
  unfolding users_to_send
  users_to_send-IsFresh poll h h' p e f =
      elim (Option-cases (poll_users T poll h.waiting_on_user)) [
        | inl idle ↦ absurd (cc idle)
        | inr ((q, done), found) ↦ subst IsFresh (cc found) (remove_user-IsFresh h done f)
      ]
