-- ===== src/Handler/Reconnect.antt =====
-- lafere/src/handler/handler.rs: what `close_all_started` keeps when the connection is set up anew.
use lafere.Base.{ℕ, ◌+◌, arith, ◌≡◌, refl, ap, Option, none, some}
use lafere.Packet.{Packet}
use lafere.Handler.Table.{lookup}
use lafere.Handler.Ids.{
  HandlerState, uni_server, uni_client, bi_server, bi_client, next_id, reset, u32_mid, checked_next,
  next_in_lower_half,
}
use lafere.Handler.{Handler, InternalRequest, UserResponse}
use lafere.Handler.Outgoing.{panicked, start, with_user, request_to_send, close_all_started}

-- The id that a state hands out first once it is reset.
abbrev pub first_id : HandlerState → Option ℕ
first_id uni_server = none
first_id (uni_client c) = some 0
first_id (bi_server c) = some (u32_mid + 1)
first_id (bi_client c) = some 0

next_id-reset :
    (s : HandlerState) (id : ℕ)
    → first_id s ≡ some id
    → (s' : HandlerState) × (next_id (reset s) ≡ some (some id, s'))
unfolding next_id reset checked_next next_in_lower_half
next_id-reset uni_server id e = absurd (ground (arith, e))
next_id-reset (uni_client c) id e = (uni_client (some 1), ap (λ o. some (o, uni_client (some 1))) e)
next_id-reset (bi_server c) id e =
    let s' = bi_server (some (u32_mid + 2)) in (s', ap (λ o. some (o, s')) e)
next_id-reset (bi_client c) id e = (bi_client (some 1), ap (λ o. some (o, bi_client (some 1))) e)

module _ {P : Type 0} (T : Packet P) where
  with_user_taken :
      (h : Handler) (id : ℕ) (old r : UserResponse) (p : P)
      → lookup id h.waiting_on_user ≡ some old
      → with_user T h id r p ≡ panicked
  with_user_taken h id old r p e = rw (e, with_user) refl

  -- After `close_all_started`, a user's request that opens a sending stream panics where the
  -- entries that wait for the user, which are closed and not removed, still hold the first id that
  -- the reset counter hands out.
  pub reset_panics :
      (h : Handler) (id : ℕ) (old : UserResponse) (q : P) (rx : ℕ)
      → first_id h.state ≡ some id
      → lookup id h.waiting_on_user ≡ some old
      → request_to_send T (close_all_started T h).0 (InternalRequest.request_sender q rx) ≡ panicked
  unfolding request_to_send close_all_started start
  reset_panics h id old q rx first taken =
      let (s', e) = next_id-reset h.state id first in
      rw (e, request_to_send) (with_user_taken _ id old _ _ taken)
