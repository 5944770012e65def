-- ===== src/Handler/Fresh.antt =====
-- lafere/src/handler/handler.rs: the ids that are still to be handed out, and what stands for them.
pub mod Sending
use lafere.Base.{
  ℕ, ◌≡◌, refl, sym, ◌∙◌, ◌≢◌, arith, Bool, true, false, Option, none, some, List, Bool-cases, inl,
  inr, Option-cases, Result,
}
use mathlib.Core.Path.{subst}
use lafere.Packet.{Packet}
use lafere.Packet.Flags.{Kind}
use lafere.Handler.Table.{lookup, insert, remove, lookup-insert, lookup-remove}
use lafere.Handler.Ids.{
  HandlerState, uni_server, next_id, can_receive_requests, can_send_requests,
  enable_server_requests,
}
use lafere.Handler.Alloc.{
  IsCounter, Unused, Hands, next_id-Hands, next_id-none, enable-Unused, panics, out, gives,
  split_on_id,
}
use lafere.Handler
use lafere.Handler.{
  Handler, Channels, InternalRequest, UserResponse, StreamResponse, Event, Done, SendBack,
  TaskError, Request, answer, await_user, await_stream, deliver, stream_packet, enable,
  if_can_receive, send_kind, send,
}
use lafere.Handler.Outgoing.{
  Started, sent, out_of_ids, panicked, start, with_stream, with_user, request_to_send,
  users_to_send, remove_done, poll_users, Poll,
}

abbrev pub Free : ℕ → Handler → Type 0
Free id h = (lookup id h.waiting_on_stream ≡ none) × (lookup id h.waiting_on_user ≡ none)

pub record IsFresh (h : Handler) : Type 0 where
  pub counter : IsCounter h.state
  pub free : (id : ℕ) → Unused h.state id → Free id h

-- A request of the other side does not use an id that this side may still hand out.
abbrev pub IsForeign : {P : Type 0} → Packet P → Handler → P → Type 0
IsForeign T h p = ¬ (Unused h.state (T.id p))

pub lookup-insert_ne :
    {V : Type 0} (k j : ℕ) (v : V) (m : List (ℕ × V)) → k ≢ j → lookup j (insert k v m) ≡ lookup j m
lookup-insert_ne k j v m h = ground (arith, lookup-insert k j v m)

pub lookup-remove_none :
    {V : Type 0} (k j : ℕ) (m : List (ℕ × V)) → lookup j m ≡ none → lookup j (remove k m) ≡ none
lookup-remove_none k j m h = ground (arith, lookup-remove k j m)

module _ {P : Type 0} (T : Packet P) where
  pub remove_stream-IsFresh :
      (h : Handler) (k : ℕ)
      → IsFresh h
      → IsFresh (record h { waiting_on_stream = remove k h.waiting_on_stream })
  remove_stream-IsFresh h k f = record {
    counter = f.counter;
    free = λ id u. (lookup-remove_none k id h.waiting_on_stream (f.free id u).0, (f.free id u).1);
  }

  answer-IsFresh : (h : Handler) (k : ℕ) (r : Result _ P) → IsFresh h → IsFresh (answer T h k r).0
  unfolding answer
  answer-IsFresh h k r f = elim (Option-cases (lookup k h.waiting_on_stream)) [
    | inl e ↦ rw (e, answer) (remove_stream-IsFresh h k f)
    | inr (StreamResponse.request tx, e) ↦ rw (e, answer) (remove_stream-IsFresh h k f)
    | inr (StreamResponse.receiver tx, e) ↦ rw (e, answer) (remove_stream-IsFresh h k f)
  ]

  pub insert_stream-IsFresh :
      (h : Handler) (k : ℕ) (r : StreamResponse)
      → ¬ (Unused h.state k)
      → IsFresh h
      → IsFresh (record h { waiting_on_stream = insert k r h.waiting_on_stream })
  insert_stream-IsFresh h k r other f = record {
    counter = f.counter;
    free = λ id u. (
      lookup-insert_ne k id r h.waiting_on_stream (λ e. other (subst (Unused h.state) (sym e) u))
          ∙ (f.free id u).0,
      (f.free id u).1,
    );
  }

  pub insert_user-IsFresh :
      (h : Handler) (k : ℕ) (r : UserResponse)
      → ¬ (Unused h.state k)
      → IsFresh h
      → IsFresh (record h { waiting_on_user = insert k r h.waiting_on_user })
  insert_user-IsFresh h k r other f = record {
    counter = f.counter;
    free = λ id u. (
      (f.free id u).0,
      lookup-insert_ne k id r h.waiting_on_user (λ e. other (subst (Unused h.state) (sym e) u))
          ∙ (f.free id u).1,
    );
  }

  await_user-IsFresh :
      (env : Channels) (h : Handler) (k : ℕ) (r : UserResponse) (req : Request P)
      → ¬ (Unused h.state k)
      → IsFresh h
      → IsFresh (await_user T env h k r req).0
  unfolding await_user deliver
  await_user-IsFresh env h k r req other f = elim (Option-cases (lookup k h.waiting_on_user)) [
    | inl e ↦ rw (e, await_user) (insert_user-IsFresh h k r other f)
    | inr (old, e) ↦ rw (e, await_user) f
  ]

  await_stream-IsFresh :
      (env : Channels) (h : Handler) (k : ℕ) (r : StreamResponse) (req : Request P)
      → ¬ (Unused h.state k)
      → IsFresh h
      → IsFresh (await_stream T env h k r req).0
  unfolding await_stream deliver
  await_stream-IsFresh env h k r req other f = elim (Option-cases (lookup k h.waiting_on_stream)) [
    | inl e ↦ rw (e, await_stream) (insert_stream-IsFresh h k r other f)
    | inr (old, e) ↦ rw (e, await_stream) f
  ]

  stream_packet-same :
      (env : Channels) (h : Handler) (k : ℕ) (p : P) → (stream_packet T env h k p).0 ≡ h
  unfolding stream_packet
  stream_packet-same env h k p = elim (Option-cases (lookup k h.waiting_on_stream)) [
    | inl e ↦ rw (e, stream_packet)
    | inr (StreamResponse.request tx, e) ↦ rw (e, stream_packet)
    | inr (StreamResponse.receiver tx, e) ↦ rw (e, stream_packet)
  ]

  pub enabled-IsFresh :
      (h : Handler) → IsFresh h → IsFresh (record h { state = (enable_server_requests h.state).0 })
  enabled-IsFresh h f =
      let (hc, less) = enable-Unused h.state f.counter in
      record { counter = hc; free = λ id u. f.free id (less id u) }

  enable-IsFresh : (env : Channels) (h : Handler) → IsFresh h → IsFresh (enable T env h).0
  unfolding enable deliver
  enable-IsFresh env h f = elim (Bool-cases (enable_server_requests h.state).1) [
    | inl new ↦ rw new (enabled-IsFresh h f)
    | inr old ↦ rw old (enabled-IsFresh h f)
  ]

  if_can_receive-IsFresh :
      (k : Kind) (h : Handler) (d : Done P)
      → IsFresh h
      → IsFresh d.0
      → IsFresh (if_can_receive T k h d).0
  unfolding if_can_receive
  if_can_receive-IsFresh k h d f fd = elim (Bool-cases (can_receive_requests h.state)) [
    | inl can ↦ rw can fd
    | inr cannot ↦ rw cannot f
  ]

  send_kind-IsFresh :
      (env : Channels) (chan : ℕ) (h : Handler) (k : Kind) (p : P)
      → IsForeign T h p
      → IsFresh h
      → IsFresh (send_kind T env chan h k p).0
  unfolding send_kind
  send_kind-IsFresh env chan h Kind.enable_server_requests p other f = enable-IsFresh env h f
  send_kind-IsFresh env chan h Kind.request p other f =
      if_can_receive-IsFresh Kind.request h _ f (await_user-IsFresh env h (T.id p) _ _ other f)
  send_kind-IsFresh env chan h Kind.request_receiver p other f =
      if_can_receive-IsFresh Kind.request_receiver h _ f
        (await_user-IsFresh env h (T.id p) _ _ other f)
  send_kind-IsFresh env chan h Kind.request_sender p other f =
      if_can_receive-IsFresh Kind.request_sender h _ f
        (await_stream-IsFresh env h (T.id p) _ _ other f)
  send_kind-IsFresh env chan h Kind.response p other f = answer-IsFresh h (T.id p) _ f
  send_kind-IsFresh env chan h Kind.no_response p other f = answer-IsFresh h (T.id p) _ f
  send_kind-IsFresh env chan h Kind.malformed_request p other f = answer-IsFresh h (T.id p) _ f
  send_kind-IsFresh env chan h Kind.stream p other f = rw (stream_packet-same env h (T.id p) p) f
  send_kind-IsFresh env chan h Kind.stream_closed p other f = remove_stream-IsFresh h (T.id p) f
  send_kind-IsFresh env chan h Kind.close p other f = f
  send_kind-IsFresh env chan h Kind.ping p other f = f
  send_kind-IsFresh env chan h Kind.unknown p other f = f

  -- A packet of the other side, of any kind and whatever comes of it, keeps the ids that this side
  -- may still hand out free, if the packet's own id is none of them.
  pub send-IsFresh :
      (env : Channels) (chan : ℕ) (h : Handler) (p : P)
      → IsForeign T h p
      → IsFresh h
      → IsFresh (send T env chan h p).0
  unfolding send
  send-IsFresh env chan h p other f = send_kind-IsFresh env chan h _ p other f

-- A new handler has its ids free.
pub new-IsFresh : (is_server : Bool) → IsFresh (Handler.new is_server)
unfolding Handler.new lookup
new-IsFresh true = record { counter = tt; free = λ id u. (refl, refl) }
new-IsFresh false = record { counter = omega arith; free = λ id u. (refl, refl) }
