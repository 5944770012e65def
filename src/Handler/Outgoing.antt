-- ===== src/Handler/Outgoing.antt =====
-- lafere/src/handler/handler.rs: what a handler sends, packets that could not be read, and closing.
use lafere.Base.{ℕ, true, Option, none, some, List, [], ◌∷◌, ok, err}
use lafere.Packet.{Packet, PacketError}
use lafere.Packet.Flags.{Kind}
use lafere.Packet.Flags
use lafere.Handler.Table.{lookup, insert, remove}
use lafere.Handler.Ids.{next_id, enable_server_requests, reset}
use lafere.Handler.{
  Handler, packet_error, unknown_id, wrong_packet_kind, response_packet, InternalRequest,
  UserResponse, StreamResponse, SendBack, Event, respond, Done, empty_packet, stream_close_packet,
  malformed_request_packet, close_response,
}

-- What polling the receiving end of a channel gives.
pub data Poll (P : Type 0) : Type 0 where
  pending closed : Poll P
  ready : P → Poll P

module _ {P : Type 0} (T : Packet P) where
  -- `set_flags(Flags::new(kind))` and `set_id(id)`
  unfoldable pub labelled : Kind → ℕ → P → P
  labelled k id p = T.set_id id (T.set_flags (Flags.new k) p)

  -- The poll of one entry: the packet to send, and whether the entry is done with.
  unfoldable pub poll_user : ℕ → UserResponse → Poll P → Option (P × Option ℕ)
  unfolding labelled
  poll_user id response pending = none
  poll_user id (UserResponse.request rx) (ready p) = some (labelled Kind.response id p, some id)
  poll_user id (UserResponse.request rx) closed =
      some (labelled Kind.no_response id T.empty, some id)
  poll_user id (UserResponse.receiver rx) (ready p) = some (labelled Kind.stream id p, none)
  poll_user id (UserResponse.receiver rx) closed =
      some (labelled Kind.stream_closed id T.empty, some id)

  abbrev pub channel_of : UserResponse → ℕ
  channel_of (UserResponse.request rx) = rx
  channel_of (UserResponse.receiver rx) = rx

  -- The entries are polled in the map's order; `none` is `Poll::Pending`.
  unfoldable pub poll_users : (ℕ → Poll P) → List (ℕ × UserResponse) → Option (P × Option ℕ)
  poll_users poll [] = none
  poll_users poll ((id, response) ∷ users) =
      elim (poll_user id response (poll (channel_of response))) [
        | some found ↦ some found
        | none ↦ poll_users poll users
      ]

  unfoldable pub remove_done : Option ℕ → List (ℕ × UserResponse) → List (ℕ × UserResponse)
  remove_done none users = users
  remove_done (some id) users = remove id users

  -- `WaitingOnUser::to_send`, once it is ready: with no entries there is nothing to wait for.
  unfoldable pub users_to_send : (ℕ → Poll P) → Handler → Option (Handler × P)
  unfolding remove_done
  users_to_send poll h = elim (poll_users poll h.waiting_on_user) [
    | none ↦ none
    | some (p, done) ↦ some (record h { waiting_on_user = remove_done done h.waiting_on_user }, p)
  ]

  -- What handling a request of this side's user comes to.
  pub data Started : Type 0 where
    sent : Handler → P → Started
    out_of_ids : Handler → Started
    panicked : Started

  abbrev pub with_stream : Handler → ℕ → StreamResponse → P → Started
  with_stream h id response p = elim (lookup id h.waiting_on_stream) [
    | some old ↦ panicked
    | none ↦ sent (record h { waiting_on_stream = insert id response h.waiting_on_stream }) p
  ]

  abbrev pub with_user : Handler → ℕ → UserResponse → P → Started
  with_user h id response p = elim (lookup id h.waiting_on_user) [
    | some old ↦ panicked
    | none ↦ sent (record h { waiting_on_user = insert id response h.waiting_on_user }) p
  ]

  unfoldable pub start : Handler → ℕ → InternalRequest P → Started
  start h id InternalRequest.enable_requests =
      sent (record h { state = (enable_server_requests h.state).0 })
        (labelled Kind.enable_server_requests id T.empty)
  start h id (InternalRequest.request p tx) =
      with_stream h id (StreamResponse.request tx) (labelled Kind.request id p)
  start h id (InternalRequest.request_sender p rx) =
      with_user h id (UserResponse.receiver rx) (labelled Kind.request_sender id p)
  start h id (InternalRequest.request_receiver p tx) =
      with_stream h id (StreamResponse.receiver tx) (labelled Kind.request_receiver id p)

  -- The branch of `to_send` for a request that the user hands in, which is taken only where the
  -- state can send requests.
  unfoldable pub request_to_send : Handler → InternalRequest P → Started
  request_to_send h req = elim (next_id h.state) [
    | none ↦ panicked
    | some (none, state) ↦ out_of_ids (record h { state = state })
    | some (some id, state) ↦ start (record h { state = state }) id req
  ]

  unfoldable pub answer_error : Handler → ℕ → PacketError → Done P
  answer_error h id e =
      let h' = record h { waiting_on_stream = remove id h.waiting_on_stream } in
      elim (lookup id h.waiting_on_stream) [
        | none ↦ (h', [], err (unknown_id id))
        | some (StreamResponse.receiver tx) ↦ (h', [], err (unknown_id id))
        | some (StreamResponse.request tx) ↦
            (h', respond tx (err (response_packet e)) ∷ [], ok SendBack.nothing)
      ]

  -- A packet whose header could be read and whose body could not.
  unfoldable pub packet_error_kind : Handler → Kind → ℕ → PacketError → Done P
  packet_error_kind h Kind.request id e =
      (h, [], ok (SendBack.packet (malformed_request_packet T id)))
  packet_error_kind h Kind.request_sender id e =
      (h, [], ok (SendBack.packet (stream_close_packet T id)))
  packet_error_kind h Kind.request_receiver id e =
      (h, [], ok (SendBack.packet (stream_close_packet T id)))
  packet_error_kind h Kind.response id e = answer_error h id e
  packet_error_kind h Kind.no_response id e = (h, [], err (packet_error e))
  packet_error_kind h Kind.malformed_request id e = (h, [], err (packet_error e))
  packet_error_kind h Kind.close id e = (h, [], err (packet_error e))
  packet_error_kind h Kind.ping id e = (h, [], err (packet_error e))
  packet_error_kind h Kind.stream_closed id e = (h, [], err (packet_error e))
  packet_error_kind h Kind.stream id e = (h, [], ok SendBack.nothing)
  packet_error_kind h Kind.enable_server_requests id e =
      (h, [], err (wrong_packet_kind Kind.enable_server_requests))
  packet_error_kind h Kind.unknown id e = (h, [], err (wrong_packet_kind Kind.unknown))

  -- `flags` and `id` are the header's.
  unfoldable pub on_packet_error : Handler → (flags id : ℕ) → PacketError → Done P
  on_packet_error h flags id e = packet_error_kind h (Flags.kind flags) id e

  unfoldable pub close_all : List (ℕ × UserResponse) → List (Event P)
  close_all [] = []
  close_all ((id, response) ∷ users) = close_response T response ∷ close_all users

  unfoldable pub close : Handler → Handler × List (Event P) × P
  close h = (
    record h { waiting_on_stream = []; requests_closed = true },
    close_all h.waiting_on_user,
    empty_packet T Kind.close,
  )

  -- When the connection is reset.
  unfoldable pub close_all_started : Handler → Handler × List (Event P)
  close_all_started h =
      (record h { waiting_on_stream = []; state = reset h.state }, close_all h.waiting_on_user)
