-- ===== src/Handler.antt =====
-- lafere/src/handler/handler.rs: the handler of one connection. Channels (of tokio) are numbers;
-- what is done to them is a list of events, and whether the other end still listens is asked of
-- the surroundings.
pub mod Table
pub mod Ids
pub mod Outgoing
pub mod Alloc
pub mod Fresh
pub mod Routing
pub mod Exchange
pub mod Reconnect
pub mod Task
use Prim.Native.String.{String}
use lafere.Base.{
  ℕ, Bool, true, false, Option, none, some, List, [], ◌∷◌, ◌++◌, Result, ok, err, if◌then◌else◌,
}
use lafere.Packet.{Packet, PacketError}
use lafere.Packet.Flags.{Kind}
use lafere.Packet.Flags
use Table.{lookup, insert, remove}
use Ids.{
  HandlerState, uni_server, uni_client, next_id, can_receive_requests, can_send_requests, reset,
  enable_server_requests,
}

-- lafere/src/error.rs. The payloads of `Join` and `Io` are tokio's and the system's.
pub data TaskError : Type 0 where
  join io incorrect_signature : TaskError
  packet_error : PacketError → TaskError
  unknown_id existing_id : ℕ → TaskError
  wrong_packet_kind : Kind → TaskError

pub data RequestError : Type 0 where
  connection_already_closed task_failed no_response malformed_request : RequestError
  response_packet : PacketError → RequestError

-- `tx` is the other end of the new channel, which the user gets.
pub data Request (P : Type 0) : Type 0 where
  enable_requests : Request P
  request request_sender request_receiver : (packet : P) (tx : ℕ) → Request P

pub data InternalRequest (P : Type 0) : Type 0 where
  enable_requests : InternalRequest P
  request request_sender request_receiver : (packet : P) (chan : ℕ) → InternalRequest P

pub data UserResponse : Type 0 where
  request receiver : ℕ → UserResponse

pub data StreamResponse : Type 0 where
  request receiver : ℕ → StreamResponse

pub data SendBack (P : Type 0) : Type 0 where
  nothing close close_with_packet : SendBack P
  packet : P → SendBack P

pub data Event (P : Type 0) : Type 0 where
  to_user : Request P → Event P
  respond : ℕ → Result RequestError P → Event P
  stream_item : ℕ → P → Event P
  close_receiver : ℕ → Event P

-- Whether the user still takes requests, and whether a stream's receiver still listens.
pub record Channels : Type 0 where
  pub requests_open : Bool
  pub receiver_open : ℕ → Bool

pub record Handler : Type 0 where
  pub waiting_on_stream : List (ℕ × StreamResponse)
  pub waiting_on_user : List (ℕ × UserResponse)
  pub state : HandlerState
  pub requests_closed : Bool

unfoldable pub new : Bool → Handler
new is_server = record {
  waiting_on_stream = [];
  waiting_on_user = [];
  state = if is_server then uni_server else uni_client (some 0);
  requests_closed = false;
}

-- The handler after a call, what it did to channels, and the call's result.
abbrev pub Done : Type 0 → Type 0
Done P = Handler × List (Event P) × Result TaskError (SendBack P)

module _ {P : Type 0} (T : Packet P) where
  -- An empty packet of a kind.
  unfoldable pub empty_packet : Kind → P
  empty_packet k = T.set_flags (Flags.new k) T.empty

  unfoldable pub ping_packet : P
  unfolding empty_packet
  ping_packet = empty_packet Kind.ping

  unfoldable pub stream_close_packet : ℕ → P
  unfolding empty_packet
  stream_close_packet id = T.set_id id (empty_packet Kind.stream_closed)

  unfoldable pub malformed_request_packet : ℕ → P
  unfolding empty_packet
  malformed_request_packet id = T.set_id id (empty_packet Kind.malformed_request)

  -- `self.tx_requests.send(req).await`: where the user is gone the connection is to close.
  unfoldable pub deliver : Channels → Handler → Request P → Done P
  deliver env h req = (
    h,
    to_user req ∷ [],
    ok (if env.requests_open then SendBack.nothing else SendBack.close_with_packet),
  )

  -- A new entry of `waiting_on_user`, unless the id is taken.
  unfoldable pub await_user : Channels → Handler → ℕ → UserResponse → Request P → Done P
  await_user env h id response req = elim (lookup id h.waiting_on_user) [
    | some old ↦ (h, [], err (existing_id id))
    | none ↦ deliver env (record h { waiting_on_user = insert id response h.waiting_on_user }) req
  ]

  unfoldable pub await_stream : Channels → Handler → ℕ → StreamResponse → Request P → Done P
  await_stream env h id response req = elim (lookup id h.waiting_on_stream) [
    | some old ↦ (h, [], err (existing_id id))
    | none ↦
        deliver env (record h { waiting_on_stream = insert id response h.waiting_on_stream }) req
  ]

  -- `self.waiting_on_stream.remove(&id)`: only a request takes an answer.
  unfoldable pub answer : Handler → ℕ → Result RequestError P → Done P
  answer h id result =
      let h' = record h { waiting_on_stream = remove id h.waiting_on_stream } in
      elim (lookup id h.waiting_on_stream) [
        | none ↦ (h', [], err (unknown_id id))
        | some (StreamResponse.receiver tx) ↦ (h', [], err (unknown_id id))
        | some (StreamResponse.request tx) ↦ (h', respond tx result ∷ [], ok SendBack.nothing)
      ]

  unfoldable pub stream_packet : Channels → Handler → ℕ → P → Done P
  stream_packet env h id p = elim (lookup id h.waiting_on_stream) [
    | none ↦ (h, [], ok (SendBack.packet (stream_close_packet id)))
    | some (StreamResponse.request tx) ↦ (h, [], err (unknown_id id))
    | some (StreamResponse.receiver tx) ↦ (
      h,
      stream_item tx p ∷ [],
      ok (
          if env.receiver_open tx
          then SendBack.nothing
          else SendBack.packet (stream_close_packet id)),
    )
  ]

  -- `resp.close()`
  unfoldable pub close_response : UserResponse → Event P
  close_response (UserResponse.request rx) = close_receiver rx
  close_response (UserResponse.receiver rx) = close_receiver rx

  -- `WaitingOnUser::close`
  unfoldable pub close_user : ℕ → List (ℕ × UserResponse) → List (Event P)
  close_user id users = elim (lookup id users) [
    | none ↦ []
    | some response ↦ close_response response ∷ []
  ]

  -- `if can_recv_req`
  unfoldable pub if_can_receive : Kind → Handler → Done P → Done P
  if_can_receive k h handle =
      if can_receive_requests h.state then handle else (h, [], err (wrong_packet_kind k))

  unfoldable pub enable : Channels → Handler → Done P
  enable env h =
      let (state, newly_enabled) = enable_server_requests h.state in
      let h' = record h { state = state } in
      if newly_enabled
      then deliver env h' Request.enable_requests
      else (h', [], ok SendBack.nothing)

  -- A packet from the other side. `chan` is the channel that the call creates, if it creates one.
  unfoldable pub send_kind : Channels → ℕ → Handler → Kind → P → Done P
  send_kind env chan h Kind.enable_server_requests p = enable env h
  send_kind env chan h Kind.request p =
      if_can_receive Kind.request h
        (await_user env h (T.id p) (UserResponse.request chan) (Request.request p chan))
  send_kind env chan h Kind.request_receiver p =
      if_can_receive Kind.request_receiver h
        (await_user env h (T.id p) (UserResponse.receiver chan) (Request.request_receiver p chan))
  send_kind env chan h Kind.request_sender p =
      if_can_receive Kind.request_sender h
        (await_stream env h (T.id p) (StreamResponse.receiver chan) (Request.request_sender p chan))
  send_kind env chan h Kind.response p = answer h (T.id p) (ok p)
  send_kind env chan h Kind.no_response p = answer h (T.id p) (err no_response)
  send_kind env chan h Kind.malformed_request p = answer h (T.id p) (err malformed_request)
  send_kind env chan h Kind.stream p = stream_packet env h (T.id p) p
  send_kind env chan h Kind.stream_closed p = (
    record h { waiting_on_stream = remove (T.id p) h.waiting_on_stream },
    close_user (T.id p) h.waiting_on_user,
    ok SendBack.nothing,
  )
  send_kind env chan h Kind.close p = (h, [], ok SendBack.close)
  send_kind env chan h Kind.ping p = (h, [], ok SendBack.nothing)
  send_kind env chan h Kind.unknown p = (h, [], err (wrong_packet_kind Kind.unknown))

  unfoldable pub send : Channels → ℕ → Handler → P → Done P
  send env chan h p = send_kind env chan h (Flags.kind (T.flags p)) p
