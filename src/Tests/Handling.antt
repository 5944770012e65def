-- ===== src/Tests/Handling.antt =====
-- Runs of the handler of lafere/src/handler/handler.rs, with messages of lafere-api as packets.
use lafere.Base.{ℕ, ◌≡◌, refl, arith, true, false, none, some, [], ◌∷◌, All, ok, err}
use lafere.Packet.{Packet}
use lafere.Packet.Flags
use lafere.Packet.Flags.{Kind}
use lafere.Api.Message.{Message, message_packet, empty_header}
use lafere.Handler
use lafere.Handler.{
  Handler, Channels, Request, InternalRequest, UserResponse, StreamResponse, SendBack, Event,
  to_user, respond, send, unknown_id,
}
use lafere.Handler.Table.{lookup, insert, remove}
use lafere.Handler.Ids.{checked_next, uni_client, next_id, can_receive_requests, can_send_requests}
use lafere.Handler.Outgoing.{
  labelled, sent, panicked, start, request_to_send, users_to_send, poll_users, poll_user,
  remove_done, close_all_started,
}
use lafere.Handler.Alloc.{Unused, Ascending, handed, handed-Ascending}
use lafere.Handler.Fresh.{IsFresh, new-IsFresh, send-IsFresh}
use lafere.Handler.Fresh.Sending.{FreshAfter, request_to_send-FreshAfter}
use lafere.Handler.Routing.{answered, answer_of, kind_of, answer_once, send_other_ids}
use lafere.Handler.Exchange.{only, request_response}
use lafere.Handler.Reconnect.{reset_panics}

abbrev packet : Packet (Message ℕ)
packet = message_packet

-- The user takes requests, and every stream has a receiver.
abbrev all_open : Channels
all_open = record { requests_open = true; receiver_open = λ chan. true }

abbrev note : ℕ → Message ℕ
note n = record { header = empty_header; body = n ∷ [] }

abbrev client : Handler
client = Handler.new false

abbrev server : Handler
server = Handler.new true

-- The client once it has sent its first request, and what it sent.
abbrev asking : Handler
asking = record client {
  waiting_on_stream = (0, StreamResponse.request 5) ∷ [];
  state = uni_client (some 1);
}

abbrev question : Message ℕ
question = labelled packet Kind.request 0 (note 7)

abbrev reply : Message ℕ
reply = labelled packet Kind.response 0 (note 8)

asks : request_to_send packet client (InternalRequest.request (note 7) 5) ≡ sent asking question
unfolding request_to_send start Handler.new next_id insert remove lookup empty_header labelled
asks = refl

request_response_example :
    let s' = (send packet all_open 9 server question).0 in
    (s'' : Handler) × (r : Message ℕ) × ((send packet all_open 9 server question).1
      ≡ to_user (Request.request question 9) ∷ [])
    × (users_to_send packet (only packet 9 (note 8)) s' ≡ some (s'', r))
    × (lookup 0 s''.waiting_on_user ≡ none)
    × (send packet all_open 10 asking r
        ≡ (answered packet asking 0, respond 5 (ok r) ∷ [], ok SendBack.nothing))
unfolding labelled Handler.new lookup can_receive_requests
request_response_example =
    request_response packet client asking server (note 7) question (note 8) 5 9 10 all_open all_open
      asks refl refl refl

request_to_send-FreshAfter_example :
    FreshAfter packet (request_to_send packet client (InternalRequest.request (note 7) 5))
unfolding can_send_requests Handler.new
request_to_send-FreshAfter_example =
    request_to_send-FreshAfter packet client (InternalRequest.request (note 7) 5) refl
      (new-IsFresh false)

-- A request of the client, at a server that has ids to hand out itself.
send-IsFresh_example : IsFresh (send packet all_open 9 server question).0
unfolding labelled Handler.new
send-IsFresh_example =
    send-IsFresh packet all_open 9 server question (λ u. omega (arith, u.0)) (new-IsFresh true)

asking-IsFresh : IsFresh asking
unfolding lookup Handler.new
asking-IsFresh = record { counter = omega arith; free = λ id u. (ground (arith, u), refl) }

answer_once_example :
    (send packet all_open 9 asking reply ≡ (
      answered packet asking 0,
      respond 5 (answer_of (kind_of packet reply) reply) ∷ [],
      ok SendBack.nothing,
    ))
    × ((send packet all_open 9 (send packet all_open 9 asking reply).0 reply).2
        ≡ err (unknown_id 0))
unfolding labelled lookup Flags.kind Flags.new Flags.set_kind Flags.from_num Flags.as_num
answer_once_example = answer_once packet all_open all_open 9 9 asking reply reply 5 tt refl tt refl

send_other_ids_example :
    let h' = (send packet all_open 9 asking reply).0 in
    (lookup 4 h'.waiting_on_stream ≡ lookup 4 asking.waiting_on_stream)
    × (lookup 4 h'.waiting_on_user ≡ lookup 4 asking.waiting_on_user)
unfolding labelled
send_other_ids_example = send_other_ids packet all_open 9 asking reply 4 (λ e. omega (arith, e))

handed-Ascending_example :
    Ascending (handed 3 (uni_client (some 7)))
    × All (Unused (uni_client (some 7))) (handed 3 (uni_client (some 7)))
handed-Ascending_example = handed-Ascending 3 (uni_client (some 7)) (omega arith)

-- The server with the client's request taken in.
abbrev serving : Handler
serving = record server { waiting_on_user = (0, UserResponse.request 9) ∷ [] }

serving-IsFresh : IsFresh serving
unfolding lookup Handler.new
serving-IsFresh = record { counter = tt; free = λ id u. (refl, ground (arith, u)) }

answers :
    users_to_send packet (only packet 9 (note 8)) serving
    ≡ some (record server { waiting_on_user = [] }, reply)
unfolding users_to_send poll_users poll_user remove_done Handler.new remove labelled
answers = refl

-- The client with a stream to the server open under the id 0.
abbrev streaming : Handler
streaming = record client {
  waiting_on_user = (0, UserResponse.receiver 6) ∷ [];
  state = uni_client (some 1);
}

streams :
    request_to_send packet client (InternalRequest.request_sender (note 6) 6)
    ≡ sent streaming (labelled packet Kind.request_sender 0 (note 6))
unfolding request_to_send start Handler.new next_id checked_next insert remove lookup labelled
streams = refl

reset_panics_example :
    request_to_send packet
      (close_all_started packet streaming).0
      (InternalRequest.request_sender (note 7) 11)
    ≡ panicked
unfolding lookup
reset_panics_example =
    reset_panics packet streaming 0 (UserResponse.receiver 6) (note 7) 11 refl refl
