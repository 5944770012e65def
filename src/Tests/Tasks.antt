-- ===== src/Tests/Tasks.antt =====
-- Runs of the task of lafere/src/handler/handler.rs, with messages of lafere-api as packets.
use lafere.Base.{ℕ, refl, arith, true, false, none, some, [], ◌∷◌, ok, err}
use lafere.Packet.{Packet}
use lafere.Packet.Receiver.{io}
use lafere.Packet.Flags.{Kind}
use lafere.Api.Message.{Message, message_packet, empty_header}
use lafere.Handler
use lafere.Handler.{
  Handler, Channels, InternalRequest, UserResponse, StreamResponse, TaskError, ping_packet,
}
use lafere.Handler.Ids.{uni_client, next_id, can_send_requests, reset}
use lafere.Handler.Table.{lookup, insert, remove}
use lafere.Handler.Outgoing.{labelled, close, start, request_to_send, close_all_started}
use lafere.Handler.Task.{
  Task, Run, stops, turns, receives, requests, running, ended, new_task, on_request, on_received,
  write, Streams, first, renewed, stream_ended,
}
use lafere.Handler.Task.Closing.{closing, close_ends}

abbrev packet : Packet (Message ℕ)
packet = message_packet

abbrev all_open : Channels
all_open = record { requests_open = true; receiver_open = λ chan. true }

abbrev note : ℕ → Message ℕ
note n = record { header = empty_header; body = n ∷ [] }

-- A server that owes an answer to one request and has one stream to send.
abbrev busy : Task (Message ℕ)
busy = record {
  handler = record (Handler.new true) {
    waiting_on_user = (2, UserResponse.request 5) ∷ (3, UserResponse.receiver 6) ∷ [];
  };
  should_close = false;
  close_packet = none;
  sent = note 1 ∷ [];
}

close_ends_example : Run packet busy (
    ended
      (closing packet (close packet busy.handler).0 [] none (
        note 1
        ∷ labelled packet Kind.no_response 2 packet.empty
        ∷ labelled packet Kind.stream_closed 3 packet.empty
        ∷ (close packet busy.handler).2
        ∷ []))
      (ok tt))
close_ends_example = close_ends packet busy refl (((λ e. omega (arith, e)), tt), (tt, tt))

-- The client once it has sent a request, and after its stream has broken.
abbrev asking : Handler
asking = record (Handler.new false) {
  waiting_on_stream = (0, StreamResponse.request 5) ∷ [];
  state = uni_client (some 1);
}

abbrev asked : Task (Message ℕ)
asked = record (new_task packet asking) { sent = labelled packet Kind.request 0 (note 7) ∷ [] }

broken_stream : Run packet (new_task packet (Handler.new false)) (ended asked (err TaskError.io))
unfolding new_task on_request on_received write request_to_send start next_id insert remove lookup
    labelled Handler.new can_send_requests
broken_stream =
    turns (requests true (InternalRequest.request (note 7) 5) refl)
      (stops (receives all_open 9 true (err io) refl))

renewing : Streams packet true (Handler.new false) (Handler.new false)
unfolding stream_ended close_all_started Handler.new reset new_task
renewing = renewed first broken_stream false refl

asks_again : Run packet (new_task packet (Handler.new false)) (running asked)
unfolding new_task on_request write request_to_send start next_id insert remove lookup labelled
    Handler.new can_send_requests
asks_again = stops (requests true (InternalRequest.request (note 7) 5) refl)
