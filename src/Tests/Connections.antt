-- ===== src/Tests/Connections.antt =====
-- Runs of a server's connection with its handler, with messages of lafere-api as packets.
use lafere.Base.{ℕ, ◌≡◌, ◌+◌, refl, true, false, none, some, [], ◌∷◌, ok}
use lafere.Packet.{Packet}
use lafere.Packet.Flags
use lafere.Packet.Flags.{Kind}
use lafere.Api.Message.{Message, message_packet, empty_header}
use lafere.Handler
use lafere.Handler.{Handler, Channels, Request, InternalRequest, deliver, enable, send_kind, send}
use lafere.Handler.Ids.{bi_server, u32_mid, enable_server_requests}
use lafere.Handler.Outgoing.{labelled}
use lafere.Watch.{Shared}
use lafere.Connection as Ends
use lafere.Connection.Server.{new_raw, receive, request, if_enabled}
use lafere.Connection.System.{System, new, for_response, asked_of, Step, Reached}
use lafere.Connection.System.Rights.{IsAllowed, reached-IsAllowed}

abbrev packet : Packet (Message ℕ)
packet = message_packet

abbrev all_open : Channels
all_open = record { requests_open = true; receiver_open = λ chan. true }

abbrev allowing : Message ℕ
allowing =
    labelled packet Kind.enable_server_requests 0 (record { header = empty_header; body = [] })

abbrev question : Message ℕ
question = record { header = empty_header; body = 7 ∷ [] }

abbrev config : Shared ℕ
config = record { data_ = 30; version = 1; tx_count = 1 }

abbrev both_ways : Handler
both_ways = record (Handler.new true) { state = bi_server (some (u32_mid + 1)) }

-- The user asks first without the check.
abbrev early : System (Message ℕ) ℕ
early = record {
  handler = Handler.new true;
  waiting = [];
  connection = new_raw config;
  handed = record { asks = InternalRequest.request question 6; unchecked = true } ∷ [];
  cloned = false;
}

abbrev told : System (Message ℕ) ℕ
told = record early { handler = both_ways; waiting = Request.enable_requests ∷ [] }

abbrev heard : System (Message ℕ) ℕ
heard = record told { waiting = []; connection = record (new_raw config) { sender_enabled = true } }

abbrev asking : System (Message ℕ) ℕ
asking = record heard {
  handed =
      record { asks = InternalRequest.request question 6; unchecked = true }
      ∷ record { asks = InternalRequest.request question 5; unchecked = false }
      ∷ [];
}

asks_early : Step packet (new config) early
unfolding asked_of Ends.request Ends.hand_over new
asks_early = Step.unchecked_asks true (for_response 6 none question)

tells : Step packet early told
unfolding new new_raw Handler.new send send_kind enable deliver labelled enable_server_requests
    Flags.kind Flags.new empty_header Flags.from_num Flags.as_num
tells = Step.arrives all_open 9 allowing

hears : Step packet told heard
unfolding receive new_raw
hears = Step.hears Request.enable_requests [] _ refl refl

asks : Step packet heard asking
unfolding request if_enabled Ends.request Ends.hand_over new_raw
asks = Step.requests true 5 (some (ok question)) question _ refl

-- The connection of a client that has not allowed it panics.
panics : request true 5 none question (new_raw config) ≡ none
unfolding request if_enabled new_raw
panics = refl

reached-IsAllowed_example : IsAllowed packet asking
reached-IsAllowed_example = reached-IsAllowed packet config asking (
    Reached.steps
      (Reached.steps (Reached.steps (Reached.steps Reached.starts asks_early) tells) hears) asks)
