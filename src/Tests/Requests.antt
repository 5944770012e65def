-- ===== src/Tests/Requests.antt =====
-- Requests of lafere-api on concrete handlers. Actions and sessions are numbers.
use lafere.Base.{ℕ, ◌+◌, ◌≡◌, refl, true, false, none, some, List, [], ◌∷◌, ◌==◌, Result, ok}
use mathlib.Core.Path.{subst}
use mathlib.Core.Option.{some-injective}
use lafere.Handler
use lafere.Handler.{Channels}
use lafere.Handler.Ids.{uni_client, checked_next, next_id, can_receive_requests}
use lafere.Api.EndToEnd.{over_handlers, request-over_handlers}
use lafere.Handler.Table.{lookup, insert, remove}
use lafere.Handler.Outgoing.{labelled}
use lafere.Api.Message.Flags
use lafere.Api.Message.{Message, empty_header, set_action, is_success}
use lafere.Api.Data.{Any, set, exists}
use lafere.Api.Data.Laws.{empty-IsTyped, set-IsTyped}
use lafere.Api.Data.Args.{
  Arg, by_ref, owned, Given, the_request, get_args, validate_data, valid_arg, valid_data_as_ref,
}
use lafere.Api.Data.Args
use lafere.Api.Data.Args.Safe.{is_some, set_all, get_args-validate_data}
use lafere.Api.Requests.{
  MessageError, Api, RequestHandler, RequestHandlers, api_handler, handle_api, get_handler, Request,
  request, server_request, send_response, response_of,
}
use lafere.Api.Requests.Equal.{as_request, over_connection, request-server_request}

-- The types: 1 is `Session`, 2 is `Data`, 7 the request, 5 a value of the server.
abbrev global : Any ℕ
global = record { type_id = 5; value = 50 }

abbrev args : List Arg
args = by_ref 1 ∷ owned 7 ∷ by_ref 5 ∷ []

get_args-validate_data_example :
    is_some (
      get_args 1 2 7
        (set_all (record { type_id = 6; value = 60 } ∷ []) (set global []))
        args
        (Args.new 70))
    ≡ true
unfolding validate_data valid_arg valid_data_as_ref exists set insert remove lookup
get_args-validate_data_example =
    get_args-validate_data 1 2 7 args (set global []) (record { type_id = 6; value = 60 } ∷ []) 70
      (set-IsTyped global [] empty-IsTyped) refl

-- An `#[api]` function that counts its calls in the session and answers with the request plus one.
abbrev pub body_of : Message ℕ → Result MessageError ℕ
body_of msg = elim msg.body [ [] ↦ ok 0 | b ∷ bs ↦ ok b ]

abbrev pub message : ℕ → Result MessageError (Message ℕ)
message n = ok (record { header = empty_header; body = n ∷ [] })

abbrev pub first_arg : List (Given ℕ) → ℕ
first_arg (the_request n ∷ rest) = n
first_arg _ = 0

abbrev pub counting : Api ℕ ℕ ℕ ℕ ℕ
counting = record {
  action = 3;
  request_id = 7;
  args = owned 7 ∷ [];
  from_message = body_of;
  function = λ given session. (session + 1, ok (first_arg given + 1));
  response_into_message = message;
  error_into_message = message;
  from_message_error = λ e. 0;
}

abbrev pub handler : RequestHandler ℕ ℕ ℕ
handler = api_handler counting 1 2

abbrev pub handlers : RequestHandlers ℕ ℕ ℕ
handlers = record { requests = handler ∷ []; inner_data = []; enable_server_requests = none }

abbrev next_of : Request ℕ ℕ ℕ ℕ
next_of = record {
  action = 3;
  into_message = message;
  response_from = body_of;
  error_from = body_of;
  from_message_error = λ e. 0;
  from_request_error = λ e. 1;
}

served : server_request next_of ◌==◌ handlers 8 4 ≡ (5, some (ok 9))
unfolding server_request get_handler api_handler handle_api get_args Args.take Args.new
    send_response response_of is_success Flags.is_success set_action empty_header Flags.new
served = refl

abbrev IsBlind : Message ℕ → ℕ → RequestHandler ℕ ℕ ℕ → Type 0
IsBlind m s h = h.handle (as_request 0 m) [] s ≡ h.handle m [] s

request-server_request_example : request next_of (over_connection ◌==◌ handlers 0) 8 4 ≡ (5, ok 9)
unfolding labelled get_handler api_handler handle_api
request-server_request_example =
    request-server_request next_of ◌==◌ handlers 0
      (λ h m s e. subst (IsBlind m s) (some-injective handler h e) refl) (λ m. refl) (λ m. refl) 8 4
      5 (ok 9) served

abbrev all_open : Channels
all_open = record { requests_open = true; receiver_open = λ chan. true }

request-over_handlers_example :
    request next_of
      (over_handlers ◌==◌ handlers all_open all_open 5 9 10 (Handler.new false) (Handler.new true))
      8
      4
    ≡ (5, ok 9)
unfolding labelled get_handler api_handler handle_api Handler.new next_id checked_next
    can_receive_requests lookup
request-over_handlers_example =
    request-over_handlers ◌==◌ handlers all_open all_open 5 9 10 (Handler.new false)
      (Handler.new true) 0 (uni_client (some 1)) refl refl refl refl refl next_of
      (λ h m s e. subst (IsBlind m s) (some-injective handler h e) refl) (λ m. refl) (λ m. refl) 8 4
      5 (ok 9) served
