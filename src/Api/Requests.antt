-- ===== src/Api/Requests.antt =====
-- lafere-api/src/request_handlers.rs, server.rs and requestor.rs, and the handlers that the macro of
-- lafere-api-codegen/src/api.rs writes. `A` are the actions, `same` their equality, `S` is what a
-- session holds.
pub mod Equal
use lafere.Base.{
  ℕ, Bool, true, false, Option, none, some, List, [], ◌∷◌, if◌then◌else◌, Result, ok, err, ◌>>=◌,
  map_err,
}
use lafere.Api.Message.{Message, Header, set_action, action_of, set_success, is_success}
use lafere.Api.Data.{Any, TypeMap, set}
use lafere.Api.Data.Args.{Arg, Given, validate_data, get_args}
use lafere.Api.Data.Args as DataManager
use lafere.Protopuffer.Encoder.{EncodeError}
use lafere.Protopuffer.Wire.{DecodeError}
use lafere.Handler.{RequestError, no_response}

-- The error of serde_json and the text of `MessageError::Other` are numbers.
pub data MessageError : Type 0 where
  json other : ℕ → MessageError
  encode_error : EncodeError → MessageError
  decode_error : DecodeError → MessageError

module _ (A S V : Type 0) where
  -- What a handler comes to: `none` is a panic.
  abbrev pub Handled : Type 0
  Handled = S × Option (Result MessageError (Message A))

  -- The trait `RequestHandler`: the session is what it can change.
  pub record RequestHandler : Type 0 where
    pub action : A
    pub validate_data : TypeMap V → Bool
    pub handle : Message A → TypeMap V → S → Handled

  -- The trait `EnableServerRequestsHandler`. What it asks of the client goes through the sender.
  pub record EnableServerRequestsHandler : Type 0 where
    pub validate_data : TypeMap V → Bool
    pub handle : TypeMap V → S → S × Result MessageError (Unit {0})

  -- An `#[api]` function with the implementations for its request, response and error. `Resp` and
  -- `E` are the types of the last two.
  pub record Api (Resp E : Type 0) : Type 0 where
    pub action : A
    pub request_id : ℕ
    pub args : List Arg
    pub from_message : Message A → Result MessageError V
    pub function : List (Given V) → S → S × Result E Resp
    pub response_into_message : Resp → Result MessageError (Message A)
    pub error_into_message : E → Result MessageError (Message A)
    pub from_message_error : MessageError → E

module _ {A S V : Type 0} where
  module _ {Resp E : Type 0} (api : Api A S V Resp E) where
    -- The `Err` branch of `handle`: the error is sent, marked as such.
    unfoldable pub send_error : E → Result MessageError (Message A)
    send_error e = api.error_into_message e >>= λ msg. ok (set_success false msg)

    unfoldable pub send_response : Result E Resp → Result MessageError (Message A)
    unfolding send_error
    send_response (err e) = send_error e
    send_response (ok resp) = elim (api.response_into_message resp) [
      | ok msg ↦ ok msg
      | err e ↦ send_error (api.from_message_error e)
    ]

    abbrev pub call : S → Option (List (Given V)) → Handled A S V
    call session none = (session, none)
    call session (some args) =
        let (session', r) = api.function args session in (session', some (send_response r))

    -- `session_id` and `data_id` are the `TypeId`s of `Session` and `Data`.
    unfoldable pub handle_api : (session_id data_id : ℕ) → Message A → TypeMap V → S → Handled A S V
    unfolding send_error
    handle_api session_id data_id msg data_ session = elim (api.from_message msg) [
      | err e ↦ (session, some (send_error (api.from_message_error e)))
      | ok req ↦
          call session
            (get_args session_id data_id api.request_id data_ api.args (DataManager.new req))
    ]

    unfoldable pub api_handler : (session_id data_id : ℕ) → RequestHandler A S V
    unfolding handle_api
    api_handler session_id data_id = record {
      action = api.action;
      validate_data = validate_data session_id data_id api.request_id api.args;
      handle = handle_api session_id data_id;
    }

  -- `HashMap::get` and `HashMap::insert` of `Requests`.
  module _ (same : A → A → Bool) where
    unfoldable pub get_handler : A → List (RequestHandler A S V) → Option (RequestHandler A S V)
    get_handler action [] = none
    get_handler action (h ∷ inner) =
        let rest = get_handler action inner in if same h.action action then some h else rest

    unfoldable pub without : A → List (RequestHandler A S V) → List (RequestHandler A S V)
    without action [] = []
    without action (h ∷ inner) =
        let rest = without action inner in if same h.action action then rest else h ∷ rest

    unfoldable pub insert_handler :
        RequestHandler A S V → List (RequestHandler A S V) → List (RequestHandler A S V)
    unfolding without
    insert_handler h inner = h ∷ without h.action inner

-- `RequestHandlersBuilder`, and `RequestHandlers` once it is built.
pub record RequestHandlers (A S V : Type 0) : Type 0 where
  pub requests : List (RequestHandler A S V)
  pub inner_data : TypeMap V
  pub enable_server_requests : Option (EnableServerRequestsHandler A S V)

-- What becomes of the channel for the response.
pub data Reaction (A : Type 0) : Type 0 where
  dropped : Reaction A
  answered : Message A → Reaction A

abbrev pub answer_of : {A : Type 0} → A → Option (Result MessageError (Message A)) → Reaction A
answer_of action none = dropped
answer_of action (some (err e)) = dropped
answer_of action (some (ok msg)) = answered (record msg { header = set_action action msg.header })

abbrev pub react :
    {A S : Type 0} → A → S × Option (Result MessageError (Message A)) → S × Reaction A
react action (session, r) = (session, answer_of action r)

module _ {A S V : Type 0} (same : A → A → Bool) where
  unfoldable pub new_handlers : RequestHandlers A S V
  new_handlers = record { requests = []; inner_data = []; enable_server_requests = none }

  unfoldable pub register_data : Any V → RequestHandlers A S V → RequestHandlers A S V
  register_data d me = record me { inner_data = set d me.inner_data }

  -- Panics where the handler's data is missing.
  unfoldable pub register_request :
      RequestHandler A S V → RequestHandlers A S V → Option (RequestHandlers A S V)
  register_request h me =
      if h.validate_data me.inner_data
      then some (record me { requests = insert_handler same h me.requests })
      else none

  unfoldable pub register_enable_server_requests :
      EnableServerRequestsHandler A S V → RequestHandlers A S V → Option (RequestHandlers A S V)
  register_enable_server_requests h me =
      if h.validate_data me.inner_data
      then some (record me { enable_server_requests = some h })
      else none

  -- `handle_connection` for one request: a request without an action it knows, or without a handler
  -- for it, is dropped, and so is one whose handler fails or panics.
  abbrev pub dispatch :
      RequestHandlers A S V → Message A → S → A → Option (RequestHandler A S V) → S × Reaction A
  dispatch me msg session action none = (session, dropped)
  dispatch me msg session action (some h) = react action (h.handle msg me.inner_data session)

  unfoldable pub on_request : RequestHandlers A S V → Message A → S → S × Reaction A
  on_request me msg session = elim (action_of msg) [
    | none ↦ (session, dropped)
    | some action ↦ dispatch me msg session action (get_handler same action me.requests)
  ]

-- The traits `Request`, `IntoMessage`, `FromMessage` and `ApiError` for a request, its response and
-- its error.
pub record Request (A R Resp E : Type 0) : Type 0 where
  pub action : A
  pub into_message : R → Result MessageError (Message A)
  pub response_from : Message A → Result MessageError Resp
  pub error_from : Message A → Result MessageError E
  pub from_message_error : MessageError → E
  pub from_request_error : RequestError → E

module _ {A R Resp E : Type 0} (Req : Request A R Resp E) where
  -- `msg.header_mut().set_action(R::ACTION)`
  abbrev pub with_action : Message A → Message A
  with_action msg = record msg { header = set_action Req.action msg.header }

  abbrev pub prepared : Result MessageError (Message A) → Result E (Message A)
  prepared (ok msg) = ok (with_action msg)
  prepared (err e) = err (Req.from_message_error e)

  -- `R::Error::from_message(res).map(Err).map_err(R::Error::from_message_error)?`
  abbrev pub error_found : Result MessageError E → Result E Resp
  error_found (ok e) = err e
  error_found (err e) = err (Req.from_message_error e)

  abbrev pub error_of : Message A → Result E Resp
  error_of res = error_found (Req.error_from res)

  unfoldable pub response_of : Message A → Result E Resp
  response_of res =
      if is_success res
      then map_err Req.from_message_error (Req.response_from res)
      else error_of res

  abbrev pub received : {S : Type 0} → S × Result RequestError (Message A) → S × Result E Resp
  received (session, res) = (session, map_err Req.from_request_error res >>= response_of)

  abbrev pub send_message :
      {S : Type 0}
      → (Message A → S → S × Result RequestError (Message A))
      → S
      → Result E (Message A)
      → S × Result E Resp
  send_message inner session (err e) = (session, err e)
  send_message inner session (ok msg) = received (inner msg session)

  -- `Requestor::request` and `Client::request`; `inner` is the request of the `Sender`, which hands
  -- the message to the connection's handler and waits for the answer.
  unfoldable pub request :
      {S : Type 0}
      → (Message A → S → S × Result RequestError (Message A))
      → R
      → S
      → S × Result E Resp
  request inner r session = send_message inner session (prepared (Req.into_message r))

  abbrev pub answered_here :
      {S : Type 0} → S × Option (Result MessageError (Message A)) → S × Option (Result E Resp)
  answered_here (session, none) = (session, none)
  answered_here (session, some (err e)) = (session, some (err (Req.from_request_error no_response)))
  answered_here (session, some (ok msg)) = (session, some (response_of (with_action msg)))

  -- `BuiltServer::request`: the handler is called at once. No result is a panic of the handler.
  module _ {S V : Type 0} (same : A → A → Bool) where
    abbrev pub handled_here :
        RequestHandlers A S V
        → S
        → Message A
        → Option (RequestHandler A S V)
        → S × Option (Result E Resp)
    handled_here me session msg none = (session, some (err (Req.from_request_error no_response)))
    handled_here me session msg (some h) = answered_here (h.handle msg me.inner_data session)

    abbrev pub serve : RequestHandlers A S V → S → Result E (Message A) → S × Option (Result E Resp)
    serve me session (err e) = (session, some (err e))
    serve me session (ok msg) =
        handled_here me session msg (get_handler same Req.action me.requests)

    unfoldable pub server_request : RequestHandlers A S V → R → S → S × Option (Result E Resp)
    server_request me r session = serve me session (prepared (Req.into_message r))
