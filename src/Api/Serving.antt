-- ===== src/Api/Serving.antt =====
-- lafere-api/src/request_handlers.rs: `handle_connection`, which starts a task for each request. The
-- tasks run in any order, each of them as a whole.
pub mod AnyOrder
pub mod Attached
use lafere.Base.{ℕ, Option, none, some, List, [], ◌∷◌, ◌++◌, Bool}
use lafere.Handler
use lafere.Api.Message.{Message, action_of}
use lafere.Api.Requests.{
  RequestHandler, RequestHandlers, EnableServerRequestsHandler, Reaction, dropped, answered,
  dispatch, get_handler,
}

-- What `tokio::spawn` is called for: a request with its action and its channel for the response, or the
-- right to send requests.
pub data Spawned (A : Type 0) : Type 0 where
  handling : (action : A) (msg : Message A) (resp : ℕ) → Spawned A
  enabling : Spawned A

abbrev pub with_action : {A : Type 0} → Message A → ℕ → Option A → List (Spawned A)
with_action msg resp none = []
with_action msg resp (some action) = handling action msg resp ∷ []

-- A round of the loop. Streams are ignored.
unfoldable pub on_received : {A : Type 0} → Handler.Request (Message A) → List (Spawned A)
on_received (Handler.Request.request msg resp) = with_action msg resp (action_of msg)
on_received Handler.Request.enable_requests = enabling ∷ []
on_received (Handler.Request.request_sender msg resp) = []
on_received (Handler.Request.request_receiver msg resp) = []

-- Until the receiver gives no more.
unfoldable pub handle_connection :
    {A : Type 0} → List (Handler.Request (Message A)) → List (Spawned A)
handle_connection [] = []
handle_connection (req ∷ reqs) = on_received req ++ handle_connection reqs

-- The responses that are sent, each with its channel.
abbrev pub respond : {A : Type 0} → ℕ → Reaction A → List (ℕ × Message A)
respond resp dropped = []
respond resp (answered msg) = (resp, msg) ∷ []

abbrev pub responding : {A S : Type 0} → ℕ → S × Reaction A → S × List (ℕ × Message A)
responding resp (session, reaction) = (session, respond resp reaction)

abbrev pub enable_with :
    {A S V : Type 0}
    → RequestHandlers A S V
    → S
    → Option (EnableServerRequestsHandler A S V)
    → S × List (ℕ × Message A)
enable_with me session none = (session, [])
enable_with me session (some h) = ((h.handle me.inner_data session).0, [])

module _ {A S V : Type 0} (same : A → A → Bool) where
  unfoldable pub run_task : RequestHandlers A S V → Spawned A → S → S × List (ℕ × Message A)
  run_task me (handling action msg resp) session =
      responding resp (dispatch same me msg session action (get_handler same action me.requests))
  run_task me enabling session = enable_with me session me.enable_server_requests

  unfoldable pub run_tasks : RequestHandlers A S V → List (Spawned A) → S → S × List (ℕ × Message A)
  run_tasks me [] session = (session, [])
  run_tasks me (t ∷ ts) session =
      let (session1, sent) = run_task me t session in
      let (session2, rest) = run_tasks me ts session1 in (session2, sent ++ rest)
