-- ===== src/Tests/Serving.antt =====
-- Runs of a connection's handlers, of lafere-api/src/request_handlers.rs and client.rs.
use mathlib.Core.List.{Perm, perm_append_comm}
use mathlib.Core.Option.{some-injective, none-ne-some}
use mathlib.Core.Path.{subst}
use lafere.Base.{
  ℕ, ◌≡◌, refl, Bool, true, false, none, some, List, [], ◌∷◌, ◌==◌, concat_map, if◌then◌else◌,
}
use lafere.Handler
use lafere.Api.Message.{Message, Header, empty_header, set_action, action_of}
use lafere.Api.Data.Args
use lafere.Api.Data.Args.{get_args}
use lafere.Api.Requests.{RequestHandler, api_handler, handle_api, get_handler}
use lafere.Api.Serving.{Spawned, handling, enabling, on_received, handle_connection, run_tasks}
use lafere.Api.Serving.AnyOrder.{response_to, run_tasks-Perm}
use lafere.Api.Serving.Attached.{attach_all, panics, attach_all_lem}
use lafere.Connection.Client.{new_raw}
use lafere.Tests.Requests.{handler, handlers}

abbrev request : ℕ → ℕ → Handler.Request (Message ℕ)
request n resp =
    Handler.Request.request (record { header = set_action 3 empty_header; body = n ∷ [] }) resp

abbrev task : ℕ → ℕ → Spawned ℕ
task n resp = handling 3 (record { header = set_action 3 empty_header; body = n ∷ [] }) resp

abbrev reqs : List (Handler.Request (Message ℕ))
reqs = request 4 20 ∷ Handler.Request.enable_requests ∷ request 6 21 ∷ []

abbrev IsBlind : RequestHandler ℕ ℕ ℕ → Type 0
IsBlind h = (msg : Message ℕ) (s s' : ℕ) → (h.handle msg [] s).1 ≡ (h.handle msg [] s').1

counting-IsBlind :
    (head : Header ℕ) (body : List ℕ) (s s' : ℕ)
    → (handler.handle (record { header = head; body = body }) [] s).1
      ≡ (handler.handle (record { header = head; body = body }) [] s').1
unfolding api_handler handle_api get_args Args.take Args.new
counting-IsBlind head [] s s' = refl
counting-IsBlind head (b ∷ bs) s s' = refl

found :
    (h : RequestHandler ℕ ℕ ℕ) (b : Bool)
    → (if b then some handler else none) ≡ some h
    → handler ≡ h
found h true e = some-injective handler h e
found h false e = absurd (none-ne-some h e)

handlers_blind :
    (action : ℕ) (h : RequestHandler ℕ ℕ ℕ) (msg : Message ℕ) (s s' : ℕ)
    → get_handler ◌==◌ action handlers.requests ≡ some h
    → (h.handle msg [] s).1 ≡ (h.handle msg [] s').1
unfolding get_handler api_handler
handlers_blind action h msg s s' e =
    subst (λ (k : RequestHandler ℕ ℕ ℕ). (k.handle msg [] s).1 ≡ (k.handle msg [] s').1)
      (found h (3 == action) e) (counting-IsBlind msg.header msg.body s s')

run_tasks-Perm_example :
    Perm
      (run_tasks ◌==◌ handlers (task 6 21 ∷ task 4 20 ∷ enabling ∷ []) 0).1
      (concat_map (response_to ◌==◌ handlers handlers_blind 5) reqs)
unfolding handle_connection on_received action_of set_action
run_tasks-Perm_example =
    run_tasks-Perm ◌==◌ handlers handlers_blind reqs (task 6 21 ∷ task 4 20 ∷ enabling ∷ []) 0 5
      (perm_append_comm (task 6 21 ∷ []) (task 4 20 ∷ enabling ∷ []))

attach_all_lem_example :
    panics {Cfg = ℕ} (Message ℕ) (
      attach_all
        (Message ℕ)
        (false ∷ false ∷ true ∷ true ∷ [])
        (new_raw (record { data_ = 30; version = 1; tx_count = 1 })))
    ≡ true
attach_all_lem_example =
    attach_all_lem (Message ℕ) (false ∷ false ∷ true ∷ true ∷ [])
      (record { data_ = 30; version = 1; tx_count = 1 })
