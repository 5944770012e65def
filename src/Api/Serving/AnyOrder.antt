-- ===== src/Api/Serving/AnyOrder.antt =====
-- lafere-api/src/request_handlers.rs: what is answered does not depend on the order of the tasks.
use mathlib.Core.Logic.{∥∥₁_elim, ∥∥₁_prop}
use mathlib.Core.List.{Perm, perm_append_comm, Permᴰ, append_assoc, append-nil}
use mathlib.Core.List.Perm
use lafere.Base.{
  ℕ, ◌≡◌, refl, sym, ap, ◌∙◌, Bool, Option, none, some, Option-cases, inl, inr, List, [], ◌∷◌, ◌++◌,
  concat_map,
}
use mathlib.Core.Path.{subst}
use lafere.Handler
use lafere.Api.Message.{Message, action_of}
use lafere.Api.Requests.{
  RequestHandler, RequestHandlers, answer_of, dispatch, get_handler, on_request,
}
use lafere.Api.Serving.{
  Spawned, handling, enabling, on_received, handle_connection, respond, run_task, run_tasks,
}

concat_map-append :
    {X Y : Type 0} (f : X → List Y) (xs ys : List X)
    → concat_map f (xs ++ ys) ≡ concat_map f xs ++ concat_map f ys
concat_map-append f [] ys = refl
concat_map-append f (x ∷ xs) ys =
    ap (λ zs. f x ++ zs) (concat_map-append f xs ys) ∙ sym (append_assoc (f x) _ _)

append_swap : {Y : Type 0} (xs ys zs : List Y) → Perm (xs ++ (ys ++ zs)) (ys ++ (xs ++ zs))
append_swap xs ys zs =
    subst (λ l. Perm l (ys ++ (xs ++ zs))) (append_assoc xs ys zs)
      (subst (λ l. Perm ((xs ++ ys) ++ zs) l) (append_assoc ys xs zs)
        (Perm.append_right zs (perm_append_comm xs ys)))

concat_map-Permᴰ :
    {X Y : Type 0} (f : X → List Y) {xs ys : List X}
    → Permᴰ xs ys
    → Perm (concat_map f xs) (concat_map f ys)
concat_map-Permᴰ f Permᴰ.nil = Perm.refl []
concat_map-Permᴰ f (Permᴰ.cons {a} {b} {l₁} {l₂} e d) =
    subst (λ x. Perm (f a ++ concat_map f l₁) (f x ++ concat_map f l₂)) e
      (Perm.append_left (f a) (concat_map-Permᴰ f d))
concat_map-Permᴰ f (Permᴰ.swap {a} {b} {a'} {b'} {l} e1 e2) =
    subst (λ y. Perm (f a ++ (f b ++ concat_map f l)) (f y ++ (f b' ++ concat_map f l))) e2
      (subst (λ y. Perm (f a ++ (f b ++ concat_map f l)) (f b ++ (f y ++ concat_map f l))) e1
        (append_swap (f a) (f b) (concat_map f l)))
concat_map-Permᴰ f (Permᴰ.trans d1 d2) = Perm.trans (concat_map-Permᴰ f d1) (concat_map-Permᴰ f d2)

concat_map-Perm :
    {X Y : Type 0} (f : X → List Y) {xs ys : List X}
    → Perm xs ys
    → Perm (concat_map f xs) (concat_map f ys)
concat_map-Perm f p = ∥∥₁_elim p ∥∥₁_prop (concat_map-Permᴰ f)

module _ {A S V : Type 0} (same : A → A → Bool) (me : RequestHandlers A S V)
    (blind : (action : A) (h : RequestHandler A S V) (msg : Message A) (s s' : S)
      → get_handler same action me.requests ≡ some h
      → (h.handle msg me.inner_data s).1 ≡ (h.handle msg me.inner_data s').1) where
  -- What a task sends with a session.
  abbrev sent_by : S → Spawned A → List (ℕ × Message A)
  sent_by s t = (run_task same me t s).1

  dispatch-blind :
      (action : A) (msg : Message A) (s s' : S) (o : Option (RequestHandler A S V))
      → get_handler same action me.requests ≡ o
      → (dispatch same me msg s action o).1 ≡ (dispatch same me msg s' action o).1
  dispatch-blind action msg s s' none e = refl
  dispatch-blind action msg s s' (some h) e = ap (answer_of action) (blind action h msg s s' e)

  sent_by-blind : (t : Spawned A) (s s' : S) → sent_by s t ≡ sent_by s' t
  unfolding run_task
  sent_by-blind (handling action msg resp) s s' =
      ap (respond resp) (dispatch-blind action msg s s' _ refl)
  sent_by-blind enabling s s' = elim (Option-cases me.enable_server_requests) [
    | inl e ↦ rw e refl
    | inr (h, e) ↦ rw e refl
  ]

  run_tasks-sent :
      (ts : List (Spawned A)) (s s' : S) → (run_tasks same me ts s).1 ≡ concat_map (sent_by s') ts
  unfolding run_tasks
  run_tasks-sent [] s s' = refl
  run_tasks-sent (t ∷ ts) s s' =
      ap (λ xs. xs ++ (run_tasks same me ts (run_task same me t s).0).1) (sent_by-blind t s s')
      ∙ ap (λ xs. sent_by s' t ++ xs) (run_tasks-sent ts (run_task same me t s).0 s')

  -- The responses to a request by itself, as `on_request` gives it.
  abbrev pub response_to : S → Handler.Request (Message A) → List (ℕ × Message A)
  response_to s (Handler.Request.request msg resp) = respond resp (on_request same me msg s).1
  response_to s Handler.Request.enable_requests = []
  response_to s (Handler.Request.request_sender msg resp) = []
  response_to s (Handler.Request.request_receiver msg resp) = []

  sent_for :
      (s : S) (req : Handler.Request (Message A))
      → concat_map (sent_by s) (on_received req) ≡ response_to s req
  unfolding on_received run_task on_request
  sent_for s (Handler.Request.request msg resp) = elim (Option-cases (action_of msg)) [
    | inl e ↦ rw (e, on_request) refl
    | inr (action, e) ↦ rw (e, on_request) (append-nil _)
  ]
  sent_for s Handler.Request.enable_requests = elim (Option-cases me.enable_server_requests) [
    | inl e ↦ rw e refl
    | inr (h, e) ↦ rw e refl
  ]
  sent_for s (Handler.Request.request_sender msg resp) = refl
  sent_for s (Handler.Request.request_receiver msg resp) = refl

  sent_for_all :
      (s : S) (reqs : List (Handler.Request (Message A)))
      → concat_map (sent_by s) (handle_connection reqs) ≡ concat_map (response_to s) reqs
  unfolding handle_connection
  sent_for_all s [] = refl
  sent_for_all s (req ∷ reqs) =
      concat_map-append (sent_by s) (on_received req) (handle_connection reqs)
      ∙ ap (λ xs. xs ++ concat_map (sent_by s) (handle_connection reqs)) (sent_for s req)
      ∙ ap (λ xs. response_to s req ++ xs) (sent_for_all s reqs)

  -- In whatever order the tasks run that `handle_connection` starts for the requests it receives,
  -- what is sent for them is a rearrangement of what each request by itself is answered with, on
  -- its own channel: for handlers whose results do not depend on the session.
  pub run_tasks-Perm :
      (reqs : List (Handler.Request (Message A))) (ts : List (Spawned A)) (s s' : S)
      → Perm ts (handle_connection reqs)
      → Perm (run_tasks same me ts s).1 (concat_map (response_to s') reqs)
  run_tasks-Perm reqs ts s s' p =
      subst (λ xs. Perm xs (concat_map (response_to s') reqs)) (sym (run_tasks-sent ts s s'))
        (subst (λ xs. Perm (concat_map (sent_by s') ts) xs) (sent_for_all s' reqs)
          (concat_map-Perm (sent_by s') p))
