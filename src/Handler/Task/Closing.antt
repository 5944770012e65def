-- ===== src/Handler/Task/Closing.antt =====
-- lafere/src/handler/handler.rs: how `bg_stream` ends once it closes.
use lafere.Base.{
  ℕ, ◌≡◌, ◌≢◌, refl, arith, true, false, Option, none, some, List, [], ◌∷◌, ◌++◌, map, ok, All,
}
use mathlib.Core.Path.{subst}
use mathlib.Core.List.{append_assoc}
use lafere.Packet.{Packet}
use lafere.Packet.Flags.{Kind}
use lafere.Handler.{Handler, UserResponse}
use lafere.Handler.Table.{remove}
use lafere.Handler.Outgoing.{
  Poll, closed, labelled, poll_user, poll_users, remove_done, users_to_send, close,
}
use lafere.Handler.Task.{
  Task, ended, write, start_close, finish_task, Run, stops, turns, answers, closes, finishes,
}

-- A map has one entry per key.
abbrev pub IsKeyed : {V : Type 0} → List (ℕ × V) → Type 0
IsKeyed [] = Unit
IsKeyed ((k, v) ∷ m) = All (λ e. e.0 ≢ k) m × IsKeyed m

remove-other : {V : Type 0} (k : ℕ) (m : List (ℕ × V)) → All (λ e. e.0 ≢ k) m → remove k m ≡ m
unfolding remove
remove-other k [] others = refl
remove-other k ((j, v) ∷ m) (other, others) = ground (arith, remove-other k m others)

remove-head :
    {V : Type 0} (k : ℕ) (v : V) (m : List (ℕ × V))
    → All (λ e. e.0 ≢ k) m
    → remove k ((k, v) ∷ m) ≡ m
unfolding remove
remove-head k v m others = ground (arith, remove-other k m others)

module _ {P : Type 0} (T : Packet P) where
  -- What is sent for an entry whose user gives nothing more.
  abbrev pub last_word : (ℕ × UserResponse) → P
  last_word (id, UserResponse.request rx) = labelled T Kind.no_response id T.empty
  last_word (id, UserResponse.receiver rx) = labelled T Kind.stream_closed id T.empty

  abbrev pub silent : ℕ → Poll P
  silent rx = closed

  silent-sends :
      (h : Handler) (id : ℕ) (r : UserResponse) (m : List (ℕ × UserResponse))
      → All (λ e. e.0 ≢ id) m
      → users_to_send T silent (record h { waiting_on_user = (id, r) ∷ m })
        ≡ some (record h { waiting_on_user = m }, last_word (id, r))
  unfolding users_to_send poll_users poll_user remove_done
  silent-sends h id (UserResponse.request rx) m others =
      rw (remove-head id (UserResponse.request rx) m others) refl
  silent-sends h id (UserResponse.receiver rx) m others =
      rw (remove-head id (UserResponse.receiver rx) m others) refl

  -- A task that closes: `m` are the entries it has still to answer, `ws` is what it has sent.
  abbrev pub closing : Handler → List (ℕ × UserResponse) → Option P → List P → Task P
  closing h m last ws = record {
    handler = record h { waiting_on_user = m };
    should_close = true;
    close_packet = last;
    sent = ws;
  }

  closing-Run :
      (h : Handler) (m : List (ℕ × UserResponse)) (p : P) (ws : List P)
      → IsKeyed m
      → Run T
          (closing h m (some p) ws)
          (ended (closing h [] none (ws ++ (map last_word m ++ (p ∷ [])))) (ok tt))
  unfolding finish_task write
  closing-Run h [] p ws keyed = stops (finishes true refl refl)
  closing-Run h ((id, r) ∷ m) p ws (others, keyed) =
      let next = ws ++ (last_word (id, r) ∷ []) in
      let path = append_assoc ws (last_word (id, r) ∷ []) (map last_word m ++ (p ∷ [])) in
      turns {u = closing h m (some p) next}
        (answers silent true (record h { waiting_on_user = m }) (last_word (id, r))
          (silent-sends h id r m others))
        (subst (λ sent. Run T (closing h m (some p) next) (ended (closing h [] none sent) (ok tt)))
          path (closing-Run h m p next keyed))

  -- A task that is told to close can always run to its end, without an error, where the user's
  -- channels give nothing more and the stream takes what is sent: it sends, in their order, a
  -- no-response for every request that waits for the user and a stream-closed for every stream,
  -- and then, last of all, the close packet. The map of what waits has one entry per key.
  pub close_ends :
      (t : Task P)
      → t.should_close ≡ false
      → IsKeyed t.handler.waiting_on_user
      → Run T t (
          ended
            (closing
              (close T t.handler).0
              []
              none
              (t.sent ++ (map last_word t.handler.waiting_on_user ++ ((close T t.handler).2 ∷ []))))
            (ok tt))
  unfolding start_close close
  close_ends t on keyed =
      turns (closes on) (closing-Run (close T t.handler).0 t.handler.waiting_on_user _ t.sent keyed)
