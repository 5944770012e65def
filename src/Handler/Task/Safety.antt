-- ===== src/Handler/Task/Safety.antt =====
-- lafere/src/handler/handler.rs: what holds in every turn of `bg_stream`.
use lafere.Base.{ℕ, refl, Bool, true, false, Bool-cases, Option-cases, inl, inr, Result, ok, err}
use lafere.Packet.{Packet, PacketError}
use lafere.Packet.Receiver.{PacketReceiverError, io, hard, soft}
use lafere.Packet.Flags.{Kind}
use lafere.Packet.Flags
use lafere.Handler.{Handler, Channels, SendBack, StreamResponse, Done, send}
use lafere.Handler.Table.{lookup}
use lafere.Handler.Outgoing.{
  Started, sent, out_of_ids, panicked, on_packet_error, packet_error_kind, answer_error, close,
}
use lafere.Handler.Fresh.{IsFresh, IsForeign, send-IsFresh, remove_stream-IsFresh}
use lafere.Handler.Fresh.Sending.{FreshAfter, request_to_send-FreshAfter, users_to_send-IsFresh}
use lafere.Handler.Task.{
  Task, Outcome, running, ended, panics, write, start_close, send_back, handled, on_received,
  finish_task, on_request, Run, stops, turns, Turn, receives, answers, requests, pings, closes,
  configures, finishes,
}

module _ {P : Type 0} (T : Packet P) where
  close-IsFresh : (h : Handler) → IsFresh h → IsFresh (close T h).0
  unfolding close lookup
  close-IsFresh h f = record { counter = f.counter; free = λ id u. (refl, (f.free id u).1) }

  answer_error-IsFresh :
      (h : Handler) (id : ℕ) (e : PacketError) → IsFresh h → IsFresh (answer_error T h id e).0
  unfolding answer_error
  answer_error-IsFresh h id e f = elim (Option-cases (lookup id h.waiting_on_stream)) [
    | inl missing ↦ rw (missing, answer_error) (remove_stream-IsFresh T h id f)
    | inr (StreamResponse.request tx, found) ↦
        rw (found, answer_error) (remove_stream-IsFresh T h id f)
    | inr (StreamResponse.receiver tx, found) ↦
        rw (found, answer_error) (remove_stream-IsFresh T h id f)
  ]

  packet_error_kind-IsFresh :
      (h : Handler) (k : Kind) (id : ℕ) (e : PacketError)
      → IsFresh h
      → IsFresh (packet_error_kind T h k id e).0
  unfolding packet_error_kind
  packet_error_kind-IsFresh h Kind.response id e f = answer_error-IsFresh h id e f
  packet_error_kind-IsFresh h Kind.request id e f = f
  packet_error_kind-IsFresh h _ id e f = f

  on_packet_error-IsFresh :
      (h : Handler) (flags id : ℕ) (e : PacketError)
      → IsFresh h
      → IsFresh (on_packet_error T h flags id e).0
  unfolding on_packet_error
  on_packet_error-IsFresh h flags id e f = packet_error_kind-IsFresh h (Flags.kind flags) id e f

  -- The task did not panic, and no id that may still be handed out is in use.
  abbrev pub IsSafe : Outcome P → Type 0
  IsSafe (running t) = IsFresh t.handler
  IsSafe (ended t r) = IsFresh t.handler
  IsSafe panics = ⊥

  write-IsSafe :
      (taken : Bool) (t : Task P) (p : P) → IsFresh t.handler → IsSafe (write T taken t p)
  unfolding write
  write-IsSafe true t p f = f
  write-IsSafe false t p f = f

  send_back-IsSafe :
      (taken : Bool) (t : Task P) (back : SendBack P)
      → IsFresh t.handler
      → IsSafe (send_back T taken t back)
  unfolding send_back start_close
  send_back-IsSafe taken t SendBack.nothing f = f
  send_back-IsSafe taken t (SendBack.packet p) f = write-IsSafe taken t p f
  send_back-IsSafe taken t SendBack.close f = close-IsFresh t.handler f
  send_back-IsSafe taken t SendBack.close_with_packet f = close-IsFresh t.handler f

  handled-IsSafe :
      (taken : Bool) (t : Task P) (d : Done P) → IsFresh d.0 → IsSafe (handled T taken t d)
  unfolding handled
  handled-IsSafe taken t (h, events, err e) f = f
  handled-IsSafe taken t (h, events, ok back) f =
      send_back-IsSafe taken (record t { handler = h }) back f

  -- The packet, if one was received, does not carry an id that this side may still hand out.
  abbrev pub IsHonest : Handler → Result (PacketReceiverError (ℕ × ℕ)) P → Type 0
  IsHonest h (ok p) = IsForeign T h p
  IsHonest h (err e) = Unit

  on_received-IsSafe :
      (env : Channels) (chan : ℕ) (taken : Bool) (t : Task P)
      (r : Result (PacketReceiverError (ℕ × ℕ)) P)
      → IsHonest t.handler r
      → IsFresh t.handler
      → IsSafe (on_received T env chan taken t r)
  unfolding on_received
  on_received-IsSafe env chan taken t (ok p) honest f =
      handled-IsSafe taken t (send T env chan t.handler p)
        (send-IsFresh T env chan t.handler p honest f)
  on_received-IsSafe env chan taken t (err io) honest f = f
  on_received-IsSafe env chan taken t (err (hard e)) honest f = f
  on_received-IsSafe env chan taken t (err (soft (flags, id) e)) honest f =
      handled-IsSafe taken t (on_packet_error T t.handler flags id e)
        (on_packet_error-IsFresh t.handler flags id e f)

  finish-IsSafe : (taken : Bool) (t : Task P) → IsFresh t.handler → IsSafe (finish_task T taken t)
  unfolding finish_task
  finish-IsSafe true t f = elim (Option-cases t.close_packet) [
    | inl e ↦ rw (e, finish_task) f
    | inr (p, e) ↦ rw (e, finish_task) f
  ]
  finish-IsSafe false t f = elim (Option-cases t.close_packet) [
    | inl e ↦ rw (e, finish_task) f
    | inr (p, e) ↦ rw (e, finish_task) f
  ]

  on_request-IsSafe :
      (taken : Bool) (t : Task P) (s : Started T) → FreshAfter T s → IsSafe (on_request T taken t s)
  unfolding on_request finish_task
  on_request-IsSafe taken t (sent h p) f = write-IsSafe taken (record t { handler = h }) p f
  on_request-IsSafe taken t (out_of_ids h) f = elim (Bool-cases t.should_close) [
    | inl closing ↦ rw closing (finish-IsSafe taken (record t { handler = h }) f)
    | inr open_ ↦ rw open_ f
  ]
  on_request-IsSafe taken t panicked f = absurd f

  -- What a turn receives is honest.
  abbrev pub HonestTurn : {t : Task P} {o : Outcome P} → Turn T t o → Type 0
  HonestTurn {t} (receives env chan taken r on) = IsHonest t.handler r
  HonestTurn _ = Unit

  Turn-IsSafe :
      {t : Task P} {o : Outcome P} (s : Turn T t o) → HonestTurn s → IsFresh t.handler → IsSafe o
  unfolding start_close close
  Turn-IsSafe {t} (receives env chan taken r on) honest f =
      on_received-IsSafe env chan taken t r honest f
  Turn-IsSafe {t} (answers poll taken h p e) honest f =
      write-IsSafe taken (record t { handler = h }) p
        (users_to_send-IsFresh T poll t.handler h p e f)
  Turn-IsSafe {t} (requests taken req can) honest f =
      on_request-IsSafe taken t _ (request_to_send-FreshAfter T t.handler req can f)
  Turn-IsSafe {t} (pings taken on) honest f = write-IsSafe taken t _ f
  Turn-IsSafe {t} (closes on) honest f = close-IsFresh t.handler f
  Turn-IsSafe {t} (configures on) honest f = f
  Turn-IsSafe {t} (finishes taken closing idle) honest f = finish-IsSafe taken t f

  -- What is received in any turn is honest.
  abbrev pub Honest : {t : Task P} {o : Outcome P} → Run T t o → Type 0
  Honest (stops s) = HonestTurn s
  Honest (turns s run) = HonestTurn s × Honest run

  pub Run-IsSafe :
      {t : Task P} {o : Outcome P} (run : Run T t o) → Honest run → IsFresh t.handler → IsSafe o
  Run-IsSafe (stops s) honest f = Turn-IsSafe s honest f
  Run-IsSafe (turns s run) (honest, more) f = Run-IsSafe run more (Turn-IsSafe s honest f)
