-- ===== src/Timeout/History.antt =====
-- lafere/src/util/timeout.rs: when a read fails, by the calls before it.
use lafere.Base.{
  ℕ, ◌+◌, ◌≡◌, refl, sym, ap, ◌∙◌, arith, Bool, true, false, leb, Option, none, some, List, [], ◌∷◌,
  if◌then◌else◌,
}
use mathlib.Core.Path.{subst}
use lafere.Timeout.{
  Sleeps, Poll, pending, timed_out, ready, Given, nothing, gives, Call, read, sets_timeout,
  TimeoutReader, new, set_timeout, poll_timeout, waited, poll_read, call, calls,
}

abbrev pub started : Option ℕ → ℕ → ℕ
started none now = now
started (some t) now = t

-- Since when the reads of the past have found nothing, one after the other.
abbrev pub waits_since : {R : Type 0} → List (Call R) → Option ℕ
waits_since [] = none
waits_since (sets_timeout now timeout ∷ past) = none
waits_since (read now later (gives r) ∷ past) = none
waits_since (read now later nothing ∷ past) = some (started (waits_since past) now)

-- The timeout that was set last.
abbrev pub timeout_of : {R : Type 0} → ℕ → List (Call R) → ℕ
timeout_of first [] = first
timeout_of first (sets_timeout now timeout ∷ past) = timeout
timeout_of first (read now later given ∷ past) = timeout_of first past

-- What a read is to come to.
abbrev pub expected : {R : Type 0} → ℕ → List (Call R) → (now later : ℕ) → Given R → Poll R
expected first past now later (gives r) = ready r
expected first past now later nothing =
    if leb (started (waits_since past) now + timeout_of first past) later
    then timed_out
    else pending

module _ (Y : Sleeps) where
  -- The reader tells since when it waits by its timer.
  abbrev Tells : ℕ → Option ℕ → TimeoutReader Y → Type 0
  Tells d none me = (me.timeout ≡ d) × (me.active ≡ false)
  Tells d (some t) me = (me.timeout ≡ d) × (me.active ≡ true) × (Y.deadline me.timer ≡ t + d)

  poll_timeout_lem :
      (d now later : ℕ) (since : Option ℕ) (me : TimeoutReader Y)
      → Tells d since me
      → ((poll_timeout Y now later me).0 ≡ leb (started since now + d) later)
        × Tells d (some (started since now)) (poll_timeout Y now later me).1
  unfolding poll_timeout
  poll_timeout_lem d now later none me (ht, ha) = ground (
    arith,
    Y.poll_lem later (Y.reset (now + me.timeout) me.timer),
    Y.deadline-reset (now + me.timeout) me.timer,
    Y.deadline-poll later (Y.reset (now + me.timeout) me.timer),
  )
  poll_timeout_lem d now later (some t) me (ht, ha, hd) =
      ground (arith, Y.poll_lem later me.timer, Y.deadline-poll later me.timer)

  waited_lem :
      {R : Type 0} (r : Bool × TimeoutReader Y)
      → (waited Y {R = R} r).0 ≡ (if r.0 then timed_out else pending)
  waited_lem (true, me) = refl
  waited_lem (false, me) = refl

  waited_state : (R : Type 0) (r : Bool × TimeoutReader Y) → (waited Y {R = R} r).1 ≡ r.1
  waited_state R (true, me) = refl
  waited_state R (false, me) = refl

  new-Tells : (start first : ℕ) → Tells first none (new Y start first)
  unfolding new
  new-Tells start first = (refl, refl)

  stopped-Tells :
      (d : ℕ) (me : TimeoutReader Y) (since : Option ℕ)
      → Tells d since me
      → Tells d none (record me { active = false })
  stopped-Tells d me none told = (told.0, refl)
  stopped-Tells d me (some t) told = (told.0, refl)

  calls-Tells :
      {R : Type 0} (start first : ℕ) (past : List (Call R))
      → Tells (timeout_of first past) (waits_since past) (calls Y past (new Y start first))
  unfolding call set_timeout poll_read
  calls-Tells start first [] = new-Tells start first
  calls-Tells start first (sets_timeout now timeout ∷ past) = (refl, refl)
  calls-Tells start first (read now later (gives r) ∷ past) =
      stopped-Tells _ _ (waits_since past) (calls-Tells start first past)
  calls-Tells {R} start first (read now later nothing ∷ past) =
      let me = calls Y past (new Y start first) in
      subst (Tells (timeout_of first past) (some (started (waits_since past) now)))
        (sym (waited_state R (poll_timeout Y now later me)))
        (poll_timeout_lem (timeout_of first past) now later (waits_since past) me
          (calls-Tells start first past)).1

  -- After any reads and changes of the timeout, a read that the stream gives something to comes to
  -- that; and a read that it gives nothing to fails with the timeout exactly where the timeout
  -- that was set last has passed since the first of the reads that found nothing one after the
  -- other, with no change of the timeout in between, of which this may be the first itself, and is
  -- pending else.
  pub poll_read-calls :
      {R : Type 0} (start first : ℕ) (past : List (Call R)) (now later : ℕ) (given : Given R)
      → (poll_read Y now later given (calls Y past (new Y start first))).0
        ≡ expected first past now later given
  unfolding poll_read
  poll_read-calls start first past now later (gives r) = refl
  poll_read-calls start first past now later nothing =
      let me = calls Y past (new Y start first) in
      waited_lem (poll_timeout Y now later me)
      ∙ ap (λ b. if b then timed_out else pending)
          (poll_timeout_lem (timeout_of first past) now later (waits_since past) me
            (calls-Tells start first past)).0
