-- ===== src/Tests/Timing.antt =====
-- Runs of the reader of lafere/src/util/timeout.rs.
use lafere.Base.{ℕ, ◌≡◌, refl, leb, [], ◌∷◌}
use lafere.Timeout.{
  Sleeps, pending, timed_out, nothing, gives, read, sets_timeout, new, poll_timeout, poll_read,
  call, calls,
}
use lafere.Timeout.History.{poll_read-calls}

abbrev pub sleeps : Sleeps
sleeps = record {
  Sleep = ℕ;
  deadline = λ s. s;
  sleep_until = λ t. t;
  reset = λ t s. t;
  poll = λ now s. (leb s now, s);
  deadline-sleep_until = λ t. refl;
  deadline-reset = λ t s. refl;
  deadline-poll = λ now s. refl;
  poll_lem = λ now s. refl;
}

-- The stream gives nothing for 100 after the first read that finds nothing.
fails_again :
    (poll_read sleeps {R = ℕ} 650 650 nothing (
      calls sleeps {R = ℕ} (read 600 600 nothing ∷ read 500 501 nothing ∷ []) (new sleeps 0 100))).0
    ≡ timed_out
unfolding new call poll_timeout poll_read
fails_again = refl

poll_read-calls_example :
    (poll_read sleeps {R = ℕ} 560 560 nothing (
      calls sleeps {R = ℕ}
        (read 550 550 nothing
          ∷ read 510 510 (gives 7)
          ∷ read 500 500 nothing
          ∷ sets_timeout 450 60
          ∷ [])
        (new sleeps 0 5))).0
    ≡ pending
poll_read-calls_example =
    poll_read-calls sleeps 0 5
      (read 550 550 nothing
        ∷ read 510 510 (gives 7)
        ∷ read 500 500 nothing
        ∷ sets_timeout 450 60
        ∷ [])
      560 560 nothing
