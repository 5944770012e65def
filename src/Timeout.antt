-- ===== src/Timeout.antt =====
-- lafere/src/util/timeout.rs: a reader that fails when its stream has given nothing for too long.
-- Times and durations are numbers; what the stream gives is up to the surroundings.
pub mod History
use lafere.Base.{ℕ, ◌+◌, ◌≡◌, Bool, true, false, leb, List, [], ◌∷◌}

-- `Sleep` of tokio, by the time at which it ends.
pub record Sleeps : Type 1 where
  pub Sleep : Type 0
  pub deadline : Sleep → ℕ
  pub sleep_until : ℕ → Sleep
  pub reset : ℕ → Sleep → Sleep
  pub poll : (now : ℕ) → Sleep → Bool × Sleep
  pub deadline-sleep_until : (at_ : ℕ) → deadline (sleep_until at_) ≡ at_
  pub deadline-reset : (at_ : ℕ) (s : Sleep) → deadline (reset at_ s) ≡ at_
  pub deadline-poll : (now : ℕ) (s : Sleep) → deadline ((poll now s).1) ≡ deadline s
  pub poll_lem : (now : ℕ) (s : Sleep) → (poll now s).0 ≡ leb (deadline s) now

-- What a read comes to. `R` is the `io::Result` of the stream.
pub data Poll (R : Type 0) : Type 0 where
  pending timed_out : Poll R
  ready : R → Poll R

-- What the stream gives to a read.
pub data Given (R : Type 0) : Type 0 where
  nothing : Given R
  gives : R → Given R

-- `now` is the time of the call, `later` the time at which its timer is polled.
pub data Call (R : Type 0) : Type 0 where
  read : (now later : ℕ) → Given R → Call R
  sets_timeout : (now timeout : ℕ) → Call R

module _ (Y : Sleeps) where
  pub record TimeoutReader : Type 0 where
    pub timeout : ℕ
    pub timer : Y.Sleep
    pub active : Bool

  unfoldable pub new : (now timeout : ℕ) → TimeoutReader
  new now timeout = record { timeout = timeout; timer = Y.sleep_until now; active = false }

  unfoldable pub set_timeout : (now timeout : ℕ) → TimeoutReader → TimeoutReader
  set_timeout now timeout me = record {
    timeout = timeout;
    timer = Y.reset now me.timer;
    active = false;
  }

  -- The timer starts with the first read that finds nothing.
  abbrev pub activate : ℕ → Bool → TimeoutReader → TimeoutReader
  activate now true me = me
  activate now false me = record me { timer = Y.reset (now + me.timeout) me.timer; active = true }

  -- Whether the timer has ended.
  unfoldable pub poll_timeout : (now later : ℕ) → TimeoutReader → Bool × TimeoutReader
  poll_timeout now later me =
      let me1 = activate now me.active me in
      let (ended, timer) = Y.poll later me1.timer in (ended, record me1 { timer = timer })

  abbrev pub waited : {R : Type 0} → Bool × TimeoutReader → Poll R × TimeoutReader
  waited (true, me) = (timed_out, me)
  waited (false, me) = (pending, me)

  unfoldable pub poll_read :
      {R : Type 0} → (now later : ℕ) → Given R → TimeoutReader → Poll R × TimeoutReader
  unfolding poll_timeout
  poll_read now later nothing me = waited (poll_timeout now later me)
  poll_read now later (gives r) me = (ready r, record me { active = false })

  unfoldable pub call : {R : Type 0} → Call R → TimeoutReader → TimeoutReader
  unfolding set_timeout poll_read
  call (read now later given) me = (poll_read now later given me).1
  call (sets_timeout now timeout) me = set_timeout now timeout me

  -- The calls of the past, the newest first.
  abbrev pub calls : {R : Type 0} → List (Call R) → TimeoutReader → TimeoutReader
  calls [] me = me
  calls (c ∷ past) me = call c (calls past me)
