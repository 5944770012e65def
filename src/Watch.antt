-- ===== src/Watch.antt =====
-- lafere/src/util/watch.rs: the channel of the configuration, of which a receiver gets the newest
-- value. The notification is that a receiver which waits polls again.
pub mod Newest
use lafere.Base.{ℕ, ◌+◌, ◌-◌, ◌%◌, ◌^◌, ◌≡◌, Bool, List, [], ◌∷◌, ◌==◌, if◌then◌else◌}

pub data Polled (T : Type 0) : Type 0 where
  ready : T → Polled T
  closed waiting : Polled T

pub record Receiver : Type 0 where
  pub version : ℕ

module _ (T : Type 0) where
  pub record Shared : Type 0 where
    pub data_ : T
    pub version : ℕ
    pub tx_count : ℕ

  pub data SenderOp : Type 0 where
    sends : T → SenderOp
    clones drops : SenderOp

  unfoldable pub channel : T → Shared × Receiver
  channel d = (record { data_ = d; version = 1; tx_count = 1 }, record { version = 0 })

  unfoldable pub send : T → Shared → Shared
  send d s = record s { data_ = d; version = (s.version + 1) % 2 ^ 64 }

  unfoldable pub clone_sender : Shared → Shared
  clone_sender s = record s { tx_count = (s.tx_count + 1) % 2 ^ 64 }

  unfoldable pub drop_sender : Shared → Shared
  drop_sender s = record s { tx_count = (s.tx_count + (2 ^ 64 - 1)) % 2 ^ 64 }

  -- A round of the loop. What the senders do in between is seen: the version is loaded of `before`,
  -- and the data or the number of senders of `after`.
  unfoldable pub recv : (before after : Shared) → Receiver → Polled T × Receiver
  recv before after r =
      if r.version == before.version
      then ((if after.tx_count == 0 then closed else waiting), r)
      else (ready after.data_, record { version = before.version })

  unfoldable pub newest : Shared → T
  newest s = s.data_

  unfoldable pub does : SenderOp → Shared → Shared
  does (sends d) = send d
  does clones = clone_sender
  does drops = drop_sender

  abbrev pub runs : List SenderOp → Shared → Shared
  runs [] s = s
  runs (o ∷ os) s = runs os (does o s)

  abbrev pub sent : List SenderOp → List T
  sent [] = []
  sent (sends d ∷ os) = d ∷ sent os
  sent (clones ∷ os) = sent os
  sent (drops ∷ os) = sent os
