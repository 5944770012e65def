-- ===== src/Tests/Watching.antt =====
-- Runs of the channel of lafere/src/util/watch.rs.
use lafere.Base.{ℕ, ◌≡◌, refl, arith, [], ◌∷◌}
use lafere.Watch.{
  Polled, Receiver, Shared, SenderOp, channel, send, clone_sender, drop_sender, recv, does, runs,
}
use lafere.Watch.Newest.{recv-runs}

abbrev seen_shared : Shared ℕ
seen_shared = record { data_ = 4; version = 1; tx_count = 1 }

abbrev seen : Receiver
seen = record { version = 1 }

first_value : (let (s, r) = channel ℕ 4 in recv ℕ s s r) ≡ (Polled.ready 4, seen)
unfolding channel recv
first_value = refl

-- The last sender sends 7 and is dropped after the version is loaded: 7 is not received.
lost_value :
    recv ℕ seen_shared (runs ℕ (SenderOp.sends 7 ∷ SenderOp.drops ∷ []) seen_shared) seen
    ≡ (Polled.closed, seen)
unfolding does send drop_sender recv
lost_value = refl

recv-runs_example :
    recv ℕ
      (runs ℕ (SenderOp.clones ∷ SenderOp.sends 5 ∷ SenderOp.drops ∷ []) seen_shared)
      (runs ℕ
        (SenderOp.sends 7 ∷ [])
        (runs ℕ (SenderOp.clones ∷ SenderOp.sends 5 ∷ SenderOp.drops ∷ []) seen_shared))
      seen
    ≡ (Polled.ready 7, record { version = 2 })
unfolding does send clone_sender drop_sender
recv-runs_example =
    recv-runs ℕ (SenderOp.clones ∷ SenderOp.sends 5 ∷ SenderOp.drops ∷ []) (SenderOp.sends 7 ∷ [])
      seen_shared seen refl (omega arith) (omega arith)
