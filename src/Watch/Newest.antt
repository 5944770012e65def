-- ===== src/Watch/Newest.antt =====
-- lafere/src/util/watch.rs: what a receiver gets.
use lafere.Base.{
  ℕ, suc, ◌+◌, ◌%◌, ◌^◌, ◌<◌, ◌≡◌, refl, ◌∙◌, arith, List, [], ◌∷◌, length, ◌==◌, if◌then◌else◌,
}
use lafere.Watch.{
  Polled, Receiver, Shared, SenderOp, send, clone_sender, drop_sender, recv, does, runs, sent,
}

module _ (T : Type 0) where
  -- The last of the values, `d` where there is none.
  abbrev pub last_of : T → List T → T
  last_of d [] = d
  last_of d (e ∷ ds) = last_of e ds

  data-runs :
      (os : List (SenderOp T)) (s : Shared T) → (runs T os s).data_ ≡ last_of s.data_ (sent T os)
  unfolding does send clone_sender drop_sender
  data-runs [] s = refl
  data-runs (SenderOp.sends d ∷ os) s = data-runs os _
  data-runs (SenderOp.clones ∷ os) s = data-runs os _
  data-runs (SenderOp.drops ∷ os) s = data-runs os _

  next_version : (v n : ℕ) → (((v + 1) % 2 ^ 64) + n) % 2 ^ 64 ≡ (v + suc n) % 2 ^ 64
  next_version v n = omega arith

  version-runs :
      (os : List (SenderOp T)) (s : Shared T)
      → s.version < 2 ^ 64
      → (runs T os s).version ≡ (s.version + length (sent T os)) % 2 ^ 64
  unfolding does send clone_sender drop_sender
  version-runs [] s small = omega arith
  version-runs (SenderOp.sends d ∷ os) s small =
      version-runs os _ (omega arith) ∙ next_version s.version (length (sent T os))
  version-runs (SenderOp.clones ∷ os) s small = version-runs os _ small
  version-runs (SenderOp.drops ∷ os) s small = version-runs os _ small

  -- A receiver that has seen the version polls after any operations of senders, with any others
  -- between the load of the version and the rest: where less than 2 ^ 64 values, and at least one,
  -- were sent before the load, it gets the last value that was sent by then or in between and
  -- keeps the loaded version, and where none was, it is closed exactly where the count of senders
  -- is 0 by then, else waits.
  pub recv-runs :
      (os later : List (SenderOp T)) (s : Shared T) (r : Receiver)
      → r.version ≡ s.version
      → s.version < 2 ^ 64
      → length (sent T os) < 2 ^ 64
      → let before = runs T os s in
        let after = runs T later before in
        recv T before after r ≡ (
          if length (sent T os) == 0
          then ((if after.tx_count == 0 then Polled.closed else Polled.waiting), r)
          else (
            Polled.ready (last_of before.data_ (sent T later)),
            record { version = before.version },
          ))
  unfolding recv
  recv-runs os later s r seen small few =
      let n = length (sent T os) in
      let v = version-runs os s small in
      let same : (r.version == (runs T os s).version) ≡ (n == 0) = ground (arith, v, seen) in
      rw (same, data-runs later (runs T os s), recv) refl
