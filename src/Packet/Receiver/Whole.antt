-- ===== src/Packet/Receiver/Whole.antt =====
-- lafere/src/packet/builder.rs: a packet does not depend on how its bytes are cut into runs.
use mathlib.Core.List.{append-nil}
use lafere.Base.{
  ◌∷◌, ◌+◌, ◌-◌, ◌≤◌, ◌++◌, length-append, take-append_length, drop-append_length, ℕ, ◌<◌, ◌≡◌,
  refl, sym, ap, ◌∙◌, arith, Bool, true, false, some, List, [], length, ◌==◌, Bool-cases, inl, inr,
  err, Result-cases,
}
use lafere.Packet.Receiver.{
  Arrivals, Format, Receiver, Progress, waits, panicked, ready, leftover, io, fill, header_complete,
  header_filled, read_header, take_message, body_complete, body_filled, over_limit, read_body,
  then_body, receive, new,
}
use lafere.Packet.Receiver.Pieces.{
  whole, NoEnd, joined, joined_runs, joined_runs-leftover, leftover-NoEnd, joined_runs-whole,
  LeavesNoEnd, fill-whole, fill_full, fill-LeavesNoEnd,
}

whole-whole : (cs : Arrivals) → whole (whole cs) ≡ whole cs
whole-whole cs = ap (λ r. leftover r []) (joined_runs-whole cs)

whole-NoEnd : (cs : Arrivals) → NoEnd (whole cs)
whole-NoEnd cs = leftover-NoEnd (joined_runs cs) [] tt

module _ {H P : Type 0} (F : Format H P) where
  -- What is ready has what it was given left, and does not depend on it.
  abbrev Agree : {A : Type 0} → (Arrivals → Progress (Receiver H) A) → Arrivals → Type 0
  Agree f rest = (joined (f rest) ≡ joined (f (whole rest))) × (NoEnd rest → LeavesNoEnd (f rest))

  ready-Agree :
      {A : Type 0} (s : Receiver H) (r : A) (rest : Arrivals) → Agree (λ cs. ready s cs r) rest
  ready-Agree s r rest = (ap (λ cs. ready s cs r) (sym (whole-whole rest)), λ h. h)

  take_message-Agree : (s : Receiver H) (h : H) (rest : Arrivals) → Agree (take_message F s h) rest
  unfolding take_message
  take_message-Agree s h rest =
      elim (Result-cases (F.from_bytes_and_header s.header_bytes s.body_bytes h)) [
        | inl (p, e) ↦ rw (e, take_message) (ready-Agree _ _ rest)
        | inr (bad, e) ↦ rw (e, take_message) (ready-Agree _ _ rest)
      ]

  body_complete-Agree :
      (s : Receiver H) (h : H) (rest : Arrivals) → Agree (body_complete F s h) rest
  unfolding body_complete
  body_complete-Agree s h rest = elim (Result-cases (F.mutate_body s.body_bytes)) [
    | inl (bytes, e) ↦
        rw (e, body_complete) (take_message-Agree (record s { body_bytes = bytes }) h rest)
    | inr (bad, e) ↦ rw (e, body_complete) (ready-Agree _ _ rest)
  ]

  body_filled-whole :
      (s : Receiver H) (h : H) (x : Progress (List ℕ) Bool)
      → joined (body_filled F s h x) ≡ joined (body_filled F s h (joined x))
  body_filled-whole s h (waits got) = refl
  body_filled-whole s h panicked = refl
  body_filled-whole s h (ready got rest true) =
      (body_complete-Agree (record s { body_bytes = got }) h rest).0
  body_filled-whole s h (ready got rest false) =
      (ready-Agree (record s { body_bytes = got }) (err io) rest).0

  body_filled-LeavesNoEnd :
      (s : Receiver H) (h : H) (x : Progress (List ℕ) Bool)
      → LeavesNoEnd x
      → LeavesNoEnd (body_filled F s h x)
  body_filled-LeavesNoEnd s h (waits got) n = tt
  body_filled-LeavesNoEnd s h panicked n = tt
  body_filled-LeavesNoEnd s h (ready got rest true) n =
      (body_complete-Agree (record s { body_bytes = got }) h rest).1 n
  body_filled-LeavesNoEnd s h (ready got rest false) n = n

  module _ (header_room : 0 < F.full_header_len)
      (body_room : (n : ℕ) → (n == 0) ≡ false → 0 < F.full_body_len n) where
    read_body-Agree :
        (s : Receiver H) (h : H) (rest : Arrivals)
        → length s.body_bytes ≡ 0
        → NoEnd rest
        → (joined (read_body F s h rest) ≡ joined (read_body F s h (whole rest)))
          × LeavesNoEnd (read_body F s h rest)
    unfolding read_body
    read_body-Agree s h rest none_read n = elim (Bool-cases (F.body_len h == 0)) [
      | inl empty ↦ rw empty ((take_message-Agree s h rest).0, (take_message-Agree s h rest).1 n)
      | inr nonempty ↦ elim (Bool-cases (over_limit F s h)) [
        | inl over ↦ rw (nonempty, over) ((ready-Agree s _ rest).0, n)
        | inr under ↦
            let len = F.full_body_len (F.body_len h) in
            let room : length s.body_bytes < len =
              omega (arith, none_read, body_room (F.body_len h) nonempty) in
            rw (nonempty, under)
              (
                body_filled-whole s h (fill len s.body_bytes rest)
                    ∙ ap (λ x. joined (body_filled F s h x))
                        (fill-whole len s.body_bytes rest room n)
                    ∙ sym (body_filled-whole s h (fill len s.body_bytes (whole rest))),
                body_filled-LeavesNoEnd s h (fill len s.body_bytes rest)
                    (fill-LeavesNoEnd len s.body_bytes rest room n),
              )
      ]
    ]

    header_complete-Agree :
        (s : Receiver H) (rest : Arrivals)
        → length s.body_bytes ≡ 0
        → NoEnd rest
        → (joined (then_body F (header_complete F s rest))
            ≡ joined (then_body F (header_complete F s (whole rest))))
          × LeavesNoEnd (then_body F (header_complete F s rest))
    unfolding header_complete
    header_complete-Agree s rest none_read n =
        elim (Result-cases (F.mutate_header s.header_bytes)) [
          | inr (bad, e) ↦ rw (e, header_complete) ((ready-Agree s _ rest).0, n)
          | inl (bytes, e) ↦ elim (Result-cases (F.from_bytes bytes)) [
            | inr (bad, e') ↦
                rw (e, e', header_complete)
                  ((ready-Agree (record s { header_bytes = bytes }) _ rest).0, n)
            | inl (h, e') ↦
                rw (e, e', header_complete)
                  (read_body-Agree (record s { header_bytes = bytes; header = some h }) h rest
                    none_read n)
          ]
        ]

    header_filled-whole :
        (s : Receiver H) (x : Progress (List ℕ) Bool)
        → length s.body_bytes ≡ 0
        → LeavesNoEnd x
        → (joined (then_body F (header_filled F s x))
            ≡ joined (then_body F (header_filled F s (joined x))))
          × LeavesNoEnd (then_body F (header_filled F s x))
    header_filled-whole s (waits got) none_read n = (refl, tt)
    header_filled-whole s panicked none_read n = (refl, tt)
    header_filled-whole s (ready got rest true) none_read n =
        header_complete-Agree (record s { header_bytes = got }) rest none_read n
    header_filled-whole s (ready got rest false) none_read n =
        ((ready-Agree (record s { header_bytes = got }) (err io) rest).0, n)

    -- A new receiver, runs of which none is the end: the same comes of them as of all their bytes
    -- in one run, with the same bytes left.
    pub receive-whole :
        (limit : ℕ) (cs : Arrivals)
        → NoEnd cs
        → (joined (receive F (new limit) cs) ≡ joined (receive F (new limit) (whole cs)))
          × LeavesNoEnd (receive F (new limit) cs)
    unfolding receive read_header new
    receive-whole limit cs n =
        let len = F.full_header_len in
        let x = fill len [] cs in
        let left = fill-LeavesNoEnd len [] cs header_room n in
        let left' = fill-LeavesNoEnd len [] (whole cs) header_room (whole-NoEnd cs) in
        let (same, left_over) = header_filled-whole (new limit) x refl left in
        (
          same
              ∙ ap (λ x. joined (then_body F (header_filled F (new limit) x)))
                  (fill-whole len [] cs header_room n)
              ∙ sym (header_filled-whole (new limit) (fill len [] (whole cs)) refl left').0,
          left_over,
        )

-- A result on one run is the result on the runs, with the same bytes left.
pub joined-ready :
    {S A : Type 0} (x : Progress S A) (s : S) (more : List ℕ) (r : A)
    → joined x ≡ joined (ready s (leftover more []) r)
    → LeavesNoEnd x
    → (rest : Arrivals) × (x ≡ ready s rest r) × (joined_runs rest ≡ more) × NoEnd rest
joined-ready (waits s') s more r e n = absurd (cc e)
joined-ready panicked s more r e n = absurd (cc e)
joined-ready (ready s' rest r') s more r e n =
    let same : s' ≡ s = cc e in
    let result : r' ≡ r = cc e in
    let left : whole rest ≡ whole (leftover more []) = cc e in
    (
      rest,
      rw (same, result) refl,
      sym (joined_runs-whole rest)
          ∙ ap joined_runs left
          ∙ joined_runs-whole (leftover more [])
          ∙ joined_runs-leftover more []
          ∙ append-nil more,
      n,
    )

-- A part that has arrived, with what follows it.
pub fill_part :
    (len : ℕ) (part more : List ℕ) (cs : Arrivals)
    → 0 < len
    → length part ≡ len
    → joined_runs cs ≡ part ++ more
    → NoEnd cs
    → (rest : Arrivals) × (fill len [] cs ≡ ready part rest true)
      × (joined_runs rest ≡ more)
      × NoEnd rest
fill_part len [] more cs room e bytes n = absurd (omega (arith, room, e))
fill_part len (x ∷ xs) more cs room e bytes n =
    let part : List ℕ = x ∷ xs in
    let at_ : len - 0 ≡ length part = omega (arith, e) in
    let enough : len ≤ 0 + length (part ++ more) = omega (arith, e, length-append part more) in
    let one : fill len [] ((part ++ more) ∷ []) ≡ ready part (leftover more []) true =
      fill_full len [] (part ++ more) [] (omega arith) enough
      ∙ rw (at_, take-append_length part more, drop-append_length part more) refl in
    joined-ready (fill len [] cs) part more true
      (fill-whole len [] cs room n
        ∙ ap (λ b. joined (fill len [] (leftover b []))) bytes
        ∙ ap joined one)
      (fill-LeavesNoEnd len [] cs room n)
