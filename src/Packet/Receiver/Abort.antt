-- ===== src/Packet/Receiver/Abort.antt =====
-- lafere/src/packet/builder.rs: a receiver that is asked again.
use mathlib.Core.Path.{subst}
use lafere.Base.{
  ℕ, ◌-◌, ◌≡◌, refl, sym, ap, ◌∙◌, arith, Bool, true, false, ◌&&◌, Option, none, some, List, [],
  ◌∷◌, ◌++◌, length, take, drop, leb, ◌==◌, Bool-cases, inl, inr, Option-cases, ok, Result-cases,
}
use lafere.Packet.Receiver.{
  Arrivals, Format, Receiver, Progress, waits, panicked, ready, leftover, is_end, fill,
  header_complete, header_filled, read_header, take_message, body_complete, body_filled, over_limit,
  read_body, then_body, receive, Received,
}

either : (a b : Bool) → b ≡ false → (a && b) ≡ false
either true b h = h
either false b h = refl

leftover-append : (c : List ℕ) (cs ds : Arrivals) → leftover c (cs ++ ds) ≡ leftover c cs ++ ds
leftover-append [] cs ds = refl
leftover-append (b ∷ bs) cs ds = refl

-- What a part's loop comes to when more arrives.
abbrev fill_on : ℕ → Progress (List ℕ) Bool → Arrivals → Progress (List ℕ) Bool
fill_on len (waits got) ds = fill len got ds
fill_on len panicked ds = panicked
fill_on len (ready got rest full) ds = ready got (rest ++ ds) full

fill_resumes :
    (len : ℕ) (got : List ℕ) (cs ds : Arrivals)
    → fill len got (cs ++ ds) ≡ fill_on len (fill len got cs) ds
unfolding fill
fill_resumes len got [] ds = refl
fill_resumes len got (c ∷ cs) ds =
    let got' = got ++ take (len - length got) c in
    elim (Bool-cases (leb len (length got'))) [
      | inl full ↦
          rw full
            (ap (λ rest. ready got' rest true) (leftover-append (drop (len - length got) c) cs ds))
      | inr short ↦ elim (Bool-cases (is_end c)) [
        | inl ended ↦ rw (short, ended) refl
        | inr more ↦ rw (short, more) (fill_resumes len got' cs ds)
      ]
    ]

abbrev Grown : Progress (List ℕ) Bool → Type 0
Grown (waits got) = is_end got ≡ false
Grown panicked = Unit
Grown (ready got rest full) = Unit

is_end-append : (a b : List ℕ) → is_end a ≡ false → is_end (a ++ b) ≡ false
is_end-append [] b h = absurd (ground (arith, h))
is_end-append (x ∷ xs) b h = refl

fill-Grown : (len : ℕ) (got : List ℕ) (cs : Arrivals) → is_end got ≡ false → Grown (fill len got cs)
unfolding fill
fill-Grown len got [] h = h
fill-Grown len got (c ∷ cs) h =
    let got' = got ++ take (len - length got) c in
    elim (Bool-cases (leb len (length got'))) [
      | inl full ↦ rw full tt
      | inr short ↦ elim (Bool-cases (is_end c)) [
        | inl ended ↦ rw (short, ended) tt
        | inr more ↦ rw (short, more) (fill-Grown len got' cs (is_end-append got _ h))
      ]
    ]

module _ {H P : Type 0} (F : Format H P) where
  -- A receiver that waits is asked again when `ds` arrive; one that was ready has them left.
  abbrev pub resumed : Received F P → Arrivals → Received F P
  resumed (waits s) ds = receive F s ds
  resumed panicked ds = panicked
  resumed (ready s rest r) ds = ready s (rest ++ ds) r

  take_message_resumes :
      (s : Receiver H) (h : H) (rest ds : Arrivals)
      → take_message F s h (rest ++ ds) ≡ resumed (take_message F s h rest) ds
  unfolding take_message
  take_message_resumes s h rest ds =
      elim (Result-cases (F.from_bytes_and_header s.header_bytes s.body_bytes h)) [
        | inl (p, e) ↦ rw (e, take_message) refl
        | inr (bad, e) ↦ rw (e, take_message) refl
      ]

  body_complete_resumes :
      (s : Receiver H) (h : H) (rest ds : Arrivals)
      → body_complete F s h (rest ++ ds) ≡ resumed (body_complete F s h rest) ds
  unfolding body_complete
  body_complete_resumes s h rest ds = elim (Result-cases (F.mutate_body s.body_bytes)) [
    | inl (bytes, e) ↦
        rw (e, body_complete) (take_message_resumes (record s { body_bytes = bytes }) h rest ds)
    | inr (bad, e) ↦ rw (e, body_complete) refl
  ]

  received_body :
      (s : Receiver H) (h : H) (ds : Arrivals)
      → s.header ≡ some h
      → receive F s ds ≡ read_body F s h ds
  unfolding receive read_header
  received_body s h ds e =
      ap
        (λ (o : Option H). then_body F (elim o [
          | some h' ↦ ready s ds (ok tt)
          | none ↦ header_filled F s (fill F.full_header_len s.header_bytes ds)
        ]))
        e
      ∙ ap (λ (o : Option H). elim o [ none ↦ panicked | some h' ↦ read_body F s h' ds ]) e

  -- A body's first bytes are checked against the limit once.
  under_limit :
      (s : Receiver H) (h : H) (cs : Arrivals) (got : List ℕ)
      → over_limit F s h ≡ false
      → fill (F.full_body_len (F.body_len h)) s.body_bytes cs ≡ waits got
      → over_limit F (record s { body_bytes = got }) h ≡ false
  unfolding over_limit
  under_limit s h cs got under e = elim (Bool-cases (is_end s.body_bytes)) [
    | inl first ↦ either (is_end got) _ (rw first at under)
    | inr later ↦
        let grown : is_end got ≡ false = subst Grown e (fill-Grown _ s.body_bytes cs later) in
        rw grown refl
  ]

  body_filled_resumes :
      (s : Receiver H) (h : H) (x : Progress (List ℕ) Bool) (ds : Arrivals)
      → s.header ≡ some h
      → (F.body_len h == 0) ≡ false
      → ((got : List ℕ) → x ≡ waits got → over_limit F (record s { body_bytes = got }) h ≡ false)
      → body_filled F s h (fill_on (F.full_body_len (F.body_len h)) x ds)
        ≡ resumed (body_filled F s h x) ds
  unfolding read_body
  body_filled_resumes s h (waits got) ds e nonempty under =
      let s' = record s { body_bytes = got } in
      rw (received_body s' h ds e, nonempty, under got refl) refl
  body_filled_resumes s h panicked ds e nonempty under = refl
  body_filled_resumes s h (ready got rest true) ds e nonempty under =
      body_complete_resumes (record s { body_bytes = got }) h rest ds
  body_filled_resumes s h (ready got rest false) ds e nonempty under = refl

  read_body_resumes :
      (s : Receiver H) (h : H) (cs ds : Arrivals)
      → s.header ≡ some h
      → read_body F s h (cs ++ ds) ≡ resumed (read_body F s h cs) ds
  unfolding read_body
  read_body_resumes s h cs ds e = elim (Bool-cases (F.body_len h == 0)) [
    | inl none_ ↦ rw none_ (take_message_resumes s h cs ds)
    | inr nonempty ↦ elim (Bool-cases (over_limit F s h)) [
      | inl over ↦ rw (nonempty, over) refl
      | inr under ↦
          let len = F.full_body_len (F.body_len h) in
          rw (nonempty, under, fill_resumes len s.body_bytes cs ds)
            (body_filled_resumes s h (fill len s.body_bytes cs) ds e nonempty
              (λ got w. under_limit s h cs got under w))
    ]
  ]

  header_complete_resumes :
      (s : Receiver H) (rest ds : Arrivals)
      → then_body F (header_complete F s (rest ++ ds))
        ≡ resumed (then_body F (header_complete F s rest)) ds
  unfolding header_complete
  header_complete_resumes s rest ds = elim (Result-cases (F.mutate_header s.header_bytes)) [
    | inr (bad, e) ↦ rw (e, header_complete) refl
    | inl (bytes, e) ↦ elim (Result-cases (F.from_bytes bytes)) [
      | inr (bad, e') ↦ rw (e, e', header_complete) refl
      | inl (h, e') ↦
          rw (e, e', header_complete)
            (read_body_resumes (record s { header_bytes = bytes; header = some h }) h rest ds refl)
    ]
  ]

  received_header :
      (s : Receiver H) (ds : Arrivals)
      → s.header ≡ none
      → receive F s ds ≡ then_body F (header_filled F s (fill F.full_header_len s.header_bytes ds))
  unfolding receive read_header
  received_header s ds e =
      ap
        (λ (o : Option H). then_body F (elim o [
          | some h' ↦ ready s ds (ok tt)
          | none ↦ header_filled F s (fill F.full_header_len s.header_bytes ds)
        ]))
        e

  header_filled_resumes :
      (s : Receiver H) (x : Progress (List ℕ) Bool) (ds : Arrivals)
      → s.header ≡ none
      → then_body F (header_filled F s (fill_on F.full_header_len x ds))
        ≡ resumed (then_body F (header_filled F s x)) ds
  unfolding receive read_header
  header_filled_resumes s (waits got) ds e =
      sym (received_header (record s { header_bytes = got }) ds e)
  header_filled_resumes s panicked ds e = refl
  header_filled_resumes s (ready got rest true) ds e =
      header_complete_resumes (record s { header_bytes = got }) rest ds
  header_filled_resumes s (ready got rest false) ds e = refl

  -- Receiving is safe to abort, in every state of the receiver and for every format of packets,
  -- errors included: receiving while `cs` and then `ds` arrive comes to the same as receiving
  -- while `cs` arrive and, if the future then still waits and is dropped, receiving anew in the
  -- state it left while `ds` arrive; if it was ready, `ds` is left behind what was left.
  pub receive_resumes :
      (s : Receiver H) (cs ds : Arrivals) → receive F s (cs ++ ds) ≡ resumed (receive F s cs) ds
  receive_resumes s cs ds = elim (Option-cases s.header) [
    | inl e ↦
        let x = fill F.full_header_len s.header_bytes cs in
        rw
          (
            received_header s (cs ++ ds) e,
            received_header s cs e,
            fill_resumes F.full_header_len s.header_bytes cs ds,
          )
          (header_filled_resumes s x ds e)
    | inr (h, e) ↦
        rw (received_body s h (cs ++ ds) e, received_body s h cs e) (read_body_resumes s h cs ds e)
  ]
