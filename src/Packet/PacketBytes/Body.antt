-- ===== src/Packet/PacketBytes/Body.antt =====
-- lafere/src/packet/body_bytes.rs: a body within the buffer of its packet is a body by itself.
use lafere.Base.{
  ℕ, ◌+◌, ◌-◌, ◌≤◌, ◌≡◌, refl, sym, ap, ◌∙◌, arith, leb, leb→le, Option, none, some, List, [], ◌∷◌,
  ◌++◌, length, length-append, length-take, length-replicate, take, drop, replicate, if◌then◌else◌,
  Bool-cases, inl, inr,
}
use mathlib.Core.Path.{subst}
use mathlib.Core.List.{append_assoc}
use lafere.Base.{drop-append_plus, take_plus}
use lafere.Packet.PacketBytes.{
  BodyBytesMut, OffsetCursors, BodyOp, writes, reads_file, seeks, resizes, reserves, serializes,
  resized, resize, from_file, serialize, does, do_all,
}

-- A body by itself, and the position in it.
abbrev pub Body : Type 0
Body = List ℕ × ℕ

abbrev pub put : List ℕ → Body → Body
put bs (b, p) = (take p b ++ (bs ++ drop (p + length bs) b), p + length bs)

abbrev pub put_all : List (List ℕ) → Body → Body
put_all [] v = v
put_all (piece ∷ pieces) v = put_all pieces (put piece v)

-- Where an operation is out of its range, there is none.
abbrev pub step : BodyOp → Body → Option Body
step (writes bs) v = some (put bs v)
step (reads_file file) (b, p) = some (b ++ file, p)
step (seeks pos) (b, p) = if leb pos (length b) then some (b, pos) else none
step (resizes len) (b, p) = if leb p len then some (resized len b, p) else none
step (reserves len) v = some v
step (serializes pieces) v = some (put_all pieces v)

abbrev pub bind : Option Body → (Body → Option Body) → Option Body
bind none f = none
bind (some v) f = f v

abbrev pub steps : List BodyOp → Body → Option Body
steps [] v = some v
steps (op ∷ ops) v = bind (step op v) (steps ops)

-- The body `v` after the bytes `front` of its buffer.
abbrev pub within : List ℕ → Body → BodyBytesMut
within front (b, p) = record { contents = front ++ b; offset = length front; position = p }

abbrev pub IsInRange : Body → Type 0
IsInRange (b, p) = p ≤ length b

put-IsInRange : (bs : List ℕ) (v : Body) → IsInRange v → IsInRange (put bs v)
put-IsInRange bs (b, p) h = omega (
  arith,
  length-append (take p b) (bs ++ drop (p + length bs) b),
  length-append bs (drop (p + length bs) b),
  length-take p b,
)

put_all-IsInRange : (pieces : List (List ℕ)) (v : Body) → IsInRange v → IsInRange (put_all pieces v)
put_all-IsInRange [] v h = h
put_all-IsInRange (piece ∷ pieces) v h =
    put_all-IsInRange pieces (put piece v) (put-IsInRange piece v h)

resized-append :
    (front b : List ℕ) (len : ℕ)
    → resized (length front + len) (front ++ b) ≡ front ++ resized len b
resized-append front b len =
    let same : (length front + len) - length (front ++ b) ≡ len - length b =
      omega (arith, length-append front b) in
    ap (λ (m : ℕ). take (length front + len) (front ++ b) ++ replicate m 0) same
    ∙ ap (λ (xs : List ℕ). xs ++ replicate (len - length b) 0) (take_plus _ len front b refl)
    ∙ append_assoc front (take len b) (replicate (len - length b) 0)

module _ (K : OffsetCursors) (front : List ℕ) where
  write-within :
      (bs : List ℕ) (v : Body) → IsInRange v → K.write bs (within front v) ≡ within front (put bs v)
  write-within bs (b, p) h =
      let at_ : ℕ = length front + p in
      let fits : at_ ≤ length (front ++ b) = omega (arith, length-append front b) in
      let far : at_ + length bs ≡ length front + (p + length bs) = omega arith in
      K.write_lem bs (within front (b, p)) fits
      ∙ ap
          (λ (xs : List ℕ). record {
            contents = xs;
            offset = length front;
            position = p + length bs;
          })
          (ap (λ (xs : List ℕ). xs ++ (bs ++ drop (at_ + length bs) (front ++ b)))
              (take_plus at_ p front b refl)
            ∙ ap (λ (xs : List ℕ). (front ++ take p b) ++ (bs ++ xs))
                (drop-append_plus (at_ + length bs) (p + length bs) front b far)
            ∙ append_assoc front (take p b) (bs ++ drop (p + length bs) b))

  serialize-within :
      (pieces : List (List ℕ)) (v : Body)
      → IsInRange v
      → serialize K pieces (within front v) ≡ within front (put_all pieces v)
  unfolding serialize
  serialize-within [] v h = refl
  serialize-within (piece ∷ pieces) v h =
      ap (serialize K pieces) (write-within piece v h)
      ∙ serialize-within pieces (put piece v) (put-IsInRange piece v h)

  -- `c` is the buffer of the body, if there is one.
  abbrev pub Agrees : Option Body → BodyBytesMut → Type 0
  Agrees none c = Unit
  Agrees (some v) c = (c ≡ within front v) × IsInRange v

  does-within :
      (op : BodyOp) (v : Body) → IsInRange v → Agrees (step op v) (does K op (within front v))
  unfolding does resize from_file
  does-within (writes bs) v h = (write-within bs v h, put-IsInRange bs v h)
  does-within (reads_file file) (b, p) h = (
    ap (λ (xs : List ℕ). record { contents = xs; offset = length front; position = p })
        (append_assoc front b file),
    omega (arith, length-append b file),
  )
  does-within (seeks pos) (b, p) h = elim (Bool-cases (leb pos (length b))) [
    | inl e ↦
        let near = leb→le pos (length b) e in
        rw e
          (K.seek_lem pos (within front (b, p)) (omega (arith, length-append front b, near)), near)
    | inr e ↦ rw e tt
  ]
  does-within (resizes len) (b, p) h = elim (Bool-cases (leb p len)) [
    | inl e ↦ rw e (
      ap (λ (xs : List ℕ). record { contents = xs; offset = length front; position = p })
          (resized-append front b len),
      omega (
        arith,
        leb→le p len e,
        length-append (take len b) (replicate {A = ℕ} (len - length b) 0),
        length-take len b,
        length-replicate {A = ℕ} (len - length b) 0,
      ),
    )
    | inr e ↦ rw e tt
  ]
  does-within (reserves len) v h = (refl, h)
  does-within (serializes pieces) v h = (serialize-within pieces v h, put_all-IsInRange pieces v h)

  go_on :
      (ops : List BodyOp) (o : Option Body) (c : BodyBytesMut)
      → ((v : Body) → IsInRange v → Agrees (steps ops v) (do_all K ops (within front v)))
      → Agrees o c
      → Agrees (bind o (steps ops)) (do_all K ops c)
  go_on ops none c rest h = tt
  go_on ops (some v) c rest h =
      subst (λ d. Agrees (steps ops v) (do_all K ops d)) (sym h.0) (rest v h.1)

  -- Operations on the body in its buffer come to those on the body by itself, and leave the bytes
  -- before it.
  pub do_all-within :
      (ops : List BodyOp) (v : Body)
      → IsInRange v
      → Agrees (steps ops v) (do_all K ops (within front v))
  do_all-within [] v h = (refl, h)
  do_all-within (op ∷ ops) v h =
      go_on ops (step op v) (does K op (within front v)) (do_all-within ops) (does-within op v h)

  new-within : (b : List ℕ) (o : ℕ) → o ≡ length front → K.new o (front ++ b) ≡ within front (b, 0)
  new-within b o e =
      ap (λ (n : ℕ). K.new n (front ++ b)) e
      ∙ K.new_lem (length front) (front ++ b) (omega (arith, length-append front b))

  -- The bytes of a buffer once its body was changed.
  pub body_mut_lem :
      (ops : List BodyOp) (b : List ℕ) (o : ℕ) (v : Body)
      → o ≡ length front
      → steps ops (b, 0) ≡ some v
      → (do_all K ops (K.new o (front ++ b))).contents ≡ front ++ v.0
  body_mut_lem ops b o v at_ e =
      let agrees =
        subst (λ r. Agrees r (do_all K ops (within front (b, 0)))) e
          (do_all-within ops (b, 0) (omega arith)) in
      ap (λ c. (do_all K ops c).contents) (new-within b o at_)
      ∙ ap (λ (c : BodyBytesMut). c.contents) agrees.0
