-- ===== src/Packet/Receiver/Pieces.antt =====
-- lafere/src/packet/builder.rs: how the bytes that arrive are cut into runs.
use mathlib.Core.List.{append_assoc, append-nil}
use lafere.Base.{
  ◌⊎◌, ℕ, zero, suc, ◌+◌, ◌-◌, ◌<◌, ◌≤◌, ◌≡◌, refl, sym, ap, ◌∙◌, arith, true, false, List, [], ◌∷◌,
  ◌++◌, length, length-append, take, drop, leb, Bool-cases, inl, inr,
}
use lafere.Packet.Receiver.{Arrivals, Progress, waits, panicked, ready, leftover, is_end, fill}

abbrev pub joined_runs : Arrivals → List ℕ
joined_runs [] = []
joined_runs (c ∷ cs) = c ++ joined_runs cs

abbrev pub whole : Arrivals → Arrivals
whole cs = leftover (joined_runs cs) []

-- No run is the end of the stream.
abbrev pub NoEnd : Arrivals → Type 0
NoEnd [] = Unit
NoEnd (c ∷ cs) = (is_end c ≡ false) × NoEnd cs

-- What is left taken as one run.
abbrev pub joined : {S A : Type 0} → Progress S A → Progress S A
joined (waits s) = waits s
joined panicked = panicked
joined (ready s rest r) = ready s (whole rest) r

pub joined_runs-leftover :
    (c : List ℕ) (cs : Arrivals) → joined_runs (leftover c cs) ≡ c ++ joined_runs cs
joined_runs-leftover [] cs = refl
joined_runs-leftover (b ∷ bs) cs = refl

pub joined_runs-whole : (cs : Arrivals) → joined_runs (whole cs) ≡ joined_runs cs
joined_runs-whole cs = joined_runs-leftover (joined_runs cs) [] ∙ append-nil (joined_runs cs)

pub leftover-NoEnd : (c : List ℕ) (cs : Arrivals) → NoEnd cs → NoEnd (leftover c cs)
leftover-NoEnd [] cs h = h
leftover-NoEnd (b ∷ bs) cs h = (refl, h)

take_within : (n : ℕ) (c d : List ℕ) → n ≤ length c → take n (c ++ d) ≡ take n c
take_within zero c d h = refl
take_within (suc n) [] d h = absurd (omega (arith, h))
take_within (suc n) (b ∷ bs) d h = ap (λ r. b ∷ r) (take_within n bs d (omega (arith, h)))

drop_within : (n : ℕ) (c d : List ℕ) → n ≤ length c → drop n (c ++ d) ≡ drop n c ++ d
drop_within zero c d h = refl
drop_within (suc n) [] d h = absurd (omega (arith, h))
drop_within (suc n) (b ∷ bs) d h = drop_within n bs d (omega (arith, h))

take_beyond : (n m : ℕ) (c d : List ℕ) → n ≡ length c + m → take n (c ++ d) ≡ c ++ take m d
take_beyond n m [] d h = ap (λ k. take k d) (omega (arith, h))
take_beyond zero m (b ∷ bs) d h = absurd (omega (arith, h))
take_beyond (suc n) m (b ∷ bs) d h = ap (λ r. b ∷ r) (take_beyond n m bs d (omega (arith, h)))

drop_beyond : (n m : ℕ) (c d : List ℕ) → n ≡ length c + m → drop n (c ++ d) ≡ drop m d
drop_beyond n m [] d h = ap (λ k. drop k d) (omega (arith, h))
drop_beyond zero m (b ∷ bs) d h = absurd (omega (arith, h))
drop_beyond (suc n) m (b ∷ bs) d h = drop_beyond n m bs d (omega (arith, h))

length_within : (n : ℕ) (c : List ℕ) → n ≤ length c → length (take n c) ≡ n
length_within zero c h = refl
length_within (suc n) [] h = absurd (omega (arith, h))
length_within (suc n) (b ∷ bs) h = ap suc (length_within n bs (omega (arith, h)))

take_all : (n : ℕ) (c : List ℕ) → length c ≤ n → take n c ≡ c
take_all zero [] h = refl
take_all zero (b ∷ bs) h = absurd (omega (arith, h))
take_all (suc n) [] h = refl
take_all (suc n) (b ∷ bs) h = ap (λ r. b ∷ r) (take_all n bs (omega (arith, h)))

lt-or-le : (a b : ℕ) → (a < b) ⊎ (b ≤ a)
lt-or-le a b = elim (Bool-cases (leb b a)) [
  | inl e ↦ inr (ground (arith, e))
  | inr e ↦ inl (ground (arith, e))
]

-- A run that doesn't fill the part.
fill_short :
    (len : ℕ) (got c : List ℕ) (cs : Arrivals)
    → is_end c ≡ false
    → length got + length c < len
    → fill len got (c ∷ cs) ≡ fill len (got ++ c) cs
unfolding fill
fill_short len got c cs some_ short =
    let all : take (len - length got) c ≡ c = take_all _ c (omega (arith, short)) in
    let open_ : leb len (length (got ++ c)) ≡ false = ground (arith, length-append got c, short) in
    rw (all, open_, some_) refl

-- A run that fills it.
pub fill_full :
    (len : ℕ) (got c : List ℕ) (cs : Arrivals)
    → length got ≤ len
    → len ≤ length got + length c
    → fill len got (c ∷ cs)
      ≡ ready (got ++ take (len - length got) c) (leftover (drop (len - length got) c) cs) true
unfolding fill
fill_full len got c cs under full =
    let room = len - length got in
    let done : leb len (length (got ++ take room c)) ≡ true = ground (
      arith,
      length-append got (take room c),
      length_within room c (omega (arith, full, under)),
      full,
      under,
    ) in
    rw done refl

is_end-append : (c d : List ℕ) → is_end c ≡ false → is_end (c ++ d) ≡ false
is_end-append [] d h = absurd (ground (arith, h))
is_end-append (b ∷ bs) d h = refl

-- A run that doesn't fill the part, with what follows it in the same run.
fill_split :
    (len : ℕ) (got c d : List ℕ)
    → is_end c ≡ false
    → length got + length c < len
    → fill len got ((c ++ d) ∷ []) ≡ fill len (got ++ c) (leftover d [])
fill_split len got c [] some_ short =
    ap (λ r. fill len got (r ∷ [])) (append-nil c) ∙ fill_short len got c [] some_ short
fill_split len got c (x ∷ xs) some_ short =
    let d : List ℕ = x ∷ xs in
    let n : length (got ++ c) ≡ length got + length c = length-append got c in
    let n' : length (c ++ d) ≡ length c + length d = length-append c d in
    elim (lt-or-le (length got + length c + length d) len) [
      | inl still ↦
          fill_short len got (c ++ d) [] (is_end-append c d some_) (omega (arith, n', still))
          ∙ ap (λ g. fill len g []) (sym (append_assoc got c d))
          ∙ sym (fill_short len (got ++ c) d [] refl (omega (arith, n, still)))
      | inr full ↦
          let m : len - length got ≡ length c + (len - length (got ++ c)) =
            omega (arith, n, short) in
          fill_full len got (c ++ d) [] (omega (arith, short)) (omega (arith, n', full))
          ∙ rw (take_beyond _ _ c d m, drop_beyond _ _ c d m, append_assoc) refl
          ∙ sym (fill_full len (got ++ c) d [] (omega (arith, n, short)) (omega (arith, n, full)))
    ]

pub leftover_some : (c d : List ℕ) → is_end c ≡ false → leftover (c ++ d) [] ≡ (c ++ d) ∷ []
leftover_some [] d h = absurd (ground (arith, h))
leftover_some (b ∷ bs) d h = refl

pub fill-whole :
    (len : ℕ) (got : List ℕ) (cs : Arrivals)
    → length got < len
    → NoEnd cs
    → joined (fill len got cs) ≡ joined (fill len got (whole cs))
fill-whole len got [] room h = refl
fill-whole len got (c ∷ cs) room (some_, h) =
    let d = joined_runs cs in
    let one : whole (c ∷ cs) ≡ (c ++ d) ∷ [] = leftover_some c d some_ in
    elim (lt-or-le (length got + length c) len) [
      | inl short ↦
          ap joined (fill_short len got c cs some_ short)
          ∙ fill-whole len (got ++ c) cs (omega (arith, length-append got c, short)) h
          ∙ sym (ap joined (ap (fill len got) one ∙ fill_split len got c d some_ short))
      | inr full ↦
          let within : len - length got ≤ length c = omega (arith, full) in
          ap joined (fill_full len got c cs (omega (arith, room)) full)
          ∙ rw
              (
                one,
                fill_full len got (c ++ d) [] (omega (arith, room))
                    (omega (arith, length-append c d, full)),
                take_within _ c d within,
                drop_within _ c d within,
                joined_runs-leftover,
                joined_runs-leftover,
                append-nil,
              )
              refl
    ]

-- No end is left where none arrived.
abbrev pub LeavesNoEnd : {S A : Type 0} → Progress S A → Type 0
LeavesNoEnd (waits s) = Unit
LeavesNoEnd panicked = Unit
LeavesNoEnd (ready s rest r) = NoEnd rest

pub fill-LeavesNoEnd :
    (len : ℕ) (got : List ℕ) (cs : Arrivals)
    → length got < len
    → NoEnd cs
    → LeavesNoEnd (fill len got cs)
unfolding fill
fill-LeavesNoEnd len got [] room h = tt
fill-LeavesNoEnd len got (c ∷ cs) room (some_, h) = elim (lt-or-le (length got + length c) len) [
  | inl short ↦
      rw (fill_short len got c cs some_ short)
        (fill-LeavesNoEnd len (got ++ c) cs (omega (arith, length-append got c, short)) h)
  | inr full ↦
      rw (fill_full len got c cs (omega (arith, room)) full)
        (leftover-NoEnd (drop (len - length got) c) cs h)
]
