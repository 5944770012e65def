-- ===== src/Protopuffer/Decode/Loop.antt =====
-- protopuffer/src/decode.rs: how much the reads of the decoder take, and its loops' fuel.
use lafere.Base.{
  ℕ, zero, suc, ◌+◌, ◌*◌, ◌/◌, ◌%◌, ◌^◌, ◌≤◌, ◌<◌, ◌≡◌, refl, arith, bit_and, bit_or, Bool, true,
  false, Option, none, some, List, [], ◌∷◌, length, length-drop, ltb, leb, if◌then◌else◌,
  Bool-cases, inl, inr, Result, ok, err, ok_or, map_err, ◌>>=◌, Result-cases,
}
use lafere.Bytes.{BytesRead, split_at, split_word}
use lafere.Protopuffer.Wire.{DecodeError, WireType, from_tag}
use lafere.Protopuffer.Varint
use lafere.Protopuffer.Varint.{read_end, read_loop}
use lafere.Protopuffer.Decoder.{next_varint, next_kind, maybe_next_kind, next, finish}
use lafere.Protopuffer.Decode.{go_on, loop, read_all}

-- At most `k` bytes are left.
abbrev pub Within : {E A : Type 0} → ℕ → Result E (A × List ℕ) → Type 0
Within k (ok (a, r)) = length r ≤ k
Within k (err e) = Unit

Within-weaken :
    {E A : Type 0} (j k : ℕ) (m : Result E (A × List ℕ)) → j ≤ k → Within j m → Within k m
Within-weaken j k (ok (a, r)) le h = omega arith
Within-weaken j k (err e) le h = tt

Within-then :
    {E A B : Type 0} (k : ℕ) (m : Result E (A × List ℕ)) (f : A × List ℕ → Result E (B × List ℕ))
    → Within k m
    → ((a : A) (r : List ℕ) → length r ≤ k → Within k (f (a, r)))
    → Within k (m >>= f)
Within-then k (ok (a, r)) f h hf = hf a r h
Within-then k (err e) f h hf = tt

Within-map_err :
    {E F A : Type 0} (k : ℕ) (g : E → F) (m : Result E (A × List ℕ))
    → Within k m
    → Within k (map_err g m)
Within-map_err k g (ok (a, r)) h = h
Within-map_err k g (err e) h = tt

Within-if :
    {E A : Type 0} (k : ℕ) (b : Bool) (m n : Result E (A × List ℕ))
    → Within k m
    → Within k n
    → Within k (if b then m else n)
Within-if k true m n hm hn = hm
Within-if k false m n hm hn = hn

module _ (R : BytesRead) where
  read_end-Within :
      (k val : ℕ) (msb : Bool) (r : List ℕ) → length r ≤ k → Within k (read_end R val msb r)
  unfolding read_end
  read_end-Within k val true r h = tt
  read_end-Within k val false r h = h

  -- What one round makes of the value and of the flag.
  abbrev value_with : ℕ → ℕ → ℕ → ℕ
  value_with val i b = bit_or val (bit_and b 0x7f * 2 ^ (i * 7) % 2 ^ 64)

  abbrev announces : ℕ → Bool
  announces b = ltb 0 (bit_and b 0x80)

  read_loop-Within :
      (n i val k : ℕ) (msb : Bool) (r : List ℕ)
      → length r ≤ k
      → Within k (read_loop R n i val msb r)
  unfolding read_loop
  read_loop-Within zero i val k msb r h = read_end-Within k val msb r h
  read_loop-Within (suc n) i val k msb [] h = rw (R.u8_empty) tt
  read_loop-Within (suc n) i val k msb (b ∷ r) h =
      let val' = value_with val i b in
      rw (R.u8_next) (
        Within-if k (announces b) (read_loop R n (i + 1) val' (announces b) r)
          (read_end R val' (announces b) r)
          (read_loop-Within n (i + 1) val' k (announces b) r (omega arith))
          (read_end-Within k val' (announces b) r (omega arith)))

  read_loop-first :
      (n i val : ℕ) (msb : Bool) (b : ℕ) (r : List ℕ)
      → Within (length r) (read_loop R (suc n) i val msb (b ∷ r))
  unfolding read_loop
  read_loop-first n i val msb b r =
      let val' = value_with val i b in
      rw (R.u8_next) (
        Within-if (length r) (announces b) (read_loop R n (i + 1) val' (announces b) r)
          (read_end R val' (announces b) r)
          (read_loop-Within n (i + 1) val' (length r) (announces b) r (omega arith))
          (read_end-Within (length r) val' (announces b) r (omega arith)))

  next_varint-first : (b : ℕ) (r : List ℕ) → Within (length r) (next_varint R (b ∷ r))
  unfolding next_varint Varint.read
  next_varint-first b r = Within-map_err (length r) _ _ (read_loop-first 9 0 0 false b r)

  next_varint-Within : (k : ℕ) (r : List ℕ) → length r ≤ k → Within k (next_varint R r)
  unfolding next_varint Varint.read
  next_varint-Within k r h = Within-map_err k _ _ (read_loop-Within 10 0 0 k false r h)

  split_word-Within :
      (n k : ℕ) (e : DecodeError) (r : List ℕ) → length r ≤ k → Within k (ok_or (split_word n r) e)
  split_word-Within n k e r h = elim (Bool-cases (leb n (length r))) [
    | inl enough ↦ rw enough (omega (arith, length-drop n r))
    | inr short ↦ rw short tt
  ]

  split_word-first :
      (n k : ℕ) (e : DecodeError) (b : ℕ) (r : List ℕ)
      → 0 < n
      → length r ≤ k
      → Within k (ok_or (split_word n (b ∷ r)) e)
  split_word-first n k e b r hn h = elim (Bool-cases (leb n (length (b ∷ r)))) [
    | inl enough ↦ rw enough (omega (arith, length-drop n (b ∷ r)))
    | inr short ↦ rw short tt
  ]

  split_at-Within :
      (n k : ℕ) (e : DecodeError) (r : List ℕ) → length r ≤ k → Within k (ok_or (split_at n r) e)
  split_at-Within n k e r h = elim (Bool-cases (leb n (length r))) [
    | inl enough ↦ rw enough (omega (arith, length-drop n r))
    | inr short ↦ rw short tt
  ]

  next_kind-Within :
      (ty : WireType) (k : ℕ) (r : List ℕ) → length r ≤ k → Within k (next_kind R ty r)
  unfolding next_kind
  next_kind-Within WireType.varint k r h =
      Within-then k (next_varint R r) _ (next_varint-Within k r h) (λ v r' h'. h')
  next_kind-Within WireType.i64 k r h =
      rw (R.le_u64_lem) (Within-then k _ _ (split_word-Within 8 k _ r h) (λ v r' h'. h'))
  next_kind-Within WireType.i32 k r h =
      rw (R.le_u32_lem) (Within-then k _ _ (split_word-Within 4 k _ r h) (λ v r' h'. h'))
  next_kind-Within WireType.len k r h =
      Within-then k (next_varint R r) _ (next_varint-Within k r h) (λ n r' h'.
        rw (R.ref_lem) (Within-then k _ _ (split_at-Within n k _ r' h') (λ bs r'' h''. h'')))

-- A read of an item: what is left is less, where there is an item.
abbrev pub Shrinks : {A : Type 0} → ℕ → Result DecodeError (Option A × List ℕ) → Type 0
Shrinks k (ok (some a, r)) = length r < k
Shrinks k (ok (none, r)) = Unit
Shrinks k (err e) = Unit

Shrinks-some :
    {A B : Type 0} (k : ℕ) (g : A → B) (m : Result DecodeError (A × List ℕ))
    → Within k m
    → Shrinks (suc k) (m >>= λ (a, r). ok (some (g a), r))
Shrinks-some k g (ok (a, r)) h = omega arith
Shrinks-some k g (err e) h = tt

-- What the loops rely on of the function that reads an item.
abbrev pub Progress : {A : Type 0} → (List ℕ → Result DecodeError (Option A × List ℕ)) → Type 0
Progress get = ((r : List ℕ) → Shrinks (length r) (get r)) × (get [] ≡ ok (none, []))

module _ {A T : Type 0} (get : List ℕ → Result DecodeError (Option A × List ℕ))
    (step : A → T → Result DecodeError T) (progress : Progress get) where
  go_on-cong :
      (k : ℕ) (m : Result DecodeError (Option A × List ℕ)) (v : T)
      (f g : List ℕ → T → Result DecodeError T)
      → Shrinks k m
      → ((r : List ℕ) (u : T) → length r < k → f r u ≡ g r u)
      → (m >>= go_on get step f v) ≡ (m >>= go_on get step g v)
  go_on-cong k (err e) v f g h same = refl
  go_on-cong k (ok (none, r)) v f g h same = refl
  go_on-cong k (ok (some a, r)) v f g h same = elim (Result-cases (step a v)) [
    | inl (u, e) ↦ rw e (same r u h)
    | inr (bad, e) ↦ rw e refl
  ]

  loop_enough :
      (n m : ℕ) (r : List ℕ) (v : T)
      → length r ≤ n
      → length r ≤ m
      → loop get step n r v ≡ loop get step m r v
  unfolding loop finish
  loop_enough zero zero r v hn hm = refl
  loop_enough zero (suc m) [] v hn hm = rw (progress.1) refl
  loop_enough (suc n) zero [] v hn hm = rw (progress.1) refl
  loop_enough zero (suc m) (b ∷ r) v hn hm = absurd (omega arith)
  loop_enough (suc n) zero (b ∷ r) v hn hm = absurd (omega arith)
  loop_enough (suc n) (suc m) r v hn hm =
      go_on-cong (length r) (get r) v (λ r' v'. loop get step n r' v')
        (λ r' v'. loop get step m r' v') (progress.0 r)
        (λ r' u lt. loop_enough n m r' u (omega arith) (omega arith))

  -- The loop, given as many rounds as there are bytes, goes on as its body says.
  pub read_all_unfolds :
      (r : List ℕ) (v : T)
      → read_all get step r v ≡ (get r >>= go_on get step (λ r' v'. read_all get step r' v') v)
  unfolding read_all loop finish
  read_all_unfolds [] v = rw (progress.1) refl
  read_all_unfolds (b ∷ r) v =
      go_on-cong (length (b ∷ r)) (get (b ∷ r)) v (λ r' v'. loop get step (length r) r' v')
        (λ r' v'. loop get step (length r') r' v') (progress.0 (b ∷ r))
        (λ r' u lt. loop_enough (length r) (length r') r' u (omega arith) (omega arith))

Shrinks-then :
    {A B : Type 0} (k : ℕ) (m : Result DecodeError (A × List ℕ))
    (f : A × List ℕ → Result DecodeError (Option B × List ℕ))
    → Within k m
    → ((a : A) (r : List ℕ) → length r ≤ k → Shrinks (suc k) (f (a, r)))
    → Shrinks (suc k) (m >>= f)
Shrinks-then k (ok (a, r)) f h hf = hf a r h
Shrinks-then k (err e) f h hf = tt

Shrinks-after :
    {A B : Type 0} (k : ℕ) (m : Result DecodeError A)
    (f : A → Result DecodeError (Option B × List ℕ))
    → ((a : A) → Shrinks k (f a))
    → Shrinks k (m >>= f)
Shrinks-after k (ok a) f hf = hf a
Shrinks-after k (err e) f hf = tt

module _ (R : BytesRead) where
  next_kind-first :
      (ty : WireType) (b : ℕ) (r : List ℕ) → Within (length r) (next_kind R ty (b ∷ r))
  unfolding next_kind
  next_kind-first WireType.varint b r =
      Within-then (length r) (next_varint R (b ∷ r)) _ (next_varint-first R b r) (λ v r' h'. h')
  next_kind-first WireType.i64 b r = rw (R.le_u64_lem) (
      Within-then (length r) _ _ (split_word-first R 8 (length r) _ b r (omega arith) (omega arith))
        (λ v r' h'. h'))
  next_kind-first WireType.i32 b r = rw (R.le_u32_lem) (
      Within-then (length r) _ _ (split_word-first R 4 (length r) _ b r (omega arith) (omega arith))
        (λ v r' h'. h'))
  next_kind-first WireType.len b r =
      Within-then (length r) (next_varint R (b ∷ r)) _ (next_varint-first R b r) (λ n r' h'.
        rw (R.ref_lem)
          (Within-then (length r) _ _ (split_at-Within R n (length r) _ r' h') (λ bs r'' h''. h'')))

  maybe_next_kind-Shrinks :
      (ty : WireType) (r : List ℕ) → Shrinks (length r) (maybe_next_kind R ty r)
  unfolding maybe_next_kind
  maybe_next_kind-Shrinks ty [] = tt
  maybe_next_kind-Shrinks ty (b ∷ r) =
      Shrinks-some (length r) (λ k. k) (next_kind R ty (b ∷ r)) (next_kind-first ty b r)

  pub maybe_next_kind-Progress : (ty : WireType) → Progress (maybe_next_kind R ty)
  unfolding maybe_next_kind
  maybe_next_kind-Progress ty = (maybe_next_kind-Shrinks ty, refl)

  next-Shrinks : (r : List ℕ) → Shrinks (length r) (next R r)
  unfolding next
  next-Shrinks [] = tt
  next-Shrinks (b ∷ r) =
      Shrinks-then (length r) (next_varint R (b ∷ r)) _ (next_varint-first R b r) (λ tag r' h.
        Shrinks-after (suc (length r)) (from_tag tag) _ (λ ty.
          Shrinks-some (length r) (λ kind. record { number = tag / 8; kind = kind })
            (next_kind R ty r') (next_kind-Within R ty (length r) r' h)))

  pub next-Progress : Progress (next R)
  unfolding next
  next-Progress = (next-Shrinks, refl)
