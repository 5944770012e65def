-- ===== src/Bytes/Writes.antt =====
-- Sequences of writes: code that appends a known list of bytes to any buffer.
use native.Mathlib.Nat.{add-zero}
use mathlib.Core.List.{append-nil, append_assoc}
use lafere.Base.{
  ℕ, ◌+◌, ◌≡◌, ap, ◌∙◌, arith, true, List, [], ◌++◌, length, length-append, if◌then◌else◌, Result,
  ok, err, ◌>>=◌, Bool-cases, inl, inr,
}
use lafere.Bytes.{BytesWrite}

module _ (W : BytesWrite) where
  -- `bs` appended to `w`, or the error where the buffer has no room for it.
  abbrev pub put : {E : Type 0} → E → List ℕ → List ℕ → Result E (List ℕ)
  put e bs w = if W.has_room (length w + length bs) then ok (w ++ bs) else err e

  -- On every buffer that is not overfull, `m` appends `bs` or fails with `e`.
  abbrev pub Writes : {E : Type 0} → E → List ℕ → (List ℕ → Result E (List ℕ)) → Type 0
  Writes e bs m = (w : List ℕ) → W.has_room (length w) ≡ true → m w ≡ put e bs w

  room_of_append :
      (a b w : List ℕ)
      → W.has_room (length w + length (a ++ b)) ≡ true
      → W.has_room (length w + length a) ≡ true
  room_of_append a b w h = W.has_room_below _ _ (omega (arith, length-append a b)) h

  pub put_nil : {E : Type 0} (e : E) (w : List ℕ) → W.has_room (length w) ≡ true → ok w ≡ put e [] w
  put_nil e w h =
      let room : W.has_room (length w + 0) ≡ true = ap W.has_room (add-zero (length w)) ∙ h in
      rw (room, append-nil)

  pub put-put :
      {E : Type 0} (e : E) (a b w : List ℕ) → (put e a w >>= λ w'. put e b w') ≡ put e (a ++ b) w
  put-put e a b w = elim (Bool-cases (W.has_room (length w + length a))) [
    | inl some_room ↦ ground (arith, length-append w a, length-append a b, append_assoc w a b)
    | inr full ↦ ground (arith, room_of_append a b w)
  ]

  -- After `a` is written the buffer is not overfull, so `m` goes on from there.
  pub then_Writes :
      {E : Type 0} (e : E) (a b : List ℕ) (m : List ℕ → Result E (List ℕ))
      → Writes e b m
      → (w : List ℕ) → (put e a w >>= m) ≡ put e (a ++ b) w
  then_Writes e a b m h w = elim (Bool-cases (W.has_room (length w + length a))) [
    | inl some_room ↦ ground (arith, h (w ++ a), length-append w a, put-put e a b w)
    | inr full ↦ ground (arith, put-put e a b w)
  ]

  pub Writes-seq :
      {E : Type 0} (e : E) (a b : List ℕ) (m k : List ℕ → Result E (List ℕ))
      → Writes e a m
      → Writes e b k
      → Writes e (a ++ b) (λ w. m w >>= k)
  Writes-seq e a b m k hm hk w room = rw (hm w room) (then_Writes e a b k hk w)
