-- ===== src/Protopuffer/Decode/Ends.antt =====
-- protopuffer/src/decode.rs: the `while let` loops of the decoder end.
use mathlib.Core.Path.{subst}
use lafere.Base.{
  ℕ, zero, suc, ◌<◌, ◌≡◌, sym, arith, Option, none, some, List, length, inl, inr, Result, ok, err,
  ◌>>=◌, Result-cases,
}
use lafere.Bytes.{BytesRead}
use lafere.Protopuffer.Wire.{DecodeError, WireType, Field, FieldKind}
use lafere.Protopuffer.Decoder.{maybe_next_kind, next, finish}
use lafere.Protopuffer.Decode.{go_on, read_all}
use lafere.Protopuffer.Decode.Loop.{
  Progress, Shrinks, read_all_unfolds, next-Progress, maybe_next_kind-Progress,
}

-- `while let Some(item) = get()? { step(item)? }`, then `finish()?`: the runs of it that end, from the
-- bytes that are left and the value, with a result.
pub data Ends {A T : Type 0} (get : List ℕ → Result DecodeError (Option A × List ℕ))
    (step : A → T → Result DecodeError T) : List ℕ → T → Result DecodeError T → Type 0 where
  read_fails : (r : List ℕ) (v : T) (e : DecodeError) → get r ≡ err e → Ends get step r v (err e)
  step_fails :
      (r r' : List ℕ) (v : T) (a : A) (e : DecodeError)
      → get r ≡ ok (some a, r')
      → step a v ≡ err e
      → Ends get step r v (err e)
  finishes :
      (r r' : List ℕ) (v : T) → get r ≡ ok (none, r') → finish r' ≡ ok tt → Ends get step r v (ok v)
  finish_fails :
      (r r' : List ℕ) (v : T) (e : DecodeError)
      → get r ≡ ok (none, r')
      → finish r' ≡ err e
      → Ends get step r v (err e)
  goes_on :
      (r r' : List ℕ) (v v' : T) (a : A) (x : Result DecodeError T)
      → get r ≡ ok (some a, r')
      → step a v ≡ ok v'
      → Ends get step r' v' x
      → Ends get step r v x

module _ {A T : Type 0} (get : List ℕ → Result DecodeError (Option A × List ℕ))
    (step : A → T → Result DecodeError T) (progress : Progress get) where
  -- The body of the loop, with the rounds after it.
  round-Ends :
      (r : List ℕ) (v : T)
      → ((r' : List ℕ) (u : T) → length r' < length r → Ends get step r' u (read_all get step r' u))
      → Ends get step r v (get r >>= go_on get step (λ r' u. read_all get step r' u) v)
  round-Ends r v later = elim (Result-cases (get r)) [
    | inr (e, failed) ↦ rw failed (Ends.read_fails r v e failed)
    | inl ((none, r'), given) ↦ elim (Result-cases (finish r')) [
      | inl (tt, done) ↦ rw (given, done) (Ends.finishes r r' v given done)
      | inr (e, left) ↦ rw (given, left) (Ends.finish_fails r r' v e given left)
    ]
    | inl ((some a, r'), given) ↦ elim (Result-cases (step a v)) [
      | inr (e, failed) ↦ rw (given, failed) (Ends.step_fails r r' v a e given failed)
      | inl (u, stepped) ↦
          let shorter : length r' < length r = subst (Shrinks (length r)) given (progress.0 r) in
          rw (given, stepped) (Ends.goes_on r r' v u a _ given stepped (later r' u shorter))
    ]
  ]

  read_all-Ends_within :
      (n : ℕ) (r : List ℕ) (v : T) → length r < n → Ends get step r v (read_all get step r v)
  read_all-Ends_within zero r v h = absurd (omega (arith, h))
  read_all-Ends_within (suc n) r v h =
      subst (Ends get step r v) (sym (read_all_unfolds get step progress r v))
        (round-Ends r v (λ r' u lt. read_all-Ends_within n r' u (omega (arith, lt, h))))

-- On any bytes, and whatever is done with an item, the `while let` loops of the decoder over
-- fields and over packed items, as a relation between the bytes that are left, the value and a
-- result, end with the result that `read_all` gives with as many rounds as there are bytes: with
-- the error of a read, of a step or of `finish`, or with the value once a read gives no item and
-- `finish` passes.
pub read_all-Ends :
    {T : Type 0} (R : BytesRead) (ty : WireType) (on_field : Field → T → Result DecodeError T)
    (on_item : FieldKind → T → Result DecodeError T) (r : List ℕ) (v : T)
    → Ends (next R) on_field r v (read_all (next R) on_field r v)
      × Ends (maybe_next_kind R ty) on_item r v (read_all (maybe_next_kind R ty) on_item r v)
read_all-Ends R ty on_field on_item r v = (
  read_all-Ends_within (next R) on_field (next-Progress R) (suc (length r)) r v (omega arith),
  read_all-Ends_within (maybe_next_kind R ty) on_item (maybe_next_kind-Progress R ty)
      (suc (length r)) r v (omega arith),
)
