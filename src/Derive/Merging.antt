-- ===== src/Derive/Merging.antt =====
-- protopuffer/src/decode.rs: a `while let Some(field) = parser.next()?` loop over whole fields.
use lafere.Base.{
  ℕ, ◌^◌, ◌<◌, ◌≡◌, refl, List, [], ◌∷◌, ◌++◌, All, concat_map, Result, for_each, ◌>>=◌,
  Result-cases, inl, inr,
}
use lafere.Bytes.{BytesRead}
use lafere.Protopuffer.Wire.{DecodeError, Field, IsKind}
use lafere.Protopuffer.Decoder.{next, finish}
use lafere.Protopuffer.Format.{field_bytes}
use lafere.Protopuffer.Format.Fields.{next-field_bytes}
use lafere.Protopuffer.Decode.{read_all}
use lafere.Protopuffer.Decode.Loop.{read_all_unfolds, next-Progress}

abbrev pub encoded : Field → List ℕ
encoded f = field_bytes f.number f.kind

-- A field that can be encoded.
abbrev pub IsField : Field → Type 0
IsField f = (f.number < 2 ^ 61) × IsKind f.kind

pub for_each-append :
    {E A S : Type 0} (f : A → S → Result E S) (xs ys : List A) (s : S)
    → for_each f (xs ++ ys) s ≡ (for_each f xs s >>= for_each f ys)
unfolding for_each
for_each-append f [] ys s = refl
for_each-append f (x ∷ xs) ys s = elim (Result-cases (f x s)) [
  | inl (s', e) ↦ rw e (for_each-append f xs ys s')
  | inr (bad, e) ↦ rw e refl
]

-- Reading the bytes of fields is merging one field after the other.
pub read_fields :
    {T : Type 0} (R : BytesRead) (step : Field → T → Result DecodeError T) (fs : List Field) (v : T)
    → All IsField fs
    → read_all (next R) step (concat_map encoded fs) v ≡ for_each step fs v
unfolding for_each
read_fields R step [] v h =
    rw (read_all_unfolds (next R) step (next-Progress R) [] v) (unfold next finish in refl)
read_fields R step (f ∷ fs) v ((number, kind), h) =
    rw
      (
        read_all_unfolds (next R) step (next-Progress R) (encoded f ++ concat_map encoded fs) v,
        next-field_bytes R f.number f.kind (concat_map encoded fs) number kind,
      )
      (elim (Result-cases (step f v)) [
        | inl (v', e) ↦ rw e (read_fields R step fs v' h)
        | inr (bad, e) ↦ rw e refl
      ])
