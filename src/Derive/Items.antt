-- ===== src/Derive/Items.antt =====
-- protopuffer-codegen: the fields that a struct is written as, and what merging them gives.
use lafere.Base.{
  All-append, concat_map, ==-self, ==-other, ℕ, ◌^◌, ◌<◌, ◌≡◌, ◌≢◌, refl, sym, ap, true, List, [],
  ◌∷◌, ◌++◌, All, ok, for_each, ◌>>=◌, Bool-cases, Result-cases, inl, inr, if◌then◌else◌,
}
use lafere.Protopuffer.Wire.{Field, FieldKind, IsKind}
use mathlib.Core.List.{append_assoc}
use lafere.Protopuffer.Format.{field_bytes}
use lafere.Derive.{FieldAttr, Values, default_fields, merge_fields}
use lafere.Derive.Fields.{FieldMirror, merge_all}
use lafere.Derive.Merging.{encoded, IsField, for_each-append}

-- The fields of one number.
abbrev pub fields_at : ℕ → List FieldKind → List Field
fields_at num [] = []
fields_at num (k ∷ ks) = record { number = num; kind = k } ∷ fields_at num ks

-- Every field's decoder reads back what its encoder writes.
abbrev pub Mirrors : List FieldAttr → Type 1
Mirrors [] = Unit
Mirrors (a ∷ as_) = FieldMirror a.E a.D × Mirrors as_

-- The numbers of the fields differ.
abbrev pub IsDistinct : List FieldAttr → Type 1
IsDistinct [] = Unit
IsDistinct (a ∷ as_) =
    (a.fieldnum < 2 ^ 61) × All (λ b. b.fieldnum ≢ a.fieldnum) as_ × IsDistinct as_

abbrev pub InRange : (as_ : List FieldAttr) → Mirrors as_ → Values as_ → Type 0
InRange [] ms vs = Unit
InRange (a ∷ as_) (m, ms) (v, vs) = m.InRange v × InRange as_ ms vs

-- The fields that a struct is written as.
abbrev pub items : (as_ : List FieldAttr) → Mirrors as_ → Values as_ → List Field
items [] ms vs = []
items (a ∷ as_) (m, ms) (v, vs) =
    (if a.E.is_default v then [] else fields_at a.fieldnum (m.kinds v)) ++ items as_ ms vs

pub fields_at-IsField :
    (num : ℕ) (ks : List FieldKind) → num < 2 ^ 61 → All IsKind ks → All IsField (fields_at num ks)
fields_at-IsField num [] small h = tt
fields_at-IsField num (k ∷ ks) small (hk, h) = ((small, hk), fields_at-IsField num ks small h)

pub items-IsField :
    (as_ : List FieldAttr) (ms : Mirrors as_) (vs : Values as_)
    → IsDistinct as_
    → InRange as_ ms vs
    → All IsField (items as_ ms vs)
items-IsField [] ms vs distinct h = tt
items-IsField (a ∷ as_) (m, ms) (v, vs) (small, others, distinct) (hv, hs) =
    All-append IsField (if a.E.is_default v then [] else fields_at a.fieldnum (m.kinds v))
      (items as_ ms vs)
      (elim (Bool-cases (a.E.is_default v)) [
        | inl default ↦ rw default tt
        | inr given ↦ rw given (fields_at-IsField a.fieldnum (m.kinds v) small (m.are_kinds v hv))
      ])
      (items-IsField as_ ms vs distinct hs)

-- A run of fields of the first number.
merge_head :
    (a : FieldAttr) (as_ : List FieldAttr) (v : a.Value) (vs : Values as_) (ks : List FieldKind)
    → for_each (merge_fields (a ∷ as_)) (fields_at a.fieldnum ks) (v, vs)
      ≡ (merge_all a.D ks v >>= λ v'. ok (v', vs))
unfolding for_each merge_fields merge_all
merge_head a as_ v vs [] = refl
merge_head a as_ v vs (k ∷ ks) = elim (Result-cases (a.D.merge k true v)) [
  | inl (v', e) ↦ rw (==-self a.fieldnum, e) (merge_head a as_ v' vs ks)
  | inr (bad, e) ↦ rw (==-self a.fieldnum, e) refl
]

-- Fields of other numbers than the first.
merge_tail :
    (a : FieldAttr) (as_ : List FieldAttr) (v : a.Value) (vs : Values as_) (fs : List Field)
    → All (λ f. f.number ≢ a.fieldnum) fs
    → for_each (merge_fields (a ∷ as_)) fs (v, vs)
      ≡ (for_each (merge_fields as_) fs vs >>= λ vs'. ok (v, vs'))
unfolding for_each merge_fields
merge_tail a as_ v vs [] h = refl
merge_tail a as_ v vs (f ∷ fs) (hf, h) = elim (Result-cases (merge_fields as_ f vs)) [
  | inl (vs', e) ↦ rw (==-other f.number a.fieldnum hf, e) (merge_tail a as_ v vs' fs h)
  | inr (bad, e) ↦ rw (==-other f.number a.fieldnum hf, e) refl
]

fields_at-other :
    (num num' : ℕ) (ks : List FieldKind)
    → num ≢ num'
    → All (λ f. f.number ≢ num') (fields_at num ks)
fields_at-other num num' [] h = tt
fields_at-other num num' (k ∷ ks) h = (h, fields_at-other num num' ks h)

items-other :
    (num : ℕ) (as_ : List FieldAttr) (ms : Mirrors as_) (vs : Values as_)
    → All (λ b. b.fieldnum ≢ num) as_
    → All (λ f. f.number ≢ num) (items as_ ms vs)
items-other num [] ms vs h = tt
items-other num (a ∷ as_) (m, ms) (v, vs) (other, others) =
    All-append (λ f. f.number ≢ num)
      (if a.E.is_default v then [] else fields_at a.fieldnum (m.kinds v)) (items as_ ms vs)
      (elim (Bool-cases (a.E.is_default v)) [
        | inl default ↦ rw default tt
        | inr given ↦ rw given (fields_at-other a.fieldnum num (m.kinds v) other)
      ])
      (items-other num as_ ms vs others)

pub merge_items :
    (as_ : List FieldAttr) (ms : Mirrors as_) (vs : Values as_)
    → IsDistinct as_
    → InRange as_ ms vs
    → for_each (merge_fields as_) (items as_ ms vs) (default_fields as_) ≡ ok vs
unfolding for_each
merge_items [] ms vs distinct h = refl
merge_items (a ∷ as_) (m, ms) (v, vs) (small, others, distinct) (hv, hs) =
    elim (Bool-cases (a.E.is_default v)) [
      | inl default ↦
          rw
            (
              default,
              merge_tail a as_ a.D.decode_default (default_fields as_) (items as_ ms vs) tail,
              merge_items as_ ms vs distinct hs,
            )
            (ap (λ (d : a.Value). ok (d, vs)) (sym (m.default_lem v hv default)))
      | inr given ↦
          rw
            (
              given,
              for_each-append (merge_fields (a ∷ as_)) (fields_at a.fieldnum (m.kinds v))
                  (items as_ ms vs) (default_fields (a ∷ as_)),
              merge_head a as_ a.D.decode_default (default_fields as_) (m.kinds v),
              m.merge_lem v hv,
              merge_tail a as_ v (default_fields as_) (items as_ ms vs) tail,
              merge_items as_ ms vs distinct hs,
            )
            refl
    ]
  where
    tail : All (λ f. f.number ≢ a.fieldnum) (items as_ ms vs)
    tail = items-other a.fieldnum as_ ms vs others

pub concat_map-append :
    {A : Type 0} (f : A → List ℕ) (xs ys : List A)
    → concat_map f (xs ++ ys) ≡ concat_map f xs ++ concat_map f ys
concat_map-append f [] ys = refl
concat_map-append f (x ∷ xs) ys = rw (concat_map-append f xs ys, append_assoc) refl

pub concat_map-fields_at :
    (num : ℕ) (ks : List FieldKind)
    → concat_map encoded (fields_at num ks) ≡ concat_map (field_bytes num) ks
concat_map-fields_at num [] = refl
concat_map-fields_at num (k ∷ ks) = ap (◌++◌ (field_bytes num k)) (concat_map-fields_at num ks)
