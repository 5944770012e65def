-- ===== src/Derive/Variants.antt =====
-- protopuffer-codegen: a derived enum with fields, encoded and decoded.
use lafere.Base.{
  ==-self, ==-other, ◌^◌, ◌<◌, ◌≡◌, ◌≢◌, refl, sym, ap, ◌∙◌, arith, Option, none, some, List, [],
  ◌∷◌, ◌⊎◌, inl, inr, All, concat_map, Result, ok, err, for_each, ◌>>=◌, Bool-cases, Result-cases,
}
use mathlib.Core.Path.{subst}
use mathlib.Core.Option
use lafere.Bytes.{BytesRead}
use lafere.Protopuffer.Wire.{DecodeError, FieldKind, IsKind}
use lafere.Protopuffer.Format.{field_bytes}
use lafere.Protopuffer.Decoder.{next}
use lafere.Protopuffer.Decode.{read_all}
use lafere.Derive.Fields.{FieldMirror, merge_all}
use lafere.Derive.Items.{concat_map-fields_at, fields_at, fields_at-IsField}
use lafere.Derive.Merging.{read_fields}
use lafere.Derive.Enums.{
  Attr, Variant, plain, holds, attr, Content, Value, merge_content, here, there, match_fields,
  merge_variant, default_content, default_variant,
}

-- `v` is a variant of the enum, and `put` makes a value of its content.
pub data Pick : (vs : List Variant) (v : Variant) → (Content v → Value vs) → Type 1 where
  first : {v : Variant} {vs : List Variant} → Pick (v ∷ vs) v inl
  later :
      {v w : Variant} {vs : List Variant} {put : Content v → Value vs}
      → Pick vs v put
      → Pick (w ∷ vs) v (λ c. inr (put c))

-- No variant before it has its number.
abbrev pub IsReached :
    {vs : List Variant} {v : Variant} {put : Content v → Value vs} → Pick vs v put → Type 0
IsReached first = Unit
IsReached (later {v} {w} p) = ((attr v).fieldnum ≢ (attr w).fieldnum) × IsReached p

-- The content of the variant, where the value has it.
abbrev get :
    {vs : List Variant} {v : Variant} {put : Content v → Value vs}
    → Pick vs v put
    → Option (Value vs)
    → Option (Content v)
get first x = here x
get (later p) x = get p (there x)

get-none :
    {vs : List Variant} {v : Variant} {put : Content v → Value vs} (p : Pick vs v put)
    → get p none ≡ none
get-none first = refl
get-none (later p) = get-none p

get-put :
    {vs : List Variant} {v : Variant} {put : Content v → Value vs} (p : Pick vs v put)
    (c : Content v)
    → get p (some (put c)) ≡ some c
get-put first c = refl
get-put (later p) c = get-put p c

match_own :
    {vs : List Variant} {v : Variant} {put : Content v → Value vs} (p : Pick vs v put)
    → IsReached p
    → (kind : FieldKind) (x : Option (Value vs))
    → match_fields vs (record { number = (attr v).fieldnum; kind = kind }) x
      ≡ (merge_content v kind (get p x) >>= λ c. ok (some (put c)))
unfolding match_fields
match_own {v} first reached kind x = rw (==-self (attr v).fieldnum) refl
match_own (later {v} {w} {vs} {put} p) (other, reached) kind x =
    rw (==-other (attr v).fieldnum (attr w).fieldnum other, match_own p reached kind (there x))
      (elim (Result-cases (merge_content v kind (get p (there x)))) [
        | inl (c, e) ↦ rw e refl
        | inr (bad, e) ↦ rw e refl
      ])

abbrev inr_all : {A B : Type 0} → Option B → Option (A ⊎ B)
inr_all o = Option.map (λ b. inr b) o

here-inr : {A B : Type 0} (o : Option B) → here (inr_all {A = A} o) ≡ none
here-inr none = refl
here-inr (some b) = refl

there-inr : (A : Type 0) {B : Type 0} (o : Option B) → there (inr_all {A = A} o) ≡ o
there-inr A none = refl
there-inr A (some b) = refl

-- A content that merging starts from.
abbrev IsStart : (v : Variant) → Option (Content v) → Type 0
IsStart v c = (c ≡ none) ⊎ (c ≡ some (default_content v))

get-default :
    {vs : List Variant} {v : Variant} {put : Content v → Value vs} (p : Pick vs v put)
    → IsStart v (get p (default_variant vs))
unfolding default_variant
get-default (first {v} {vs}) = elim (Bool-cases (attr v).is_default) [
  | inl default ↦ rw default (inr refl)
  | inr other ↦ rw (other, here-inr (default_variant vs)) (inl refl)
]
get-default (later {v} {w} {vs} p) = elim (Bool-cases (attr w).is_default) [
  | inl default ↦ rw default (inl (get-none p))
  | inr other ↦ rw (other, there-inr (Content w) (default_variant vs)) (get-default p)
]

merge_own :
    {vs : List Variant} {v : Variant} {put : Content v → Value vs} (p : Pick vs v put)
    → IsReached p
    → (kind : FieldKind) (x : Value vs)
    → merge_variant vs (record { number = (attr v).fieldnum; kind = kind }) x
      ≡ (merge_content v kind (get p (some x)) >>= λ c. ok (put c))
unfolding merge_variant
merge_own {v} p reached kind x =
    rw (match_own p reached kind (some x))
      (elim (Result-cases (merge_content v kind (get p (some x)))) [
        | inl (c, e) ↦ rw e refl
        | inr (bad, e) ↦ rw e refl
      ])

-- Further fields of the variant are merged into the content.
merge_more :
    {vs : List Variant} {v : Variant} {put : Content v → Value vs} (p : Pick vs v put)
    → IsReached p
    → (kinds : List FieldKind) (c : Content v)
    → for_each (merge_variant vs) (fields_at (attr v).fieldnum kinds) (put c)
      ≡ (for_each (λ kind c. merge_content v kind (some c)) kinds c >>= λ c'. ok (put c'))
unfolding for_each
merge_more p reached [] c = refl
merge_more {v} p reached (kind ∷ kinds) c =
    rw (merge_own p reached kind _, get-put p c)
      (elim (Result-cases (merge_content v kind (some c))) [
        | inl (c', e) ↦ rw e (merge_more p reached kinds c')
        | inr (bad, e) ↦ rw e refl
      ])

-- The decoder of the variant's field reads back what its encoder writes, and `Default::default()`
-- is where decoding starts.
abbrev pub VariantMirror : Variant → Type 1
VariantMirror (plain a) = Unit
VariantMirror (holds a T E D default) = FieldMirror E D × (default ≡ D.decode_default)

abbrev pub InRange : (v : Variant) → VariantMirror v → Content v → Type 0
InRange (plain a) m c = Unit
InRange (holds a T E D default) (m, same) c = m.InRange c

-- The fields of the variant's number that a value is written as.
abbrev pub content_kinds : (v : Variant) → VariantMirror v → Content v → List FieldKind
content_kinds (plain a) m c = FieldKind.len [] ∷ []
content_kinds (holds a T E D default) (m, same) c = m.kinds c

are_kinds :
    (v : Variant) (m : VariantMirror v) (c : Content v)
    → InRange v m c
    → All IsKind (content_kinds v m c)
are_kinds (plain a) m c h = (omega arith, tt)
are_kinds (holds a T E D default) (m, same) c h = m.are_kinds c h

err-ok : {E A : Type 0} {e : E} {a : A} → err e ≡ ok a → ⊥
err-ok h = ground (arith, h)

plain_merge :
    (a : Attr) (ks : List FieldKind)
    → for_each (λ kind c. merge_content (plain a) kind (some c)) ks tt ≡ ok tt
unfolding for_each
plain_merge a [] = refl
plain_merge a (k ∷ ks) = plain_merge a ks

-- Merging all its fields into where decoding starts gives the content.
merge_kinds :
    (v : Variant) (m : VariantMirror v) (c : Content v) (k : FieldKind) (ks : List FieldKind)
    → InRange v m c
    → content_kinds v m c ≡ k ∷ ks
    → (start : Option (Content v)) → IsStart v start
    → (merge_content v k start >>= λ c'.
        for_each (λ kind c''. merge_content v kind (some c'')) ks c')
      ≡ ok c
unfolding merge_all for_each
merge_kinds (plain a) m c k ks h e start is = plain_merge a ks
merge_kinds (holds a T E D default) (m, same) c k ks h e start (inl fresh) =
    rw (fresh, same) (ap (λ kinds. merge_all D kinds D.decode_default) (sym e) ∙ m.merge_lem c h)
merge_kinds (holds a T E D default) (m, same) c k ks h e start (inr default_first) =
    rw default_first (ap (λ kinds. merge_all D kinds D.decode_default) (sym e) ∙ m.merge_lem c h)

module _ {vs : List Variant} {v : Variant} {put : Content v → Value vs} (p : Pick vs v put)
    (reached : IsReached p) (m : VariantMirror v) (default : Value vs)
    (is_default : default_variant vs ≡ some default) where
  start_lem : IsStart v (get p (some default))
  start_lem = subst (λ x. IsStart v (get p x)) is_default (get-default p)

  merge_value :
      (c : Content v) (k : FieldKind) (ks : List FieldKind)
      → InRange v m c
      → content_kinds v m c ≡ k ∷ ks
      → for_each (merge_variant vs) (fields_at (attr v).fieldnum (k ∷ ks)) default ≡ ok (put c)
  unfolding for_each
  merge_value c k ks h e =
      let more : Content v → Result DecodeError (Content v) =
        λ c'. for_each (λ kind c''. merge_content v kind (some c'')) ks c' in
      let whole = merge_kinds v m c k ks h e (get p (some default)) start_lem in
      elim (Result-cases (merge_content v k (get p (some default)))) [
        | inl (c', step) ↦
            rw
              (
                merge_own p reached k default,
                step,
                merge_more p reached ks c',
                ap (λ r. r >>= more) (sym step) ∙ whole,
              )
              refl
        | inr (bad, step) ↦ absurd (err-ok (ap (λ r. r >>= more) (sym step) ∙ whole))
      ]

  -- A value of the variant, whose content is written as at least one field.
  pub decode_value :
      (R : BytesRead) (c : Content v) (k : FieldKind) (ks : List FieldKind)
      → (attr v).fieldnum < 2 ^ 61
      → InRange v m c
      → content_kinds v m c ≡ k ∷ ks
      → read_all
          (next R)
          (merge_variant vs)
          (concat_map (field_bytes (attr v).fieldnum) (content_kinds v m c))
          default
        ≡ ok (put c)
  decode_value R c k ks small h e =
      let fs = fields_at (attr v).fieldnum (content_kinds v m c) in
      ap (λ bs. read_all (next R) (merge_variant vs) bs default)
        (sym (concat_map-fields_at (attr v).fieldnum (content_kinds v m c)))
      ∙ read_fields R (merge_variant vs) fs default
          (fields_at-IsField (attr v).fieldnum (content_kinds v m c) small (are_kinds v m c h))
      ∙ ap (λ kinds. for_each (merge_variant vs) (fields_at (attr v).fieldnum kinds) default) e
      ∙ merge_value c k ks h e
