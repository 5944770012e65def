-- ===== src/Api/Data/Laws.antt =====
-- lafere-api: what the maps from types to values keep.
use lafere.Base.{
  ℕ, ◌≡◌, ◌⊎◌, refl, sym, ap, ◌∙◌, arith, Bool, true, false, Option, none, some, [], ◌==◌,
  if◌then◌else◌, Bool-cases, Option-cases, inl, inr, ==_iff, ==-self,
}
use mathlib.Core.Option.{some-injective}
use lafere.Derive.Structs.{true-false}
use lafere.Handler.Table.{lookup, lookup-insert}
use lafere.Api.Data.{downcast_found, Any, TypeMap, downcast_ref, set, get, contains_key}

module _ {V : Type 0} where
  -- A value stands under its own type.
  abbrev pub IsTyped : TypeMap V → Type 0
  IsTyped m = (D : ℕ) (a : Any V) → lookup D m ≡ some a → a.type_id ≡ D

  if-some :
      (b : Bool) (d a : Any V) (o : Option (Any V))
      → (if b then some d else o) ≡ some a
      → ((b ≡ true) × (d ≡ a)) ⊎ ((b ≡ false) × (o ≡ some a))
  if-some true d a o e = inl (refl, some-injective d a e)
  if-some false d a o e = inr (refl, e)

  pub empty-IsTyped : IsTyped []
  unfolding lookup
  empty-IsTyped D a e = absurd (ground (arith, e))

  pub set-IsTyped : (d : Any V) (m : TypeMap V) → IsTyped m → IsTyped (set d m)
  unfolding set
  set-IsTyped d m typed D a e =
      elim (if-some (d.type_id == D) d a (lookup D m) (sym (lookup-insert d.type_id D d m) ∙ e)) [
        | inl (own, same) ↦ ap (λ (x : Any V). x.type_id) (sym same) ∙ (==_iff d.type_id D).0 own
        | inr (other, found) ↦ typed D a found
      ]

  downcast_own : (D : ℕ) (a : Any V) → (a.type_id == D) ≡ true → downcast_ref D a ≡ some a.value
  unfolding downcast_ref
  downcast_own D a own = rw own refl

  pub get-set :
      (d : Any V) (D : ℕ) (m : TypeMap V)
      → get D (set d m) ≡ (if d.type_id == D then some d.value else get D m)
  unfolding get set downcast_ref
  get-set d D m =
      ap (downcast_found D) (lookup-insert d.type_id D d m) ∙ (elim (Bool-cases (d.type_id == D)) [
        | inl own ↦ rw own (downcast_own D d own)
        | inr other ↦ rw other refl
      ])

  abbrev has : Option (Any V) → Bool
  has none = false
  has (some a) = true

  -- What is there is found: a `downcast` does not fail.
  pub get_there :
      (D : ℕ) (m : TypeMap V) → IsTyped m → contains_key D m ≡ true → (v : V) × (get D m ≡ some v)
  unfolding get downcast_ref
  get_there D m typed there = elim (Option-cases (lookup D m)) [
    | inl missing ↦ absurd (true-false (sym (ap has missing) ∙ there))
    | inr (a, e) ↦ (
      a.value,
      ap (downcast_found D) e ∙ downcast_own D a (ap (λ n. n == D) (typed D a e) ∙ ==-self D),
    )
  ]

  pub contains_key-set :
      (d : Any V) (D : ℕ) (m : TypeMap V)
      → contains_key D m ≡ true
      → contains_key D (set d m) ≡ true
  unfolding set
  contains_key-set d D m there =
      ap has (lookup-insert d.type_id D d m)
      ∙ elim (Bool-cases (d.type_id == D)) [ inl own ↦ rw own refl | inr other ↦ rw other there ]
