-- ===== src/Api/Data/Args/Safe.antt =====
-- lafere-api/src/util.rs: when the arguments of an `#[api]` function can be had.
use lafere.Base.{
  ℕ, ◌+◌, if◌then◌else◌, ◌≡◌, refl, sym, ap, ◌∙◌, arith, Bool, true, false, not, ◌||◌, ◌&&◌, Option,
  none, some, List, [], ◌∷◌, ◌==◌, Bool-cases, inl, inr,
}
use lafere.Protopuffer.Decode.RoundTrip.{and_left}
use lafere.Api.Data.{Any, TypeMap, set, exists}
use lafere.Api.Data.Laws.{IsTyped, set-IsTyped, get_there, contains_key-set}
use lafere.Api.Data.Args.{
  Arg, by_ref, owned, Given, the_request, the_value, the_session, the_data, valid_data_as_ref,
  valid_arg, validate_data, get_data_as_ref, get_data_as_owned, get_arg, get_args, add_given,
  next_args, DataManager, new, lent, take,
}

abbrev pub is_some : {A : Type 0} → Option A → Bool
is_some none = false
is_some (some a) = true

abbrev pub type_of : Arg → ℕ
type_of (by_ref T) = T
type_of (owned T) = T

-- One of the arguments is the request.
abbrev pub mentions : ℕ → List Arg → Bool
mentions R [] = false
mentions R (a ∷ args) = type_of a == R || mentions R args

-- An argument takes its value.
abbrev pub takes : List Arg → Bool
takes [] = false
takes (by_ref T ∷ args) = takes args
takes (owned T ∷ args) = true

-- How many arguments are of the type.
abbrev pub count : ℕ → List Arg → ℕ
count R [] = 0
count R (a ∷ args) = if type_of a == R then 1 + count R args else count R args

count_one : (R : ℕ) (args : List Arg) → (1 + count R args == 1) ≡ not (mentions R args)
count_one R [] = refl
count_one R (a ∷ args) = elim (Bool-cases (type_of a == R)) [
  | inl own ↦ rw own (ground arith)
  | inr other ↦ rw other (count_one R args)
]

or_first : (a b : Bool) → a ≡ false → (a || b) ≡ true → b ≡ true
or_first true b h e = absurd (ground (arith, h))
or_first false b h e = e

and_right : (a b : Bool) → (a && b) ≡ true → b ≡ true
and_right true b h = h
and_right false b h = absurd (ground (arith, h))

-- Data that is registered later.
abbrev pub set_all : {V : Type 0} → List (Any V) → TypeMap V → TypeMap V
set_all [] m = m
set_all (d ∷ ds) m = set_all ds (set d m)

module _ (session data_id R : ℕ) {V : Type 0} where
  takes-mentions :
      (args : List Arg) (m : TypeMap V)
      → validate_data session data_id R args m ≡ true
      → takes args ≡ true
      → mentions R args ≡ true
  unfolding validate_data valid_arg
  takes-mentions [] m valid t = t
  takes-mentions (owned T ∷ args) m valid t = rw (and_left (T == R) _ valid) refl
  takes-mentions (by_ref T ∷ args) m valid t =
      let more =
        takes-mentions args m (and_right (valid_data_as_ref session data_id R T m) _ valid) t in
      ground (arith, more)

  value_there :
      (T : ℕ) (m : TypeMap V) (req : DataManager V)
      → IsTyped m
      → (T == R) ≡ false
      → valid_data_as_ref session data_id R T m ≡ true
      → (g : Given V) × (get_data_as_ref session data_id R T m req ≡ some (g, req))
  unfolding valid_data_as_ref get_data_as_ref exists
  value_there T m req typed other valid = elim (Bool-cases (T == session)) [
    | inl same ↦ (the_session, rw (other, same) refl)
    | inr no_session ↦ elim (Bool-cases (T == data_id)) [
      | inl same ↦ (the_data, rw (other, no_session, same) refl)
      | inr no_data ↦
          let none_of : (T == R || T == session || T == data_id) ≡ false =
            rw (other, no_session, no_data) refl in
          let there = or_first (T == R || T == session || T == data_id) _ none_of valid in
          let (v, found) = get_there T m typed (or_first (T == session) _ no_session there) in
          (the_value v, rw (other, no_session, no_data, found) refl)
    ]
  ]

  is_some-add_given :
      (g : Given V) (o : Option (List (Given V)))
      → is_some (add_given session data_id R g o) ≡ is_some o
  is_some-add_given g none = refl
  is_some-add_given g (some gs) = refl

  -- The calls for the arguments that come after one.
  abbrev later_args : TypeMap V → List Arg → DataManager V → Bool
  later_args m args req = is_some (get_args session data_id R m args req)

  given_step :
      (a : Arg) (args : List Arg) (m : TypeMap V) (req req' : DataManager V) (g : Given V)
      → get_arg session data_id R m a req ≡ some (g, req')
      → later_args m (a ∷ args) req ≡ later_args m args req'
  unfolding get_args
  given_step a args m req req' g given =
      ap (λ o. is_some (next_args session data_id R (λ r. get_args session data_id R m args r) o))
        given
      ∙ is_some-add_given g (get_args session data_id R m args req')

  refused_step :
      (a : Arg) (args : List Arg) (m : TypeMap V) (req : DataManager V)
      → get_arg session data_id R m a req ≡ none
      → later_args m (a ∷ args) req ≡ false
  unfolding get_args
  refused_step a args m req refused =
      ap (λ o. is_some (next_args session data_id R (λ r. get_args session data_id R m args r) o))
        refused

  -- An argument that is not the request.
  other_step :
      (T : ℕ) (args : List Arg) (m : TypeMap V) (req : DataManager V)
      → IsTyped m
      → (T == R) ≡ false
      → validate_data session data_id R (by_ref T ∷ args) m ≡ true
      → later_args m (by_ref T ∷ args) req ≡ later_args m args req
  unfolding get_arg validate_data valid_arg
  other_step T args m req typed other valid =
      let (g, given) = value_there T m req typed other (and_left _ _ valid) in
      given_step (by_ref T) args m req req g given

  later_valid :
      (a : Arg) (args : List Arg) (m : TypeMap V)
      → validate_data session data_id R (a ∷ args) m ≡ true
      → validate_data session data_id R args m ≡ true
  unfolding validate_data
  later_valid a args m valid = and_right (valid_arg session data_id R m a) _ valid

  own_valid :
      (T : ℕ) (args : List Arg) (m : TypeMap V)
      → validate_data session data_id R (owned T ∷ args) m ≡ true
      → (T == R) ≡ true
  unfolding validate_data valid_arg
  own_valid T args m valid = and_left (T == R) _ valid

  after_take :
      (args : List Arg) (m : TypeMap V)
      → IsTyped m
      → validate_data session data_id R args m ≡ true
      → later_args m args (record { inner = none; borrowed = false }) ≡ not (mentions R args)
  unfolding get_arg get_data_as_ref get_data_as_owned lent take
  after_take [] m typed valid = unfold get_args in refl
  after_take (by_ref T ∷ args) m typed valid = elim (Bool-cases (T == R)) [
    | inl own ↦
        refused_step (by_ref T) args m (record { inner = none; borrowed = false }) (rw own refl)
        ∙ rw own refl
    | inr other ↦
        other_step T args m (record { inner = none; borrowed = false }) typed other valid
        ∙ after_take args m typed (later_valid (by_ref T) args m valid)
        ∙ rw other refl
  ]
  after_take (owned T ∷ args) m typed valid =
      let own = own_valid T args m valid in
      refused_step (owned T) args m (record { inner = none; borrowed = false }) (rw own refl)
      ∙ rw own refl

  after_borrow :
      (args : List Arg) (m : TypeMap V) (v : V)
      → IsTyped m
      → validate_data session data_id R args m ≡ true
      → later_args m args (record { inner = some v; borrowed = true }) ≡ not (takes args)
  unfolding get_arg get_data_as_ref get_data_as_owned lent take
  after_borrow [] m v typed valid = unfold get_args in refl
  after_borrow (by_ref T ∷ args) m v typed valid =
      let req : DataManager V = record { inner = some v; borrowed = true } in
      let more = after_borrow args m v typed (later_valid (by_ref T) args m valid) in
      elim (Bool-cases (T == R)) [
        | inl own ↦ given_step (by_ref T) args m req req (the_request v) (rw own refl) ∙ more
        | inr other ↦ other_step T args m req typed other valid ∙ more
      ]
  after_borrow (owned T ∷ args) m v typed valid =
      refused_step (owned T) args m (record { inner = some v; borrowed = true })
        (rw (own_valid T args m valid) refl)

  borrowed_once :
      (args : List Arg) (m : TypeMap V)
      → validate_data session data_id R args m ≡ true
      → not (takes args) ≡ (not (takes args) || (1 + count R args == 1))
  borrowed_once args m valid = elim (Bool-cases (takes args)) [
    | inl t ↦ rw (t, count_one R args, takes-mentions args m valid t) refl
    | inr f ↦ rw f refl
  ]

  args_given :
      (args : List Arg) (m : TypeMap V) (v : V)
      → IsTyped m
      → validate_data session data_id R args m ≡ true
      → later_args m args (new v) ≡ (not (takes args) || (count R args == 1))
  unfolding new get_arg get_data_as_ref get_data_as_owned lent take
  args_given [] m v typed valid = unfold get_args in refl
  args_given (by_ref T ∷ args) m v typed valid =
      let valid' = later_valid (by_ref T) args m valid in
      elim (Bool-cases (T == R)) [
        | inl own ↦
            given_step (by_ref T) args m (new v) (record { inner = some v; borrowed = true })
              (the_request v) (rw own refl)
            ∙ after_borrow args m v typed valid'
            ∙ borrowed_once args m valid'
            ∙ rw own refl
        | inr other ↦
            other_step T args m (new v) typed other valid
            ∙ args_given args m v typed valid'
            ∙ rw other refl
      ]
  args_given (owned T ∷ args) m v typed valid =
      let own = own_valid T args m valid in
      given_step (owned T) args m (new v) (record { inner = none; borrowed = false })
        (the_request v) (rw own refl)
      ∙ after_take args m typed (later_valid (owned T) args m valid)
      ∙ sym (count_one R args)
      ∙ rw own refl

  exists-set :
      (d : Any V) (D : ℕ) (m : TypeMap V)
      → exists session D m ≡ true
      → exists session D (set d m) ≡ true
  unfolding exists
  exists-set d D m h = elim (Bool-cases (D == session)) [
    | inl same ↦ rw same refl
    | inr other ↦ rw other (contains_key-set d D m (or_first (D == session) _ other h))
  ]

  valid_arg-set :
      (d : Any V) (a : Arg) (m : TypeMap V)
      → valid_arg session data_id R m a ≡ true
      → valid_arg session data_id R (set d m) a ≡ true
  unfolding valid_arg valid_data_as_ref
  valid_arg-set d (owned T) m h = h
  valid_arg-set d (by_ref T) m h = elim (Bool-cases (T == R || T == session || T == data_id)) [
    | inl given ↦ rw given refl
    | inr other ↦
        rw other (exists-set d T m (or_first (T == R || T == session || T == data_id) _ other h))
  ]

  validate_data-set :
      (d : Any V) (args : List Arg) (m : TypeMap V)
      → validate_data session data_id R args m ≡ true
      → validate_data session data_id R args (set d m) ≡ true
  unfolding validate_data
  validate_data-set d [] m h = refl
  validate_data-set d (a ∷ args) m h =
      rw (valid_arg-set d a m (and_left _ _ h))
        (validate_data-set d args m (and_right (valid_arg session data_id R m a) _ h))

  -- For an `#[api]` function whose `validate_data` passes on a map where each value stands under
  -- its own type, and whatever data is registered after that, the arguments of every call can be
  -- had, without a panic, exactly where no argument takes the request by value or only one
  -- argument is of its type.
  pub get_args-validate_data :
      (args : List Arg) (m : TypeMap V) (ds : List (Any V)) (v : V)
      → IsTyped m
      → validate_data session data_id R args m ≡ true
      → is_some (get_args session data_id R (set_all ds m) args (new v))
        ≡ (not (takes args) || (count R args == 1))
  get_args-validate_data args m [] v typed valid = args_given args m v typed valid
  get_args-validate_data args m (d ∷ ds) v typed valid =
      get_args-validate_data args (set d m) ds v (set-IsTyped d m typed)
        (validate_data-set d args m valid)
