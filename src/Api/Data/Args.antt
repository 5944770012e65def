-- ===== src/Api/Data/Args.antt =====
-- lafere-api/src/util.rs and lafere-api-codegen/src/api.rs: the arguments of an `#[api]` function.
-- `R` is `TypeId::of` the request, `session` and `data` are those of `Session` and `Data`.
pub mod Safe
use lafere.Base.{
  ℕ, Bool, true, false, ◌||◌, ◌&&◌, Option, none, some, List, [], ◌∷◌, ◌==◌, if◌then◌else◌,
}
use lafere.Api.Data.{TypeMap, get, exists}

-- The type of an argument: `&T` or `T`.
pub data Arg : Type 0 where
  by_ref owned : ℕ → Arg

-- What the function is called with.
pub data Given (V : Type 0) : Type 0 where
  the_request the_value : V → Given V
  the_session the_data : Given V

-- The request of a call. A borrow is never given back.
pub record DataManager (V : Type 0) : Type 0 where
  pub inner : Option V
  pub borrowed : Bool

-- No result is a panic.
module _ {V : Type 0} where
  unfoldable pub new : V → DataManager V
  new v = record { inner = some v; borrowed = false }

  -- `DataManager::as_ref`
  unfoldable pub lent : DataManager V → Option (V × DataManager V)
  lent me = elim me.inner [ none ↦ none | some v ↦ some (v, record me { borrowed = true }) ]

  -- `DataManager::take`
  unfoldable pub take : DataManager V → Option (V × DataManager V)
  take me =
      if me.borrowed
      then none
      else (elim me.inner [ none ↦ none | some v ↦ some (v, record me { inner = none }) ])

module _ (session data_id R : ℕ) {V : Type 0} where
  unfoldable pub valid_data_as_ref : ℕ → TypeMap V → Bool
  valid_data_as_ref T inner = T == R || T == session || T == data_id || exists session T inner

  unfoldable pub valid_arg : TypeMap V → Arg → Bool
  unfolding valid_data_as_ref
  valid_arg inner (by_ref T) = valid_data_as_ref T inner
  valid_arg inner (owned T) = T == R

  -- The asserts of `validate_data`.
  unfoldable pub validate_data : List Arg → TypeMap V → Bool
  unfolding valid_arg
  validate_data [] inner = true
  validate_data (a ∷ args) inner = valid_arg inner a && validate_data args inner

  abbrev pub request_given : Option (V × DataManager V) → Option (Given V × DataManager V)
  request_given none = none
  request_given (some (v, req)) = some (the_request v, req)

  abbrev pub value_given : DataManager V → Option V → Option (Given V × DataManager V)
  value_given req none = none
  value_given req (some v) = some (the_value v, req)

  unfoldable pub get_data_as_ref : ℕ → TypeMap V → DataManager V → Option (Given V × DataManager V)
  get_data_as_ref T inner req =
      if T == R
      then request_given (lent req)
      else if T == session
      then some (the_session, req)
      else if T == data_id
      then some (the_data, req)
      else value_given req (get T inner)

  unfoldable pub get_data_as_owned : ℕ → DataManager V → Option (Given V × DataManager V)
  get_data_as_owned T req = if T == R then request_given (take req) else none

  unfoldable pub get_arg : TypeMap V → Arg → DataManager V → Option (Given V × DataManager V)
  unfolding get_data_as_ref get_data_as_owned
  get_arg inner (by_ref T) req = get_data_as_ref T inner req
  get_arg inner (owned T) req = get_data_as_owned T req

  abbrev pub add_given : Given V → Option (List (Given V)) → Option (List (Given V))
  add_given given none = none
  add_given given (some rest) = some (given ∷ rest)

  abbrev pub next_args :
      (DataManager V → Option (List (Given V)))
      → Option (Given V × DataManager V)
      → Option (List (Given V))
  next_args rest none = none
  next_args rest (some (given, req)) = add_given given (rest req)

  -- `let handler_arg_0 = ..; let handler_arg_1 = ..;`
  unfoldable pub get_args : TypeMap V → List Arg → DataManager V → Option (List (Given V))
  unfolding get_arg
  get_args inner [] req = some []
  get_args inner (a ∷ args) req = next_args (λ req'. get_args inner args req') (get_arg inner a req)
