-- ===== src/Api/Data.antt =====
-- lafere-api/src/request_handlers.rs and server.rs: `Data` and `Session`, maps from types to values.
-- A `TypeId` is a number, and a value of any type stands for what is in memory.
pub mod Laws
pub mod Args
use lafere.Base.{ℕ, Bool, true, false, ◌||◌, Option, none, some, List, [], ◌∷◌, ◌==◌, if◌then◌else◌}
use lafere.Handler.Table.{lookup, insert, remove}

-- `Box<dyn Any>`
pub record Any (V : Type 0) : Type 0 where
  pub type_id : ℕ
  pub value : V

abbrev pub TypeMap : Type 0 → Type 0
TypeMap V = List (ℕ × Any V)

module _ {V : Type 0} where
  unfoldable pub downcast_ref : ℕ → Any V → Option V
  downcast_ref D a = if a.type_id == D then some a.value else none

  -- `Data::insert` and `Session::set`
  unfoldable pub set : Any V → TypeMap V → TypeMap V
  set d inner = insert d.type_id d inner

  -- `.and_then(|a| a.downcast_ref())`
  abbrev pub downcast_found : ℕ → Option (Any V) → Option V
  downcast_found D none = none
  downcast_found D (some a) = downcast_ref D a

  -- `Data::get` and `Session::get`
  unfoldable pub get : ℕ → TypeMap V → Option V
  get D inner = downcast_found D (lookup D inner)

  -- `Session::take`
  unfoldable pub take : ℕ → TypeMap V → TypeMap V × Option V
  unfolding get
  take D inner = (remove D inner, get D inner)

  abbrev pub contains_key : ℕ → TypeMap V → Bool
  contains_key D inner = elim (lookup D inner) [ none ↦ false | some a ↦ true ]

  -- `Data::exists`; `session` is `TypeId::of::<Session>()`.
  unfoldable pub exists : (session D : ℕ) → TypeMap V → Bool
  exists session D inner = D == session || contains_key D inner
