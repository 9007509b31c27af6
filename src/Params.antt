-- ===== src/Params.antt =====
-- framework/params_store.h, framework/params_store.cpp: the store of named parameters. An `int64_t`
-- is its 64-bit pattern, and a `double` is an element of a parameter type `R`.
pub mod Table
pub mod FirstWins
pub mod Fields
pub mod Store
mod Tests
use Prim.Native.String.{String}
use aperture4_nick.Base.{ℕ, Bool, true, false, List, [], ◌∷◌, Option, none, some}
use aperture4_nick.Base.Maps.{find, insert, assign}

-- the alternatives of `param_type`
pub data Kind : Type 0 where
  is_bool is_int is_double is_string is_bools is_ints is_doubles is_strings : Kind

module _ (R : Type 0) where
  -- `param_type`
  pub data Param : Type 0 where
    a_bool : Bool → Param
    an_int : ℕ → Param
    a_double : R → Param
    a_string : String → Param
    some_bools : List Bool → Param
    some_ints : List ℕ → Param
    some_doubles : List R → Param
    some_strings : List String → Param

  -- The type `T` of the calls `get<T>` and `add<T>`.
  abbrev pub Value : Kind → Type 0
  Value is_bool = Bool
  Value is_int = ℕ
  Value is_double = R
  Value is_string = String
  Value is_bools = List Bool
  Value is_ints = List ℕ
  Value is_doubles = List R
  Value is_strings = List String

  abbrev pub Store : Type 0
  Store = List (String × Param)

module _ {R : Type 0} where
  -- `param_type(value)`
  unfoldable pub param : (k : Kind) → Value R k → Param R
  param is_bool v = a_bool v
  param is_int v = an_int v
  param is_double v = a_double v
  param is_string v = a_string v
  param is_bools v = some_bools v
  param is_ints v = some_ints v
  param is_doubles v = some_doubles v
  param is_strings v = some_strings v

  -- `std::get<T>`, `none` where it throws `bad_variant_access`
  unfoldable pub as_kind : (k : Kind) → Param R → Option (Value R k)
  as_kind is_bool (a_bool v) = some v
  as_kind is_int (an_int v) = some v
  as_kind is_double (a_double v) = some v
  as_kind is_string (a_string v) = some v
  as_kind is_bools (some_bools v) = some v
  as_kind is_ints (some_ints v) = some v
  as_kind is_doubles (some_doubles v) = some v
  as_kind is_strings (some_strings v) = some v
  as_kind is_bool _ = none
  as_kind is_int _ = none
  as_kind is_double _ = none
  as_kind is_string _ = none
  as_kind is_bools _ = none
  as_kind is_ints _ = none
  as_kind is_doubles _ = none
  as_kind is_strings _ = none

  unfoldable pub has : String → Store R → Bool
  has name s = elim (find s name) [ none ↦ false | some p ↦ true ]

  -- `get`, which `get_as` calls: the store gets the default where it had nothing.
  unfoldable pub get : (k : Kind) → String → Value R k → Store R → Value R k × Store R
  unfolding as_kind param
  get k name default_value s = elim (find s name) [
    | none ↦ (default_value, insert name (param k default_value) s)
    | some p ↦ elim (as_kind k p) [ none ↦ (default_value, s) | some v ↦ (v, s) ]
  ]

  -- `add`
  unfoldable pub add : (k : Kind) → String → Value R k → Store R → Store R
  unfolding param
  add k name value s = elim (find s name) [
    | none ↦ insert name (param k value) s
    | some p ↦ assign name (param k value) s
  ]

  unfoldable pub clear : Store R → Store R
  clear s = []
