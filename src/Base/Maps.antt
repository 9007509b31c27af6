-- ===== src/Base/Maps.antt =====
-- `std::unordered_map<std::string, A>` as an association list with at most one entry for a name.
use Prim.Native.String.{String}
use mathlib.Core.Path.{◌≡◌, refl}
use mathlib.Core.Logic.{◌≢◌, ◌⊎◌, inl, inr}
use mathlib.Core.Bool.{true, false}
use mathlib.Core.Option.{Option, none, some}
use native.Mathlib.Omega.{arith}
use mathlib.Core.List.{List, [], ◌∷◌}
use text.Mathlib.Text.{◌==◌ as same}
use text.Mathlib.TextEquality.{eq_iff}
use aperture4_nick.Base.Tests.{if◌then◌else◌, Bool-cases}

pub same_refl : (a : String) → same a a ≡ true
same_refl a = (eq_iff a a).1 refl

pub same_ne : (a b : String) → a ≢ b → same a b ≡ false
same_ne a b ne = elim (Bool-cases (same a b)) [ inl e ↦ absurd (ne ((eq_iff a b).0 e)) | inr e ↦ e ]

pub same-cases : (a b : String) → (a ≡ b) ⊎ (a ≢ b)
same-cases a b = elim (Bool-cases (same a b)) [
  | inl e ↦ inl ((eq_iff a b).0 e)
  | inr e ↦ inr (λ h. cc (same_refl a, h, e))
]

module _ {ℓ} {A : Type ℓ} where
  -- `find`, with the value of the entry
  unfoldable pub find : List (String × A) → String → Option A
  find [] name = none
  find ((key, value) ∷ rest) name = if same key name then some value else find rest name

  -- `insert`: an entry that is there stays as it is.
  unfoldable pub insert : String → A → List (String × A) → List (String × A)
  insert name value [] = (name, value) ∷ []
  insert name value ((key, old) ∷ rest) =
      if same key name then (key, old) ∷ rest else (key, old) ∷ insert name value rest

  -- `map[name] = value`
  unfoldable pub assign : String → A → List (String × A) → List (String × A)
  assign name value [] = (name, value) ∷ []
  assign name value ((key, old) ∷ rest) =
      if same key name then (key, value) ∷ rest else (key, old) ∷ assign name value rest

  pub find-insert_new :
      (name : String) (value : A) (m : List (String × A))
      → find m name ≡ none
      → find (insert name value m) name ≡ some value
  unfolding find insert
  find-insert_new name value [] h = rw (same_refl name) refl
  find-insert_new name value ((key, old) ∷ rest) h =
      ground (arith, find-insert_new name value rest, same_refl name)

  pub find-insert_old :
      (name : String) (value : A) (m : List (String × A)) (other : String) (old : A)
      → find m other ≡ some old
      → find (insert name value m) other ≡ some old
  unfolding find insert
  find-insert_old name value [] other old h = ground arith
  find-insert_old name value ((key, x) ∷ rest) other old h =
      ground (arith, find-insert_old name value rest other old)

  pub find-insert_other :
      (name : String) (value : A) (m : List (String × A)) (other : String)
      → name ≢ other
      → find (insert name value m) other ≡ find m other
  unfolding find insert
  find-insert_other name value [] other ne = rw (same_ne name other ne) refl
  find-insert_other name value ((key, x) ∷ rest) other ne =
      ground (arith, find-insert_other name value rest other ne, eq_iff key name, eq_iff key other)

  pub find-assign_same :
      (name : String) (value : A) (m : List (String × A))
      → find (assign name value m) name ≡ some value
  unfolding find assign
  find-assign_same name value [] = rw (same_refl name) refl
  find-assign_same name value ((key, x) ∷ rest) = ground (arith, find-assign_same name value rest)

  pub find-assign_other :
      (name : String) (value : A) (m : List (String × A)) (other : String)
      → name ≢ other
      → find (assign name value m) other ≡ find m other
  unfolding find assign
  find-assign_other name value [] other ne = rw (same_ne name other ne) refl
  find-assign_other name value ((key, x) ∷ rest) other ne =
      ground (arith, find-assign_other name value rest other ne, eq_iff key name, eq_iff key other)
