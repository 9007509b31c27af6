-- ===== src/Params/Fields.antt =====
-- framework/params_store.h, `visit_param`: a field of a parameter struct is read from the store with
-- its own value as the default; an array gets as many elements as both it and the stored vector have.
-- Narrow integers are the 32-bit patterns of the fields, and the store keeps `int64_t`.
use Prim.Native.String.{String}
use aperture4_nick.Base.{
  ℕ, zero, suc, ◌+◌, ◌-◌, ◌%◌, ◌^◌, ◌<◌, ◌≡◌, refl, arith, Bool, ltb, if◌then◌else◌, List, [], ◌∷◌,
  length, map, get_elem?, ◌&&◌, ap, none, some,
}
use aperture4_nick.Base.Maps.{find, find-insert_new}
use aperture4_nick.Params.{
  Kind, is_int, is_bools, is_ints, is_doubles, is_strings, Value, Store, param, get, an_int,
}
use aperture4_nick.Params.Store.{get-missing}

-- `(int64_t)x` of an `int`, and `x = …` into a 32-bit integer
abbrev pub widen_int : ℕ → ℕ
widen_int x = if ltb x (2 ^ 31) then x else x + (2 ^ 64 - 2 ^ 32)

abbrev pub narrow : ℕ → ℕ
narrow x = x % 2 ^ 32

-- `for (int i = 0; i < std::min(N, v.size()); i++) x[i] = v[i];`
unfoldable pub fill : {A : Type 0} → List A → List A → List A
fill [] v = []
fill (x ∷ xs) [] = x ∷ xs
fill (x ∷ xs) (y ∷ v) = y ∷ fill xs v

module _ {R : Type 0} where
  -- The overloads for `bool`, `double`, `long`, `uint64_t` and `std::string` keep the pattern.
  unfoldable pub visit : (k : Kind) → String → Value R k → Store R → Value R k × Store R
  unfolding get
  visit k name x s = get k name x s

  unfoldable pub visit_int : String → ℕ → Store R → ℕ × Store R
  unfolding get
  visit_int name x s = let (v, s') = get is_int name (widen_int x) s in (narrow v, s')

  unfoldable pub visit_uint32 : String → ℕ → Store R → ℕ × Store R
  unfolding get
  visit_uint32 name x s = let (v, s') = get is_int name x s in (narrow v, s')

  -- The overloads for arrays and for `vec_t`; the default is the empty vector.
  unfoldable pub visit_doubles : String → List R → Store R → List R × Store R
  unfolding get fill
  visit_doubles name x s = let (v, s') = get is_doubles name [] s in (fill x v, s')

  unfoldable pub visit_bools : String → List Bool → Store R → List Bool × Store R
  unfolding get fill
  visit_bools name x s = let (v, s') = get is_bools name [] s in (fill x v, s')

  unfoldable pub visit_strings : String → List String → Store R → List String × Store R
  unfolding get fill
  visit_strings name x s = let (v, s') = get is_strings name [] s in (fill x v, s')

  unfoldable pub visit_uint64s : String → List ℕ → Store R → List ℕ × Store R
  unfolding get fill
  visit_uint64s name x s = let (v, s') = get is_ints name [] s in (fill x v, s')

  unfoldable pub visit_uint32s : String → List ℕ → Store R → List ℕ × Store R
  unfolding get fill
  visit_uint32s name x s = let (v, s') = get is_ints name [] s in (fill x (map narrow v), s')

length-fill : {A : Type 0} (x v : List A) → length (fill x v) ≡ length x
unfolding fill
length-fill [] v = refl
length-fill (x ∷ xs) [] = refl
length-fill (x ∷ xs) (y ∷ v) = ap suc (length-fill xs v)

get_elem?-fill :
    {A : Type 0} (x v : List A) (i : ℕ)
    → get_elem? (fill x v) i
      ≡ (if ltb i (length x) && ltb i (length v) then get_elem? v i else get_elem? x i)
unfolding fill
get_elem?-fill [] v i = ground arith
get_elem?-fill (x ∷ xs) [] i = ground arith
get_elem?-fill (x ∷ xs) (y ∷ v) zero = ground arith
get_elem?-fill (x ∷ xs) (y ∷ v) (suc i) = ground (arith, get_elem?-fill xs v i)

-- Reading an array of texts from the store keeps its length; the elements below both lengths are
-- those of the stored vector, which is empty when the name is missing or has another type, and the
-- others stay.
visit_strings_lem :
    {R : Type 0} (name : String) (x : List String) (s : Store R)
    → (v : List String) × (v ≡ (get is_strings name [] s).0)
      × (length (visit_strings name x s).0 ≡ length x)
      × ((i : ℕ)
          → get_elem? (visit_strings name x s).0 i
            ≡ (if ltb i (length x) && ltb i (length v) then get_elem? v i else get_elem? x i))
unfolding visit_strings
visit_strings_lem name x s =
    let v = (get is_strings name [] s).0 in (v, refl, length-fill x v, λ i. get_elem?-fill x v i)

-- An `int` field whose name is missing in the store keeps its value, and the store gets the value
-- as an `int64_t` of the same sign.
visit_int-missing :
    {R : Type 0} (name : String) (x : ℕ) (s : Store R)
    → x < 2 ^ 32
    → find s name ≡ none
    → ((visit_int name x s).0 ≡ x)
      × (find (visit_int name x s).1 name ≡ some (an_int (widen_int x)))
unfolding visit_int
visit_int-missing name x s small h =
    rw (get-missing is_int name (widen_int x) s h)
      (ground arith, find-insert_new name (param is_int (widen_int x)) s h)
