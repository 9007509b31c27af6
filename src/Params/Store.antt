-- ===== src/Params/Store.antt =====
-- framework/params_store.cpp: `get`, `add` and `has` together.
use Prim.Native.String.{String}
use aperture4_nick.Base.{◌≡◌, ◌≢◌, refl, none, some, Option-cases, inl, inr, ◌⊎◌}
use aperture4_nick.Base.Maps.{
  find, insert, find-insert_new, find-insert_old, find-insert_other, find-assign_same,
  find-assign_other,
}
use aperture4_nick.Params.{
  Kind, is_bool, is_int, is_double, is_string, is_bools, is_ints, is_doubles, is_strings, Param,
  Value, Store, param, as_kind, get, add,
}

pub as_kind-param : (R : Type 0) (k : Kind) (v : Value R k) → as_kind {R = R} k (param k v) ≡ some v
unfolding as_kind param
as_kind-param R is_bool v = refl
as_kind-param R is_int v = refl
as_kind-param R is_double v = refl
as_kind-param R is_string v = refl
as_kind-param R is_bools v = refl
as_kind-param R is_ints v = refl
as_kind-param R is_doubles v = refl
as_kind-param R is_strings v = refl

module _ {R : Type 0} where
  -- What `get` returns and leaves, by what the store holds under the name.
  pub get-missing :
      (k : Kind) (name : String) (d : Value R k) (s : Store R)
      → find s name ≡ none
      → get k name d s ≡ (d, insert name (param k d) s)
  unfolding get
  get-missing k name d s h = rw (h, get) refl

  pub get-found :
      (k : Kind) (name : String) (d : Value R k) (s : Store R) (p : Param R) (v : Value R k)
      → find s name ≡ some p
      → as_kind k p ≡ some v
      → get k name d s ≡ (v, s)
  unfolding get
  get-found k name d s p v h e = rw (h, get) (rw e refl)

  get-wrong :
      (k : Kind) (name : String) (d : Value R k) (s : Store R) (p : Param R)
      → find s name ≡ some p
      → as_kind k p ≡ none
      → get k name d s ≡ (d, s)
  unfolding get
  get-wrong k name d s p h e = rw (h, get) (rw e refl)

  find-add :
      (k : Kind) (name : String) (v : Value R k) (s : Store R)
      → find (add k name v s) name ≡ some (param k v)
  unfolding add
  find-add k name v s = elim (Option-cases (find s name)) [
    | inl h ↦ rw (h, add) (find-insert_new name (param k v) s h)
    | inr (p, h) ↦ rw (h, add) (find-assign_same name (param k v) s)
  ]

  find-add_other :
      (k : Kind) (name : String) (v : Value R k) (s : Store R) (other : String)
      → name ≢ other
      → find (add k name v s) other ≡ find s other
  unfolding add
  find-add_other k name v s other ne = elim (Option-cases (find s name)) [
    | inl h ↦ rw (h, add) (find-insert_other name (param k v) s other ne)
    | inr (p, h) ↦ rw (h, add) (find-assign_other name (param k v) s other ne)
  ]

  -- After `add`, `get` at the same type returns the value, whatever the default is and whatever the
  -- store held before, and leaves the store alone; the other names keep what they had.
  pub get-add :
      (k : Kind) (name : String) (v d : Value R k) (s : Store R)
      → (get k name d (add k name v s) ≡ (v, add k name v s))
        × ((other : String) → name ≢ other → find (add k name v s) other ≡ find s other)
  get-add k name v d s = (
    get-found k name d (add k name v s) (param k v) v (find-add k name v s) (as_kind-param R k v),
    find-add_other k name v s,
  )

  -- The default of a first `get` sticks: a second `get` of the name at the same type, with any
  -- default, returns the same value and changes nothing, unless the store holds a value of another
  -- type there, where each `get` returns its own default.
  get-get :
      (k : Kind) (name : String) (d e : Value R k) (s : Store R)
      → (get k name e (get k name d s).1 ≡ get k name d s)
        ⊎ ((get k name e (get k name d s).1 ≡ (e, s)) × (get k name d s ≡ (d, s)))
  get-get k name d e s = elim (Option-cases (find s name)) [
    | inl h ↦ inl (
        rw (get-missing k name d s h) (
          get-found k name e (insert name (param k d) s) (param k d) d
            (find-insert_new name (param k d) s h) (as_kind-param R k d)))
    | inr (p, h) ↦ elim (Option-cases (as_kind k p)) [
      | inl w ↦
          inr (
            rw (get-wrong k name d s p h w) (get-wrong k name e s p h w),
            get-wrong k name d s p h w,
          )
      | inr (v, f) ↦ inl (rw (get-found k name d s p v h f) (get-found k name e s p v h f))
    ]
  ]

  -- `get` never changes what the store holds under a name that it already has.
  find-get :
      (k : Kind) (name : String) (d : Value R k) (s : Store R) (other : String) (p : Param R)
      → find s other ≡ some p
      → find (get k name d s).1 other ≡ some p
  find-get k name d s other p h = elim (Option-cases (find s name)) [
    | inl m ↦ rw (get-missing k name d s m) (find-insert_old name (param k d) s other p h)
    | inr (q, m) ↦ elim (Option-cases (as_kind k q)) [
      | inl w ↦ rw (get-wrong k name d s q m w) h
      | inr (v, f) ↦ rw (get-found k name d s q v m f) h
    ]
  ]
