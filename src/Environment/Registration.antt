-- ===== src/Environment/Registration.antt =====
-- framework/environment.h: the registries. The order of registration lists the names of the map, each
-- once.
use Prim.Native.String.{String}
use aperture4_nick.Base.{
  ◌≡◌, ◌≢◌, refl, sym, ap, ◌∙◌, arith, false, List, [], ◌∷◌, ◌++◌, none, some, Option-cases, inl,
  inr, Bool-cases, subst,
}
use text.Mathlib.Text.{◌==◌ as same}
use aperture4_nick.Base.Maps.{
  find, insert, find-insert_new, find-insert_old, find-insert_other, same_refl,
}
use aperture4_nick.Environment.{Registry, enroll, register_data, register_all}

module _ {A : Type 0} where
  abbrev pub keys : List (String × A) → List String
  keys [] = []
  keys ((name, x) ∷ rest) = name ∷ keys rest

  -- Every entry but the first of its name is hidden: there is none.
  abbrev pub HasOneEach : List (String × A) → Type 0
  HasOneEach [] = Unit
  HasOneEach ((name, x) ∷ rest) = (find rest name ≡ none) × HasOneEach rest

  pub record IsWellFormed (r : Registry A) : Type 0 where
    pub in_order : r.order ≡ keys r.entries
    pub once : HasOneEach r.entries

  keys-insert :
      (name : String) (x : A) (m : List (String × A))
      → find m name ≡ none
      → keys (insert name x m) ≡ keys m ++ name ∷ []
  unfolding find insert
  keys-insert name x [] h = refl
  keys-insert name x ((k, y) ∷ m) h = ground (arith, keys-insert name x m)

  insert-HasOneEach :
      (name : String) (x : A) (m : List (String × A))
      → find m name ≡ none
      → HasOneEach m
      → HasOneEach (insert name x m)
  unfolding find insert
  insert-HasOneEach name x [] h v = (refl, tt)
  insert-HasOneEach name x ((k, y) ∷ m) h v = elim (Bool-cases (same k name)) [
    | inl e ↦ absurd (ground arith)
    | inr e ↦
        let ne : name ≢ k = λ p. cc (same_refl k, subst (λ (n : String). same k n ≡ false) p e) in
        let g : find m name ≡ none = ground arith in
        rw e (find-insert_other name x m k ne ∙ v.0, insert-HasOneEach name x m g v.1)
  ]

  enroll-IsWellFormed :
      (name : String) (x : A) (r : Registry A)
      → find r.entries name ≡ none
      → IsWellFormed r
      → IsWellFormed (enroll name x r)
  unfolding enroll
  enroll-IsWellFormed name x r h v = record {
    in_order =
        ap (λ (xs : List String). xs ++ name ∷ []) v.in_order
        ∙ sym (keys-insert name x r.entries h);
    once = insert-HasOneEach name x r.entries h v.once;
  }

  -- `register_data` keeps the registry well-formed: its order lists the names of the map, each once.
  pub register_data-IsWellFormed :
      (name : String) (x : A) (r : Registry A)
      → IsWellFormed r
      → IsWellFormed (register_data name x r).1
  unfolding register_data
  register_data-IsWellFormed name x r v = elim (Option-cases (find r.entries name)) [
    | inl h ↦ rw (h, register_data) (enroll-IsWellFormed name x r h v)
    | inr (old, h) ↦ rw (h, register_data) v
  ]

  pub register_all-IsWellFormed :
      (xs : List (String × A)) (r : Registry A) → IsWellFormed r → IsWellFormed (register_all xs r)
  unfolding register_all
  register_all-IsWellFormed [] r v = v
  register_all-IsWellFormed ((name, x) ∷ xs) r v =
      register_all-IsWellFormed xs (register_data name x r).1
        (register_data-IsWellFormed name x r v)

  find-register_data :
      (name : String) (x : A) (r : Registry A)
      → find (register_data name x r).1.entries name ≡ some (register_data name x r).0
  unfolding register_data enroll
  find-register_data name x r = elim (Option-cases (find r.entries name)) [
    | inl h ↦ rw (h, register_data) (find-insert_new name x r.entries h)
    | inr (old, h) ↦ rw (h, register_data) h
  ]

  register_data-found :
      (name : String) (y old : A) (r : Registry A)
      → find r.entries name ≡ some old
      → register_data name y r ≡ (old, r)
  unfolding register_data
  register_data-found name y old r h = rw (h, register_data) refl

  register_data-keeps :
      (name : String) (x : A) (r : Registry A) (other : String) (old : A)
      → find r.entries other ≡ some old
      → find (register_data name x r).1.entries other ≡ some old
  unfolding register_data enroll
  register_data-keeps name x r other old h = elim (Option-cases (find r.entries name)) [
    | inl m ↦ rw (m, register_data) (find-insert_old name x r.entries other old h)
    | inr (p, m) ↦ rw (m, register_data) h
  ]

  -- A name is registered once: a later registration under it, with any other component, returns the
  -- component of the first one and changes nothing, also after another name was registered between.
  register_data-register_data :
      (name between : String) (x y z : A) (r : Registry A)
      → (register_data name y (register_data name x r).1 ≡ register_data name x r)
        × (register_data name y (register_data between z (register_data name x r).1).1
            ≡ ((register_data name x r).0, (register_data between z (register_data name x r).1).1))
  register_data-register_data name between x y z r =
      let f = find-register_data name x r in
      (
        register_data-found name y (register_data name x r).0 (register_data name x r).1 f,
        register_data-found name y (register_data name x r).0
            (register_data between z (register_data name x r).1).1
            (register_data-keeps between z (register_data name x r).1 name
              (register_data name x r).0 f),
      )
