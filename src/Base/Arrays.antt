-- ===== src/Base/Arrays.antt =====
-- Raw memory behind a pointer, `T*`: the element at each index. A write changes one element.
use Prim.Native.Nat.{ℕ, zero, suc, ◌+◌, ◌<◌}
use mathlib.Core.Path.{◌≡◌, refl, sym, ap, ap₂, ◌∙◌}
use mathlib.Core.Logic.{◌≢◌}
use mathlib.Core.List.{List, [], ◌∷◌, ◌++◌, append_assoc, append-nil}
use mathlib.Core.Option.{some}
use native.Mathlib.Omega.{arith}
use aperture4_nick.Base.Lists.{length, length-append, get_elem?}
use aperture4_nick.Base.Tests.{◌==◌, if◌then◌else◌}

abbrev pub Array {ℓ} : Type ℓ → Type ℓ
Array A = ℕ → A

-- `a[i] = v`
abbrev pub write {ℓ} : {A : Type ℓ} → Array A → ℕ → A → Array A
write a i v j = if j == i then v else a j

pub write_same {ℓ} : {A : Type ℓ} (a : Array A) (i j : ℕ) (v : A) → j ≡ i → write a i v j ≡ v
write_same a i j v e = ground arith

pub write_other {ℓ} : {A : Type ℓ} (a : Array A) (i j : ℕ) (v : A) → j ≢ i → write a i v j ≡ a j
write_other a i j v ne = ground arith

module _ {ℓ} {A : Type ℓ} where
  -- The first `n` elements, as a list.
  unfoldable pub listing : Array A → ℕ → List A
  listing a zero = []
  listing a (suc n) = listing a n ++ a n ∷ []

  -- The elements of `xs` are written from `i` on.
  unfoldable pub write_list : Array A → ℕ → List A → Array A
  write_list a i [] = a
  write_list a i (x ∷ xs) = write_list (write a i x) (suc i) xs

  pub listing_zero : (a : Array A) → listing a 0 ≡ []
  unfolding listing
  listing_zero a = refl

  pub length-listing : (a : Array A) (n : ℕ) → length (listing a n) ≡ n
  unfolding listing
  length-listing a zero = refl
  length-listing a (suc n) =
      omega (arith, length-append (listing a n) (a n ∷ []), length-listing a n)

  listing_ext : (a b : Array A) (n : ℕ) → ((i : ℕ) → i < n → a i ≡ b i) → listing a n ≡ listing b n
  unfolding listing
  listing_ext a b zero e = refl
  listing_ext a b (suc n) e =
      ap₂ (λ xs x. xs ++ x ∷ []) (listing_ext a b n (λ i l. e i (omega arith))) (e n (omega arith))

  pub listing-write_list :
      (a : Array A) (n : ℕ) (xs : List A)
      → listing (write_list a n xs) (n + length xs) ≡ listing a n ++ xs
  unfolding listing write_list
  listing-write_list a n [] = ap (listing a) {x = n + 0} {y = n} (omega arith) ∙ sym (append-nil _)
  listing-write_list a n (x ∷ xs) =
      ap (listing (write_list (write a n x) (suc n) xs)) {x = n + suc (length xs)}
        {y = suc n + length xs} (omega arith)
      ∙ listing-write_list (write a n x) (suc n) xs
      ∙ ap₂ (λ ys y. (ys ++ y ∷ []) ++ xs)
          (listing_ext (write a n x) a n (λ i l. write_other a n i x (omega arith)))
          (write_same a n n x refl)
      ∙ append_assoc (listing a n) (x ∷ []) xs

  listing-cons : (a : Array A) (n : ℕ) → listing a (suc n) ≡ a 0 ∷ listing (λ i. a (suc i)) n
  unfolding listing
  listing-cons a zero = refl
  listing-cons a (suc n) = ap (λ xs. xs ++ a (suc n) ∷ []) (listing-cons a n)

  -- Elements that are those of a list make up the list, and the other way round.
  pub listing_of :
      (a : Array A) (xs : List A)
      → ((k : ℕ) (x : A) → get_elem? xs k ≡ some x → a k ≡ x)
      → listing a (length xs) ≡ xs
  unfolding listing
  listing_of a [] h = refl
  listing_of a (x ∷ xs) h =
      listing-cons a (length xs)
      ∙ ap₂ ◌∷◌ (h 0 x refl) (listing_of (λ i. a (suc i)) xs (λ k y e. h (suc k) y e))

  pub get_elem?-listing :
      (a : Array A) (n : ℕ) (xs : List A) (k : ℕ) (x : A)
      → listing a n ≡ xs
      → get_elem? xs k ≡ some x
      → a k ≡ x
  unfolding listing
  get_elem?-listing a n [] k x e h = absurd (ground arith)
  get_elem?-listing a zero (y ∷ ys) k x e h = absurd (ground arith)
  get_elem?-listing a (suc n) (y ∷ ys) zero x e h = cc (listing-cons a n)
  get_elem?-listing a (suc n) (y ∷ ys) (suc k) x e h =
      get_elem?-listing (λ i. a (suc i)) n ys k x (cc (listing-cons a n)) h

  pub write_list-below : (a : Array A) (i j : ℕ) (xs : List A) → j < i → write_list a i xs j ≡ a j
  unfolding write_list
  write_list-below a i j [] l = refl
  write_list-below a i j (x ∷ xs) l =
      write_list-below (write a i x) (suc i) j xs (omega arith) ∙ write_other a i j x (omega arith)

  pub write_list-first :
      (a : Array A) (xs : List A) (x : A) → get_elem? xs 0 ≡ some x → write_list a 0 xs 0 ≡ x
  unfolding write_list
  write_list-first a [] x e = absurd (ground arith)
  write_list-first a (y ∷ ys) x e =
      write_list-below (write a 0 y) 1 0 ys (omega arith) ∙ ground (arith, e)

  pub get_elem?-listing-append :
      (a : Array A) (n : ℕ) (xs : List A) → 0 < n → get_elem? (listing a n ++ xs) 0 ≡ some (a 0)
  get_elem?-listing-append a zero xs l = absurd (omega arith)
  get_elem?-listing-append a (suc n) xs l =
      ap (λ (ys : List A). get_elem? (ys ++ xs) 0) (listing-cons a n)
