-- ===== src/Search/Bounds.antt =====
-- utils/binary_search.h: where the searches stop in a sorted array.
use aperture4_nick.Base.{
  ℕ, zero, suc, ◌+◌, ◌-◌, ◌/◌, ◌≤◌, ◌<◌, ◌≡◌, refl, ap, inl, inr, Bool-cases, Bool, true, false,
  not, arith, Array,
}
use aperture4_nick.Search.{Order, lower_loop, lower_bound, upper_loop, upper_bound}
use aperture4_nick.Search.Bisect.{bisect, Splits, bisect_all}

-- What the searches need of the comparison.
abbrev pub IsTransitive : Order → Type 0
IsTransitive o = (x y z : o.Value) → o.le x y ≡ true → o.le y z ≡ true → o.le x z ≡ true

-- The first `size` elements are in order.
abbrev pub IsSorted : (o : Order) → Array o.Value → ℕ → Type 0
IsSorted o a size = (i j : ℕ) → i ≤ j → j < size → o.le (a i) (a j) ≡ true

module _ (o : Order) (x : o.Value) (a : Array o.Value) where
  lower_loop-bisect :
      (fuel low high : ℕ)
      → lower_loop o x a fuel low high ≡ bisect (λ k. o.le x (a k)) fuel low high
  unfolding lower_loop bisect
  lower_loop-bisect zero low high = refl
  lower_loop-bisect (suc fuel) low high = ground (
    arith,
    lower_loop-bisect fuel low (low + (high - low) / 2),
    lower_loop-bisect fuel (low + (high - low) / 2 + 1) high,
  )

  upper_loop-bisect :
      (fuel low high : ℕ)
      → upper_loop o x a fuel low high ≡ bisect (λ k. not (o.le (a k) x)) fuel low high
  unfolding upper_loop bisect
  upper_loop-bisect zero low high = refl
  upper_loop-bisect (suc fuel) low high = ground (
    arith,
    upper_loop-bisect fuel low (low + (high - low) / 2),
    upper_loop-bisect fuel (low + (high - low) / 2 + 1) high,
  )

not-eq-false : (b : Bool) → not b ≡ false → b ≡ true
not-eq-false true h = refl
not-eq-false false h = cc

not-eq-true : (b : Bool) → not b ≡ true → b ≡ false
not-eq-true true h = cc
not-eq-true false h = refl

-- On an array that is sorted by a transitive order, `lower_bound` returns the index of the first element
-- that is not less than `x`: it lies in
-- [0, size], every element before it is less than `x`, and none from it on is.
pub lower_bound_lem :
    (o : Order) (x : o.Value) (a : Array o.Value) (size : ℕ)
    → IsTransitive o
    → IsSorted o a size
    → (lower_bound o x a size ≤ size)
      × ((k : ℕ) → k < lower_bound o x a size → o.le x (a k) ≡ false)
      × ((k : ℕ) → lower_bound o x a size ≤ k → k < size → o.le x (a k) ≡ true)
unfolding lower_bound
lower_bound_lem o x a size trans sorted =
    rw (lower_loop-bisect o x a (suc size) 0 size) (found.within, found.before, found.after)
  where
    found : Splits (λ k. o.le x (a k)) size (bisect (λ k. o.le x (a k)) (suc size) 0 size)
    found =
        bisect_all (λ k. o.le x (a k)) size (λ i j h l e. trans x (a i) (a j) e (sorted i j h l))

-- On an array that is sorted by a transitive order, `upper_bound` returns the index of the first element
-- that is greater than `x`: it lies in
-- [0, size], no element before it is greater than `x`, and every one from it on is.
pub upper_bound_lem :
    (o : Order) (x : o.Value) (a : Array o.Value) (size : ℕ)
    → IsTransitive o
    → IsSorted o a size
    → (upper_bound o x a size ≤ size)
      × ((k : ℕ) → k < upper_bound o x a size → o.le (a k) x ≡ true)
      × ((k : ℕ) → upper_bound o x a size ≤ k → k < size → o.le (a k) x ≡ false)
unfolding upper_bound
upper_bound_lem o x a size trans sorted = rw (upper_loop-bisect o x a (suc size) 0 size) (
  found.within,
  (λ k h. not-eq-false (o.le (a k) x) (found.before k h)),
  (λ k h l. not-eq-true (o.le (a k) x) (found.after k h l)),
)
  where
    past : ℕ → Bool
    past k = not (o.le (a k) x)

    found : Splits past size (bisect past (suc size) 0 size)
    found = bisect_all past size (λ i j h l e. elim (Bool-cases (o.le (a j) x)) [
      | inl t ↦ ground (arith, trans (a i) (a j) x (sorted i j h l) t)
      | inr f ↦ ap not f
    ])
