-- ===== src/Search/Tests.antt =====
-- Searches in a small array, and the theorems at it.
use aperture4_nick.Base.{ℕ, ◌*◌, ◌≤◌, ◌<◌, ◌≡◌, refl, true, false, arith, leb, Array}
use aperture4_nick.Search.{Order, lower_bound, upper_bound, lower_loop, upper_loop}
use aperture4_nick.Search.Bounds.{IsTransitive, IsSorted, lower_bound_lem, upper_bound_lem}

abbrev numbers : Order
numbers = record { Value = ℕ; le = leb }

-- 0 2 4 6 …, of which a search sees a prefix
abbrev evens : Array ℕ
evens k = 2 * k

finds_below : lower_bound numbers 5 evens 6 ≡ 3
unfolding lower_bound lower_loop
finds_below = refl

finds_above : upper_bound numbers 6 evens 6 ≡ 4
unfolding upper_bound upper_loop
finds_above = refl

numbers-IsTransitive : IsTransitive numbers
numbers-IsTransitive x y z h k = ground arith

evens-IsSorted : (size : ℕ) → IsSorted numbers evens size
evens-IsSorted size i j h l = ground arith

lower_bound_lem_example :
    (lower_bound numbers 5 evens 6 ≤ 6)
    × ((k : ℕ) → k < lower_bound numbers 5 evens 6 → leb 5 (evens k) ≡ false)
    × ((k : ℕ) → lower_bound numbers 5 evens 6 ≤ k → k < 6 → leb 5 (evens k) ≡ true)
lower_bound_lem_example = lower_bound_lem numbers 5 evens 6 numbers-IsTransitive (evens-IsSorted 6)

upper_bound_lem_example :
    (upper_bound numbers 6 evens 6 ≤ 6)
    × ((k : ℕ) → k < upper_bound numbers 6 evens 6 → leb (evens k) 6 ≡ true)
    × ((k : ℕ) → upper_bound numbers 6 evens 6 ≤ k → k < 6 → leb (evens k) 6 ≡ false)
upper_bound_lem_example = upper_bound_lem numbers 6 evens 6 numbers-IsTransitive (evens-IsSorted 6)
