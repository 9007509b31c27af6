-- ===== src/Search.antt =====
-- utils/binary_search.h: the two binary searches over a sorted array.
mod Bisect
pub mod Bounds
mod Tests
use aperture4_nick.Base.{ℕ, zero, suc, ◌+◌, ◌-◌, ◌/◌, Bool, ltb, if◌then◌else◌, Array}

-- The element type with its comparison `x <= y`; the code writes `le y x` as `x >= y`.
pub record Order : Type 1 where
  pub Value : Type 0
  pub le : Value → Value → Bool

module _ (o : Order) (x : o.Value) (a : Array o.Value) where
  -- The loop of `lower_bound`, on fuel: one unit for each round.
  pub lower_loop : ℕ → ℕ → ℕ → ℕ
  lower_loop zero low high = low
  lower_loop (suc fuel) low high =
      let mid : ℕ = low + (high - low) / 2 in
      let left = lower_loop fuel low mid in
      let right = lower_loop fuel (mid + 1) high in
      if ltb low high then (if o.le x (a mid) then left else right) else low

  pub lower_bound : ℕ → ℕ
  lower_bound size = lower_loop (suc size) 0 size

  -- The loop of `upper_bound`.
  pub upper_loop : ℕ → ℕ → ℕ → ℕ
  upper_loop zero low high = low
  upper_loop (suc fuel) low high =
      let mid : ℕ = low + (high - low) / 2 in
      let right = upper_loop fuel (mid + 1) high in
      let left = upper_loop fuel low mid in
      if ltb low high then (if o.le (a mid) x then right else left) else low

  pub upper_bound : ℕ → ℕ
  upper_bound size = upper_loop (suc size) 0 size
