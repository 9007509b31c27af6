-- ===== src/Domain.antt =====
-- systems/grid_impl.hpp: the grid of a rank, cut out of the whole domain, in its integer part, and
-- `next_power_of_two` of utils/util_functions.h.
pub mod Setup
pub mod Torus
pub mod Powers
pub mod Tiles
pub mod Covered
pub mod Crossing
mod Tests
use aperture4_nick.Base.{
  ℕ, zero, suc, ◌+◌, ◌*◌, ◌/◌, ◌%◌, ◌^◌, Bool, ltb, ◌==◌, if◌then◌else◌, List, [], ◌∷◌, map, Option,
  none, some, ◌>>=◌,
}
use aperture4_nick.Base.Int.{ℤ, signed32}
use aperture4_nick.Grid.{Axis, Grid}

-- The loop of `next_power_of_two` for a `uint32_t`, on fuel.
unfoldable pub next_power_from : ℕ → ℕ → ℕ → Option ℕ
next_power_from zero num p = none
next_power_from (suc fuel) num p =
    let rest = next_power_from fuel num ((p * 2) % 2 ^ 32) in if ltb p num then rest else some p

unfoldable pub next_power_of_two : ℕ → Option ℕ
unfolding next_power_from
next_power_of_two num = next_power_from 33 num 1

-- One direction of a rank's grid, with its entry of `offset`.
pub record LocalAxis : Type 0 where
  pub axis : Axis
  pub offset : ℤ

-- One direction of the constructor `grid_t`: `n` cells on `mpi_dims` ranks, at `mpi_coord`. `none` is a
-- division by zero or a loop that does not end.
unfoldable pub local_axis : Bool → ℕ → ℕ → ℕ → ℕ → Option LocalAxis
unfolding next_power_of_two
local_axis is_zorder n guard mpi_dims mpi_coord = do
  let reduced : ℕ = n / mpi_dims
  let sum : ℕ = (reduced + (2 * guard) % 2 ^ 32) % 2 ^ 32
  dims ← if mpi_dims == 0 then none else (if is_zorder then next_power_of_two sum else some sum)
  some (record {
    axis = record { dims = dims; reduced = reduced; guard = guard };
    offset = signed32 ((mpi_coord * reduced) % 2 ^ 32);
  })

unfoldable pub local_grid : Bool → List ℕ → List ℕ → List ℕ → List ℕ → Option (List LocalAxis)
unfolding local_axis
local_grid is_zorder (n ∷ ns) (g ∷ gs) (m ∷ ms) (c ∷ cs) = do
  a ← local_axis is_zorder n g m c
  axes ← local_grid is_zorder ns gs ms cs
  some (a ∷ axes)
local_grid is_zorder _ _ _ _ = some []

abbrev pub axes_of : List LocalAxis → Grid
axes_of axes = map (λ a. a.axis) axes
