-- ===== src/Grid.antt =====
-- core/grid.hpp, `Grid`: the integer part of a grid. One `Axis` holds the entries of `dims`, `N` and
-- `guard` for one direction. Components of positions are 32-bit patterns.
pub mod Zones
mod Tests
use aperture4_nick.Base.{
  ℕ, zero, suc, ◌+◌, ◌-◌, ◌*◌, ◌%◌, ◌^◌, Bool, true, false, ◌||◌, not, ltb, leb, if◌then◌else◌,
  List, [], ◌∷◌, map, get_elem?, Option, none, some,
}
use aperture4_nick.Vec.{size as product}

pub record Axis : Type 0 where
  pub dims : ℕ
  pub reduced : ℕ
  pub guard : ℕ

abbrev pub Grid : Type 0
Grid = List Axis

-- `make_grid`, of the integer members
unfoldable pub make_grid : List ℕ → List ℕ → Grid
make_grid (n ∷ ns) (g ∷ gs) =
    record { dims = (n + (2 * g) % 2 ^ 32) % 2 ^ 32; reduced = n; guard = g } ∷ make_grid ns gs
make_grid _ _ = []

unfoldable pub extent : Grid → List ℕ
extent grid = map (λ a. a.dims) grid

unfoldable pub extent_less : Grid → List ℕ
extent_less grid = map (λ a. a.reduced) grid

unfoldable pub guards : Grid → List ℕ
guards grid = map (λ a. a.guard) grid

-- `reduced_dim(i)`; the callers multiply by zero what they read behind the last direction.
unfoldable pub reduced_dim : ℕ → Grid → ℕ
reduced_dim i grid = elim (get_elem? grid i) [ none ↦ 0 | some a ↦ a.reduced ]

unfoldable pub size : Grid → ℕ
unfolding extent
size grid = product (extent grid)

-- `<` and `>=` of two `int`s; with a `uint32_t` on one side both sides are compared as patterns.
abbrev pub lt_int : ℕ → ℕ → Bool
lt_int a b = ltb ((a + 2 ^ 31) % 2 ^ 32) ((b + 2 ^ 31) % 2 ^ 32)

abbrev pub bit : Bool → ℕ
bit true = 1
bit false = 0

-- One summand of `find_zone`: 0 before the interior, 1 in it, 2 behind it.
unfoldable pub axis_zone : Axis → ℕ → ℕ
axis_zone a p = bit (not (lt_int p a.guard)) + bit (leb ((a.dims + 2 ^ 32 - a.guard) % 2 ^ 32) p)

unfoldable pub find_zone_from : ℕ → ℕ → Grid → List ℕ → ℕ
unfolding axis_zone
find_zone_from stride linear (a ∷ axes) (p ∷ ps) =
    find_zone_from (stride * 3) (linear + axis_zone a p * stride) axes ps
find_zone_from stride linear _ _ = linear

unfoldable pub find_zone : Grid → List ℕ → ℕ
unfolding find_zone_from
find_zone grid position = find_zone_from 1 0 grid position

-- `is_in_bound` and `is_in_grid` of a position: the loops return at the first direction that fails.
unfoldable pub is_in_bound : Grid → List ℕ → Bool
is_in_bound (a ∷ axes) (p ∷ ps) =
    if lt_int p a.guard || leb ((a.reduced + a.guard) % 2 ^ 32) p
    then false
    else is_in_bound axes ps
is_in_bound _ _ = true

unfoldable pub is_in_grid : Grid → List ℕ → Bool
is_in_grid (a ∷ axes) (p ∷ ps) = if leb a.dims p then false else is_in_grid axes ps
is_in_grid _ _ = true
