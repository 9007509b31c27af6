-- ===== src/Grid/Tests.antt =====
-- A grid of 4 by 3 cells with two guard cells, and the theorems at it.
use aperture4_nick.Base.{◌+◌, ◌≡◌, ◌↔◌, refl, arith, true, [], ◌∷◌}
use aperture4_nick.Grid.{Grid, find_zone, find_zone_from, axis_zone, is_in_bound, make_grid}
use aperture4_nick.Grid.Zones.{
  IsGrid, parts, find_zone-parts, zone-is_in_bound_iff, get_zone_offset,
}

abbrev plane : Grid
plane =
    record { dims = 8; reduced = 4; guard = 2 } ∷ record { dims = 7; reduced = 3; guard = 2 } ∷ []

made : make_grid (4 ∷ 3 ∷ []) (2 ∷ 2 ∷ []) ≡ plane
unfolding make_grid
made = refl

lower_left : find_zone plane (1 ∷ 0 ∷ []) ≡ 0
unfolding find_zone find_zone_from axis_zone
lower_left = refl

plane-IsGrid : IsGrid plane
plane-IsGrid = (
  record { dims = omega arith; small = omega arith },
  (record { dims = omega arith; small = omega arith }, tt),
)

find_zone-parts_example : find_zone plane (7 ∷ 3 ∷ []) ≡ parts plane (7 ∷ 3 ∷ [])
find_zone-parts_example =
    find_zone-parts plane (7 ∷ 3 ∷ []) plane-IsGrid (omega arith, (omega arith, tt))

zone-is_in_bound_iff_example :
    (find_zone plane (7 ∷ 3 ∷ []) + get_zone_offset 2 ≡ 13)
    ↔ (is_in_bound plane (7 ∷ 3 ∷ []) ≡ true)
zone-is_in_bound_iff_example =
    zone-is_in_bound_iff plane (7 ∷ 3 ∷ []) plane-IsGrid (omega arith, (omega arith, tt))
      (omega arith) (omega arith)
