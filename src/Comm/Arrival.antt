-- ===== src/Comm/Arrival.antt =====
-- core/particles_functions.cpp, `ptc_copy_to_comm_buffers`: where a particle arrives.
use aperture4_nick.Base.{
  ℕ, ◌+◌, ◌^◌, ◌≤◌, ◌<◌, ◌≡◌, sym, ap, ◌∙◌, arith, true, List, [], ◌∷◌, length,
}
use aperture4_nick.Base.Int.{pos}
use aperture4_nick.Index.Radix.{cells, value, value-lt}
use aperture4_nick.Index.ColMajor.{to_linear}
use aperture4_nick.Index.ColMajor.RoundTrip.{to_linear-value}
use aperture4_nick.Grid.{Grid, extent, find_zone, is_in_bound}
use aperture4_nick.Grid.Zones.{IsGrid, IsCell, find_zone-parts, get_zone_offset, is_in_bound-centre}
use aperture4_nick.Comm.{shifted}
use aperture4_nick.Comm.Shift.{
  moved, HasRoom, moved-IsCell, IsCell-IsInside, Shifts, shifted1, shifted2, shifted3,
}

by_rank :
    (grid : Grid) (ps : List ℕ)
    → IsGrid grid
    → IsCell grid ps
    → HasRoom grid
    → 0 < length grid
    → length grid ≤ 3
    → value (moved grid ps) (extent grid) < 2 ^ 32
    → Shifts grid ps
unfolding extent
by_rank [] ps w c r lo hi small = absurd (omega arith)
by_rank (a ∷ axes) [] w c r lo hi small = absurd c
by_rank (a ∷ []) (p ∷ []) w c r lo hi small = shifted1 a p w.0 c.0 r.0 small
by_rank (a ∷ []) (p ∷ q ∷ ps) w c r lo hi small = absurd c.1
by_rank (a ∷ b ∷ axes) (p ∷ []) w c r lo hi small = absurd c.1
by_rank (a ∷ b ∷ []) (p ∷ q ∷ []) w c r lo hi small =
    shifted2 a p w.0 c.0 r.0 b q w.1.0 c.1.0 r.1.0 small
by_rank (a ∷ b ∷ []) (p ∷ q ∷ x ∷ ps) w c r lo hi small = absurd c.1.1
by_rank (a ∷ b ∷ d ∷ axes) (p ∷ q ∷ []) w c r lo hi small = absurd c.1.1
by_rank (a ∷ b ∷ d ∷ []) (p ∷ q ∷ x ∷ []) w c r lo hi small =
    shifted3 a p w.0 c.0 r.0 b q w.1.0 c.1.0 r.1.0 d x w.1.1.0 c.1.1.0 r.1.1.0 small
by_rank (a ∷ b ∷ d ∷ []) (p ∷ q ∷ x ∷ y ∷ ps) w c r lo hi small = absurd c.1.1.1
by_rank (a ∷ b ∷ d ∷ f ∷ axes) ps w c r lo hi small = absurd (omega arith)

-- In one, two and three dimensions, for a cell of a grid of at most 2^31 cells whose interior is at
-- least as wide as its guard cells: the cell number that a leaving particle gets is that of the
-- position moved by the width of the interior in each direction in which it left, up from the lower
-- guard cells and down from the upper ones, and this position is in the interior.
pub shifted-moved :
    (grid : Grid) (ps : List ℕ)
    → IsGrid grid
    → IsCell grid ps
    → HasRoom grid
    → 0 < length grid
    → length grid ≤ 3
    → cells (extent grid) ≤ 2 ^ 31
    → (pos (
          shifted grid
            (find_zone grid ps + get_zone_offset (length grid))
            (record { linear = to_linear ps (extent grid); ext = extent grid }))
        ≡ to_linear (moved grid ps) (extent grid))
      × IsCell grid (moved grid ps)
      × (is_in_bound grid (moved grid ps) ≡ true)
shifted-moved grid ps w c r lo hi small =
    let (m, centred) = moved-IsCell grid ps w c r in
    let inside = IsCell-IsInside grid (moved grid ps) m in
    let s =
      by_rank grid ps w c r lo hi (omega (arith, value-lt (moved grid ps) (extent grid) inside)) in
    (
      rw
          (
            find_zone-parts grid ps w c,
            to_linear-value ps (extent grid) (IsCell-IsInside grid ps c) small,
          )
          (ap pos s ∙ sym (to_linear-value (moved grid ps) (extent grid) inside small)),
      m,
      (is_in_bound-centre grid (moved grid ps) w m).1 centred,
    )
