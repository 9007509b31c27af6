-- ===== src/Index/Tests.antt =====
-- Indices in small grids, and the theorems at them.
use aperture4_nick.Base.{ℕ, ◌*◌, ◌<◌, ◌≡◌, ◌↔◌, arith, List, [], ◌∷◌}
use aperture4_nick.Base.Int.{pos}
use aperture4_nick.Index.Radix.{IsInside, cells}
use aperture4_nick.Index.ColMajor.{
  to_linear, position_of, get_pos1, get_pos2, get_pos3, Idx, inc, dec,
}
use aperture4_nick.Index.ColMajor.RoundTrip.{
  position_of-to_linear, to_linear-position_of, get_pos-position_of,
}
use aperture4_nick.Index.ColMajor.Steps.{shift, inc-dec_lem}
use aperture4_nick.Index.RowMajor.{to_linear as row_linear, position_of as row_position}
use aperture4_nick.Index.RowMajor.Specialised.{Recovers, get_pos2-square_iff}

abbrev box : List ℕ
box = 4 ∷ 3 ∷ 5 ∷ []

abbrev place : List ℕ
place = 2 ∷ 1 ∷ 3 ∷ []

place-IsInside : IsInside place box
place-IsInside = (omega arith, (omega arith, (omega arith, tt)))

shift-IsInside : IsInside (shift 0 1 place) box
unfolding shift
shift-IsInside = (omega arith, (omega arith, (omega arith, tt)))

position_of-to_linear_example :
    (n : ℕ) × (to_linear place box ≡ pos n) × (n < cells box) × (position_of n box ≡ place)
position_of-to_linear_example = position_of-to_linear place box place-IsInside (omega arith)

to_linear-position_of_example :
    IsInside (position_of 42 box) box × (to_linear (position_of 42 box) box ≡ pos 42)
to_linear-position_of_example = to_linear-position_of 42 box (omega arith) (omega arith)

get_pos-position_of_example :
    (3 < 4 → get_pos1 3 ≡ position_of 3 (4 ∷ []))
    × (3 < 4 * 3 → get_pos2 3 4 ≡ position_of 3 (4 ∷ 3 ∷ []))
    × (3 < 4 * (3 * 5) → get_pos3 3 4 3 ≡ position_of 3 (4 ∷ 3 ∷ 5 ∷ []))
get_pos-position_of_example = get_pos-position_of 3 4 3 5

abbrev at_place : Idx
at_place = record { linear = to_linear place box; ext = box }

abbrev beside_place : Idx
beside_place = record { linear = to_linear (shift 0 1 place) box; ext = box }

inc-dec_lem_example :
    (inc 0 (pos 1) at_place ≡ beside_place) × (dec 0 (pos 1) beside_place ≡ at_place)
inc-dec_lem_example = inc-dec_lem 0 1 place box place-IsInside shift-IsInside (omega arith)

abbrev columns : ℕ
columns = 4

get_pos2-square_iff_example : Recovers 4 3 ↔ (columns ≡ 3)
get_pos2-square_iff_example = get_pos2-square_iff 4 3 (omega arith) (omega arith)
