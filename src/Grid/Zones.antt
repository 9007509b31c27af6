-- ===== src/Grid/Zones.antt =====
-- core/grid.hpp, `find_zone`, with `get_zone_offset` of core/particles_functions.h: the zone of a cell
-- says in which directions the cell lies in the guard cells.
use aperture4_nick.Base.{
  ℕ, ◌+◌, ◌*◌, ◌%◌, ◌^◌, ◌≤◌, ◌<◌, ◌≡◌, refl, ◌∙◌, arith, Bool, true, false, ◌||◌, List, [], ◌∷◌,
  length, ◌↔◌, ltb, leb, if◌then◌else◌, ◌==◌,
}
use aperture4_nick.Grid.{
  Axis, Grid, axis_zone, find_zone, find_zone_from, is_in_bound, make_grid, lt_int,
}

-- `get_zone_offset<Dim>`
unfoldable pub get_zone_offset : ℕ → ℕ
get_zone_offset dim = if dim == 1 then 12 else (if dim == 2 then 9 else 0)

-- an axis as `make_grid` fills it, of less than 2^31 cells, guard cells included.
pub record IsAxis (a : Axis) : Type 0 where
  pub dims : a.dims ≡ a.reduced + 2 * a.guard
  pub small : a.dims < 2 ^ 31

abbrev pub IsGrid : Grid → Type 0
IsGrid [] = Unit
IsGrid (a ∷ axes) = IsAxis a × IsGrid axes

-- The position is a cell of the grid.
abbrev pub IsCell : Grid → List ℕ → Type 0
IsCell [] [] = Unit {0}
IsCell [] (p ∷ ps) = ⊥
IsCell (a ∷ axes) [] = ⊥
IsCell (a ∷ axes) (p ∷ ps) = (p < a.dims) × IsCell axes ps

-- in which part of its axis a cell lies
abbrev pub part : Axis → ℕ → ℕ
part a p = if ltb p a.guard then 0 else (if ltb p (a.guard + a.reduced) then 1 else 2)

pub axis_zone-part : (a : Axis) (p : ℕ) → IsAxis a → p < a.dims → axis_zone a p ≡ part a p
unfolding axis_zone
axis_zone-part a p v l = ground (arith, v.dims, v.small)

-- The zone number written in base three.
abbrev pub parts : Grid → List ℕ → ℕ
parts (a ∷ axes) (p ∷ ps) = part a p + 3 * parts axes ps
parts _ _ = 0

find_zone_from-parts :
    (s r : ℕ) (grid : Grid) (ps : List ℕ)
    → IsGrid grid
    → IsCell grid ps
    → find_zone_from s r grid ps ≡ r + s * parts grid ps
unfolding find_zone_from
find_zone_from-parts s r [] [] v c = omega arith
find_zone_from-parts s r [] (p ∷ ps) v c = absurd c
find_zone_from-parts s r (a ∷ axes) [] v c = absurd c
find_zone_from-parts s r (a ∷ axes) (p ∷ ps) v c =
    rw (axis_zone-part a p v.0 c.0)
      (let x = find_zone_from-parts (s * 3) (r + part a p * s) axes ps v.1 c.1 in grind arith)

-- For a cell of a grid whose axes are as `make_grid` makes them, the zone number has one digit in
-- base three for each direction, the first direction lowest: 0 in the lower guard cells, 1 in the
-- interior and 2 in the upper guard cells.
pub find_zone-parts :
    (grid : Grid) (ps : List ℕ) → IsGrid grid → IsCell grid ps → find_zone grid ps ≡ parts grid ps
unfolding find_zone
find_zone-parts grid ps v c = find_zone_from-parts 1 0 grid ps v c ∙ omega arith

in_bound-part :
    (a : Axis) (p : ℕ) (rest : Bool)
    → IsAxis a
    → p < a.dims
    → (if lt_int p a.guard || leb ((a.reduced + a.guard) % 2 ^ 32) p then false else rest)
      ≡ (if ltb p a.guard || leb (a.guard + a.reduced) p then false else rest)
in_bound-part a p rest v l = ground (arith, v.dims, v.small)

-- Every digit is 1.
abbrev pub centre : Grid → ℕ
centre [] = 0
centre (a ∷ axes) = 1 + 3 * centre axes

pub part-le : (a : Axis) (p : ℕ) → part a p ≤ 2
part-le a p = ground arith

pub is_in_bound-centre :
    (grid : Grid) (ps : List ℕ)
    → IsGrid grid
    → IsCell grid ps
    → (is_in_bound grid ps ≡ true) ↔ (parts grid ps ≡ centre grid)
unfolding is_in_bound
is_in_bound-centre [] [] v c = (λ e. refl, λ e. refl)
is_in_bound-centre [] (p ∷ ps) v c = absurd c
is_in_bound-centre (a ∷ axes) [] v c = absurd c
is_in_bound-centre (a ∷ axes) (p ∷ ps) v c = rw (in_bound-part a p (is_in_bound axes ps) v.0 c.0) (
    let x = is_in_bound-centre axes ps v.1 c.1 in
    let le = part-le a p in (λ e. ground (arith, x.0), λ e. ground (arith, x.1)))

offset-centre :
    (grid : Grid)
    → 0 < length grid
    → length grid ≤ 3
    → centre grid + get_zone_offset (length grid) ≡ 13
unfolding get_zone_offset
offset-centre [] l u = absurd (omega arith)
offset-centre (a ∷ []) l u = refl
offset-centre (a ∷ b ∷ []) l u = refl
offset-centre (a ∷ b ∷ c ∷ []) l u = refl
offset-centre (a ∷ b ∷ c ∷ d ∷ rest) l u = absurd (omega arith)

-- In one, two and three dimensions, on a grid whose axes are as `make_grid` makes them, that is with
-- `dims = N + 2 * guard`, of less than 2^31 cells each, a cell of the grid has the central zone 13, after
-- the offset of the dimension, exactly when `is_in_bound` holds of it.
pub zone-is_in_bound_iff :
    (grid : Grid) (ps : List ℕ)
    → IsGrid grid
    → IsCell grid ps
    → 0 < length grid
    → length grid ≤ 3
    → (find_zone grid ps + get_zone_offset (length grid) ≡ 13) ↔ (is_in_bound grid ps ≡ true)
zone-is_in_bound_iff grid ps v c l u =
    let z = find_zone-parts grid ps v c in
    let o = offset-centre grid l u in
    let b = is_in_bound-centre grid ps v c in (λ e. b.1 (omega arith), λ e. omega (arith, b.0 e))

-- `make_grid` gives such axes, when the sizes fit.
pub make_grid-IsGrid : (n g : ℕ) → n + 2 * g < 2 ^ 31 → IsGrid (make_grid (n ∷ []) (g ∷ []))
unfolding make_grid
make_grid-IsGrid n g l = (record { dims = omega arith; small = omega arith }, tt)
