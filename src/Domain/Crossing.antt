-- ===== src/Domain/Crossing.antt =====
-- systems/grid_impl.hpp with core/particles_functions.cpp, `ptc_copy_to_comm_buffers`: a particle that goes
-- over to a neighbour stays in its cell of the domain.
use mathlib.Core.Option.{some-injective}
use aperture4_nick.Base.{
  ℕ, ◌+◌, ◌*◌, ◌/◌, ◌^◌, ◌≤◌, ◌<◌, ◌≡◌, refl, sym, ap, ◌∙◌, arith, true, false, lt-cases, inl, inr,
  List, [], ◌∷◌, length, some, subst,
}
use aperture4_nick.Base.Int.{pos, pos_part, ◌+ℤ◌, +ℤ-pos}
use aperture4_nick.Index.Radix.{cells}
use aperture4_nick.Index.ColMajor.{to_linear}
use aperture4_nick.Grid.{Grid, Axis, extent, find_zone, is_in_bound}
use aperture4_nick.Grid.Zones.{IsGrid, IsCell, part, get_zone_offset}
use aperture4_nick.Comm.{shifted}
use aperture4_nick.Comm.Shift.{move, moved, HasRoom}
use aperture4_nick.Comm.Arrival.{shifted-moved}
use aperture4_nick.Domain.{LocalAxis, local_grid, axes_of}
use aperture4_nick.Domain.Tiles.{IsCut, AllBelow, IsAt, cut_axis, cut_axes, local_grid-cut}

-- The rank at `cs'` lies from that at `cs` in the directions in which the cell `ps` is outside.
abbrev pub IsNeighbour : Grid → List ℕ → List ℕ → List ℕ → Type 0
IsNeighbour [] [] [] [] = Unit {0}
IsNeighbour (a ∷ axes) (p ∷ ps) (c ∷ cs) (d ∷ ds) =
    (d + 1 ≡ c + part a p) × IsNeighbour axes ps cs ds
IsNeighbour _ _ _ _ = ⊥

next_row : (c d r : ℕ) → c ≡ d + 1 → c * r ≡ d * r + r
next_row c d r e = ap (λ t. t * r) e ∙ grind arith

-- Moving by one rank and by the width of its interior cancel.
crossed :
    (a : Axis) (c d p : ℕ) → d + 1 ≡ c + part a p → d * a.reduced + move a p ≡ c * a.reduced + p
crossed a c d p e = elim (lt-cases p a.guard) [
  | inl below ↦
      let r = next_row c d a.reduced (ground (arith, e, below)) in ground (arith, r, below)
  | inr from_guard ↦ elim (lt-cases p (a.guard + a.reduced)) [
    | inl inside ↦
        let same : d ≡ c = ground (arith, e, from_guard, inside) in
        let r = ap (λ t. t * a.reduced) same in ground (arith, r, from_guard, inside)
    | inr above ↦
        let r = next_row d c a.reduced (ground (arith, e, from_guard, above)) in
        ground (arith, r, from_guard, above)
  ]
]

one-crossed :
    (n g m c d p x : ℕ)
    → let a : Axis = (cut_axis n g m c).axis in
      d + 1 ≡ c + part a p
      → pos (c * (n / m)) +ℤ pos p ≡ pos (x + g)
      → pos (d * (n / m)) +ℤ pos (move a p) ≡ pos (x + g)
one-crossed n g m c d p x e at =
    let q : c * (n / m) + p ≡ x + g = ap pos_part (sym (+ℤ-pos (c * (n / m)) p) ∙ at) in
    let f : d * (n / m) + move (cut_axis n g m c).axis p ≡ x + g =
      crossed (cut_axis n g m c).axis c d p e ∙ q in
    +ℤ-pos (d * (n / m)) (move (cut_axis n g m c).axis p) ∙ ap pos f

axes-same :
    (ns gs ms cs ds : List ℕ)
    → IsCut ns gs ms
    → AllBelow cs ms
    → AllBelow ds ms
    → axes_of (cut_axes ns gs ms cs) ≡ axes_of (cut_axes ns gs ms ds)
axes-same [] gs ms cs ds w b b' = refl
axes-same (n ∷ ns) [] ms cs ds w b b' = refl
axes-same (n ∷ ns) (g ∷ gs) [] cs ds w b b' = refl
axes-same (n ∷ ns) (g ∷ gs) (m ∷ ms) [] ds w b b' = absurd b
axes-same (n ∷ ns) (g ∷ gs) (m ∷ ms) (c ∷ cs) [] w b b' = absurd b'
axes-same (n ∷ ns) (g ∷ gs) (m ∷ ms) (c ∷ cs) (d ∷ ds) w b b' =
    ap (λ t. (cut_axis n g m c).axis ∷ t) (axes-same ns gs ms cs ds w.1 b.1 b'.1)

all-crossed :
    (ns gs ms cs ds ps xs : List ℕ)
    → IsNeighbour (axes_of (cut_axes ns gs ms cs)) ps cs ds
    → AllBelow cs ms
    → AllBelow ds ms
    → IsCut ns gs ms
    → IsAt (cut_axes ns gs ms cs) ps xs
    → IsAt (cut_axes ns gs ms ds) (moved (axes_of (cut_axes ns gs ms cs)) ps) xs
all-crossed [] [] [] [] [] [] xs v b b' w at = at
all-crossed [] [] [] [] [] (p ∷ ps) xs v b b' w at = absurd v
all-crossed [] [] [] (c ∷ cs) ds ps xs v b b' w at = absurd b
all-crossed [] [] [] [] (d ∷ ds) ps xs v b b' w at = absurd b'
all-crossed (n ∷ ns) [] ms cs ds ps xs v b b' w at = absurd w
all-crossed [] (g ∷ gs) ms cs ds ps xs v b b' w at = absurd w
all-crossed [] [] (m ∷ ms) cs ds ps xs v b b' w at = absurd w
all-crossed (n ∷ ns) (g ∷ gs) [] cs ds ps xs v b b' w at = absurd w
all-crossed (n ∷ ns) (g ∷ gs) (m ∷ ms) [] ds ps xs v b b' w at = absurd b
all-crossed (n ∷ ns) (g ∷ gs) (m ∷ ms) (c ∷ cs) [] ps xs v b b' w at = absurd b'
all-crossed (n ∷ ns) (g ∷ gs) (m ∷ ms) (c ∷ cs) (d ∷ ds) [] xs v b b' w at = absurd v
all-crossed (n ∷ ns) (g ∷ gs) (m ∷ ms) (c ∷ cs) (d ∷ ds) (p ∷ ps) [] v b b' w at = absurd at
all-crossed (n ∷ ns) (g ∷ gs) (m ∷ ms) (c ∷ cs) (d ∷ ds) (p ∷ ps) (x ∷ xs) (e, v) (_, b) (_, b')
      (_, w) (here, at) =
    (one-crossed n g m c d p x e here, all-crossed ns gs ms cs ds ps xs v b b' w at)

-- In one, two and three dimensions, on an even cut of grids of at most 2^31 cells whose interior is at
-- least as wide as the guard cells: the cell number that a particle gets when it leaves for the
-- neighbour at the coordinates `ds` is that of an interior position on this neighbour, and this
-- position is the cell of the domain in which the particle was.
pub shifted-crossed :
    (ns gs ms cs ds ps xs : List ℕ) (axes : List LocalAxis)
    → IsCut ns gs ms
    → local_grid false ns gs ms cs ≡ some axes
    → AllBelow cs ms
    → AllBelow ds ms
    → IsCell (axes_of axes) ps
    → HasRoom (axes_of axes)
    → 0 < length (axes_of axes)
    → length (axes_of axes) ≤ 3
    → cells (extent (axes_of axes)) ≤ 2 ^ 31
    → IsNeighbour (axes_of axes) ps cs ds
    → IsAt axes ps xs
    → (there : List LocalAxis) × (qs : List ℕ) × (local_grid false ns gs ms ds ≡ some there)
      × (pos (
            shifted
              (axes_of axes)
              (find_zone (axes_of axes) ps + get_zone_offset (length (axes_of axes)))
              (record {
                linear = to_linear ps (extent (axes_of axes));
                ext = extent (axes_of axes);
              }))
          ≡ to_linear qs (extent (axes_of axes)))
      × (axes_of there ≡ axes_of axes)
      × (is_in_bound (axes_of axes) qs ≡ true)
      × IsAt there qs xs
shifted-crossed ns gs ms cs ds ps xs axes w e b b' cell room lo hi small v at =
    let (made, grid) = local_grid-cut ns gs ms cs w b in
    let same : cut_axes ns gs ms cs ≡ axes = some-injective _ _ (sym made ∙ e) in
    let (to, _, inside) =
      shifted-moved (axes_of axes) ps (subst (λ a. IsGrid (axes_of a)) same grid) cell room lo hi
        small in
    (
      cut_axes ns gs ms ds,
      moved (axes_of axes) ps,
      (local_grid-cut ns gs ms ds w b').0,
      to,
      axes-same ns gs ms ds cs w b' b ∙ ap axes_of same,
      inside,
      subst (λ a. IsAt (cut_axes ns gs ms ds) (moved (axes_of a) ps) xs) same
          (all-crossed ns gs ms cs ds ps xs
            (subst (λ a. IsNeighbour (axes_of a) ps cs ds) (sym same) v) b b' w
            (subst (λ a. IsAt a ps xs) (sym same) at)),
    )
