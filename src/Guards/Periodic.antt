-- ===== src/Guards/Periodic.antt =====
-- systems/domain_comm_impl.hpp: on one rank that is its own neighbour in every direction, sending the guard
-- cells makes the array periodic.
use native.Mathlib.Nat.{mul-le-mul}
use aperture4_nick.Base.{
  ℕ, zero, suc, ◌+◌, ◌-◌, ◌*◌, ◌^◌, ◌≤◌, ◌<◌, ◌≡◌, refl, arith, true, false, ==_refl, if◌then◌else◌,
  List, [], ◌∷◌, length, ltb, ltb-lt, some,
}
use aperture4_nick.Index.Radix.{cells}
use aperture4_nick.Grid.{Grid, extent}
use aperture4_nick.Grid.Zones.{IsGrid, IsCell}
use aperture4_nick.Comm.Shift.{HasRoom}
use aperture4_nick.Guards.{Field, axis_idx, buffer_extent, copy_within, loop_size}
use aperture4_nick.Guards.Axes.{nth, set_nth, guard_of}
use aperture4_nick.Guards.Exchange.{
  dims_of, Domain, Buffers, Sendrecv, send_array_single, upper_guard, upper_cells,
}

-- The rank is its own neighbour everywhere.
pub record IsAlone (d : Domain) : Type 0 where
  pub to_left : (dim : ℕ) → d.left dim ≡ some d.rank
  pub to_right : (dim : ℕ) → d.right dim ≡ some d.rank

abbrev pub reduced_of : ℕ → Grid → ℕ
reduced_of dim [] = 0
reduced_of zero (a ∷ axes) = a.reduced
reduced_of (suc dim) (a ∷ axes) = reduced_of dim axes

-- what is known of one axis and one component of a cell
pub axis_facts :
    (dim : ℕ) (grid : Grid) (ps : List ℕ)
    → dim < length grid
    → IsGrid grid
    → IsCell grid ps
    → HasRoom grid
    → (dims_of dim grid ≡ reduced_of dim grid + 2 * guard_of dim grid)
      × (dims_of dim grid < 2 ^ 31)
      × (nth dim ps < dims_of dim grid)
      × (guard_of dim grid ≤ reduced_of dim grid)
axis_facts dim [] ps l v c r = absurd (omega arith)
axis_facts dim (a ∷ axes) [] l v c r = absurd c
axis_facts zero (a ∷ axes) (p ∷ ps) l v c r = (v.0.dims, v.0.small, c.0, r.0)
axis_facts (suc dim) (a ∷ axes) (p ∷ ps) l v c r = axis_facts dim axes ps (omega arith) v.1 c.1 r.1

pub set_nth-IsCell :
    (dim v : ℕ) (grid : Grid) (ps : List ℕ)
    → IsCell grid ps
    → v < dims_of dim grid
    → IsCell grid (set_nth dim v ps)
set_nth-IsCell dim v [] [] c l = tt
set_nth-IsCell dim v [] (p ∷ ps) c l = absurd c
set_nth-IsCell dim v (a ∷ axes) [] c l = absurd c
set_nth-IsCell zero v (a ∷ axes) (p ∷ ps) c l = (l, c.1)
set_nth-IsCell (suc dim) v (a ∷ axes) (p ∷ ps) c l = (c.0, set_nth-IsCell dim v axes ps c.1 l)

pub nth-set_nth :
    (dim v : ℕ) (grid : Grid) (ps : List ℕ)
    → dim < length grid
    → IsCell grid ps
    → nth dim (set_nth dim v ps) ≡ v
nth-set_nth dim v [] ps l c = absurd (omega arith)
nth-set_nth dim v (a ∷ axes) [] l c = absurd c
nth-set_nth zero v (a ∷ axes) (p ∷ ps) l c = refl
nth-set_nth (suc dim) v (a ∷ axes) (p ∷ ps) l c = nth-set_nth dim v axes ps (omega arith) c.1

-- the periodic image of a component
abbrev pub image : ℕ → ℕ → ℕ → ℕ
image guard reduced p =
    if ltb p guard then p + reduced else (if ltb p (guard + reduced) then p else p - reduced)

abbrev pub move_axis : ℕ → Grid → List ℕ → List ℕ
move_axis dim grid ps =
    set_nth dim (image (guard_of dim grid) (reduced_of dim grid) (nth dim ps)) ps

pub move_axis-IsCell :
    (dim : ℕ) (grid : Grid) (ps : List ℕ)
    → dim < length grid
    → IsGrid grid
    → IsCell grid ps
    → HasRoom grid
    → IsCell grid (move_axis dim grid ps)
move_axis-IsCell dim grid ps l v c r =
    let (e, small, lt, room) = axis_facts dim grid ps l v c r in
    set_nth-IsCell dim (image (guard_of dim grid) (reduced_of dim grid) (nth dim ps)) grid ps c
      (ground arith)

-- The box of guard cells at one end of an axis is no larger than the grid.
mul-le : (m n k l : ℕ) → m ≤ k → n ≤ l → m * n ≤ k * l
mul-le m n k l h g = mul-le-mul h g

cells-buffer_extent :
    (dim : ℕ) (grid : Grid) → IsGrid grid → cells (buffer_extent dim grid) ≤ cells (extent grid)
unfolding buffer_extent extent
cells-buffer_extent dim [] v = omega arith
cells-buffer_extent zero (a ∷ axes) v =
    mul-le a.guard (cells (extent axes)) a.dims (cells (extent axes)) (omega (arith, v.0.dims))
      (omega arith)
cells-buffer_extent (suc dim) (a ∷ axes) v =
    mul-le a.dims (cells (buffer_extent dim axes)) a.dims (cells (extent axes)) (omega arith)
      (cells-buffer_extent dim axes v.1)

pub loop_size-cells :
    (dim : ℕ) (grid : Grid)
    → IsGrid grid
    → cells (extent grid) ≤ 2 ^ 31
    → loop_size (buffer_extent dim grid) ≡ cells (buffer_extent dim grid)
loop_size-cells dim grid v few = omega (arith, few, cells-buffer_extent dim grid v)

module _ {A : Type 0} (sendrecv : Sendrecv A) (d : Domain) (alone : IsAlone d) (grid : Grid)
    (v : IsGrid grid) (r : HasRoom grid) where
  -- The branch of a rank that is its own neighbour.
  pub left-alone :
      (dim : ℕ) (s : Field A × Buffers A)
      → dim < length grid
      → send_array_single sendrecv d grid dim true s ≡ (
        copy_within s.0
            (axis_idx dim (upper_guard dim grid) grid)
            (axis_idx dim (guard_of dim grid) grid)
            (buffer_extent dim grid),
        s.1,
      )
  unfolding send_array_single
  left-alone dim (array, b) l =
      rw
        (
          ltb-lt dim (length grid) l,
          alone.to_left dim,
          send_array_single,
          alone.to_right dim,
          ==_refl d.rank,
        )
        refl

  pub right-alone :
      (dim : ℕ) (s : Field A × Buffers A)
      → dim < length grid
      → send_array_single sendrecv d grid dim false s ≡ (
        copy_within s.0
            (axis_idx dim 0 grid)
            (axis_idx dim (upper_cells dim grid) grid)
            (buffer_extent dim grid),
        s.1,
      )
  unfolding send_array_single
  right-alone dim (array, b) l =
      rw
        (
          ltb-lt dim (length grid) l,
          alone.to_left dim,
          send_array_single,
          alone.to_right dim,
          ==_refl d.rank,
        )
        refl
