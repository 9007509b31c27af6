-- ===== src/Domain/Tests.antt =====
-- A domain of 8 by 6 cells on 2 by 2 ranks.
use aperture4_nick.Base.{
  ℕ, zero, suc, ◌+◌, ◌*◌, ◌%◌, ◌^◌, ◌≤◌, ◌<◌, ◌≡◌, refl, ap, arith, true, false, ◌==◌,
  if◌then◌else◌, List, [], ◌∷◌, length, none, some, IsPermutation,
}
use aperture4_nick.Base.Int.{pos, pos_part, neg_part, ◌+ℤ◌}
use aperture4_nick.Index.Radix.{cells}
use aperture4_nick.Index.ColMajor.{to_linear}
use aperture4_nick.Grid.{extent, find_zone, is_in_bound}
use aperture4_nick.Grid.Zones.{IsCell, get_zone_offset}
use aperture4_nick.Comm.{shifted}
use aperture4_nick.Domain.{LocalAxis, local_grid, local_axis, next_power_of_two, axes_of}
use aperture4_nick.Domain.Setup.{Library, DomainInfo, setup_domain, product_int64}
use aperture4_nick.Domain.Torus.{IsCart, up, down, setup_domain-torus}
use aperture4_nick.Domain.Powers.{next_power_of_two_lem}
use aperture4_nick.Domain.Tiles.{IsCut, AllBelow, IsAt, cut_axes}
use aperture4_nick.Domain.Covered.{local_grid-covers}
use aperture4_nick.Domain.Crossing.{shifted-crossed}

next_power_of_two_lem_example :
    (l : ℕ) × (next_power_of_two 100 ≡ some (2 ^ l))
    × (100 ≤ 2 ^ l)
    × ((j : ℕ) → j < l → 2 ^ j < 100)
next_power_of_two_lem_example = next_power_of_two_lem 100 (omega arith)

abbrev cells_of_domain : List ℕ
cells_of_domain = 8 ∷ 6 ∷ []

abbrev guard_cells : List ℕ
guard_cells = 2 ∷ 2 ∷ []

abbrev ranks : List ℕ
ranks = 2 ∷ 2 ∷ []

even_domain : IsCut cells_of_domain guard_cells ranks
even_domain =
    ((omega arith, omega arith, omega arith), ((omega arith, omega arith, omega arith), tt))

local_grid-covers_example :
    (cs : List ℕ) × (axes : List LocalAxis) × (ps : List ℕ) × (local_grid false cells_of_domain
        guard_cells ranks cs
      ≡ some axes)
    × AllBelow cs ranks
    × IsCell (axes_of axes) ps
    × (is_in_bound (axes_of axes) ps ≡ true)
    × IsAt axes ps (5 ∷ 1 ∷ [])
    × ((cs' : List ℕ) (axes' : List LocalAxis) (ps' : List ℕ)
        → local_grid false cells_of_domain guard_cells ranks cs' ≡ some axes'
        → AllBelow cs' ranks
        → IsCell (axes_of axes') ps'
        → is_in_bound (axes_of axes') ps' ≡ true
        → IsAt axes' ps' (5 ∷ 1 ∷ [])
        → (cs' ≡ cs) × (ps' ≡ ps))
local_grid-covers_example =
    local_grid-covers cells_of_domain guard_cells ranks (5 ∷ 1 ∷ []) even_domain
      (omega arith, (omega arith, tt))

abbrev lower_left : List LocalAxis
lower_left = cut_axes cells_of_domain guard_cells ranks (0 ∷ 0 ∷ [])

made : local_grid false cells_of_domain guard_cells ranks (0 ∷ 0 ∷ []) ≡ some lower_left
unfolding local_grid local_axis
made = refl

in_guards : IsAt lower_left (7 ∷ 3 ∷ []) (5 ∷ 1 ∷ [])
unfolding ◌+ℤ◌
in_guards = (refl, (refl, tt))

few_cells : cells (extent (axes_of lower_left)) ≤ 2 ^ 31
unfolding extent
few_cells = omega arith

-- The position (7, 3) lies in the guard cells on the right, behind which the rank at (1, 0) begins.
shifted-crossed_example :
    (there : List LocalAxis) × (qs : List ℕ) × (local_grid false cells_of_domain guard_cells ranks
        (1 ∷ 0 ∷ [])
      ≡ some there)
    × (pos (
          shifted
            (axes_of lower_left)
            (find_zone (axes_of lower_left) (7 ∷ 3 ∷ [])
              + get_zone_offset (length (axes_of lower_left)))
            (record {
              linear = to_linear (7 ∷ 3 ∷ []) (extent (axes_of lower_left));
              ext = extent (axes_of lower_left);
            }))
        ≡ to_linear qs (extent (axes_of lower_left)))
    × (axes_of there ≡ axes_of lower_left)
    × (is_in_bound (axes_of lower_left) qs ≡ true)
    × IsAt there qs (5 ∷ 1 ∷ [])
shifted-crossed_example =
    shifted-crossed cells_of_domain guard_cells ranks (0 ∷ 0 ∷ []) (1 ∷ 0 ∷ []) (7 ∷ 3 ∷ [])
      (5 ∷ 1 ∷ []) lower_left even_domain made (omega arith, (omega arith, tt))
      (omega arith, (omega arith, tt)) (omega arith, (omega arith, tt))
      (omega arith, (omega arith, tt)) (omega arith) (omega arith) few_cells (refl, (refl, tt))
      in_guards

-- Three ranks in a row, which is closed to a ring.
abbrev ring : Library
ring = record {
  dims_create = λ num dims. none;
  cart_coords = λ dims periods r. r ∷ 0 ∷ [];
  cart_rank = λ dims periods r. r;
  cart_shift = λ dims periods n disp r.
      some (if n == 0 then (r + pos_part disp + 2 * neg_part disp) % 3 else r);
}

ring-IsCart : IsCart ring (3 ∷ 1 ∷ []) (true ∷ true ∷ []) 3
ring-IsCart = record {
  below = λ r h. (h, (omega arith, tt));
  apart = λ r s h k e. ap first e;
  shift_up = λ n r l h. ring_up n r l h;
  shift_down = λ n r l h. ring_down n r l h;
}
  where
    first : List ℕ → ℕ
    first [] = 0
    first (c ∷ cs) = c

    ring_up :
        (n r : ℕ)
        → n < 2
        → r < 3
        → (q : ℕ) × (some (if n == 0 then (r + 1 + 2 * 0) % 3 else r) ≡ some q)
          × (q < 3)
          × (q ∷ 0 ∷ [] ≡ up (3 ∷ 1 ∷ []) n (r ∷ 0 ∷ []))
    ring_up zero r l h = (_, refl, omega arith, ap (λ c. c ∷ 0 ∷ []) (ground arith))
    ring_up (suc zero) r l h = (_, refl, h, refl)
    ring_up (suc (suc n)) r l h = absurd (omega arith)

    ring_down :
        (n r : ℕ)
        → n < 2
        → r < 3
        → (q : ℕ) × (some (if n == 0 then (r + 0 + 2 * 1) % 3 else r) ≡ some q)
          × (q < 3)
          × (q ∷ 0 ∷ [] ≡ down (3 ∷ 1 ∷ []) n (r ∷ 0 ∷ []))
    ring_down zero r l h = (_, refl, omega arith, ap (λ c. c ∷ 0 ∷ []) (ground arith))
    ring_down (suc zero) r l h = (_, refl, h, refl)
    ring_down (suc (suc n)) r l h = absurd (omega arith)

three : product_int64 (3 ∷ 1 ∷ []) ≡ 3
unfolding product_int64
three = refl

setup_domain-torus_example :
    (left : ℕ → ℕ → ℕ) × (right : ℕ → ℕ → ℕ) × ((r : ℕ)
      → r < 3
      → (info : DomainInfo) × (setup_domain ring 2 3 r (3 ∷ 1 ∷ []) (true ∷ true ∷ []) ≡ some info)
        × (info.mpi_coord ≡ r ∷ 0 ∷ [])
        × ((n : ℕ)
            → n < 2
            → (info.neighbor_right n ≡ some (right n r))
              × (info.neighbor_left n ≡ some (left n r))))
    × ((n : ℕ)
        → n < 2
        → IsPermutation (right n) 3
          × IsPermutation (left n) 3
          × ((r : ℕ) → r < 3 → (left n (right n r) ≡ r) × (right n (left n r) ≡ r))
          × ((r : ℕ)
              → r < 3
              → (right n r ∷ 0 ∷ [] ≡ up (3 ∷ 1 ∷ []) n (r ∷ 0 ∷ []))
                × (left n r ∷ 0 ∷ [] ≡ down (3 ∷ 1 ∷ []) n (r ∷ 0 ∷ []))))
setup_domain-torus_example =
    setup_domain-torus ring 3 (3 ∷ 1 ∷ []) (true ∷ true ∷ []) three refl ring-IsCart (λ r h. refl)
