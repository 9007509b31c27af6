-- ===== src/Guards/Image.antt =====
-- systems/domain_comm_impl.hpp, `send_guard_cells`: one direction after the other.
use aperture4_nick.Base.{
  ℕ, ◌+◌, ◌-◌, ◌^◌, ◌≤◌, ◌<◌, ◌≡◌, refl, sym, ap, ◌∙◌, arith, Bool, true, false, if◌then◌else◌,
  List, [], ◌∷◌, length, inl, inr, ltb, leb, ltb-lt, ltb-ge, leb-le, leb-gt, lt-cases,
}
use aperture4_nick.Index.Radix.{cells}
use aperture4_nick.Grid.{Grid, extent}
use aperture4_nick.Grid.Zones.{IsGrid, IsCell}
use aperture4_nick.Comm.Shift.{moved, HasRoom}
use aperture4_nick.Guards.{Field, copy_within, buffer_extent, transfer_within}
use aperture4_nick.Guards.Axes.{nth, set_nth, set-nth, guard_of, within-axis}
use aperture4_nick.Guards.Exchange.{
  Domain, Buffers, Sendrecv, send_array_single, send_array, upper_guard, upper_cells,
}
use aperture4_nick.Guards.Periodic.{
  IsAlone, reduced_of, axis_facts, set_nth-IsCell, nth-set_nth, move_axis, move_axis-IsCell,
  left-alone, right-alone, loop_size-cells,
}

-- An axis of the grid, or none: what a pass does in either case.
abbrev pass_to : Grid → ℕ → List ℕ → List ℕ
pass_to grid dim ps = if ltb dim (length grid) then move_axis dim grid ps else ps

module _ {A : Type 0} (sendrecv : Sendrecv A) (d : Domain) (alone : IsAlone d) (grid : Grid)
    (v : IsGrid grid) (r : HasRoom grid) (few : cells (extent grid) ≤ 2 ^ 31) where
  -- The rounds of the loop over a box of guard cells.
  all_cells :
      (dim : ℕ) (dst src : List ℕ) (array : Field A) (ps : List ℕ)
      → copy_within array dst src (buffer_extent dim grid) ps
        ≡ transfer_within
            (λ x y. y)
            (buffer_extent dim grid)
            dst
            src
            (cells (buffer_extent dim grid))
            0
            array
            ps
  unfolding copy_within
  all_cells dim dst src array ps =
      ap (λ n. transfer_within (λ x y. y) (buffer_extent dim grid) dst src n 0 array ps)
        (loop_size-cells dim grid v few)

  -- The upper guard cells get the cells a width of the interior below.
  left_pass :
      (dim : ℕ) (s : Field A × Buffers A) (ps : List ℕ)
      → dim < length grid
      → IsCell grid ps
      → (send_array_single sendrecv d grid dim true s).0 ps ≡ (
          if leb (guard_of dim grid + reduced_of dim grid) (nth dim ps)
          then s.0 (set_nth dim (nth dim ps - reduced_of dim grid) ps)
          else s.0 ps)
  unfolding copy_within
  left_pass dim s ps l c =
      let (e, small, lt, room) = axis_facts dim grid ps l v c r in
      let at : upper_guard dim grid ≡ guard_of dim grid + reduced_of dim grid = omega arith in
      ap (λ x. x.0 ps) (left-alone sendrecv d alone grid v r dim s l)
      ∙ all_cells dim _ _ s.0 ps
      ∙ within-axis (λ x y. y) dim (upper_guard dim grid) (guard_of dim grid) grid l
          (inr (omega arith)) s.0 ps c
      ∙ rw at (elim (lt-cases (nth dim ps) (guard_of dim grid + reduced_of dim grid)) [
        | inl below ↦ rw (leb-gt (guard_of dim grid + reduced_of dim grid) (nth dim ps) below) refl
        | inr above ↦
            let there : guard_of dim grid + (nth dim ps - (guard_of dim grid + reduced_of dim grid))
                ≡ nth dim ps - reduced_of dim grid =
              omega arith in
            rw
              (
                leb-le (guard_of dim grid + reduced_of dim grid) (nth dim ps) above,
                ltb-lt (nth dim ps) (guard_of dim grid + reduced_of dim grid + guard_of dim grid)
                    (omega arith),
              )
              (ap (λ n. s.0 (set_nth dim n ps)) there)
      ])

  -- The lower guard cells get the cells a width of the interior above.
  right_pass :
      (dim : ℕ) (s : Field A × Buffers A) (ps : List ℕ)
      → dim < length grid
      → IsCell grid ps
      → (send_array_single sendrecv d grid dim false s).0 ps ≡ (
          if ltb (nth dim ps) (guard_of dim grid)
          then s.0 (set_nth dim (nth dim ps + reduced_of dim grid) ps)
          else s.0 ps)
  unfolding copy_within
  right_pass dim s ps l c =
      let (e, small, lt, room) = axis_facts dim grid ps l v c r in
      let at : upper_cells dim grid ≡ reduced_of dim grid = omega arith in
      ap (λ x. x.0 ps) (right-alone sendrecv d alone grid v r dim s l)
      ∙ all_cells dim _ _ s.0 ps
      ∙ within-axis (λ x y. y) dim 0 (upper_cells dim grid) grid l (inl (omega arith)) s.0 ps c
      ∙ rw at (elim (lt-cases (nth dim ps) (guard_of dim grid)) [
        | inl below ↦
            let there : reduced_of dim grid + (nth dim ps - 0) ≡ nth dim ps + reduced_of dim grid =
              omega arith in
            rw
              (
                leb-le 0 (nth dim ps) (omega arith),
                ltb-lt (nth dim ps) (guard_of dim grid) below,
                ltb-lt (nth dim ps) (0 + guard_of dim grid) (omega arith),
              )
              (ap (λ n. s.0 (set_nth dim n ps)) there)
        | inr above ↦
            rw
              (
                leb-le 0 (nth dim ps) (omega arith),
                ltb-ge (nth dim ps) (guard_of dim grid) above,
                ltb-ge (nth dim ps) (0 + guard_of dim grid) (omega arith),
              )
              refl
      ])

  -- Both ends of one axis.
  axis_pass :
      (dim : ℕ) (s : Field A × Buffers A) (ps : List ℕ)
      → dim < length grid
      → IsCell grid ps
      → (send_array_single sendrecv d grid dim false
            (send_array_single sendrecv d grid dim true s)).0
          ps
        ≡ s.0 (move_axis dim grid ps)
  axis_pass dim s ps l c =
      let (e, small, lt, room) = axis_facts dim grid ps l v c r in
      let half = send_array_single sendrecv d grid dim true s in
      let n = nth dim ps in
      let g = guard_of dim grid in
      let w = reduced_of dim grid in
      right_pass dim half ps l c ∙ elim (lt-cases n g) [
        | inl below ↦
            let to = set_nth dim (n + w) ps in
            let cell = set_nth-IsCell dim (n + w) grid ps c (omega arith) in
            let at = nth-set_nth dim (n + w) grid ps l c in
            rw (ltb-lt n g below)
              (left_pass dim s to l cell ∙ rw (leb-gt (g + w) (nth dim to) (omega arith)) refl)
        | inr above ↦ elim (lt-cases n (g + w)) [
          | inl inside ↦
              rw (ltb-ge n g above, ltb-lt n (g + w) inside)
                (left_pass dim s ps l c
                  ∙ rw (leb-gt (g + w) n inside) refl
                  ∙ ap s.0 (sym (set-nth dim ps n refl)))
          | inr behind ↦
              rw (ltb-ge n g above, ltb-ge n (g + w) behind)
                (left_pass dim s ps l c ∙ rw (leb-le (g + w) n behind) refl)
        ]
      ]

  no_axis :
      (dim : ℕ) (left : Bool) (s : Field A × Buffers A)
      → length grid ≤ dim
      → send_array_single sendrecv d grid dim left s ≡ s
  unfolding send_array_single
  no_axis dim left (array, b) l = rw (ltb-ge dim (length grid) l, send_array_single) refl

  no_axis_pass :
      (dim : ℕ) (s : Field A × Buffers A)
      → length grid ≤ dim
      → send_array_single sendrecv d grid dim false (send_array_single sendrecv d grid dim true s)
        ≡ s
  no_axis_pass dim s l =
      ap (send_array_single sendrecv d grid dim false) (no_axis dim true s l)
      ∙ no_axis dim false s l

  any_pass :
      (dim : ℕ) (s : Field A × Buffers A) (ps : List ℕ)
      → IsCell grid ps
      → (send_array_single sendrecv d grid dim false
            (send_array_single sendrecv d grid dim true s)).0
          ps
        ≡ s.0 (pass_to grid dim ps)
  any_pass dim s ps c = elim (lt-cases dim (length grid)) [
    | inl h ↦ rw (ltb-lt dim (length grid) h) (axis_pass dim s ps h c)
    | inr h ↦ rw (ltb-ge dim (length grid) h) (ap (λ x. x.0 ps) (no_axis_pass dim s h))
  ]

  pass_to-IsCell : (dim : ℕ) (ps : List ℕ) → IsCell grid ps → IsCell grid (pass_to grid dim ps)
  pass_to-IsCell dim ps c = elim (lt-cases dim (length grid)) [
    | inl h ↦ rw (ltb-lt dim (length grid) h) (move_axis-IsCell dim grid ps h v c r)
    | inr h ↦ rw (ltb-ge dim (length grid) h) c
  ]

  send_array-passes :
      (s : Field A × Buffers A) (ps : List ℕ)
      → IsCell grid ps
      → (send_array sendrecv d grid s).0 ps
        ≡ s.0 (pass_to grid 0 (pass_to grid 1 (pass_to grid 2 ps)))
  unfolding send_array
  send_array-passes s ps c =
      let s₁ =
        send_array_single sendrecv d grid 0 false (send_array_single sendrecv d grid 0 true s) in
      let s₂ =
        send_array_single sendrecv d grid 1 false (send_array_single sendrecv d grid 1 true s₁) in
      let c₂ = pass_to-IsCell 2 ps c in
      any_pass 2 s₂ ps c
      ∙ any_pass 1 s₁ (pass_to grid 2 ps) c₂
      ∙ any_pass 0 s (pass_to grid 1 (pass_to grid 2 ps)) (pass_to-IsCell 1 (pass_to grid 2 ps) c₂)

passes-moved :
    (grid : Grid) (ps : List ℕ)
    → IsCell grid ps
    → length grid ≤ 3
    → pass_to grid 0 (pass_to grid 1 (pass_to grid 2 ps)) ≡ moved grid ps
passes-moved [] [] c l = refl
passes-moved [] (p ∷ ps) c l = absurd c
passes-moved (a ∷ axes) [] c l = absurd c
passes-moved (a ∷ []) (p ∷ []) c l = refl
passes-moved (a ∷ []) (p ∷ q ∷ ps) c l = absurd c.1
passes-moved (a ∷ b ∷ axes) (p ∷ []) c l = absurd c.1
passes-moved (a ∷ b ∷ []) (p ∷ q ∷ []) c l = refl
passes-moved (a ∷ b ∷ []) (p ∷ q ∷ x ∷ ps) c l = absurd c.1.1
passes-moved (a ∷ b ∷ e ∷ axes) (p ∷ q ∷ []) c l = absurd c.1.1
passes-moved (a ∷ b ∷ e ∷ []) (p ∷ q ∷ x ∷ []) c l = refl
passes-moved (a ∷ b ∷ e ∷ []) (p ∷ q ∷ x ∷ y ∷ ps) c l = absurd c.1.1.1
passes-moved (a ∷ b ∷ e ∷ f ∷ axes) ps c l = absurd (omega arith)

-- On one rank that is its own neighbour in every direction, for a grid of at most three dimensions and
-- 2^31 cells, whose axes are as `make_grid` makes them and whose interior is at least as wide as its guard cells: after the guard cells are sent, every cell
-- of the array holds what the interior cell that is its periodic image held before, corners
-- included; an interior cell holds what it held.
pub send_array-moved :
    {A : Type 0} (sendrecv : Sendrecv A) (d : Domain) (grid : Grid) (s : Field A × Buffers A)
    (ps : List ℕ)
    → IsAlone d
    → IsGrid grid
    → HasRoom grid
    → IsCell grid ps
    → length grid ≤ 3
    → cells (extent grid) ≤ 2 ^ 31
    → (send_array sendrecv d grid s).0 ps ≡ s.0 (moved grid ps)
send_array-moved sendrecv d grid s ps alone v r c l few =
    send_array-passes sendrecv d alone grid v r few s ps c ∙ ap s.0 (passes-moved grid ps c l)
