-- ===== src/Guards/Axes.antt =====
-- systems/domain_comm_impl.hpp: the box of guard cells at one end of an axis.
use aperture4_nick.Base.{
  ℕ, zero, suc, ◌+◌, ◌-◌, ◌≤◌, ◌<◌, ◌≡◌, refl, sym, ap, ap₂, ◌∙◌, arith, false, ◌&&◌, if◌then◌else◌,
  List, [], ◌∷◌, length, lt-cases, inl, inr, ◌⊎◌, leb, ltb,
}
use aperture4_nick.Index.Radix.{IsInside, cells, digits-IsInside}
use aperture4_nick.Index.ColMajor.{position_of}
use aperture4_nick.Grid.{Grid, extent}
use aperture4_nick.Grid.Zones.{IsCell}
use aperture4_nick.Guards.{
  Field, add_pos, same_pos, zeros, axis_idx, buffer_extent, transfer, transfer_within,
}
use aperture4_nick.Guards.Transfer.{same_pos-ne, transfer-box, transfer-other}
use aperture4_nick.Guards.Within.{within-transfer}

-- One component of a position, and the guard cells of one axis; 0 behind the last axis.
abbrev pub nth : ℕ → List ℕ → ℕ
nth dim [] = 0
nth zero (p ∷ ps) = p
nth (suc dim) (p ∷ ps) = nth dim ps

abbrev pub set_nth : ℕ → ℕ → List ℕ → List ℕ
set_nth dim v [] = []
set_nth zero v (p ∷ ps) = v ∷ ps
set_nth (suc dim) v (p ∷ ps) = p ∷ set_nth dim v ps

abbrev pub guard_of : ℕ → Grid → ℕ
guard_of dim [] = 0
guard_of zero (a ∷ axes) = a.guard
guard_of (suc dim) (a ∷ axes) = guard_of dim axes

add-zeros : (grid : Grid) (ps : List ℕ) → IsCell grid ps → add_pos (zeros grid) ps ≡ ps
add-zeros [] [] c = refl
add-zeros [] (p ∷ ps) c = absurd c
add-zeros (a ∷ axes) [] c = absurd c
add-zeros (a ∷ axes) (p ∷ ps) c = ap₂ ◌∷◌ (omega arith) (add-zeros axes ps c.1)

cell-IsInside : (grid : Grid) (ps : List ℕ) → IsCell grid ps → IsInside ps (extent grid)
unfolding extent
cell-IsInside [] [] c = tt
cell-IsInside [] (p ∷ ps) c = absurd c
cell-IsInside (a ∷ axes) [] c = absurd c
cell-IsInside (a ∷ axes) (p ∷ ps) c = (c.0, cell-IsInside axes ps c.1)

zeros-length : (grid : Grid) → length (zeros grid) ≡ length (extent grid)
unfolding extent
zeros-length [] = refl
zeros-length (a ∷ axes) = ap suc (zeros-length axes)

idx-length :
    (dim v : ℕ) (grid : Grid) → length (axis_idx dim v grid) ≡ length (buffer_extent dim grid)
unfolding axis_idx buffer_extent
idx-length dim v [] = refl
idx-length zero v (a ∷ axes) = ap suc (zeros-length axes)
idx-length (suc dim) v (a ∷ axes) = ap suc (idx-length dim v axes)

-- A cell with its component between `v` and `v` plus the guard cells lies in the box at `v`; the same
-- place in the box at `w` is the cell with the component moved.
box_place :
    (dim v : ℕ) (grid : Grid) (ps : List ℕ)
    → dim < length grid
    → IsCell grid ps
    → v ≤ nth dim ps
    → nth dim ps < v + guard_of dim grid
    → IsInside (set_nth dim (nth dim ps - v) ps) (buffer_extent dim grid)
      × ((w : ℕ)
          → add_pos (axis_idx dim w grid) (set_nth dim (nth dim ps - v) ps)
            ≡ set_nth dim (w + (nth dim ps - v)) ps)
unfolding buffer_extent axis_idx
box_place dim v [] ps l c lo hi = absurd (omega arith)
box_place dim v (a ∷ axes) [] l c lo hi = absurd c
box_place zero v (a ∷ axes) (p ∷ ps) l c lo hi = (
  (omega arith, cell-IsInside axes ps c.1),
  λ w. ap (λ qs. (w + (p - v)) ∷ qs) (add-zeros axes ps c.1),
)
box_place (suc dim) v (a ∷ axes) (p ∷ ps) l c lo hi =
    let (inside, places) = box_place dim v axes ps (omega arith) c.1 lo hi in
    ((c.0, inside), λ w. ap₂ ◌∷◌ (omega arith) (places w))

pub set-nth : (dim : ℕ) (ps : List ℕ) (v : ℕ) → v ≡ nth dim ps → set_nth dim v ps ≡ ps
set-nth dim [] v e = refl
set-nth zero (p ∷ ps) v e = ap (λ x. x ∷ ps) e
set-nth (suc dim) (p ∷ ps) v e = ap (λ qs. p ∷ qs) (set-nth dim ps v e)

-- Every cell of the box has its component there.
box-nth :
    (dim v : ℕ) (grid : Grid) (q : List ℕ)
    → dim < length grid
    → IsInside q (buffer_extent dim grid)
    → (v ≤ nth dim (add_pos (axis_idx dim v grid) q))
      × (nth dim (add_pos (axis_idx dim v grid) q) < v + guard_of dim grid)
unfolding buffer_extent axis_idx
box-nth dim v [] q l h = absurd (omega arith)
box-nth zero v (a ∷ axes) [] l h = absurd h
box-nth zero v (a ∷ axes) (q ∷ qs) l h = (omega arith, omega (arith, h.0))
box-nth (suc dim) v (a ∷ axes) [] l h = absurd h
box-nth (suc dim) v (a ∷ axes) (q ∷ qs) l h = box-nth dim v axes qs (omega arith) h.1

module _ {A : Type 0} (join : A → A → A) (dim v w : ℕ) (grid : Grid) (in_rank : dim < length grid)
    (apart : (v + guard_of dim grid ≤ w) ⊎ (w + guard_of dim grid ≤ v)) where
  boxes_apart :
      (q r : List ℕ)
      → IsInside q (buffer_extent dim grid)
      → IsInside r (buffer_extent dim grid)
      → same_pos (add_pos (axis_idx dim w grid) q) (add_pos (axis_idx dim v grid) r) ≡ false
  boxes_apart q r h k =
      same_pos-ne (add_pos (axis_idx dim w grid) q) (add_pos (axis_idx dim v grid) r) (λ e.
        let f = ap (nth dim) e in
        let (a, b) = box-nth dim w grid q in_rank h in
        let (c, d) = box-nth dim v grid r in_rank k in
        elim apart [ inl x ↦ omega arith | inr x ↦ omega arith ])

  abbrev from_copy : Field A → Field A
  from_copy array =
      transfer join (buffer_extent dim grid) (axis_idx dim v grid) (axis_idx dim w grid)
        (cells (buffer_extent dim grid)) 0 array array

  outside_box :
      (array : Field A) (ps : List ℕ)
      → (nth dim ps < v) ⊎ (v + guard_of dim grid ≤ nth dim ps)
      → from_copy array ps ≡ array ps
  unfolding position_of
  outside_box array ps out =
      transfer-other join (buffer_extent dim grid) (axis_idx dim v grid) (axis_idx dim w grid)
        (idx-length dim v grid) (cells (buffer_extent dim grid)) 0 array array ps (omega arith)
        (λ m k l.
          let r = position_of m (buffer_extent dim grid) in
          same_pos-ne ps (add_pos (axis_idx dim v grid) r) (λ e.
            let f = ap (nth dim) e in
            let (a, b) =
              box-nth dim v grid r in_rank (digits-IsInside m (buffer_extent dim grid) l) in
            elim out [ inl x ↦ omega arith | inr x ↦ omega arith ]))

  inside_box :
      (array : Field A) (ps : List ℕ)
      → IsCell grid ps
      → v ≤ nth dim ps
      → nth dim ps < v + guard_of dim grid
      → from_copy array ps ≡ join (array ps) (array (set_nth dim (w + (nth dim ps - v)) ps))
  inside_box array ps c lo hi =
      let q = set_nth dim (nth dim ps - v) ps in
      let (inside, places) = box_place dim v grid ps in_rank c lo hi in
      let here = places v ∙ set-nth dim ps (v + (nth dim ps - v)) (omega arith) in
      ap (from_copy array) (sym here)
      ∙ transfer-box join (buffer_extent dim grid) (axis_idx dim v grid) (axis_idx dim w grid)
          (idx-length dim v grid) (cells (buffer_extent dim grid)) 0 array array q (omega arith)
          inside (omega arith)
      ∙ ap₂ join (ap array here) (ap array (places w))

  -- Moving the box at `w` to the box at `v` inside an array.
  pub within-axis :
      (array : Field A) (ps : List ℕ)
      → IsCell grid ps
      → transfer_within join
          (buffer_extent dim grid)
          (axis_idx dim v grid)
          (axis_idx dim w grid)
          (cells (buffer_extent dim grid))
          0
          array
          ps
        ≡ (if leb v (nth dim ps) && ltb (nth dim ps) (v + guard_of dim grid)
            then join (array ps) (array (set_nth dim (w + (nth dim ps - v)) ps))
            else array ps)
  within-axis array ps c =
      let n = cells (buffer_extent dim grid) in
      let ext = buffer_extent dim grid in
      let at = axis_idx dim v grid in
      let moved_in =
        ap (λ (f : Field A). f ps)
          (within-transfer join ext at (axis_idx dim w grid) boxes_apart n 0 array array
            (omega arith) (λ q h. refl)) in
      moved_in ∙ elim (lt-cases (nth dim ps) v) [
        | inl below ↦ outside_box array ps (inl below) ∙ ground arith
        | inr above ↦ elim (lt-cases (nth dim ps) (v + guard_of dim grid)) [
          | inl inside ↦ inside_box array ps c above inside ∙ ground arith
          | inr behind ↦ outside_box array ps (inr behind) ∙ ground arith
        ]
      ]
