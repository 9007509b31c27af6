-- ===== src/Comm/Shift.antt =====
-- core/particles_functions.cpp, `ptc_copy_to_comm_buffers`: the cell that a particle gets is the cell at the
-- same place on the neighbouring rank, in the interior there.
use native.Mathlib.Nat.{mod-eq_of_lt}
use aperture4_nick.Base.{
  ℕ, zero, suc, ◌+◌, ◌-◌, ◌*◌, ◌/◌, ◌%◌, ◌^◌, ◌≤◌, ◌<◌, ◌≡◌, refl, ap, ◌∙◌, arith, List, [], ◌∷◌,
  length, inl, inr, ltb, if◌then◌else◌, lt-cases, ltb-lt, ltb-ge, ==_ne,
}
use aperture4_nick.Base.Int.{ℤ, pos, negsuc, scale, ◌-ℤ◌, -ℤ-pos, -ℤ-negsuc, signed32}
use aperture4_nick.Index.Radix.{IsInside, value}
use aperture4_nick.Index.ColMajor.{dec}
use aperture4_nick.Vec.{strides}
use aperture4_nick.Grid.{Axis, Grid, extent, reduced_dim}
use aperture4_nick.Grid.Zones.{
  IsAxis, IsGrid, IsCell, part, parts, get_zone_offset, centre, part-le,
}
use aperture4_nick.Comm.{displacement, shifted, to_uint32, digit_z, digit_y}

-- the cell on the neighbour, in one direction and in all
abbrev pub move : Axis → ℕ → ℕ
move a p =
    if ltb p a.guard
    then p + a.reduced
    else (if ltb p (a.guard + a.reduced) then p else p - a.reduced)

abbrev pub moved : Grid → List ℕ → List ℕ
moved (a ∷ axes) (p ∷ ps) = move a p ∷ moved axes ps
moved _ _ = []

-- The interior is at least as wide as the guard cells, in every direction.
abbrev pub HasRoom : Grid → Type 0
HasRoom [] = Unit
HasRoom (a ∷ axes) = (a.guard ≤ a.reduced) × HasRoom axes

displacement-lower : (n : ℕ) → 0 < n → n < 2 ^ 31 → displacement 0 n ≡ negsuc (n - 1)
unfolding displacement
displacement-lower n h l =
    let e : ((0 + 2 ^ 32 - 1) % 2 ^ 32 * n) % 2 ^ 32 ≡ 2 ^ 32 - n = omega arith in
    ap signed32 e ∙ ground arith

displacement-none : (n : ℕ) → displacement 1 n ≡ pos 0
unfolding displacement
displacement-none n =
    let e : ((1 + 2 ^ 32 - 1) % 2 ^ 32 * n) % 2 ^ 32 ≡ 0 = omega arith in ap signed32 e

displacement-upper : (n : ℕ) → n < 2 ^ 31 → displacement 2 n ≡ pos n
unfolding displacement
displacement-upper n l =
    let e : ((2 + 2 ^ 32 - 1) % 2 ^ 32 * n) % 2 ^ 32 ≡ n = omega arith in
    ap signed32 e ∙ ground arith

up_step : (v r s p q : ℕ) → v ≡ r + s * p → v + q * s ≡ r + s * (p + q)
up_step v r s p q e = grind arith

down_step : (v r s p q : ℕ) → v ≡ r + s * (p + q) → v ≡ (r + s * p) + q * s
down_step v r s p q e = grind arith

sub-nothing : (v z : ℕ) → z ≡ 0 → pos v -ℤ pos z ≡ pos v
unfolding ◌-ℤ◌
sub-nothing v z e = ground arith

sub-scale_neg : (v n s : ℕ) → pos v -ℤ scale (negsuc n) s ≡ pos (v + suc n * s)
sub-scale_neg v n zero = sub-nothing v 0 refl ∙ ap pos (omega arith)
sub-scale_neg v n (suc s) =
    let e : suc (suc n * suc s - 1) ≡ suc n * suc s = grind arith in
    rw (==_ne (suc s) 0 (omega arith)) (-ℤ-negsuc v (suc n * suc s - 1) ∙ ap (λ m. pos (v + m)) e)

-- a step down by the displacement of an axis, in a linear index of which `s * p` is a summand
axis_step :
    (a : Axis) (v r s p : ℕ)
    → IsAxis a
    → p < a.dims
    → a.guard ≤ a.reduced
    → v ≡ r + s * p
    → pos v -ℤ scale (displacement (part a p) a.reduced) s ≡ pos (r + s * move a p)
axis_step a v r s p w l room e = elim (lt-cases p a.guard) [
  | inl h ↦
      let positive : 0 < a.reduced = omega (arith, w.dims) in
      let small : a.reduced < 2 ^ 31 = omega (arith, w.dims, w.small) in
      let back : suc (a.reduced - 1) ≡ a.reduced = omega arith in
      rw (ltb-lt p a.guard h, displacement-lower a.reduced positive small)
        (sub-scale_neg v (a.reduced - 1) s
          ∙ ap (λ n. pos (v + n * s)) back
          ∙ ap pos (up_step v r s p a.reduced e))
  | inr h ↦ elim (lt-cases p (a.guard + a.reduced)) [
    | inl k ↦
        rw (ltb-ge p a.guard h, ltb-lt p (a.guard + a.reduced) k, displacement-none a.reduced)
          (sub-nothing v (0 * s) (omega arith) ∙ ap pos e)
    | inr k ↦
        let small : a.reduced < 2 ^ 31 = omega (arith, w.dims, w.small) in
        let split : p ≡ p - a.reduced + a.reduced = omega arith in
        rw
          (ltb-ge p a.guard h, ltb-ge p (a.guard + a.reduced) k, displacement-upper a.reduced small)
          (ap (λ n. pos n -ℤ pos (a.reduced * s))
              (down_step v r s (p - a.reduced) a.reduced (e ∙ ap (λ x. r + s * x) split))
            ∙ -ℤ-pos (r + s * (p - a.reduced)) (a.reduced * s))
  ]
]

-- Each interior cell of the neighbour is such a cell, and the move ends in one.
move-interior :
    (a : Axis) (p : ℕ)
    → IsAxis a
    → p < a.dims
    → a.guard ≤ a.reduced
    → (move a p < a.dims) × (part a (move a p) ≡ 1)
move-interior a p w l room = ground (arith, w.dims)

pub moved-IsCell :
    (grid : Grid) (ps : List ℕ)
    → IsGrid grid
    → IsCell grid ps
    → HasRoom grid
    → IsCell grid (moved grid ps) × (parts grid (moved grid ps) ≡ centre grid)
moved-IsCell [] [] w c r = (tt, refl)
moved-IsCell [] (p ∷ ps) w c r = absurd c
moved-IsCell (a ∷ axes) [] w c r = absurd c
moved-IsCell (a ∷ axes) (p ∷ ps) w c r =
    let (l, e) = move-interior a p w.0 c.0 r.0 in
    let (m, f) = moved-IsCell axes ps w.1 c.1 r.1 in ((l, m), omega arith)

pub IsCell-IsInside : (grid : Grid) (ps : List ℕ) → IsCell grid ps → IsInside ps (extent grid)
unfolding extent
IsCell-IsInside [] [] c = tt
IsCell-IsInside [] (p ∷ ps) c = absurd c
IsCell-IsInside (a ∷ axes) [] c = absurd c
IsCell-IsInside (a ∷ axes) (p ∷ ps) c = (c.0, IsCell-IsInside axes ps c.1)

-- Three steps down and the conversion to `uint32_t`.
three_steps :
    (v v₂ v₁ v₀ s₂ s₁ s₀ : ℕ) (n₂ n₁ n₀ : ℤ)
    → pos v -ℤ scale n₂ s₂ ≡ pos v₂
    → pos v₂ -ℤ scale n₁ s₁ ≡ pos v₁
    → pos v₁ -ℤ scale n₀ s₀ ≡ pos v₀
    → v₀ < 2 ^ 32
    → to_uint32 (pos v -ℤ scale n₂ s₂ -ℤ scale n₁ s₁ -ℤ scale n₀ s₀) ≡ v₀
unfolding to_uint32
three_steps v v₂ v₁ v₀ s₂ s₁ s₀ n₂ n₁ n₀ e₂ e₁ e₀ small =
    ap to_uint32 (ap (λ x. x -ℤ scale n₁ s₁ -ℤ scale n₀ s₀) e₂ ∙ ap (λ x. x -ℤ scale n₀ s₀) e₁ ∙ e₀)
    ∙ mod-eq_of_lt small

no_step : (v n s : ℕ) → pos v -ℤ scale (displacement 1 n) s ≡ pos v
no_step v n s = rw (displacement-none n) (sub-nothing v (0 * s) (omega arith))

-- A step along an axis, from one linear index to another.
step_to :
    (a : Axis) (v v' r s p digit : ℕ)
    → IsAxis a
    → p < a.dims
    → a.guard ≤ a.reduced
    → digit ≡ part a p
    → v ≡ r + s * p
    → r + s * move a p ≡ v'
    → pos v -ℤ scale (displacement digit a.reduced) s ≡ pos v'
step_to a v v' r s p digit w l room d e f =
    ap (λ x. pos v -ℤ scale (displacement x a.reduced) s) d
    ∙ axis_step a v r s p w l room e
    ∙ ap pos f

-- The shifted cell in one, two and three dimensions.
abbrev pub Shifts : Grid → List ℕ → Type 0
Shifts grid ps =
    shifted grid (parts grid ps + get_zone_offset (length grid))
      (record { linear = pos (value ps (extent grid)); ext = extent grid })
    ≡ value (moved grid ps) (extent grid)

module _ (a : Axis) (p : ℕ) (w : IsAxis a) (l : p < a.dims) (room : a.guard ≤ a.reduced) where
  pub shifted1 : value (move a p ∷ []) (a.dims ∷ []) < 2 ^ 32 → Shifts (a ∷ []) (p ∷ [])
  unfolding shifted digit_z digit_y reduced_dim dec strides extent get_zone_offset
  shifted1 small =
      let v : ℕ = value (p ∷ []) (a.dims ∷ []) in
      let zone : ℕ = parts (a ∷ []) (p ∷ []) + 12 in
      three_steps v v v (value (move a p ∷ []) (a.dims ∷ [])) 0 0 1 (displacement 1 0)
        (displacement 1 0) (displacement (zone % 3) a.reduced) (no_step v 0 0) (no_step v 0 0)
        (step_to a v (value (move a p ∷ []) (a.dims ∷ [])) 0 1 p (zone % 3) w l room
          (omega (arith, part-le a p)) (omega arith) (omega arith))
        small

  module _ (b : Axis) (q : ℕ) (w' : IsAxis b) (l' : q < b.dims) (room' : b.guard ≤ b.reduced) where
    pub shifted2 :
        value (move a p ∷ move b q ∷ []) (a.dims ∷ b.dims ∷ []) < 2 ^ 32
        → Shifts (a ∷ b ∷ []) (p ∷ q ∷ [])
    unfolding shifted digit_z digit_y reduced_dim dec strides extent get_zone_offset
    shifted2 small =
        let e : List ℕ = a.dims ∷ b.dims ∷ [] in
        let v : ℕ = value (p ∷ q ∷ []) e in
        let v₁ : ℕ = value (p ∷ move b q ∷ []) e in
        let v₀ : ℕ = value (move a p ∷ move b q ∷ []) e in
        let zone : ℕ = parts (a ∷ b ∷ []) (p ∷ q ∷ []) + 9 in
        three_steps v v v₁ v₀ 0 (1 * a.dims) 1 (displacement 1 0)
          (displacement (zone / 3 % 3) b.reduced) (displacement (zone % 3) a.reduced)
          (no_step v 0 0)
          (step_to b v v₁ p (1 * a.dims) q (zone / 3 % 3) w' l' room'
            (omega (arith, part-le a p, part-le b q)) (omega arith) (omega arith))
          (step_to a v₁ v₀ (a.dims * move b q) 1 p (zone % 3) w l room
            (omega (arith, part-le a p, part-le b q)) (omega arith) (omega arith))
          small

    pub shifted3 :
        (c : Axis) (r : ℕ)
        → IsAxis c
        → r < c.dims
        → c.guard ≤ c.reduced
        → value (move a p ∷ move b q ∷ move c r ∷ []) (a.dims ∷ b.dims ∷ c.dims ∷ []) < 2 ^ 32
        → Shifts (a ∷ b ∷ c ∷ []) (p ∷ q ∷ r ∷ [])
    unfolding shifted digit_z digit_y reduced_dim dec strides extent get_zone_offset
    shifted3 c r w'' l'' room'' small =
        let e : List ℕ = a.dims ∷ b.dims ∷ c.dims ∷ [] in
        let v : ℕ = value (p ∷ q ∷ r ∷ []) e in
        let v₂ : ℕ = value (p ∷ q ∷ move c r ∷ []) e in
        let v₁ : ℕ = value (p ∷ move b q ∷ move c r ∷ []) e in
        let v₀ : ℕ = value (move a p ∷ move b q ∷ move c r ∷ []) e in
        let zone : ℕ = parts (a ∷ b ∷ c ∷ []) (p ∷ q ∷ r ∷ []) + 0 in
        three_steps v v₂ v₁ v₀ (1 * a.dims * b.dims) (1 * a.dims) 1
          (displacement (zone / 9) c.reduced) (displacement (zone / 3 % 3) b.reduced)
          (displacement (zone % 3) a.reduced)
          (step_to c v v₂ (p + a.dims * q) (1 * a.dims * b.dims) r (zone / 9) w'' l'' room''
            (omega (arith, part-le a p, part-le b q, part-le c r)) (grind arith) (grind arith))
          (step_to b v₂ v₁ (p + a.dims * (b.dims * move c r)) (1 * a.dims) q (zone / 3 % 3) w' l'
            room' (omega (arith, part-le a p, part-le b q, part-le c r)) (grind arith)
            (grind arith))
          (step_to a v₁ v₀ (a.dims * (move b q + b.dims * move c r)) 1 p (zone % 3) w l room
            (omega (arith, part-le a p, part-le b q, part-le c r)) (grind arith) (grind arith))
          small
