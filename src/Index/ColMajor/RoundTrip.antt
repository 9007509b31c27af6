-- ===== src/Index/ColMajor/RoundTrip.antt =====
-- utils/index.hpp, `idx_col_major_t`: positions and linear indices are in one to one correspondence.
use native.Mathlib.Nat.{mod-eq_of_lt, mod-eq-sub-div-mul}
use aperture4_nick.Base.{
  ℕ, ◌+◌, ◌*◌, ◌/◌, ◌%◌, ◌^◌, ◌≤◌, ◌<◌, ◌≡◌, ap, ◌∙◌, arith, List, [], ◌∷◌, ltb-lt,
}
use aperture4_nick.Base.Int.{pos}
use aperture4_nick.Vec.{dot, strides}
use aperture4_nick.Index.Radix.{
  IsInside, cells, value, digit_rest, value-lt, digits-value, digits-IsInside, value-digits,
  dot_from-value,
}
use aperture4_nick.Index.ColMajor.{to_linear, position_of, get_pos1, get_pos2, get_pos3}

pub to_linear-value :
    (p ext : List ℕ) → IsInside p ext → cells ext ≤ 2 ^ 31 → to_linear p ext ≡ pos (value p ext)
unfolding to_linear dot strides
to_linear-value p ext h small = rw (dot_from-value 0 1 p ext h (omega arith)) (
    let e : (0 + 1 * value p ext) % 2 ^ 32 ≡ value p ext = omega (arith, value-lt p ext h) in
    rw (e, ltb-lt (value p ext) (2 ^ 31) (omega (arith, value-lt p ext h))))

-- A position inside an extent of at most 2^31 cells has a linear index below the number of cells,
-- and `pos` gives the position back.
pub position_of-to_linear :
    (p ext : List ℕ)
    → IsInside p ext
    → cells ext ≤ 2 ^ 31
    → (n : ℕ) × (to_linear p ext ≡ pos n) × (n < cells ext) × (position_of n ext ≡ p)
unfolding position_of
position_of-to_linear p ext h small =
    (value p ext, to_linear-value p ext h small, value-lt p ext h, digits-value p ext h)

-- In an extent of at most 2^31 cells, every index below the number of cells is that of the position
-- that `pos` gives, which is inside.
pub to_linear-position_of :
    (n : ℕ) (ext : List ℕ)
    → n < cells ext
    → cells ext ≤ 2 ^ 31
    → IsInside (position_of n ext) ext × (to_linear (position_of n ext) ext ≡ pos n)
unfolding position_of
to_linear-position_of n ext h small = (
  digits-IsInside n ext h,
  to_linear-value (position_of n ext) ext (digits-IsInside n ext h) small
      ∙ ap pos (value-digits n ext h),
)

-- The specialised `get_pos` of one, two and three dimensions agree with `pos` on every index below
-- the number of cells.
pub get_pos-position_of :
    (n e₀ e₁ e₂ : ℕ)
    → (n < e₀ → get_pos1 n ≡ position_of n (e₀ ∷ []))
      × (n < e₀ * e₁ → get_pos2 n e₀ ≡ position_of n (e₀ ∷ e₁ ∷ []))
      × (n < e₀ * (e₁ * e₂) → get_pos3 n e₀ e₁ ≡ position_of n (e₀ ∷ e₁ ∷ e₂ ∷ []))
unfolding get_pos1 get_pos2 get_pos3 position_of
get_pos-position_of n e₀ e₁ e₂ = (
  (λ h. ground (arith, mod-eq_of_lt h)),
  (λ h.
      let (_, q) = digit_rest n e₀ e₁ h in ground (arith, mod-eq_of_lt q, mod-eq-sub-div-mul n e₀)),
  (λ h.
      let (_, q) = digit_rest n e₀ (e₁ * e₂) h in
      let (_, r) = digit_rest (n / e₀) e₁ e₂ q in
      ground (arith, mod-eq_of_lt r, mod-eq-sub-div-mul n e₀, mod-eq-sub-div-mul (n / e₀) e₁)),
)
