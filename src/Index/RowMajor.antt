-- ===== src/Index/RowMajor.antt =====
-- utils/index.hpp, `idx_row_major_t`: the last coordinate runs fastest.
pub mod RoundTrip
pub mod Specialised
use mathlib.Core.List.{reverse}
use aperture4_nick.Base.{ℕ, ◌+◌, ◌*◌, ◌/◌, ◌%◌, ◌^◌, List, [], ◌∷◌, map}
use aperture4_nick.Index.Radix.{digits_of}

-- The loop of `to_linear`, from the last coordinate down.
unfoldable pub linear_from : ℕ → ℕ → List ℕ → List ℕ → ℕ
linear_from result stride (p ∷ ps) (e ∷ es) = linear_from (result + p * stride) (stride * e) ps es
linear_from result stride _ _ = result

unfoldable pub linear_start : List ℕ → List ℕ → ℕ
unfolding linear_from
linear_start (p ∷ ps) (e ∷ es) = linear_from p e ps es
linear_start _ _ = 0

unfoldable pub to_linear : List ℕ → List ℕ → ℕ
unfolding linear_start
to_linear position ext = linear_start (reverse position) (reverse ext)

-- `pos` fills the result from the last coordinate down; its components are `int32_t`.
unfoldable pub position_of : ℕ → List ℕ → List ℕ
unfolding digits_of
position_of linear ext = map (λ c. c % 2 ^ 32) (reverse (digits_of linear (reverse ext)))

-- The specialisations of `get_pos` for two and three dimensions; the product is a `uint32_t`.
unfoldable pub get_pos2 : ℕ → ℕ → List ℕ
get_pos2 linear e₀ = (linear / e₀) ∷ (linear % e₀) ∷ []

unfoldable pub get_pos3 : ℕ → ℕ → ℕ → List ℕ
get_pos3 linear e₀ e₁ = (linear / ((e₀ * e₁) % 2 ^ 32)) ∷ (linear / e₀ % e₁) ∷ (linear % e₀) ∷ []
