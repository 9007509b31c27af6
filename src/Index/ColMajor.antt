-- ===== src/Index/ColMajor.antt =====
-- utils/index.hpp, `idx_col_major_t`: the first coordinate runs fastest.
pub mod RoundTrip
pub mod Steps
use aperture4_nick.Base.{
  ℕ, zero, suc, ◌+◌, ◌-◌, ◌*◌, ◌/◌, List, [], ◌∷◌, get_elem?, Option, none, some,
}
use aperture4_nick.Base.Int.{ℤ, pos, scale, ◌+ℤ◌, ◌-ℤ◌, signed32}
use aperture4_nick.Vec.{dot, strides}
use aperture4_nick.Index.Radix.{digits_of}

-- `to_linear`: the dot product is an `int32_t` and is widened.
unfoldable pub to_linear : List ℕ → List ℕ → ℤ
to_linear position ext = signed32 (dot position (strides ext))

-- `pos`, at a linear index that is not negative
unfoldable pub position_of : ℕ → List ℕ → List ℕ
unfolding digits_of
position_of linear ext = digits_of linear ext

-- The specialisations of `get_pos` for one, two and three dimensions.
unfoldable pub get_pos1 : ℕ → List ℕ
get_pos1 linear = linear ∷ []

unfoldable pub get_pos2 : ℕ → ℕ → List ℕ
get_pos2 linear e₀ = let tmp : ℕ = linear / e₀ in (linear - tmp * e₀) ∷ tmp ∷ []

unfoldable pub get_pos3 : ℕ → ℕ → ℕ → List ℕ
get_pos3 linear e₀ e₁ =
    let tmp : ℕ = linear / e₀ in
    let tmp2 : ℕ = tmp / e₁ in (linear - tmp * e₀) ∷ (tmp - tmp2 * e₁) ∷ tmp2 ∷ []

-- An index and the extent that it refers to.
pub record Idx : Type 0 where
  pub linear : ℤ
  pub ext : List ℕ

-- `strides()[Dir]`; the code is compiled for a `Dir` below the rank.
abbrev pub stride : ℕ → List ℕ → ℕ
stride dir ext = elim (get_elem? (strides ext) dir) [ none ↦ 0 | some s ↦ s ]

-- `inc<Dir>(n)` and `dec<Dir>(n)`
unfoldable pub inc : ℕ → ℤ → Idx → Idx
inc dir n idx = record idx { linear = idx.linear +ℤ scale n (stride dir idx.ext) }

unfoldable pub dec : ℕ → ℤ → Idx → Idx
dec dir n idx = record idx { linear = idx.linear -ℤ scale n (stride dir idx.ext) }
