-- ===== src/Index/RowMajor/RoundTrip.antt =====
-- utils/index.hpp, `idx_row_major_t`: positions and linear indices are in one to one correspondence.
use aperture4_nick.Base.{ℕ, ◌^◌, ◌≤◌, ◌<◌, List, [], ◌∷◌}

-- The components of an `index_t` that are not negative.
abbrev pub AreInts : List ℕ → Type 0
AreInts [] = Unit
AreInts (p ∷ ps) = (p < 2 ^ 31) × AreInts ps

-- Extents whose positions have such components.
abbrev pub AreIntExtents : List ℕ → Type 0
AreIntExtents [] = Unit
AreIntExtents (e ∷ es) = (e ≤ 2 ^ 31) × AreIntExtents es
