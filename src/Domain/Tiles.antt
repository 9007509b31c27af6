-- ===== src/Domain/Tiles.antt =====
-- systems/grid_impl.hpp: the interiors of the ranks tile the domain.
use native.Mathlib.Nat.{div-add-mod}
use aperture4_nick.Base.{
  ℕ, suc, ◌+◌, ◌*◌, ◌/◌, ◌%◌, ◌^◌, ◌≤◌, ◌<◌, ◌≡◌, refl, arith, Bool, true, false, ◌||◌, ltb-lt, leb,
  if◌then◌else◌, ==_ne, List, [], ◌∷◌, some,
}
use aperture4_nick.Base.Int.{pos, ◌+ℤ◌}
use aperture4_nick.Grid.{Axis, lt_int}
use aperture4_nick.Grid.Zones.{IsAxis, IsGrid}
use aperture4_nick.Domain.{LocalAxis, local_axis, local_grid, axes_of}

-- The cells `ns` of the domain with `gs` guard cells are cut evenly over `ms` ranks, in numbers that an
-- `int` holds.
abbrev pub IsCut : List ℕ → List ℕ → List ℕ → Type 0
IsCut [] [] [] = Unit {0}
IsCut (n ∷ ns) (g ∷ gs) (m ∷ ms) = ((0 < m) × (n % m ≡ 0) × (n + 2 * g < 2 ^ 31)) × IsCut ns gs ms
IsCut _ _ _ = ⊥

-- Each component is below its bound.
abbrev pub AllBelow : List ℕ → List ℕ → Type 0
AllBelow [] [] = Unit {0}
AllBelow (x ∷ xs) (n ∷ ns) = (x < n) × AllBelow xs ns
AllBelow _ _ = ⊥

-- The position `ps` in a rank's arrays is the cell `gs` of the domain.
abbrev pub IsAt : List LocalAxis → List ℕ → List ℕ → Type 0
IsAt [] [] [] = Unit {0}
IsAt (a ∷ axes) (p ∷ ps) (g ∷ gs) = (a.offset +ℤ pos p ≡ pos (g + a.axis.guard)) × IsAt axes ps gs
IsAt _ _ _ = ⊥

-- An even cut at the coordinate `c`.
abbrev pub cut_axis : ℕ → ℕ → ℕ → ℕ → LocalAxis
cut_axis n g m c = record {
  axis = record { dims = n / m + 2 * g; reduced = n / m; guard = g };
  offset = pos (c * (n / m));
}

pub even_cut : (n m : ℕ) → 0 < m → n % m ≡ 0 → m * (n / m) ≡ n
even_cut n m h e = let d = div-add-mod n m in grind arith

pub offset_lt : (n m c : ℕ) → 0 < m → n % m ≡ 0 → c < m → c * (n / m) + n / m ≤ n
offset_lt n m c h e l =
    let d : m * (n / m) ≡ n = even_cut n m h e in
    let s : suc c * (n / m) ≤ m * (n / m) = grind arith in
    let f : suc c * (n / m) ≡ n / m + c * (n / m) = grind arith in omega (arith, s, d, f)

pub local_axis-cut :
    (n g m c : ℕ)
    → 0 < m
    → n % m ≡ 0
    → n + 2 * g < 2 ^ 31
    → c < m
    → local_axis false n g m c ≡ some (cut_axis n g m c)
unfolding local_axis
local_axis-cut n g m c h e small l =
    let o = offset_lt n m c h e l in
    let x : (n / m + (2 * g) % 2 ^ 32) % 2 ^ 32 ≡ n / m + 2 * g = omega (arith, o) in
    let y : (c * (n / m)) % 2 ^ 32 ≡ c * (n / m) = omega (arith, o) in
    rw (==_ne m 0 (omega arith), x, y, ltb-lt (c * (n / m)) (2 ^ 31) (omega (arith, o))) refl

-- The axes at the coordinates `cs`.
abbrev pub cut_axes : List ℕ → List ℕ → List ℕ → List ℕ → List LocalAxis
cut_axes (n ∷ ns) (g ∷ gs) (m ∷ ms) (c ∷ cs) = cut_axis n g m c ∷ cut_axes ns gs ms cs
cut_axes _ _ _ _ = []

pub local_grid-cut :
    (ns gs ms cs : List ℕ)
    → IsCut ns gs ms
    → AllBelow cs ms
    → (local_grid false ns gs ms cs ≡ some (cut_axes ns gs ms cs))
      × IsGrid (axes_of (cut_axes ns gs ms cs))
unfolding local_grid
local_grid-cut [] [] [] [] w b = (refl, tt)
local_grid-cut [] [] [] (c ∷ cs) w b = absurd b
local_grid-cut (n ∷ ns) [] ms cs w b = absurd w
local_grid-cut [] (g ∷ gs) ms cs w b = absurd w
local_grid-cut [] [] (m ∷ ms) cs w b = absurd w
local_grid-cut (n ∷ ns) (g ∷ gs) [] cs w b = absurd w
local_grid-cut (n ∷ ns) (g ∷ gs) (m ∷ ms) [] w b = absurd b
local_grid-cut (n ∷ ns) (g ∷ gs) (m ∷ ms) (c ∷ cs) ((h, e, small), w) (l, b) =
    let (f, v) = local_grid-cut ns gs ms cs w b in
    let o = offset_lt n m c h e l in
    (
      rw (local_axis-cut n g m c h e small l) (rw f refl),
      (record { dims = refl; small = omega (arith, o) }, v),
    )

pub interior :
    (a : Axis) (p : ℕ) (rest : Bool)
    → IsAxis a
    → p < a.dims
    → (if lt_int p a.guard || leb ((a.reduced + a.guard) % 2 ^ 32) p then false else rest) ≡ true
    → (a.guard ≤ p) × (p < a.guard + a.reduced) × (rest ≡ true)
interior a p rest v l e = (
  ground (arith, v.dims, v.small),
  ground (arith, v.dims, v.small),
  ground (arith, v.dims, v.small),
)

pub interior_back :
    (a : Axis) (p : ℕ)
    → IsAxis a
    → a.guard ≤ p
    → p < a.guard + a.reduced
    → lt_int p a.guard || leb ((a.reduced + a.guard) % 2 ^ 32) p ≡ false
interior_back a p v l h = ground (arith, v.dims, v.small)

-- The coordinate of the rank that has the cell `x` of the domain, and its place there.
abbrev pub coords : List ℕ → List ℕ → List ℕ → List ℕ
coords (n ∷ ns) (m ∷ ms) (x ∷ xs) = x / (n / m) ∷ coords ns ms xs
coords _ _ _ = []

abbrev pub places : List ℕ → List ℕ → List ℕ → List ℕ → List ℕ
places (n ∷ ns) (g ∷ gs) (m ∷ ms) (x ∷ xs) = (x % (n / m) + g) ∷ places ns gs ms xs
places _ _ _ _ = []
