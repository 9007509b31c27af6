-- ===== src/Domain/Covered.antt =====
-- systems/grid_impl.hpp: every cell of the domain is an interior cell of one rank.
use mathlib.Core.Option.{some-injective}
use native.Mathlib.Nat.{
  mod-lt, div-add-mod, add-mul-mod_self_left, mod-eq_of_lt, add-mul-div_left, div-eq_of_lt,
}
use aperture4_nick.Base.{
  ℕ, ◌+◌, ◌-◌, ◌*◌, ◌/◌, ◌%◌, ◌^◌, ◌≤◌, ◌<◌, ◌≡◌, refl, sym, ap, ap₂, ◌∙◌, arith, true, false, List,
  [], ◌∷◌, some, subst,
}
use aperture4_nick.Base.Int.{pos, pos_part, ◌+ℤ◌, +ℤ-pos}
use aperture4_nick.Index.Radix.{digit_rest}
use aperture4_nick.Grid.{is_in_bound}
use aperture4_nick.Grid.Zones.{IsCell}
use aperture4_nick.Domain.{LocalAxis, local_grid, axes_of}
use aperture4_nick.Domain.Tiles.{
  IsCut, AllBelow, IsAt, cut_axis, cut_axes, local_grid-cut, interior, interior_back, coords,
  places, even_cut, offset_lt,
}

-- One direction.
module _ (n g m x : ℕ) (m_pos : 0 < m) (even : n % m ≡ 0) (small : n + 2 * g < 2 ^ 31) where
  one_here :
      x < n
      → (x / (n / m) < m)
        × (x % (n / m) < n / m)
        × (pos (x / (n / m) * (n / m)) +ℤ pos (x % (n / m) + g) ≡ pos (x + g))
  one_here l =
      let d : (n / m) * m ≡ n = let e = even_cut n m m_pos even in grind arith in
      let (r_pos, below) = digit_rest x (n / m) m (omega (arith, d, l)) in
      let split : x / (n / m) * (n / m) + (x % (n / m) + g) ≡ x + g =
        let e = div-add-mod x (n / m) in grind arith in
      (below, mod-lt x r_pos, +ℤ-pos (x / (n / m) * (n / m)) (x % (n / m) + g) ∙ ap pos split)

  one_only :
      (c p : ℕ)
      → g ≤ p
      → p < g + n / m
      → pos (c * (n / m)) +ℤ pos p ≡ pos (x + g)
      → (c ≡ x / (n / m)) × (p ≡ x % (n / m) + g)
  one_only c p lo hi e =
      let q : c * (n / m) + p ≡ x + g = ap pos_part (sym (+ℤ-pos (c * (n / m)) p) ∙ e) in
      let r_pos : 0 < n / m = omega (arith, lo, hi) in
      let k : (p - g) + (n / m) * c ≡ x =
        let t : (n / m) * c ≡ c * (n / m) = grind arith in omega (arith, q, lo, t) in
      let q₁ : x / (n / m) ≡ c =
        ap (λ t. t / (n / m)) (sym k)
        ∙ add-mul-div_left (p - g) c {y = n / m} r_pos
        ∙ omega (arith, div-eq_of_lt {n = p - g} {m = n / m} (omega (arith, lo, hi))) in
      let q₂ : x % (n / m) ≡ p - g =
        ap (λ t. t % (n / m)) (sym k)
        ∙ add-mul-mod_self_left (p - g) (n / m) c
        ∙ mod-eq_of_lt (omega (arith, lo, hi)) in
      (sym q₁, omega (arith, q₂, lo))

here :
    (ns gs ms xs : List ℕ)
    → IsCut ns gs ms
    → AllBelow xs ns
    → let axes : List LocalAxis = cut_axes ns gs ms (coords ns ms xs) in
      AllBelow (coords ns ms xs) ms
      × IsCell (axes_of axes) (places ns gs ms xs)
      × (is_in_bound (axes_of axes) (places ns gs ms xs) ≡ true)
      × IsAt axes (places ns gs ms xs) xs
unfolding is_in_bound
here [] [] [] [] w b = (tt, tt, refl, tt)
here [] [] [] (x ∷ xs) w b = absurd b
here (n ∷ ns) [] ms xs w b = absurd w
here [] (g ∷ gs) ms xs w b = absurd w
here [] [] (m ∷ ms) xs w b = absurd w
here (n ∷ ns) (g ∷ gs) [] xs w b = absurd w
here (n ∷ ns) (g ∷ gs) (m ∷ ms) [] w b = absurd b
here (n ∷ ns) (g ∷ gs) (m ∷ ms) (x ∷ xs) ((h, e, small), w) (l, b) =
    let (b', cell, inside, at) = here ns gs ms xs w b in
    let (c_lt, r_lt, here_at) = one_here n g m x h e small l in
    let o = offset_lt n m (x / (n / m)) h e c_lt in
    (
      (c_lt, b'),
      (omega (arith, r_lt), cell),
      rw
          (interior_back (cut_axis n g m (x / (n / m))).axis (x % (n / m) + g)
            (record { dims = refl; small = omega (arith, o) }) (omega arith) (omega (arith, r_lt)))
          inside,
      (here_at, at),
    )

only :
    (ns gs ms xs cs ps : List ℕ)
    → IsCut ns gs ms
    → AllBelow cs ms
    → IsCell (axes_of (cut_axes ns gs ms cs)) ps
    → is_in_bound (axes_of (cut_axes ns gs ms cs)) ps ≡ true
    → IsAt (cut_axes ns gs ms cs) ps xs
    → (cs ≡ coords ns ms xs) × (ps ≡ places ns gs ms xs)
unfolding is_in_bound
only [] [] [] [] [] [] w b c i at = (refl, refl)
only [] [] [] xs (x ∷ cs) ps w b c i at = absurd b
only [] [] [] xs [] (p ∷ ps) w b c i at = absurd c
only [] [] [] (x ∷ xs) [] [] w b c i at = absurd at
only (n ∷ ns) [] ms xs cs ps w b c i at = absurd w
only [] (g ∷ gs) ms xs cs ps w b c i at = absurd w
only [] [] (m ∷ ms) xs cs ps w b c i at = absurd w
only (n ∷ ns) (g ∷ gs) [] xs cs ps w b c i at = absurd w
only (n ∷ ns) (g ∷ gs) (m ∷ ms) xs [] ps w b c i at = absurd b
only (n ∷ ns) (g ∷ gs) (m ∷ ms) xs (d ∷ cs) [] w b c i at = absurd c
only (n ∷ ns) (g ∷ gs) (m ∷ ms) [] (d ∷ cs) (p ∷ ps) w b c i at = absurd at
only (n ∷ ns) (g ∷ gs) (m ∷ ms) (x ∷ xs) (d ∷ cs) (p ∷ ps) ((h, e, small), w) (l, b) (p_lt, c) i
      (at₀, at) =
    let a : LocalAxis = cut_axis n g m d in
    let o = offset_lt n m d h e l in
    let (lo, hi, inside) =
      interior a.axis p (is_in_bound (axes_of (cut_axes ns gs ms cs)) ps)
        (record { dims = refl; small = omega (arith, o) }) p_lt i in
    let (same, place) = one_only n g m x h e small d p lo hi at₀ in
    let (sames, rest) = only ns gs ms xs cs ps w b c inside at in
    (ap₂ ◌∷◌ same sames, ap₂ ◌∷◌ place rest)

-- If the domain is cut evenly over the ranks, and its cells with the guard cells are fewer than 2^31 in
-- each direction: every cell of the domain is that of an interior position on a rank at coordinates
-- in range, for which the constructor of the grid returns, and of no other position and no other
-- coordinates in range.
pub local_grid-covers :
    (ns gs ms xs : List ℕ)
    → IsCut ns gs ms
    → AllBelow xs ns
    → (cs : List ℕ) × (axes : List LocalAxis) × (ps : List ℕ) × (local_grid false ns gs ms cs
        ≡ some axes)
      × AllBelow cs ms
      × IsCell (axes_of axes) ps
      × (is_in_bound (axes_of axes) ps ≡ true)
      × IsAt axes ps xs
      × ((cs' : List ℕ) (axes' : List LocalAxis) (ps' : List ℕ)
          → local_grid false ns gs ms cs' ≡ some axes'
          → AllBelow cs' ms
          → IsCell (axes_of axes') ps'
          → is_in_bound (axes_of axes') ps' ≡ true
          → IsAt axes' ps' xs
          → (cs' ≡ cs) × (ps' ≡ ps))
local_grid-covers ns gs ms xs w l =
    let (b, cell, inside, at) = here ns gs ms xs w l in
    (
      coords ns ms xs,
      cut_axes ns gs ms (coords ns ms xs),
      places ns gs ms xs,
      (local_grid-cut ns gs ms (coords ns ms xs) w b).0,
      b,
      cell,
      inside,
      at,
      λ cs' axes' ps' e b' cell' inside' at'.
          let same : cut_axes ns gs ms cs' ≡ axes' =
            some-injective _ _ (sym (local_grid-cut ns gs ms cs' w b').0 ∙ e) in
          only ns gs ms xs cs' ps' w b' (subst (λ a. IsCell (axes_of a) ps') (sym same) cell')
            (subst (λ a. is_in_bound (axes_of a) ps' ≡ true) (sym same) inside')
            (subst (λ a. IsAt a ps' xs) (sym same) at'),
    )
