-- ===== src/Index/ColMajor/Steps.antt =====
-- utils/index.hpp, `idx_col_major_t`: `inc` and `dec` move along one axis.
use aperture4_nick.Base.{
  ℕ, zero, suc, ◌+◌, ◌*◌, ◌^◌, ◌≤◌, ◌≡◌, ap, arith, List, [], ◌∷◌, none, some, get_elem?,
}
use aperture4_nick.Base.Int.{pos, +ℤ-pos, -ℤ-pos}
use aperture4_nick.Vec.{strides, strides_from}
use aperture4_nick.Index.Radix.{IsInside, cells, value}
use aperture4_nick.Index.ColMajor.{Idx, inc, dec, stride, to_linear}
use aperture4_nick.Index.ColMajor.RoundTrip.{to_linear-value}

-- `index_t::inc_x` and its kin: `n` more in the direction `dir`.
unfoldable pub shift : ℕ → ℕ → List ℕ → List ℕ
shift dir n [] = []
shift zero n (p ∷ ps) = (p + n) ∷ ps
shift (suc dir) n (p ∷ ps) = p ∷ shift dir n ps

module _ (n : ℕ) where
  value-shift :
      (s dir : ℕ) (p ext : List ℕ)
      → IsInside p ext
      → s * value (shift dir n p) ext
        ≡ s * value p ext + n * elim (get_elem? (strides_from s ext) dir) [ none ↦ 0 | some t ↦ t ]
  unfolding shift strides_from
  value-shift s dir [] [] h = omega arith
  value-shift s dir [] (e ∷ es) h = absurd h
  value-shift s dir (p ∷ ps) [] h = absurd h
  value-shift s zero (p ∷ ps) (e ∷ es) h = omega arith
  value-shift s (suc dir) (p ∷ ps) (e ∷ es) h = omega (arith, value-shift (s * e) dir ps es h.1)

-- `inc<dir>(n)` of the index of a position is the index of the position moved by `n` in that
-- direction, and `dec<dir>(n)` goes back, if both positions are inside an extent of at most 2^31
-- cells.
pub inc-dec_lem :
    (dir n : ℕ) (p ext : List ℕ)
    → IsInside p ext
    → IsInside (shift dir n p) ext
    → cells ext ≤ 2 ^ 31
    → let here : Idx = record { linear = to_linear p ext; ext = ext } in
      let there : Idx = record { linear = to_linear (shift dir n p) ext; ext = ext } in
      (inc dir (pos n) here ≡ there) × (dec dir (pos n) there ≡ here)
unfolding inc dec strides
inc-dec_lem dir n p ext h g small =
    let moved : value (shift dir n p) ext ≡ value p ext + n * stride dir ext =
      omega (arith, value-shift n 1 dir p ext h) in
    rw (to_linear-value p ext h small, to_linear-value (shift dir n p) ext g small, moved)
      (
        ap (λ l. record { linear = l; ext = ext }) (+ℤ-pos (value p ext) (n * stride dir ext)),
        ap (λ l. record { linear = l; ext = ext }) (-ℤ-pos (value p ext) (n * stride dir ext)),
      )
