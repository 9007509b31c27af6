-- ===== src/Comm/Loads.antt =====
-- systems/domain_comm_impl.hpp, `send_particles_impl` on all ranks: what the particles sum up to that the
-- ranks exchange in two dimensions.
use aperture4_nick.Base.{
  ℕ, zero, suc, ◌+◌, ◌*◌, ◌<◌, ◌≡◌, refl, ap, ◌∙◌, arith, List, [], ◌∷◌, ◌++◌, some, sum, sum_ext,
  sum_plus, IsPermutation, sum-permute,
}
use aperture4_nick.Particles.{Ptc}
use aperture4_nick.Guards.Exchange.{Domain}
use aperture4_nick.Comm.Route.{Sendrecv}
use aperture4_nick.Comm.Routed.{from_right, from_left, row, routed}

-- The weights of a list of particles.
abbrev pub load : {S : Type 0} → (Ptc S → ℕ) → List (Ptc S) → ℕ
load f [] = 0
load f (p ∷ ps) = f p + load f ps

pub load-append :
    {S : Type 0} (f : Ptc S → ℕ) (xs ys : List (Ptc S)) → load f (xs ++ ys) ≡ load f xs + load f ys
load-append f [] ys = omega arith
load-append f (x ∷ xs) ys = omega (arith, load-append f xs ys)

sum_permuted :
    (g h k σ τ : ℕ → ℕ) (n : ℕ)
    → IsPermutation σ n
    → IsPermutation τ n
    → sum (λ r. g r + h (σ r) + k (τ r)) n ≡ sum g n + sum h n + sum k n
sum_permuted g h k σ τ n p q = omega (
  arith,
  sum_plus (λ r. g r + h (σ r)) (λ r. k (τ r)) n,
  sum_plus g (λ r. h (σ r)) n,
  sum-permute h σ n p,
  sum-permute k τ n q,
)

pub sum_nine : (g : ℕ → ℕ) → sum g 9 ≡ g 0 + g 1 + g 2 + (g 3 + g 4 + g 5) + (g 6 + g 7 + g 8)
unfolding sum
sum_nine g = omega arith

module _ {S : Type 0} (n : ℕ) (d : ℕ → Domain) (sendrecv : ℕ → ℕ → Sendrecv S)
    (left right : ℕ → ℕ → ℕ) (c : ℕ → ℕ → List (Ptc S)) where
  abbrev row_at : ℕ → ℕ → List (Ptc S)
  row_at r = row (sendrecv r) (d r) (c r)

  -- The `n` ranks stand on a torus, and what arrives at one is what its neighbour sends under the
  -- same tag, if the buffers of rank `r` hold the lists `c r`.
  pub record Delivers : Type 0 where
    pub right_neighbour : (dim r : ℕ) → dim < 2 → r < n → (d r).right dim ≡ some (right dim r)
    pub left_neighbour : (dim r : ℕ) → dim < 2 → r < n → (d r).left dim ≡ some (left dim r)
    pub right_permutes : (dim : ℕ) → dim < 2 → IsPermutation (right dim) n
    pub left_permutes : (dim : ℕ) → dim < 2 → IsPermutation (left dim) n
    pub x_from_right :
        (r i : ℕ)
        → r < n
        → i < 3
        → from_right (sendrecv r) (d r) 0 i (c r (i * 3)) ≡ c (right 0 r) (i * 3)
    pub x_from_left :
        (r i : ℕ)
        → r < n
        → i < 3
        → from_left (sendrecv r) (d r) 0 i (c r (i * 3 + 2)) ≡ c (left 0 r) (i * 3 + 2)
    pub y_from_right :
        (r : ℕ) → r < n → from_right (sendrecv r) (d r) 1 0 (row_at r 0) ≡ row_at (right 1 r) 0
    pub y_from_left :
        (r : ℕ) → r < n → from_left (sendrecv r) (d r) 1 0 (row_at r 2) ≡ row_at (left 1 r) 2

  module _ (f : Ptc S → ℕ) (v : Delivers) where
    abbrev at : ℕ → ℕ → ℕ
    at z r = load f (c r z)

    abbrev row_load : ℕ → ℕ → ℕ
    row_load i r = load f (row_at r i)

    load-row :
        (i : ℕ)
        → i < 3
        → sum (row_load i) n ≡ sum (at (i * 3 + 1)) n + sum (at (i * 3)) n + sum (at (i * 3 + 2)) n
    load-row i l =
        sum_ext _ _ n (λ r h. omega (
          arith,
          load-append f (c r (i * 3 + 1) ++ from_right (sendrecv r) (d r) 0 i (c r (i * 3)))
              (from_left (sendrecv r) (d r) 0 i (c r (i * 3 + 2))),
          load-append f (c r (i * 3 + 1)) (from_right (sendrecv r) (d r) 0 i (c r (i * 3))),
          ap (load f) (v.x_from_right r i h l),
          ap (load f) (v.x_from_left r i h l),
        ))
        ∙ sum_permuted (at (i * 3 + 1)) (at (i * 3)) (at (i * 3 + 2)) (right 0) (left 0) n
            (v.right_permutes 0 (omega arith)) (v.left_permutes 0 (omega arith))

    load-rows :
        sum (λ r. load f (routed (sendrecv r) (d r) (c r))) n
        ≡ sum (row_load 1) n + sum (row_load 0) n + sum (row_load 2) n
    load-rows =
        sum_ext _ _ n (λ r h. omega (
          arith,
          load-append f (row_at r 1 ++ from_right (sendrecv r) (d r) 1 0 (row_at r 0))
              (from_left (sendrecv r) (d r) 1 0 (row_at r 2)),
          load-append f (row_at r 1) (from_right (sendrecv r) (d r) 1 0 (row_at r 0)),
          ap (load f) (v.y_from_right r h),
          ap (load f) (v.y_from_left r h),
        ))
        ∙ sum_permuted (row_load 1) (row_load 0) (row_load 2) (right 1) (left 1) n
            (v.right_permutes 1 (omega arith)) (v.left_permutes 1 (omega arith))

    nine_sums :
        (m : ℕ)
        → sum (λ r. sum (λ z. at z r) 9) m
          ≡ sum (at 0) m
            + sum (at 1) m
            + sum (at 2) m
            + (sum (at 3) m + sum (at 4) m + sum (at 5) m)
            + (sum (at 6) m + sum (at 7) m + sum (at 8) m)
    unfolding sum
    nine_sums zero = refl
    nine_sums (suc m) = omega (arith, nine_sums m)

    -- What comes together in the centres of all ranks is what all buffers held.
    pub load-routed :
        sum (λ r. load f (routed (sendrecv r) (d r) (c r))) n
        ≡ sum (λ r. sum (λ z. load f (c r z)) 9) n
    load-routed = omega (
      arith,
      load-rows,
      load-row 0 (omega arith),
      load-row 1 (omega arith),
      load-row 2 (omega arith),
      nine_sums n,
    )
