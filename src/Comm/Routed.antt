-- ===== src/Comm/Routed.antt =====
-- systems/domain_comm_impl.hpp, `send_particles_impl`: in two dimensions the particles of every zone come to
-- the central buffer of the rank that they left for.
use aperture4_nick.Base.{
  ℕ, zero, suc, ◌+◌, ◌*◌, ◌≤◌, ◌<◌, ◌≡◌, ◌≢◌, refl, ap, ◌∙◌, arith, List, [], ◌++◌, length,
  length-append, some, length-listing,
}
use aperture4_nick.Particles.{Ptc}
use aperture4_nick.Guards.Exchange.{Domain}
use aperture4_nick.Comm.{Buffers}
use aperture4_nick.Comm.Route.{Sendrecv, outbox, exchange, exchange_x, exchange_y, batch}
use aperture4_nick.Comm.Contents.{Holds, message, send_particle_arrays-Holds}

-- The zones beside the centre.
each_side :
    (P : ℕ → Type 0) → P 0 → P 1 → P 2 → P 3 → P 5 → P 6 → P 7 → P 8 → (z : ℕ) → z < 9 → z ≢ 4 → P z
each_side P z₀ z₁ z₂ z₃ z₅ z₆ z₇ z₈ zero l ne = z₀
each_side P z₀ z₁ z₂ z₃ z₅ z₆ z₇ z₈ (suc zero) l ne = z₁
each_side P z₀ z₁ z₂ z₃ z₅ z₆ z₇ z₈ (suc (suc zero)) l ne = z₂
each_side P z₀ z₁ z₂ z₃ z₅ z₆ z₇ z₈ (suc (suc (suc zero))) l ne = z₃
each_side P z₀ z₁ z₂ z₃ z₅ z₆ z₇ z₈ (suc (suc (suc (suc zero)))) l ne = absurd (ne refl)
each_side P z₀ z₁ z₂ z₃ z₅ z₆ z₇ z₈ (suc (suc (suc (suc (suc zero))))) l ne = z₅
each_side P z₀ z₁ z₂ z₃ z₅ z₆ z₇ z₈ (suc (suc (suc (suc (suc (suc zero)))))) l ne = z₆
each_side P z₀ z₁ z₂ z₃ z₅ z₆ z₇ z₈ (suc (suc (suc (suc (suc (suc (suc zero))))))) l ne = z₇
each_side P z₀ z₁ z₂ z₃ z₅ z₆ z₇ z₈ (suc (suc (suc (suc (suc (suc (suc (suc zero)))))))) l ne = z₈
each_side P z₀ z₁ z₂ z₃ z₅ z₆ z₇ z₈ (suc (suc (suc (suc (suc (suc (suc (suc (suc n))))))))) l ne =
    absurd (omega arith)

part_le {ℓ} : {A : Type ℓ} (xs ys : List A) → length xs ≤ length (xs ++ ys)
part_le xs ys = omega (arith, length-append xs ys)

module _ {S : Type 0} (sendrecv : ℕ → Sendrecv S) (d : Domain) where
  -- What is sent to the left neighbour arrives from the right one, and the other way round: each
  -- direction has a call for the one and then a call for the other.
  abbrev pub from_right : ℕ → ℕ → List (Ptc S) → List (Ptc S)
  from_right dim = message (sendrecv (2 * dim)) d (d.right dim) (d.left dim)

  abbrev pub from_left : ℕ → ℕ → List (Ptc S) → List (Ptc S)
  from_left dim = message (sendrecv (2 * dim + 1)) d (d.left dim) (d.right dim)

  -- The particles of the zones of row `i`, where those of the sides come from the neighbours in x, if
  -- the buffers hold the lists `c`.
  abbrev pub row : (ℕ → List (Ptc S)) → ℕ → List (Ptc S)
  row c i = (c (i * 3 + 1) ++ from_right 0 i (c (i * 3))) ++ from_left 0 i (c (i * 3 + 2))

  -- The rows below and above come from the neighbours in y.
  abbrev pub routed : (ℕ → List (Ptc S)) → List (Ptc S)
  routed c = (row c 1 ++ from_right 1 0 (row c 0)) ++ from_left 1 0 (row c 2)

none_at : {S : Type 0} (s : Buffers S) (z : ℕ) → outbox z s ≡ [] → s.nums z ≡ 0
none_at s z e = omega (arith, length-listing (s.buffers z) (s.nums z), ap length e)

pub exchange_lem :
    {S : Type 0} (sendrecv : ℕ → Sendrecv S) (d : Domain) (capacity : ℕ) (c : ℕ → List (Ptc S))
    (s : Buffers S)
    → Holds c s
    → length (row sendrecv d c 0) ≤ capacity
    → length (row sendrecv d c 2) ≤ capacity
    → length (routed sendrecv d c) ≤ capacity
    → (s' : Buffers S) × (exchange sendrecv d capacity 2 s ≡ some s')
      × (outbox 4 s' ≡ routed sendrecv d c)
      × ((z : ℕ) → z < 9 → z ≢ 4 → s'.nums z ≡ 0)
      × (s'.ptcs ≡ s.ptcs)
unfolding exchange exchange_x exchange_y batch
exchange_lem sendrecv d capacity c s h f₀ f₂ f =
    let (s₁, e₁, h₁, p₁) =
      send_particle_arrays-Holds (sendrecv 0) d capacity (d.right 0) (d.left 0)
        (batch 3 (λ i. (i * 3, i * 3 + 1))) c s h (first 0 f₀, (first 1 f₁, (first 2 f₂, tt))) in
    let (s₂, e₂, h₂, p₂) =
      send_particle_arrays-Holds (sendrecv 1) d capacity (d.left 0) (d.right 0)
        (batch 3 (λ i. (i * 3 + 2, i * 3 + 1))) _ s₁ h₁ (f₀, (f₁, (f₂, tt))) in
    let (s₃, e₃, h₃, p₃) =
      send_particle_arrays-Holds (sendrecv 2) d capacity (d.right 1) (d.left 1)
        (batch 1 (λ i. (1 + i * 9, 1 + 3 + i * 9))) _ s₂ h₂ (f_below, tt) in
    let (s₄, e₄, h₄, p₄) =
      send_particle_arrays-Holds (sendrecv 3) d capacity (d.left 1) (d.right 1)
        (batch 1 (λ i. (1 + 6 + i * 9, 1 + 3 + i * 9))) _ s₃ h₃ (f, tt) in
    (
      s₄,
      rw e₁ (rw e₂ (rw e₃ (rw e₄ refl))),
      h₄ 4,
      each_side (λ z. s₄.nums z ≡ 0) (none_at s₄ 0 (h₄ 0)) (none_at s₄ 1 (h₄ 1))
          (none_at s₄ 2 (h₄ 2)) (none_at s₄ 3 (h₄ 3)) (none_at s₄ 5 (h₄ 5)) (none_at s₄ 6 (h₄ 6))
          (none_at s₄ 7 (h₄ 7)) (none_at s₄ 8 (h₄ 8)),
      p₄ ∙ p₃ ∙ p₂ ∙ p₁,
    )
  where
    f_below :
        length (row sendrecv d c 1 ++ from_right sendrecv d 1 0 (row sendrecv d c 0)) ≤ capacity
    f_below = omega (
      arith,
      f,
      part_le (row sendrecv d c 1 ++ from_right sendrecv d 1 0 (row sendrecv d c 0))
          (from_left sendrecv d 1 0 (row sendrecv d c 2)),
    )

    f₁ : length (row sendrecv d c 1) ≤ capacity
    f₁ = omega (
      arith,
      f_below,
      part_le (row sendrecv d c 1) (from_right sendrecv d 1 0 (row sendrecv d c 0)),
    )

    first :
        (i : ℕ)
        → length (row sendrecv d c i) ≤ capacity
        → length (c (i * 3 + 1) ++ from_right sendrecv d 0 i (c (i * 3))) ≤ capacity
    first i l = omega (
      arith,
      l,
      part_le (c (i * 3 + 1) ++ from_right sendrecv d 0 i (c (i * 3)))
          (from_left sendrecv d 0 i (c (i * 3 + 2))),
    )
