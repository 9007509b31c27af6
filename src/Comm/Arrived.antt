-- ===== src/Comm/Arrived.antt =====
-- systems/domain_comm_impl.hpp, `send_particles_impl`: the whole exchange in two dimensions.
use aperture4_nick.Base.{
  ℕ, zero, suc, ◌+◌, ◌^◌, ◌≤◌, ◌<◌, ◌≡◌, refl, sym, ap, ◌∙◌, arith, List, length, get_elem?, some,
  listing, listing_zero, listing_of, length-listing, get_elem?-listing, get_elem?-lt, write,
  write_other, eq-cases, inl, inr, min, Array,
}
use aperture4_nick.Grid.{Grid}
use aperture4_nick.Particles.{Ptc, Particles}
use aperture4_nick.Particles.Append.{copy_from_buffer}
use aperture4_nick.Particles.Append.Filled.{IsParticles, copy_from_buffer_lem}
use aperture4_nick.Guards.Exchange.{Domain}
use aperture4_nick.Comm.{Buffers, copy_to_comm_buffers}
use aperture4_nick.Comm.Outgoing.{Sent, outgoing, remains}
use aperture4_nick.Comm.Delivered.{copy_to_comm_buffers_lem}
use aperture4_nick.Comm.Route.{Sendrecv, send_particles}
use aperture4_nick.Comm.Contents.{Holds}
use aperture4_nick.Comm.Routed.{row, routed, exchange_lem}

module _ (grid : Grid) {S : Type 0} where
  Sent-Holds :
      (n : ℕ) (before s : Buffers S)
      → Sent grid n before s
      → Holds (λ z. outgoing grid before.ptcs z n) s
  Sent-Holds n before s v z =
      ap (listing (s.buffers z)) (v.counts z)
      ∙ listing_of (s.buffers z) (outgoing grid before.ptcs z n) (v.contents z)

  -- The copy to the buffers, also of no particles.
  copied :
      (capacity number : ℕ) (cleared : Buffers S)
      → ((z : ℕ) → cleared.nums z ≡ 0)
      → number ≤ capacity
      → (s : Buffers S) × (copy_to_comm_buffers grid capacity number cleared ≡ some s)
        × Holds (λ z. outgoing grid cleared.ptcs z number) s
        × ((a : ℕ) → a < number → s.ptcs a ≡ remains grid (cleared.ptcs a))
        × ((a : ℕ) → number ≤ a → s.ptcs a ≡ cleared.ptcs a)
  unfolding copy_to_comm_buffers
  copied capacity zero cleared zeros fits = (
    cleared,
    refl,
    λ z. rw (zeros z) (listing_zero (cleared.buffers z)),
    λ a l. absurd (omega arith),
    λ a g. refl,
  )
  copied capacity (suc n) cleared zeros fits =
      let (s, e, v) = copy_to_comm_buffers_lem grid capacity (suc n) cleared (omega arith) fits in
      (s, e, Sent-Holds (suc n) cleared s v, v.slots, v.rest)

-- What comes to a rank from all sides, in two dimensions.
abbrev pub arrivals : {S : Type 0} → (ℕ → Sendrecv S) → Domain → Grid → Particles S → List (Ptc S)
arrivals sendrecv d grid ps = routed sendrecv d (λ z. outgoing grid ps.ptcs z ps.number)

-- On a grid of two dimensions, with buffers for all particles in use, for the rows and for all that
-- arrives, of less than 2^31 particles, the exchange returns. Then the array is well-formed, the slots
-- that were in use hold their particles except for those that left, which are empty, behind them
-- are the arrivals in order as far as there is room, and these are in use, and no buffer counts a
-- particle. The arrivals are those of the neighbours in x and y and, by way of these, of the corners.
pub send_particles_lem :
    {S : Type 0} (sendrecv : ℕ → Sendrecv S) (d : Domain) (capacity : ℕ) (grid : Grid)
    (ps : Particles S) (buffers : Array (Array (Ptc S)))
    → length grid ≡ 2
    → IsParticles ps
    → ps.number ≤ capacity
    → capacity < 2 ^ 31
    → length (row sendrecv d (λ z. outgoing grid ps.ptcs z ps.number) 0) ≤ capacity
    → length (row sendrecv d (λ z. outgoing grid ps.ptcs z ps.number) 2) ≤ capacity
    → length (arrivals sendrecv d grid ps) ≤ capacity
    → (ps' : Particles S) × (s' : Buffers S) × (send_particles sendrecv d capacity grid
          (ps, buffers)
        ≡ some (ps', s'))
      × IsParticles ps'
      × (ps'.number ≡ min (ps.number + length (arrivals sendrecv d grid ps)) ps.size)
      × ((a : ℕ) → a < ps.number → ps'.ptcs a ≡ remains grid (ps.ptcs a))
      × ((k : ℕ) (p : Ptc S)
          → get_elem? (arrivals sendrecv d grid ps) k ≡ some p
          → ps.number + k < ps.size
          → ps'.ptcs (ps.number + k) ≡ p)
      × ((z : ℕ) → z < 9 → s'.nums z ≡ 0)
unfolding send_particles
send_particles_lem sendrecv d capacity grid ps buffers two v fits small f₀ f₂ f =
    let cleared : Buffers _ = record { ptcs = ps.ptcs; buffers = buffers; nums = λ z. 0 } in
    let (s, e, holds, slots, _) = copied grid capacity ps.number cleared (λ z. refl) fits in
    let (s₁, e₁, arrived, empty, same) =
      exchange_lem sendrecv d capacity (λ z. outgoing grid ps.ptcs z ps.number) s holds f₀ f₂ f in
    let count : s₁.nums 4 ≡ length (arrivals sendrecv d grid ps) =
      sym (length-listing (s₁.buffers 4) (s₁.nums 4)) ∙ ap length arrived in
    let left : Particles _ = record ps { ptcs = s₁.ptcs } in
    let (v', number, filled, kept) =
      copy_from_buffer_lem (s₁.buffers 4) (s₁.nums 4) left
        (record { number_le = v.number_le; size_lt = v.size_lt; counter_lt = v.counter_lt })
        (omega (arith, count)) in
    (
      copy_from_buffer (s₁.buffers 4) (s₁.nums 4) ps.number left,
      record s₁ {
        ptcs = (copy_from_buffer (s₁.buffers 4) (s₁.nums 4) ps.number left).ptcs;
        nums = write s₁.nums 4 0;
      },
      rw e (rw two (rw e₁ refl)),
      v',
      number ∙ ap (λ n. min (ps.number + n) ps.size) count,
      λ a l. kept a (inl l) ∙ ap (λ (f : Array (Ptc _)). f a) same ∙ slots a l,
      λ k p at fits_in.
          let here =
            get_elem?-listing (s₁.buffers 4) (s₁.nums 4) (arrivals sendrecv d grid ps) k p arrived
              at in
          filled k (omega (arith, count, get_elem?-lt (arrivals sendrecv d grid ps) k p at)) fits_in
          ∙ here,
      λ z l. elim (eq-cases z 4) [
        | inl e ↦ rw e refl
        | inr ne ↦ write_other s₁.nums 4 z 0 ne ∙ empty z l ne
      ],
    )
