-- ===== src/Comm/Ranks.antt =====
-- systems/domain_comm_impl.hpp, `send_particles_impl` on all ranks, in two dimensions: no particle is lost and
-- none is there twice.
use aperture4_nick.Base.{
  ℕ, ◌+◌, ◌*◌, ◌^◌, ◌≤◌, ◌<◌, ◌≡◌, ◌≢◌, refl, sym, ap, ◌∙◌, arith, List, [], ◌∷◌, length, lt-cases,
  inl, inr, some, Array, sum, sum_ext, sum_plus, get_elem?-lt,
}
use aperture4_nick.Grid.{Grid, Axis}
use aperture4_nick.Grid.Zones.{IsGrid}
use aperture4_nick.Particles.{Ptc, Particles, empty_cell}
use aperture4_nick.Particles.Append.Filled.{IsParticles}
use aperture4_nick.Particles.Sort.Weights.{weigh, total, total-add, total_ext}
use aperture4_nick.Guards.Exchange.{Domain}
use aperture4_nick.Comm.{Buffers}
use aperture4_nick.Comm.Shift.{HasRoom}
use aperture4_nick.Comm.Outgoing.{outgoing, remains}
use aperture4_nick.Comm.Route.{Sendrecv, send_particles}
use aperture4_nick.Comm.Routed.{row}
use aperture4_nick.Comm.Arrived.{arrivals, send_particles_lem}
use aperture4_nick.Comm.Loads.{load, Delivers, load-routed}
use aperture4_nick.Comm.Kept.{outgoing-kept, total-listed}

-- What a rank needs for the exchange: well-formed slots, whose particles have the numbers of cells,
-- buffers for them and for what arrives, and room for the arrivals.
pub record IsReady {S : Type 0} (a b : Axis) (capacity : ℕ) (sendrecv : ℕ → Sendrecv S) (d : Domain)
    (ps : Particles S) : Type 0 where
  pub particles : IsParticles ps
  pub cells :
      (i : ℕ) → i < ps.number → (ps.ptcs i).cell ≢ empty_cell → (ps.ptcs i).cell < a.dims * b.dims
  pub number_le : ps.number ≤ capacity
  pub below : length (row sendrecv d (λ z. outgoing (a ∷ b ∷ []) ps.ptcs z ps.number) 0) ≤ capacity
  pub above : length (row sendrecv d (λ z. outgoing (a ∷ b ∷ []) ps.ptcs z ps.number) 2) ≤ capacity
  pub all : length (arrivals sendrecv d (a ∷ b ∷ []) ps) ≤ capacity
  pub room : ps.number + length (arrivals sendrecv d (a ∷ b ∷ []) ps) ≤ ps.size

module _ {S : Type 0} (a b : Axis) (w : IsGrid (a ∷ b ∷ [])) (wide : HasRoom (a ∷ b ∷ []))
    (small : a.dims * b.dims ≤ 2 ^ 31) (capacity : ℕ) (capacity_lt : capacity < 2 ^ 31)
    (f : Ptc S → ℕ) (blind : (p : Ptc S) (c : ℕ) → f (record p { cell = c }) ≡ f p) where
  abbrev plane : Grid
  plane = a ∷ b ∷ []

  abbrev sent_load : Particles S → ℕ
  sent_load ps = sum (λ z. load (weigh f) (outgoing plane ps.ptcs z ps.number)) 9

  -- One rank: it has what it had, without what it sent, with what arrived.
  one-rank :
      (sendrecv : ℕ → Sendrecv S) (d : Domain) (ps : Particles S) (buffers : Array (Array (Ptc S)))
      → IsReady a b capacity sendrecv d ps
      → (ps' : Particles S) × (s' : Buffers S) × (send_particles sendrecv d capacity plane
            (ps, buffers)
          ≡ some (ps', s'))
        × (total f ps'.ptcs 0 ps'.number + sent_load ps
            ≡ total f ps.ptcs 0 ps.number + load (weigh f) (arrivals sendrecv d plane ps))
  one-rank sendrecv d ps buffers v =
      let xs : List (Ptc S) = arrivals sendrecv d plane ps in
      let (ps', s', e, _, number, slots, arrived, _) =
        send_particles_lem sendrecv d capacity plane ps buffers refl v.particles v.number_le
          capacity_lt v.below v.above v.all in
      let n : ps'.number ≡ ps.number + length xs = omega (arith, number, v.room) in
      let stay : total f ps'.ptcs 0 ps.number
          ≡ total f (λ i. remains plane (ps.ptcs i)) 0 ps.number =
        total_ext f ps'.ptcs (λ i. remains plane (ps.ptcs i)) 0 0 ps.number
          (λ i l. slots (0 + i) (omega arith)) in
      let come : total f ps'.ptcs (0 + ps.number) (length xs) ≡ load (weigh f) xs =
        total-listed f ps'.ptcs (0 + ps.number) xs (λ k p at.
          ap ps'.ptcs {x = 0 + ps.number + k} {y = ps.number + k} (omega arith)
          ∙ arrived k p at (omega (arith, get_elem?-lt xs k p at, v.room))) in
      (
        ps',
        s',
        e,
        omega (
          arith,
          ap (total f ps'.ptcs 0) n,
          total-add f ps'.ptcs 0 ps.number (length xs),
          stay,
          come,
          outgoing-kept a b w wide small f blind ps.ptcs ps.number v.cells,
        ),
      )

sum_cancel :
    (g h k l : ℕ → ℕ) (n : ℕ)
    → ((r : ℕ) → r < n → g r + h r ≡ k r + l r)
    → sum h n ≡ sum l n
    → sum g n ≡ sum k n
sum_cancel g h k l n e same =
    omega
      (arith, sum_plus g h n, sum_plus k l n, sum_ext (λ r. g r + h r) (λ r. k r + l r) n e, same)

-- On `n` ranks on a torus, with grids of two axes of at most 2^31 cells whose interior is at least as
-- wide as the guard cells, where every rank is ready and the messages arrive as they are sent, the
-- exchange returns on every rank. Whatever is summed over the particles in use of all ranks
-- comes to the same before and after, as long as it does not depend on the number of the cell.
pub send_particles-conserves :
    {S : Type 0} (n : ℕ) (d : ℕ → Domain) (sendrecv : ℕ → ℕ → Sendrecv S) (left right : ℕ → ℕ → ℕ)
    (a b : Axis) (capacity : ℕ) (ps : ℕ → Particles S) (buffers : ℕ → Array (Array (Ptc S)))
    → IsGrid (a ∷ b ∷ [])
    → HasRoom (a ∷ b ∷ [])
    → a.dims * b.dims ≤ 2 ^ 31
    → capacity < 2 ^ 31
    → ((r : ℕ) → r < n → IsReady a b capacity (sendrecv r) (d r) (ps r))
    → Delivers n d sendrecv left right (λ r z. outgoing (a ∷ b ∷ []) (ps r).ptcs z (ps r).number)
    → (f : Ptc S → ℕ) → ((p : Ptc S) (c : ℕ) → f (record p { cell = c }) ≡ f p)
    → (ps' : ℕ → Particles S) × ((r : ℕ)
        → r < n
        → (s' : Buffers S) × (send_particles
              (sendrecv r)
              (d r)
              capacity
              (a ∷ b ∷ [])
              (ps r, buffers r)
            ≡ some (ps' r, s')))
      × (sum (λ r. total f (ps' r).ptcs 0 (ps' r).number) n
          ≡ sum (λ r. total f (ps r).ptcs 0 (ps r).number) n)
send_particles-conserves n d sendrecv left right a b capacity ps buffers w wide small lt ready v f
      blind =
    (
      (λ r. (each r).0),
      (λ r l. let (_, g) = each r in let (s', e, _) = g l in (s', e)),
      sum_cancel (λ r. total f (each r).0.ptcs 0 (each r).0.number)
          (λ r. sum (λ z. load (weigh f) (outgoing (a ∷ b ∷ []) (ps r).ptcs z (ps r).number)) 9)
          (λ r. total f (ps r).ptcs 0 (ps r).number)
          (λ r. load (weigh f) (arrivals (sendrecv r) (d r) (a ∷ b ∷ []) (ps r))) n
          (λ r l. let (_, g) = each r in let (_, _, e) = g l in e)
          (sym (load-routed n d sendrecv left right _ (weigh f) v)),
    )
  where
    each :
        (r : ℕ)
        → (ps' : Particles _) × (r < n
            → (s' : Buffers _) × (send_particles
                  (sendrecv r)
                  (d r)
                  capacity
                  (a ∷ b ∷ [])
                  (ps r, buffers r)
                ≡ some (ps', s'))
              × (total f ps'.ptcs 0 ps'.number
                    + sum
                        (λ z. load (weigh f) (outgoing (a ∷ b ∷ []) (ps r).ptcs z (ps r).number))
                        9
                  ≡ total f (ps r).ptcs 0 (ps r).number
                    + load (weigh f) (arrivals (sendrecv r) (d r) (a ∷ b ∷ []) (ps r))))
    each r = elim (lt-cases r n) [
      | inr beyond ↦ (ps r, λ l. absurd (omega (arith, beyond, l)))
      | inl l ↦
          let (ps', s', e, kept) =
            one-rank a b w wide small capacity lt f blind (sendrecv r) (d r) (ps r) (buffers r)
              (ready r l) in
          (ps', λ _. (s', e, kept))
    ]
