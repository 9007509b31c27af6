-- ===== src/Comm/Tests.antt =====
-- Particles leaving a grid of 4 by 3 cells with two guard cells.
use aperture4_nick.Base.{
  List, ◌<◌, min, get_elem?, ℕ, ◌+◌, ◌*◌, ◌%◌, ◌^◌, ◌≤◌, ◌≡◌, refl, arith, true, [], ◌∷◌, length,
  some,
}
use aperture4_nick.Base.Int.{pos}
use aperture4_nick.Index.Radix.{cells}
use aperture4_nick.Index.ColMajor.{to_linear}
use aperture4_nick.Grid.{Grid, extent, find_zone, is_in_bound}
use aperture4_nick.Grid.Zones.{IsGrid, IsCell, get_zone_offset}
use aperture4_nick.Particles.{Ptc}
use aperture4_nick.Comm.{get_pos, Buffers, shifted}
use aperture4_nick.Comm.Shift.{moved}
use aperture4_nick.Comm.Arrival.{shifted-moved}
use aperture4_nick.Guards.Exchange.{Domain}
use aperture4_nick.Particles.{Particles}
use aperture4_nick.Particles.Append.Filled.{IsParticles}
use aperture4_nick.Comm.Outgoing.{outgoing, remains}
use aperture4_nick.Comm.Route.{Sendrecv, send_particles}
use aperture4_nick.Comm.Routed.{row}
use aperture4_nick.Comm.Arrived.{arrivals, send_particles_lem}

abbrev plane : Grid
plane =
    record { dims = 8; reduced = 4; guard = 2 } ∷ record { dims = 7; reduced = 3; guard = 2 } ∷ []

plane-IsGrid : IsGrid plane
plane-IsGrid = (
  record { dims = omega arith; small = omega arith },
  (record { dims = omega arith; small = omega arith }, tt),
)

-- The cell (7, 1) lies to the right and below, and becomes (3, 4).
moved_down : moved plane (7 ∷ 1 ∷ []) ≡ 3 ∷ 4 ∷ []
moved_down = refl

plane-small : cells (extent plane) ≤ 2 ^ 31
unfolding extent
plane-small = omega arith

shifted-moved_example :
    (pos (
        shifted plane
          (find_zone plane (7 ∷ 1 ∷ []) + get_zone_offset (length plane))
          (record { linear = to_linear (7 ∷ 1 ∷ []) (extent plane); ext = extent plane }))
      ≡ to_linear (moved plane (7 ∷ 1 ∷ [])) (extent plane))
    × IsCell plane (moved plane (7 ∷ 1 ∷ []))
    × (is_in_bound plane (moved plane (7 ∷ 1 ∷ [])) ≡ true)
shifted-moved_example =
    shifted-moved plane (7 ∷ 1 ∷ []) plane-IsGrid (omega arith, (omega arith, tt))
      (omega arith, (omega arith, tt)) (omega arith) (omega arith) plane-small

abbrev particle : ℕ → Ptc ℕ
particle a = record {
  x1 = 0;
  x2 = 0;
  x3 = 0;
  p1 = 0;
  p2 = 0;
  p3 = 0;
  energy = 1;
  weight = 1;
  aux1 = 0;
  cell = (15 * a) % 56;
  id = a;
  flag = 0;
}

abbrev five_particles : Buffers ℕ
five_particles = record { ptcs = particle; buffers = λ z k. particle 0; nums = λ z. 7 }

-- A rank that is its own neighbour in every direction, and a message library for it.
abbrev alone : Domain
alone = record { rank = 0; left = λ dim. some 0; right = λ dim. some 0 }

abbrev echo : Sendrecv ℕ
echo dst src tag sent = sent

abbrev echoes : ℕ → Sendrecv ℕ
echoes call = echo

abbrev one_each : Buffers ℕ
one_each = record { ptcs = particle; buffers = λ z k. particle (10 * z + k); nums = λ z. 1 }

abbrev firsts : ℕ → List (Ptc ℕ)
firsts z = particle (10 * z) ∷ []

-- Five particles of the plane, of which those outside the interior leave.
abbrev wanderers : Particles ℕ
wanderers = record {
  size = 20;
  number = 5;
  segment_size = 4;
  ptcs = particle;
  index = λ k. 0;
  index_size = 4;
  partition = λ k. 0;
  partition_size = 2;
  segment_nums = λ k. 0;
  segment_nums_size = 6;
  ptc_id = 5;
}

abbrev leaving : ℕ → List (Ptc ℕ)
leaving z = outgoing plane particle z 5

wanderers-IsParticles : IsParticles wanderers
wanderers-IsParticles = record {
  number_le = omega arith;
  size_lt = omega arith;
  counter_lt = omega arith;
}

below_fits : length (row echoes alone leaving 0) ≤ 15
unfolding find_zone get_pos extent shifted get_zone_offset
below_fits = omega arith

above_fits : length (row echoes alone leaving 2) ≤ 15
unfolding find_zone get_pos extent shifted get_zone_offset
above_fits = omega arith

all_fit : length (arrivals echoes alone plane wanderers) ≤ 45
unfolding find_zone get_pos extent shifted get_zone_offset
all_fit = omega arith

send_particles_lem_example :
    (ps' : Particles ℕ) × (s' : Buffers ℕ) × (send_particles echoes alone 45 plane
        (wanderers, λ z k. particle 0)
      ≡ some (ps', s'))
    × IsParticles ps'
    × (ps'.number ≡ min (5 + length (arrivals echoes alone plane wanderers)) 20)
    × ((a : ℕ) → a < 5 → ps'.ptcs a ≡ remains plane (particle a))
    × ((k : ℕ) (p : Ptc ℕ)
        → get_elem? (arrivals echoes alone plane wanderers) k ≡ some p
        → 5 + k < 20
        → ps'.ptcs (5 + k) ≡ p)
    × ((z : ℕ) → z < 9 → s'.nums z ≡ 0)
send_particles_lem_example =
    send_particles_lem echoes alone 45 plane wanderers (λ z k. particle 0) refl
      wanderers-IsParticles (omega arith) (omega arith) (omega (arith, below_fits))
      (omega (arith, above_fits)) all_fit
