-- ===== src/Particles/Tests.antt =====
-- A small particle array, and the theorems at it.
use aperture4_nick.Base.{
  ℕ, ◌+◌, ◌*◌, ◌%◌, ◌^◌, ◌≢◌, min, ◌≤◌, ◌<◌, ◌≡◌, arith, ◌⊎◌, ◌↔◌, Array, some, ◌==◌, if◌then◌else◌,
}
use aperture4_nick.Particles.{Ptc, Particles, empty_cell}
use aperture4_nick.Particles.Append.{Scalars, append, copy_from_buffer}
use aperture4_nick.Particles.Append.Filled.{
  IsParticleAt, IsParticles, append_lem, append-id_unique, copy_from_buffer_lem,
}
use aperture4_nick.Particles.Rearrange.{Slots, rearrange_arrays, done}
use aperture4_nick.Particles.Rearrange.Invariant.{IsPlacement}
use aperture4_nick.Particles.Rearrange.Placed.{rearrange_arrays_lem}
use aperture4_nick.Particles.Sort.{sort_by_cell}
use aperture4_nick.Particles.Sort.Whole.{Compacted, sort_by_cell_lem}
use aperture4_nick.Particles.Sort.Phase.{HasCells}

-- Slots 4, 5 and 6 hold 104, 105 and 106, and move to 5, 6 and 4.
abbrev rotation : Array ℕ
rotation k = if k == 2 then 4 else k + 5

abbrev three_slots : Slots ℕ
three_slots = record { index = rotation; ptcs = λ a. a + 100 }

rotation-IsPlacement : IsPlacement rotation 4 3
rotation-IsPlacement = record {
  low = λ k h. ground arith;
  high = λ k h. ground arith;
  apart = λ k l h g e. ground arith;
  small = omega arith;
}

rearrange_arrays_lem_example :
    (s' : Slots ℕ) × (rearrange_arrays 4 3 three_slots ≡ some s')
    × ((k : ℕ) → k < 3 → s'.ptcs (rotation k) ≡ 4 + k + 100)
    × ((a : ℕ) → (a < 4) ⊎ (7 ≤ a) → s'.ptcs a ≡ a + 100)
    × ((k : ℕ) → k < 3 → s'.index k ≡ done)
rearrange_arrays_lem_example = rearrange_arrays_lem 4 3 three_slots rotation-IsPlacement

-- a particle in a cell of a grid of five, or the empty slot 2
abbrev particle : ℕ → Ptc ℕ
particle a = record {
  x1 = a;
  x2 = 0;
  x3 = 0;
  p1 = 0;
  p2 = 0;
  p3 = 0;
  energy = 1;
  weight = 1;
  aux1 = 0;
  cell = if a == 2 then empty_cell else (3 * a) % 5;
  id = a;
  flag = 0;
}

-- six slots in use, in segments of four
abbrev six_particles : Particles ℕ
six_particles = record {
  size = 8;
  number = 6;
  segment_size = 4;
  ptcs = particle;
  index = λ k. 0;
  index_size = 4;
  partition = λ k. 0;
  partition_size = 7;
  segment_nums = λ k. 0;
  segment_nums_size = 3;
  ptc_id = 6;
}

six_particles-HasCells : HasCells 5 0 six_particles
six_particles-HasCells a lo hi = ground arith

abbrev naturals : Scalars
naturals = record { S = ℕ; one = 1; plus = ◌+◌; times = ◌*◌; sqrt = λ x. x }

six_particles-IsParticles : IsParticles six_particles
six_particles-IsParticles = record {
  number_le = omega arith;
  size_lt = omega arith;
  counter_lt = omega arith;
}

abbrev seven_particles : Particles ℕ
seven_particles = append naturals 3 1 2 3 4 5 6 8 1 0 six_particles

append_lem_example :
    IsParticles seven_particles
    × (six_particles.number ≡ 8 → seven_particles ≡ six_particles)
    × (6 < 8
        → (seven_particles.number ≡ 6 + 1)
          × IsParticleAt naturals 1 2 3 4 5 6 8 1 0
              (3 * 2 ^ 32 + 6)
              (particle 6)
              (seven_particles.ptcs 6)
          × (seven_particles.ptc_id ≡ (6 + 1) % 2 ^ 32)
          × ((a : ℕ) → a ≢ 6 → seven_particles.ptcs a ≡ particle a))
append_lem_example =
    append_lem naturals 3 1 2 3 4 5 6 8 1 0 six_particles six_particles-IsParticles (omega arith)

abbrev third : ℕ
third = 3

append-id_unique_example :
    (((append naturals third 1 2 3 4 5 6 8 1 0 six_particles).ptcs 6).id
      ≡ ((append naturals 4 6 5 4 3 2 1 7 2 1 six_particles).ptcs 6).id)
    ↔ ((third ≡ 4) × (six_particles.ptc_id ≡ 6))
append-id_unique_example =
    append-id_unique naturals 1 2 3 4 5 6 6 5 4 3 2 1 8 7 1 2 0 1 third 4 six_particles
      six_particles six_particles-IsParticles six_particles-IsParticles (omega arith) (omega arith)
      (omega arith) (omega arith)

abbrev after_receive : Particles ℕ
after_receive = copy_from_buffer (λ k. particle (k + 50)) 3 6 six_particles

copy_from_buffer_lem_example :
    IsParticles after_receive
    × (after_receive.number ≡ min (6 + 3) 8)
    × ((k : ℕ) → k < 3 → 6 + k < 8 → after_receive.ptcs (6 + k) ≡ particle (k + 50))
    × ((a : ℕ) → (a < 6) ⊎ (after_receive.number ≤ a) → after_receive.ptcs a ≡ particle a)
copy_from_buffer_lem_example =
    copy_from_buffer_lem (λ k. particle (k + 50)) 3 six_particles six_particles-IsParticles
      (omega arith)

sort_by_cell_lem_example :
    (ps' : Particles ℕ) × (sort_by_cell 5 six_particles ≡ some ps') × Compacted six_particles ps'
sort_by_cell_lem_example =
    sort_by_cell_lem 5 six_particles six_particles-HasCells (omega arith) (omega arith)
      (omega arith) (omega arith) (omega arith) (omega arith) (omega arith)
