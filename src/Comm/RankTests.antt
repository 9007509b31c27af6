-- ===== src/Comm/RankTests.antt =====
-- Two ranks in a ring, where each is both neighbours of the other, with five particles each, on grids of 4 by 3 cells with two guard cells.
use aperture4_nick.Base.{
  ℕ, zero, suc, ◌+◌, ◌-◌, ◌*◌, ◌%◌, ◌≤◌, ◌<◌, ◌≡◌, refl, arith, List, [], ◌∷◌, length, some, sum,
  IsPermutation,
}
use aperture4_nick.Grid.{Grid, Axis, extent, find_zone}
use aperture4_nick.Grid.Zones.{get_zone_offset}
use aperture4_nick.Particles.{Ptc, Particles}
use aperture4_nick.Particles.Sort.Weights.{total}
use aperture4_nick.Guards.Exchange.{Domain}
use aperture4_nick.Comm.{get_pos, Buffers, shifted}
use aperture4_nick.Comm.Outgoing.{outgoing}
use aperture4_nick.Comm.Route.{Sendrecv, send_particles}
use aperture4_nick.Comm.Routed.{from_right, from_left, row}
use aperture4_nick.Comm.Arrived.{arrivals}
use aperture4_nick.Comm.Loads.{Delivers}
use aperture4_nick.Comm.Ranks.{IsReady, send_particles-conserves}

abbrev x_axis : Axis
x_axis = record { dims = 8; reduced = 4; guard = 2 }

abbrev y_axis : Axis
y_axis = record { dims = 7; reduced = 3; guard = 2 }

abbrev plane : Grid
plane = x_axis ∷ y_axis ∷ []

abbrev right : ℕ → ℕ → ℕ
right zero r = (r + 1) % 2
right (suc dim) r = r

abbrev left : ℕ → ℕ → ℕ
left zero r = (r + 1) % 2
left (suc dim) r = r

abbrev ring : ℕ → Domain
ring r = record { rank = r; left = λ dim. some (left dim r); right = λ dim. some (right dim r) }

-- The particle `a` of the rank `r`.
abbrev particle : ℕ → ℕ → Ptc ℕ
particle r a = record {
  x1 = 0;
  x2 = 0;
  x3 = 0;
  p1 = 0;
  p2 = 0;
  p3 = 0;
  energy = 1;
  weight = 1;
  aux1 = 0;
  cell = (15 * a) % 56;
  id = 10 * r + a;
  flag = 0;
}

abbrev wanderers : ℕ → Particles ℕ
wanderers r = record {
  size = 20;
  number = 5;
  segment_size = 4;
  ptcs = particle r;
  index = λ k. 0;
  index_size = 4;
  partition = λ k. 0;
  partition_size = 2;
  segment_nums = λ k. 0;
  segment_nums_size = 6;
  ptc_id = 5;
}

abbrev leaving : ℕ → ℕ → List (Ptc ℕ)
leaving r z = outgoing plane (particle r) z 5

-- In x the first call brings what the right neighbour sends to the left, the second what the left one
-- sends to the right: both come from one rank.
abbrev from_neighbour : ℕ → ℕ → Sendrecv ℕ
from_neighbour r zero dst src tag sent = leaving (right 0 r) (tag * 3)
from_neighbour r (suc call) dst src tag sent = leaving (left 0 r) (tag * 3 + 2)

each_rank : (P : ℕ → Type 0) → P 0 → P 1 → (r : ℕ) → r < 2 → P r
each_rank P p₀ p₁ zero l = p₀
each_rank P p₀ p₁ (suc zero) l = p₁
each_rank P p₀ p₁ (suc (suc r)) l = absurd (omega arith)

below_fits : (r : ℕ) → r < 2 → length (row (from_neighbour r) (ring r) (leaving r) 0) ≤ 15
unfolding find_zone get_pos extent shifted get_zone_offset
below_fits =
    each_rank (λ r. length (row (from_neighbour r) (ring r) (leaving r) 0) ≤ 15) (omega arith)
      (omega arith)

above_fits : (r : ℕ) → r < 2 → length (row (from_neighbour r) (ring r) (leaving r) 2) ≤ 15
unfolding find_zone get_pos extent shifted get_zone_offset
above_fits =
    each_rank (λ r. length (row (from_neighbour r) (ring r) (leaving r) 2) ≤ 15) (omega arith)
      (omega arith)

all_fit : (r : ℕ) → r < 2 → length (arrivals (from_neighbour r) (ring r) plane (wanderers r)) ≤ 15
unfolding find_zone get_pos extent shifted get_zone_offset
all_fit =
    each_rank (λ r. length (arrivals (from_neighbour r) (ring r) plane (wanderers r)) ≤ 15)
      (omega arith) (omega arith)

ready : (r : ℕ) → r < 2 → IsReady x_axis y_axis 45 (from_neighbour r) (ring r) (wanderers r)
ready r l = record {
  particles = record { number_le = omega arith; size_lt = omega arith; counter_lt = omega arith };
  cells = λ i h live. omega arith;
  number_le = omega arith;
  below = omega (arith, below_fits r l);
  above = omega (arith, above_fits r l);
  all = omega (arith, all_fit r l);
  room = omega (arith, all_fit r l);
}

shift-IsPermutation : (k : ℕ) → k < 2 → IsPermutation (λ r. (r + k) % 2) 2
shift-IsPermutation k h = record {
  within = λ r l. omega arith;
  apart = λ r s l m e. omega (arith, e);
  onto = λ a l. ((a + (2 - k)) % 2, omega arith, omega arith);
}

same-IsPermutation : IsPermutation (λ r. r) 2
same-IsPermutation = record {
  within = λ r l. l;
  apart = λ r s l m e. e;
  onto = λ a l. (a, l, refl);
}

right-IsPermutation : (dim : ℕ) → IsPermutation (right dim) 2
right-IsPermutation zero = shift-IsPermutation 1 (omega arith)
right-IsPermutation (suc dim) = same-IsPermutation

left-IsPermutation : (dim : ℕ) → IsPermutation (left dim) 2
left-IsPermutation zero = shift-IsPermutation 1 (omega arith)
left-IsPermutation (suc dim) = same-IsPermutation

x_right :
    (r : ℕ)
    → r < 2
    → (i : ℕ) (xs : List (Ptc ℕ))
    → from_right (from_neighbour r) (ring r) 0 i xs ≡ leaving (right 0 r) (i * 3)
x_right =
    each_rank
      (λ r.
        (i : ℕ) (xs : List (Ptc ℕ))
        → from_right (from_neighbour r) (ring r) 0 i xs ≡ leaving (right 0 r) (i * 3))
      (λ i xs. refl) (λ i xs. refl)

x_left :
    (r : ℕ)
    → r < 2
    → (i : ℕ) (xs : List (Ptc ℕ))
    → from_left (from_neighbour r) (ring r) 0 i xs ≡ leaving (left 0 r) (i * 3 + 2)
x_left =
    each_rank
      (λ r.
        (i : ℕ) (xs : List (Ptc ℕ))
        → from_left (from_neighbour r) (ring r) 0 i xs ≡ leaving (left 0 r) (i * 3 + 2))
      (λ i xs. refl) (λ i xs. refl)

-- In y a rank is its own neighbour.
y_both :
    (r : ℕ)
    → r < 2
    → (xs : List (Ptc ℕ))
    → (from_right (from_neighbour r) (ring r) 1 0 xs ≡ xs)
      × (from_left (from_neighbour r) (ring r) 1 0 xs ≡ xs)
y_both =
    each_rank
      (λ r.
        (xs : List (Ptc ℕ))
        → (from_right (from_neighbour r) (ring r) 1 0 xs ≡ xs)
          × (from_left (from_neighbour r) (ring r) 1 0 xs ≡ xs))
      (λ xs. (refl, refl)) (λ xs. (refl, refl))

delivers : Delivers 2 ring from_neighbour left right leaving
delivers = record {
  right_neighbour = λ dim r h l. refl;
  left_neighbour = λ dim r h l. refl;
  right_permutes = λ dim h. right-IsPermutation dim;
  left_permutes = λ dim h. left-IsPermutation dim;
  x_from_right = λ r i l h. x_right r l i (leaving r (i * 3));
  x_from_left = λ r i l h. x_left r l i (leaving r (i * 3 + 2));
  y_from_right = λ r l. (y_both r l (row (from_neighbour r) (ring r) (leaving r) 0)).0;
  y_from_left = λ r l. (y_both r l (row (from_neighbour r) (ring r) (leaving r) 2)).1;
}

send_particles-conserves_example :
    (ps' : ℕ → Particles ℕ) × ((r : ℕ)
      → r < 2
      → (s' : Buffers ℕ) × (send_particles
            (from_neighbour r)
            (ring r)
            45
            plane
            (wanderers r, λ z k. particle 0 0)
          ≡ some (ps' r, s')))
    × (sum (λ r. total (λ p. p.id) (ps' r).ptcs 0 (ps' r).number) 2
        ≡ sum (λ r. total (λ p. p.id) (particle r) 0 5) 2)
send_particles-conserves_example =
    send_particles-conserves 2 ring from_neighbour left right x_axis y_axis 45 wanderers
      (λ r z k. particle 0 0)
      (
        record { dims = omega arith; small = omega arith },
        (record { dims = omega arith; small = omega arith }, tt),
      )
      (omega arith, (omega arith, tt)) (omega arith) (omega arith) ready delivers (λ p. p.id)
      (λ p c. refl)
