-- ===== src/Injector/Tests.antt =====
-- Two particles for every cell of the first row of a small plane.
use aperture4_nick.Base.{
  ℕ, sum, ◌-◌, ◌+◌, ◌%◌, ◌^◌, ◌<◌, ◌≡◌, refl, arith, true, ◌==◌, if◌then◌else◌, List, [], ◌∷◌,
}
use aperture4_nick.Vec.{size, product_from}
use aperture4_nick.Grid.{Grid, extent, is_in_bound}
use aperture4_nick.Particles.{Ptc, Particles}
use aperture4_nick.Comm.{get_pos}
use aperture4_nick.Injector.{Injection, inject_pairs}
use aperture4_nick.Injector.Injected.{injected, Injected, inject_pairs-id_repeats}

abbrev in_first_row : List ℕ → ℕ
in_first_row (x ∷ y ∷ []) = if y == 1 then 2 else 0
in_first_row _ = 0

-- The generator counts; the momenta and weights are numbers.
abbrev counting : Injection
counting = record {
  S = ℕ;
  R = ℕ;
  uniform = λ r. (r, r + 1);
  energy = λ a b c. a + b + c;
  is_tracked = λ u. u == 3;
  coord_global = λ pos x. x;
  f_criteria = λ pos. true;
  f_num = in_first_row;
  f_dist = λ x r type. ((r, r, r), r + 1);
  f_weight = λ x type. 1;
}

abbrev small_plane : Grid
small_plane =
    record { dims = 4; reduced = 2; guard = 1 } ∷ record { dims = 4; reduced = 2; guard = 1 } ∷ []

abbrev nothing_yet : Ptc ℕ
nothing_yet = record {
  x1 = 0;
  x2 = 0;
  x3 = 0;
  p1 = 0;
  p2 = 0;
  p3 = 0;
  energy = 0;
  weight = 0;
  aux1 = 0;
  cell = 2 ^ 32 - 1;
  id = 0;
  flag = 0;
}

abbrev empty_array : Particles ℕ
empty_array = record {
  size = 20;
  number = 3;
  segment_size = 4;
  ptcs = λ a. nothing_yet;
  index = λ k. 0;
  index_size = 4;
  partition = λ k. 0;
  partition_size = 2;
  segment_nums = λ k. 0;
  segment_nums_size = 6;
  ptc_id = 7;
}

even : (pos : List ℕ) → in_first_row pos % 2 ≡ 0
even [] = refl
even (x ∷ []) = refl
even (x ∷ y ∷ []) = ground arith
even (x ∷ y ∷ z ∷ rest) = refl

sixteen_cells : size (extent small_plane) ≡ 16
unfolding size extent product_from
sixteen_cells = refl

four : injected counting small_plane 0 ≡ 4
unfolding sum size extent product_from is_in_bound get_pos
four = refl

inject_pairs-id_repeats_example :
    (3 + injected counting small_plane 0 + 2
      < (inject_pairs counting small_plane 1 0
          (inject_pairs counting small_plane 1 0 (empty_array, 0))).0.number)
    × (((inject_pairs counting small_plane 1 0
            (inject_pairs counting small_plane 1 0 (empty_array, 0))).0.ptcs
          (3 + injected counting small_plane 0 + 2)).id
        ≡ ((inject_pairs counting small_plane 1 0
              (inject_pairs counting small_plane 1 0 (empty_array, 0))).0.ptcs
            (3 + 2)).id)
inject_pairs-id_repeats_example =
    inject_pairs-id_repeats counting small_plane 1 0 empty_array 0 even
      (omega (arith, sixteen_cells)) (omega arith) (omega arith) (omega (arith, four)) 2
      (omega (arith, four))
