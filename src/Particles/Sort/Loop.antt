-- ===== src/Particles/Sort/Loop.antt =====
-- core/particles_functions.cpp, `ptc_sort_by_cell`: the first loop, from its start.
use native.Mathlib.Nat.{div-add-mod}
use aperture4_nick.Base.{ℕ, ◌+◌, ◌*◌, ◌/◌, ◌^◌, ◌≤◌, ◌<◌, ◌≡◌, refl, arith, some}
use aperture4_nick.Particles.{Particles}
use aperture4_nick.Particles.Rearrange.{done}
use aperture4_nick.Particles.Sort.{sort_segments}
use aperture4_nick.Particles.Sort.Phase.{HasCells}
use aperture4_nick.Particles.Sort.Segments.{SortedUpTo, sort_segments_lem}

div-mul_le : (n s : ℕ) → (n / s) * s ≤ n
div-mul_le n s = let e = div-add-mod n s in grind arith

pub sort_segments-SortedUpTo :
    {S : Type 0} (num_cells : ℕ) (ps : Particles S)
    → HasCells num_cells 0 ps
    → num_cells + 2 < 2 ^ 32
    → ps.number < done
    → ps.segment_size < 2 ^ 31
    → ps.number / ps.segment_size < 2 ^ 31
    → (ps' : Particles S) × (sort_segments num_cells (ps.number / ps.segment_size + 1) 0 ps
        ≡ some ps')
      × SortedUpTo num_cells ps.segment_size ps.number (ps.number / ps.segment_size + 1) ps ps'
sort_segments-SortedUpTo num_cells ps cells few small seg_lt last_lt =
    sort_segments_lem num_cells ps.segment_size ps.number ps refl cells small few seg_lt
      (ps.number / ps.segment_size + 1) 0 (ps.number / ps.segment_size) (omega arith)
      (div-mul_le ps.number ps.segment_size) last_lt ps
      (record {
        sorted = λ m h. absurd (omega arith);
        rest = λ a h. refl;
        segment_size = refl;
        number = refl;
        size = refl;
      })
