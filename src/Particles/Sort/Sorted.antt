-- ===== src/Particles/Sort/Sorted.antt =====
-- core/particles_functions.cpp, `ptc_sort_by_cell`: what the first loop does to a segment.
use aperture4_nick.Base.{ℕ, ◌+◌, ◌≤◌, ◌<◌, ◌≡◌, ◌∙◌, refl, sym, ◌↔◌, arith, Array, IsPermutation}
use aperture4_nick.Particles.{Ptc}
use aperture4_nick.Particles.Sort.{cell_idx}

-- How the segment of `num` slots from `offset` has changed: its particles are permuted so that
-- their cells are in order, with the empty slots last; particles of one cell keep their order; the
-- first `live` slots are those that hold a particle.
pub record IsSorted {S : Type 0} (num_cells offset num live : ℕ) (before after : Array (Ptc S))
    : Type 0 where
  pub σ : ℕ → ℕ
  pub live_le : live ≤ num
  pub permutes : IsPermutation σ num
  pub moved : (k : ℕ) → k < num → after (offset + σ k) ≡ before (offset + k)
  pub ordered :
      (a b : ℕ)
      → a ≤ b
      → b < num
      → cell_idx num_cells (after (offset + a)) ≤ cell_idx num_cells (after (offset + b))
  pub stable :
      (k l : ℕ)
      → k < l
      → l < num
      → cell_idx num_cells (before (offset + k)) ≡ cell_idx num_cells (before (offset + l))
      → σ k < σ l
  pub filled :
      (a : ℕ) → a < num → (a < live) ↔ (cell_idx num_cells (after (offset + a)) < num_cells)

-- It is a matter of the slots of the segment alone.
pub IsSorted-cong :
    {S : Type 0} (num_cells offset num live : ℕ) (b b' a a' : Array (Ptc S))
    → ((k : ℕ) → k < num → b' (offset + k) ≡ b (offset + k))
    → ((k : ℕ) → k < num → a' (offset + k) ≡ a (offset + k))
    → IsSorted num_cells offset num live b a
    → IsSorted num_cells offset num live b' a'
IsSorted-cong num_cells offset num live b b' a a' eb ea v = record {
  σ = v.σ;
  live_le = v.live_le;
  permutes = v.permutes;
  moved = λ k h. ea (v.σ k) (v.permutes.within k h) ∙ v.moved k h ∙ sym (eb k h);
  ordered = λ k l h g. rw (ea k (omega arith), ea l g) (v.ordered k l h g);
  stable = λ k l h g e. v.stable k l h g (rw (← eb k (omega arith), ← eb l g) e);
  filled = λ k h. rw (ea k h) (v.filled k h);
}

pub IsSorted-none :
    {S : Type 0} (num_cells offset num : ℕ) (b a : Array (Ptc S))
    → num ≡ 0
    → IsSorted num_cells offset num 0 b a
IsSorted-none num_cells offset num b a e = record {
  σ = λ k. k;
  live_le = omega arith;
  permutes = record { within = λ k h. h; apart = λ k l h g e. e; onto = λ k h. (k, h, refl) };
  moved = λ k h. absurd (omega arith);
  ordered = λ k l h g. absurd (omega arith);
  stable = λ k l h g e. h;
  filled = λ k h. absurd (omega arith);
}
