-- ===== src/Particles/Sort/Weights.antt =====
-- core/particles_functions.cpp, `ptc_sort_by_cell`: what the particles of a range of slots sum up to.
use aperture4_nick.Base.{
  ℕ, zero, suc, ◌+◌, ◌*◌, ◌≤◌, ◌<◌, ◌≡◌, sym, ap, ap₂, lt-cases, inl, inr, ◌∙◌, arith,
  if◌then◌else◌, ◌==◌, Array, sum, sum_ext, sum-add, sum-permute, sum_zero, min,
}
use aperture4_nick.Particles.{Ptc, Particles, empty_cell}
use aperture4_nick.Particles.Sort.Sorted.{IsSorted}
use aperture4_nick.Particles.Sort.Phase.{segment_num}
use aperture4_nick.Particles.Sort.Segments.{SortedUpTo}

module _ {S : Type 0} (f : Ptc S → ℕ) where
  -- The weight of a slot: that of its particle, or none if the slot is empty.
  abbrev pub weigh : Ptc S → ℕ
  weigh p = if p.cell == empty_cell then 0 else f p

  -- The weights of the `n` slots from `from` on.
  unfoldable pub total : Array (Ptc S) → ℕ → ℕ → ℕ
  total ptcs from n = sum (λ i. weigh (ptcs (from + i))) n

  pub total-add :
      (ptcs : Array (Ptc S)) (from m n : ℕ)
      → total ptcs from (m + n) ≡ total ptcs from m + total ptcs (from + m) n
  unfolding total
  total-add ptcs from m n =
      sum-add (λ i. weigh (ptcs (from + i))) m n
      ∙ ap (λ t. total ptcs from m + t)
          (sum_ext _ _ n (λ i h. ap (λ a. weigh (ptcs a)) {x = from + (m + i)} (omega arith)))

  pub total_ext :
      (a b : Array (Ptc S)) (from from' n : ℕ)
      → ((i : ℕ) → i < n → a (from + i) ≡ b (from' + i))
      → total a from n ≡ total b from' n
  unfolding total
  total_ext a b from from' n e = sum_ext _ _ n (λ i h. ap (λ p. weigh p) (e i h))

  pub total_empty :
      (a : Array (Ptc S)) (from n : ℕ)
      → ((i : ℕ) → i < n → (a (from + i)).cell ≡ empty_cell)
      → total a from n ≡ 0
  unfolding total
  total_empty a from n e = sum_zero _ n (λ i h. ground (arith, e i h))

  total_sorted :
      (num_cells offset num live : ℕ) (before after : Array (Ptc S))
      → IsSorted num_cells offset num live before after
      → total after offset num ≡ total before offset num
  unfolding total
  total_sorted num_cells offset num live before after v =
      sym (sum-permute (λ i. weigh (after (offset + i))) v.σ num v.permutes)
      ∙ sum_ext _ _ num (λ k h. ap (λ p. weigh p) (v.moved k h))

  -- The slots in use of the first `k` segments, of which `n` are sorted.
  total-SortedUpTo :
      (num_cells seg number n k : ℕ) (before ps : Particles S)
      → SortedUpTo num_cells seg number n before ps
      → k ≤ n
      → total ps.ptcs 0 (min (k * seg) number) ≡ total before.ptcs 0 (min (k * seg) number)
  total-SortedUpTo num_cells seg number n zero before ps v h =
      total_ext ps.ptcs before.ptcs 0 0 (min (0 * seg) number) (λ i l. absurd (omega arith))
  total-SortedUpTo num_cells seg number n (suc k) before ps v h = elim (lt-cases number (k * seg)) [
    | inl l ↦
        ap (total ps.ptcs 0) {x = min (suc k * seg) number} {y = min (k * seg) number}
          (ground arith)
        ∙ total-SortedUpTo num_cells seg number n k before ps v (omega arith)
        ∙ ap (total before.ptcs 0) {x = min (k * seg) number} {y = min (suc k * seg) number}
            (ground arith)
    | inr g ↦
        split ps.ptcs g
        ∙ ap₂ ◌+◌ (total-SortedUpTo num_cells seg number n k before ps v (omega arith)) (
            total_sorted num_cells (k * seg) (segment_num k seg number) (ps.segment_nums k)
              before.ptcs ps.ptcs (v.sorted k (omega arith)))
        ∙ sym (split before.ptcs g)
  ]
    where
      split :
          (a : Array (Ptc S))
          → k * seg ≤ number
          → total a 0 (min (suc k * seg) number)
            ≡ total a 0 (min (k * seg) number) + total a (k * seg) (segment_num k seg number)
      split a g =
          ap (total a 0) {x = min (suc k * seg) number}
            {y = min (k * seg) number + segment_num k seg number} (ground arith)
          ∙ total-add a 0 (min (k * seg) number) (segment_num k seg number)
          ∙ ap (λ from. total a 0 (min (k * seg) number) + total a from (segment_num k seg number))
              {x = 0 + min (k * seg) number} {y = k * seg} (omega arith)

  -- Sorting the segments keeps the particles in use.
  pub total-SortedUpTo_all :
      (num_cells seg number n : ℕ) (before ps : Particles S)
      → SortedUpTo num_cells seg number n before ps
      → number ≤ n * seg
      → total ps.ptcs 0 number ≡ total before.ptcs 0 number
  total-SortedUpTo_all num_cells seg number n before ps v h =
      let e : min (n * seg) number ≡ number = omega arith in
      rw e at (total-SortedUpTo num_cells seg number n n before ps v (omega arith))
