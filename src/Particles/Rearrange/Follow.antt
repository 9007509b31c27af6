-- ===== src/Particles/Rearrange/Follow.antt =====
-- core/particles_functions.cpp, `ptc_rearrange_arrays`: one cycle, round by round.
use aperture4_nick.Base.{
  ℕ, ◌+◌, ◌≤◌, ◌<◌, ◌≡◌, ◌≢◌, sym, ◌∙◌, arith, ◌⊎◌, inl, inr, write, eq-cases,
}
use aperture4_nick.Particles.Rearrange.{done, Slots}
use aperture4_nick.Particles.Rearrange.Invariant.{IsPlacement, Settled, HasSource, Between, Inside}

module _ {A : Type 0} (s₀ s : Slots A) (offset num i j : ℕ) (p_tmp : A)
    (p : IsPlacement s₀.index offset num) (v : Inside s₀ s offset num i j p_tmp) where
  -- the state once the particle in hand has been put down
  abbrev pub put : Slots A
  put = record { index = write s.index j done; ptcs = write s.ptcs (s.index j) p_tmp }

  -- Only one entry leads to each slot.
  source-eq : (k m : ℕ) → m < num → s₀.index m ≡ offset + k → s₀.index j ≡ offset + k → m ≡ j
  source-eq k m h e f = p.apart m j h v.j_in (e ∙ sym f)

  -- A done entry has a source that is done, and `j` is not.
  not_done : (k : ℕ) → k < num → k ≢ i → s₀.index j ≡ offset + k → s.index k ≢ done
  not_done k h ne to e =
      let (m, m_in, m_done, m_to) = v.sourced k h ne e in
      ground (arith, source-eq k m m_in m_to to, v.here, p.high j v.j_in, p.small)

  put-Settled_same : (k : ℕ) → k ≡ j → Settled s₀ put offset num k
  put-Settled_same k e = ground (arith, v.here, v.held)

  put-Settled_other :
      (k : ℕ)
      → k < num
      → k ≢ j
      → (s.index k ≡ done) ⊎ (s₀.index j ≢ offset + k)
      → Settled s₀ put offset num k
  put-Settled_other k h ne q =
      ground (arith, v.here, v.settled k h ne, p.apart k j h v.j_in, p.high k h, p.small)

  put-HasSource : (k : ℕ) → HasSource s₀ s offset num k → HasSource s₀ put offset num k
  put-HasSource k (m, m_in, m_done, m_to) = (m, m_in, ground arith, m_to)

  put-outside : (a : ℕ) → (a < offset) ⊎ (offset + num ≤ a) → put.ptcs a ≡ s₀.ptcs a
  put-outside a h = ground (arith, v.here, v.outside a h, p.low j v.j_in, p.high j v.j_in)

  j_sourced : (k : ℕ) → k ≡ j → k ≢ i → HasSource s₀ s offset num k
  j_sourced k e ne = elim v.started [
    | inl same ↦ absurd (ne (e ∙ same))
    | inr (_, source) ↦ rw e source
  ]

  -- The rest of the cycle does not come back to `j` before it comes back to `i`.
  next_ne : (next : ℕ) → s₀.index j ≡ offset + next → next ≢ i → next ≢ j
  next_ne next to ne e =
      let (m, m_in, m_done, m_to) = j_sourced next e ne in
      ground (arith, source-eq next m m_in m_to to, v.here, p.high j v.j_in, p.small)

  next_pending :
      (next : ℕ)
      → s₀.index j ≡ offset + next
      → next ≢ i
      → next < num
      → (s.index next ≡ s₀.index next) × (s.ptcs (offset + next) ≡ s₀.ptcs (offset + next))
  next_pending next to ne h =
      ground (arith, not_done next h ne to, v.settled next h (next_ne next to ne))

  put-sourced : (k : ℕ) → k < num → k ≢ i → put.index k ≡ done → HasSource s₀ put offset num k
  put-sourced k h ne e = elim (eq-cases k j) [
    | inl same ↦ put-HasSource k (j_sourced k same ne)
    | inr other ↦ put-HasSource k (v.sourced k h ne (ground arith))
  ]

  put-Settled :
      (k : ℕ)
      → k < num
      → (s.index k ≡ done) ⊎ (s₀.index j ≢ offset + k)
      → Settled s₀ put offset num k
  put-Settled k h q = elim (eq-cases k j) [
    | inl e ↦ put-Settled_same k e
    | inr ne ↦ put-Settled_other k h ne q
  ]

  -- The slot of `j` is not that of `i`: the entry of that slot is next, with its own particle.
  pub put-Inside :
      (next : ℕ)
      → s₀.index j ≡ offset + next
      → next ≢ i
      → next < num
      → Inside s₀ put offset num i next (s.ptcs (s.index j))
  put-Inside next to ne h = record {
    i_in = v.i_in;
    j_in = h;
    here = ground (arith, next_pending next to ne h, next_ne next to ne);
    held = ground (arith, next_pending next to ne h, v.here);
    settled = λ k l other. put-Settled k l (inr (omega arith));
    sourced = put-sourced;
    started = inr (ground (arith, v.started), (j, v.j_in, ground arith, to));
    outside = put-outside;
  }

  -- The slot of `j` is that of `i`: the cycle is closed.
  pub put-Between : s₀.index j ≡ offset + i → Between s₀ put offset num
  put-Between to = record {
    settled = λ k l. elim (eq-cases k i) [
      | inl e ↦ i_settled k l e
      | inr ne ↦ put-Settled k l (inr (omega arith))
    ];
    sourced = λ k l e. elim (eq-cases k i) [
      | inl same ↦ (j, v.j_in, ground arith, ground arith)
      | inr ne ↦ put-sourced k l ne e
    ];
    outside = put-outside;
  }
    where
      i_settled : (k : ℕ) → k < num → k ≡ i → Settled s₀ put offset num k
      i_settled k l e = elim v.started [
        | inl same ↦ put-Settled_same k (e ∙ sym same)
        | inr (i_done, _) ↦ put-Settled k l (inl (rw e i_done))
      ]
