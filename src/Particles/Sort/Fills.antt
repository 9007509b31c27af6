-- ===== src/Particles/Sort/Fills.antt =====
-- core/particles_functions.cpp, `ptc_sort_by_cell`: the loops of the second phase end.
use native.Mathlib.Numerals.{add-one}
use aperture4_nick.Base.{
  ℕ, zero, suc, ◌+◌, ◌-◌, ◌≤◌, ◌<◌, ◌^◌, ◌≡◌, ◌≢◌, refl, arith, if◌then◌else◌, ◌==◌, ltb-ge, ltb-lt,
  ==_eq, ==_ne, inl, inr, eq-cases, lt-cases, Option, some,
}
use aperture4_nick.Particles.{Particles}
use aperture4_nick.Particles.Sort.{fill_segment, defragment}
use aperture4_nick.Particles.Sort.Filling.{Filling, give_up, complete}
use aperture4_nick.Particles.Sort.Round.{
  after, nums_after, fill_step, round-Filling, round-Movable, round-IsInts,
}

module _ {S : Type 0} (before : Particles S) (room : before.number ≤ before.size)
    (small : before.size < 2 ^ 64) (seg_lt : before.segment_size < 2 ^ 31) where
  -- What the `while` loop for the segment `m` comes to.
  abbrev Filled : ℕ → ℕ → Option (ℕ × Particles S) → Type 0
  Filled m last r =
      (last' : ℕ) × (ps' : Particles S) × (r ≡ some (last', ps'))
      × (m ≤ last')
      × (last' ≤ last)
      × Filling (suc m) last' before ps'

  fill_full :
      (fuel m last : ℕ) (ps : Particles S)
      → 0 < fuel
      → ps.segment_size ≤ ps.segment_nums m
      → ps.segment_nums m < 2 ^ 31
      → fill_segment fuel m last ps ≡ some (last, ps)
  unfolding fill_segment
  fill_full zero m last ps f e lt = absurd (omega arith)
  fill_full (suc fuel) m last ps f e lt =
      rw (ltb-lt (ps.segment_nums m) (2 ^ 31) lt)
        (rw (ltb-ge (ps.segment_nums m) ps.segment_size e) refl)

  fill_segment_lem :
      (fuel m last : ℕ) (ps : Particles S)
      → last + 1 < m + fuel
      → m < last
      → Filling m last before ps
      → Filled m last (fill_segment fuel m last ps)
  fill_segment_lem zero m last ps f h v = absurd (omega arith)
  fill_segment_lem (suc fuel) m last ps f h v =
      rw
        (fill_step m last ps fuel (round-Movable before room small m last ps v h)
          (round-IsInts before room small m last ps v h seg_lt))
        (elim (lt-cases (ps.segment_nums m) ps.segment_size) [
          | inr full ↦ rw (ltb-ge (ps.segment_nums m) ps.segment_size full) (
            last,
            ps,
            refl,
            omega arith,
            omega arith,
            complete m last before ps v (λ l. omega (arith, v.counts m (omega arith))),
          )
          | inl short ↦
              rw (ltb-lt (ps.segment_nums m) ps.segment_size short)
                (elim (eq-cases (nums_after m last ps last) 0) [
                  | inl e ↦ rw (==_eq (nums_after m last ps last) 0 e) (
                      emptied
                        (λ l w.
                          fill_segment_lem fuel m (last - 1) (after m last ps) (omega arith) l w)
                        e)
                  | inr ne ↦ rw (==_ne (nums_after m last ps last) 0 ne) (filled ne)
                ])
        ])
    where
      v' : Filling m last before (after m last ps)
      v' = round-Filling before room small m last ps v h

      filled :
          nums_after m last ps last ≢ 0 → Filled m last (fill_segment fuel m last (after m last ps))
      filled ne =
          let full : ps.segment_size ≤ nums_after m last ps m =
            ground (arith, v.counts m (omega arith)) in
          (
            last,
            after m last ps,
            fill_full fuel m last (after m last ps) (omega arith) full
                (omega (arith, v'.counts m (omega arith), v'.segment_size)),
            omega arith,
            omega arith,
            complete m last before (after m last ps) v'
                (λ l. omega (arith, v'.counts m (omega arith))),
          )

      emptied :
          (m < last - 1
            → Filling m (last - 1) before (after m last ps)
            → Filled m (last - 1) (fill_segment fuel m (last - 1) (after m last ps)))
          → nums_after m last ps last ≡ 0
          → Filled m last (
              if last - 1 == m
              then some (last - 1, after m last ps)
              else fill_segment fuel m (last - 1) (after m last ps))
      emptied next e =
          let w = give_up m last before (after m last ps) v' e h in
          elim (eq-cases (last - 1) m) [
            | inl is_m ↦ rw (==_eq (last - 1) m is_m) (
              last - 1,
              after m last ps,
              refl,
              omega arith,
              omega arith,
              complete m (last - 1) before (after m last ps) w (λ l. absurd (omega arith)),
            )
            | inr ne ↦ rw (==_ne (last - 1) m ne) (
                let (l, ps', e', a, b, u) = next (omega arith) w in (l, ps', e', a, omega arith, u))
          ]

  -- The segments up to the last that holds particles are filled, on the fuel that the code is given.
  pub defragment_lem :
      (rounds m last : ℕ) (ps : Particles S)
      → 0 < rounds
      → last < m + rounds
      → Filling m last before ps
      → (last' m' : ℕ) × (ps' : Particles S) × (defragment rounds m last ps ≡ some (last', ps'))
        × (last' ≤ m')
        × (last' ≤ last)
        × Filling m' last' before ps'
  unfolding defragment
  defragment_lem zero m last ps pos f v = absurd (omega arith)
  defragment_lem (suc rounds) m last ps pos f v = elim (lt-cases m last) [
    | inr g ↦ rw (ltb-ge m last g) (last, m, ps, refl, g, omega arith, v)
    | inl l ↦
        let (last₁, ps₁, e, a, b, w) = fill_segment_lem (last + 2) m last ps (omega arith) l v in
        let (last₂, m', ps₂, e', c, d, u) =
          defragment_lem rounds (m + 1) last₁ ps₁ (omega arith) (omega arith) (rw add-one w) in
        (last₂, m', ps₂, rw (ltb-lt m last l, e) e', c, omega arith, u)
  ]
