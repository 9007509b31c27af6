-- ===== src/Particles/Sort/Filling.antt =====
-- core/particles_functions.cpp, `ptc_sort_by_cell`: the state of the second phase, between its rounds.
use aperture4_nick.Base.{
  ℕ, zero, suc, ◌+◌, ◌-◌, ◌*◌, ◌≤◌, ◌<◌, ◌≡◌, ◌≢◌, ap, ◌∙◌, arith, ◌⊎◌, inl, inr, eq-cases,
  lt-cases,
}
use aperture4_nick.Particles.{Ptc, Particles, empty_cell}
use aperture4_nick.Particles.Sort.Weights.{total}

-- The slots of an earlier segment come before the last one.
pub segment_before : (m last seg : ℕ) → m < last → m * seg + seg ≤ last * seg
segment_before m last seg h = grind arith

pub segment_cases :
    (j m seg : ℕ) → (j ≡ m) ⊎ ((j * seg + seg ≤ m * seg) ⊎ (m * seg + seg ≤ j * seg))
segment_cases j m seg = elim (eq-cases j m) [
  | inl e ↦ inl e
  | inr ne ↦ inr (elim (lt-cases j m) [
    | inl l ↦ inl (segment_before j m seg l)
    | inr g ↦ inr (segment_before m j seg (omega arith))
  ])
]

last_before : (last seg : ℕ) → 0 < last → last * seg ≡ (last - 1) * seg + seg
last_before zero seg h = absurd (omega arith)
last_before (suc n) seg h = let e : suc n - 1 ≡ n = omega arith in rw e (grind arith)

module _ {S : Type 0} where
  -- The state of the second phase: the segments below `m` are full, and `last` is the last segment
  -- that holds particles. In each segment the particles come first, behind them the slots are empty,
  -- and `before` had the same particles in use.
  pub record Filling (m last : ℕ) (before ps : Particles S) : Type 0 where
    pub fits : last * ps.segment_size + ps.segment_nums last ≤ ps.number
    pub counts : (j : ℕ) → j ≤ last → ps.segment_nums j ≤ ps.segment_size
    pub full : (j : ℕ) → j < m → j < last → ps.segment_nums j ≡ ps.segment_size
    pub live :
        (j k : ℕ)
        → j ≤ last
        → k < ps.segment_nums j
        → (ps.ptcs (j * ps.segment_size + k)).cell ≢ empty_cell
    pub holes :
        (j k : ℕ)
        → j < last
        → ps.segment_nums j ≤ k
        → k < ps.segment_size
        → (ps.ptcs (j * ps.segment_size + k)).cell ≡ empty_cell
    pub tail :
        (a : ℕ)
        → last * ps.segment_size + ps.segment_nums last ≤ a
        → a < ps.number
        → (ps.ptcs a).cell ≡ empty_cell
    pub weights :
        (f : Ptc S → ℕ) → total f ps.ptcs 0 ps.number ≡ total f before.ptcs 0 before.number
    pub segment_size : ps.segment_size ≡ before.segment_size
    pub number : ps.number ≡ before.number
    pub size : ps.size ≡ before.size

  -- A last segment without particles is given up.
  pub give_up :
      (m last : ℕ) (before ps : Particles S)
      → Filling m last before ps
      → ps.segment_nums last ≡ 0
      → m < last
      → Filling m (last - 1) before ps
  give_up m last before ps v e h = record {
    fits = omega (
      arith,
      segment_before (last - 1) last ps.segment_size (omega arith),
      v.counts (last - 1) (omega arith),
      v.fits,
    );
    counts = λ j l. v.counts j (omega arith);
    full = λ j l g. v.full j l (omega arith);
    live = λ j k l g. v.live j k (omega arith) g;
    holes = λ j k l g i. v.holes j k (omega arith) g i;
    tail = λ a l g. elim (lt-cases a (last * ps.segment_size)) [
      | inl in_it ↦
          ap (λ i. (ps.ptcs i).cell) {x = a}
            {y = (last - 1) * ps.segment_size + (a - (last - 1) * ps.segment_size)} (omega arith)
          ∙ v.holes (last - 1) (a - (last - 1) * ps.segment_size) (omega arith) (omega arith)
              (omega (arith, last_before last ps.segment_size (omega arith)))
      | inr behind ↦ v.tail a (omega arith) g
    ];
    weights = v.weights;
    segment_size = v.segment_size;
    number = v.number;
    size = v.size;
  }

  -- A segment that is full, or that is the last.
  pub complete :
      (m last : ℕ) (before ps : Particles S)
      → Filling m last before ps
      → (m < last → ps.segment_nums m ≡ ps.segment_size)
      → Filling (suc m) last before ps
  complete m last before ps v e = record {
    fits = v.fits;
    counts = v.counts;
    full = λ j l g. elim (eq-cases j m) [
      | inl same ↦ rw same (e (omega arith))
      | inr ne ↦ v.full j (omega arith) g
    ];
    live = v.live;
    holes = v.holes;
    tail = v.tail;
    weights = v.weights;
    segment_size = v.segment_size;
    number = v.number;
    size = v.size;
  }
