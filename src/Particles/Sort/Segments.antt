-- ===== src/Particles/Sort/Segments.antt =====
-- core/particles_functions.cpp, `ptc_sort_by_cell`: the first loop sorts every segment.
use mathlib.Core.Path.{subst₂}
use aperture4_nick.Base.{
  ℕ, zero, suc, ◌+◌, ◌*◌, ◌^◌, ltb-lt, ◌≤◌, ◌<◌, ◌≡◌, ◌≢◌, refl, sym, ◌∙◌, arith, inl, inr,
  eq-cases, some,
}
use aperture4_nick.Particles.{Particles}
use aperture4_nick.Particles.Rearrange.{done}
use aperture4_nick.Particles.Sort.{sort_segment, sort_segments}
use aperture4_nick.Particles.Sort.Sorted.{IsSorted, IsSorted-cong}
use aperture4_nick.Particles.Sort.Phase.{segment_num, HasCells, SegmentDone, sort_segment_lem}

-- A slot of an earlier segment comes before a later segment.
slot-lt : (m n k seg : ℕ) → m < n → k < seg → m * seg + k < n * seg
slot-lt m n k seg h l = grind arith

start-le : (m n seg : ℕ) → m ≤ n → m * seg ≤ n * seg
start-le m n seg h = grind arith

module _ {S : Type 0} (num_cells seg total : ℕ) where
  -- Of the segments the first `n` are sorted; `before` is the state at the start.
  pub record SortedUpTo (n : ℕ) (before ps : Particles S) : Type 0 where
    pub sorted :
        (m : ℕ)
        → m < n
        → IsSorted num_cells
            (m * seg)
            (segment_num m seg total)
            (ps.segment_nums m)
            before.ptcs
            ps.ptcs
    pub rest : (a : ℕ) → n * seg ≤ a → ps.ptcs a ≡ before.ptcs a
    pub segment_size : ps.segment_size ≡ seg
    pub number : ps.number ≡ total
    pub size : ps.size ≡ before.size

  -- A round, at the segment size and the number that the loop keeps.
  round :
      (n : ℕ) (ps : Particles S)
      → ps.segment_size ≡ seg
      → ps.number ≡ total
      → HasCells num_cells (n * ps.segment_size) ps
      → total < done
      → num_cells + 2 < 2 ^ 32
      → seg < 2 ^ 31
      → n * seg ≤ total
      → (ps' : Particles S) × (sort_segment num_cells n ps ≡ some ps')
        × SegmentDone num_cells n seg total ps ps'
  round n ps e f cells small few seg_lt h =
      let (ps', returns, d) =
        sort_segment_lem num_cells n ps cells (omega arith) few (omega arith) (rw (e, f) h) in
      (ps', returns, subst₂ (λ s k. SegmentDone num_cells n s k ps ps') e f d)

  round-SortedUpTo :
      (n : ℕ) (before ps ps' : Particles S)
      → SortedUpTo n before ps
      → SegmentDone num_cells n seg total ps ps'
      → SortedUpTo (n + 1) before ps'
  round-SortedUpTo n before ps ps' v d = record {
    sorted = λ m h. elim (eq-cases m n) [ inl e ↦ rw e here | inr ne ↦ earlier m (omega arith) ne ];
    rest = λ a h. d.outside a (inr (omega arith)) ∙ v.rest a (omega arith);
    segment_size = d.same.segment_size ∙ v.segment_size;
    number = d.same.number ∙ v.number;
    size = d.same.size ∙ v.size;
  }
    where
      here :
          IsSorted num_cells
            (n * seg)
            (segment_num n seg total)
            (ps'.segment_nums n)
            before.ptcs
            ps'.ptcs
      here =
          IsSorted-cong num_cells (n * seg) (segment_num n seg total) (ps'.segment_nums n) ps.ptcs
            before.ptcs ps'.ptcs ps'.ptcs (λ k h. sym (v.rest (n * seg + k) (omega arith)))
            (λ k h. refl) d.sorted

      earlier :
          (m : ℕ)
          → m < n
          → m ≢ n
          → IsSorted num_cells
              (m * seg)
              (segment_num m seg total)
              (ps'.segment_nums m)
              before.ptcs
              ps'.ptcs
      earlier m h ne = rw (d.others m ne) (
          IsSorted-cong num_cells (m * seg) (segment_num m seg total) (ps.segment_nums m)
            before.ptcs before.ptcs ps.ptcs ps'.ptcs (λ k l. refl)
            (λ k l. d.outside (m * seg + k) (inl (slot-lt m n k seg h (omega arith))))
            (v.sorted m h))

  -- The slots of the segments still to be sorted hold what they held at the start.
  cells_from :
      (n : ℕ) (before ps : Particles S)
      → SortedUpTo n before ps
      → before.number ≡ total
      → HasCells num_cells 0 before
      → HasCells num_cells (n * ps.segment_size) ps
  cells_from n before ps v e cells a lo hi =
      rw (v.rest a (rw v.segment_size at lo)) (cells a (omega arith) (omega (arith, v.number)))

  pub sort_segments_lem :
      (before : Particles S)
      → before.number ≡ total
      → HasCells num_cells 0 before
      → total < done
      → num_cells + 2 < 2 ^ 32
      → seg < 2 ^ 31
      → (rounds n last : ℕ) → n + rounds ≡ last + 1
      → last * seg ≤ total
      → last < 2 ^ 31
      → (ps : Particles S) → SortedUpTo n before ps
      → (ps' : Particles S) × (sort_segments num_cells rounds n ps ≡ some ps')
        × SortedUpTo (last + 1) before ps'
  unfolding sort_segments
  sort_segments_lem before e cells small few seg_lt zero n last eq le last_lt ps v =
      let e' : last + 1 ≡ n = omega arith in (ps, refl, rw e' v)
  sort_segments_lem before e cells small few seg_lt (suc rounds) n last eq le last_lt ps v =
      let (ps₁, returns, d) =
        round n ps v.segment_size v.number (cells_from n before ps v e cells) small few seg_lt
          (omega (arith, start-le n last seg (omega arith))) in
      let (ps₂, returns₂, w) =
        sort_segments_lem before e cells small few seg_lt rounds (n + 1) last (omega arith) le
          last_lt ps₁ (round-SortedUpTo n before ps ps₁ v d) in
      (ps₂, rw (ltb-lt n (2 ^ 31) (omega arith)) (rw (returns, sort_segments) returns₂), w)
