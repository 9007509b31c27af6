-- ===== src/Particles/Sort/Phase.antt =====
-- core/particles_functions.cpp, `ptc_sort_by_cell`: the first loop sorts every segment.
use aperture4_nick.Base.{
  ℕ, ◌+◌, ◌-◌, ◌*◌, ◌%◌, ◌^◌, leb-gt, add_size, ◌≤◌, ◌<◌, ◌≡◌, ◌≢◌, refl, arith, ◌⊎◌, inl, inr,
  write, write_same, eq-cases, min, some, ==_ne, ==_eq,
}
use aperture4_nick.Particles.{Particles, empty_cell}
use aperture4_nick.Particles.Rearrange.{done}
use aperture4_nick.Particles.Sort.{Scratch, sort_index, sort_segment, keys}
use aperture4_nick.Particles.Sort.Sorted.{IsSorted, IsSorted-none}
use aperture4_nick.Particles.Sort.Segment.{rearrange-IsSorted}

-- how many of the `number` slots in use are in the segment `n` of `seg` slots
abbrev pub segment_num : ℕ → ℕ → ℕ → ℕ
segment_num n seg number = min seg (number - n * seg)

module _ {S : Type 0} where
  -- What a round leaves alone besides the slots of its segment.
  pub record SameShape (ps ps' : Particles S) : Type 0 where
    pub size : ps'.size ≡ ps.size
    pub number : ps'.number ≡ ps.number
    pub segment_size : ps'.segment_size ≡ ps.segment_size

  -- The cells of the slots in use from `lo` on are cells of the grid, or empty.
  abbrev pub HasCells : ℕ → ℕ → Particles S → Type 0
  HasCells num_cells lo ps =
      (a : ℕ)
      → lo ≤ a
      → a < ps.number
      → ((ps.ptcs a).cell ≡ empty_cell) ⊎ ((ps.ptcs a).cell < num_cells)

  small_keys :
      (num_cells offset num : ℕ) (ps : Particles S)
      → HasCells num_cells offset ps
      → offset + num ≤ ps.number
      → (j : ℕ) → j < num
      → keys num_cells offset ps.ptcs j < num_cells + 1
  small_keys num_cells offset num ps cells fits j h =
      ground (arith, cells (j + offset) (omega arith) (omega arith))

  -- What a round of the first loop does: it sorts its segment, records how many particles it holds,
  -- and leaves the other slots and counts alone.
  pub record SegmentDone (num_cells n seg number : ℕ) (ps ps' : Particles S) : Type 0 where
    pub sorted :
        IsSorted num_cells
          (n * seg)
          (segment_num n seg number)
          (ps'.segment_nums n)
          ps.ptcs
          ps'.ptcs
    pub outside :
        (a : ℕ) → (a < n * seg) ⊎ (n * seg + segment_num n seg number ≤ a) → ps'.ptcs a ≡ ps.ptcs a
    pub others : (m : ℕ) → m ≢ n → ps'.segment_nums m ≡ ps.segment_nums m
    pub same : SameShape ps ps'

  -- The fringe case: the number is a multiple of the segment size.
  fringe-SegmentDone :
      (num_cells n : ℕ) (ps : Particles S)
      → n * ps.segment_size ≡ ps.number
      → SegmentDone num_cells n ps.segment_size ps.number ps
          (record ps { segment_nums = write ps.segment_nums n 0 })
  fringe-SegmentDone num_cells n ps e = record {
    sorted = rw (write_same ps.segment_nums n n 0 refl) (
        IsSorted-none num_cells (n * ps.segment_size) (segment_num n ps.segment_size ps.number)
          ps.ptcs ps.ptcs (omega arith));
    outside = λ a h. refl;
    others = λ m ne. ground arith;
    same = record { size = refl; number = refl; segment_size = refl };
  }

  module _ (num_cells n : ℕ) (ps : Particles S)
      (cells : HasCells num_cells (n * ps.segment_size) ps) (small : ps.number < done)
      (few : num_cells + 2 < 2 ^ 32) (seg_lt : ps.segment_size < 2 ^ 31) where
    scratch : Scratch
    scratch =
        sort_index num_cells (n * ps.segment_size) (segment_num n ps.segment_size ps.number) ps

    int_count : (live : ℕ) → live ≤ segment_num n ps.segment_size ps.number → live % 2 ^ 32 ≡ live
    int_count live h = omega arith

    full_segment :
        n * ps.segment_size < ps.number
        → (ps' : Particles S) × (sort_segment num_cells n ps ≡ some ps')
          × SegmentDone num_cells n ps.segment_size ps.number ps ps'
    unfolding sort_segment scratch
    full_segment h =
        let (r, e, sorted, outside) =
          rearrange-IsSorted num_cells (n * ps.segment_size)
            (segment_num n ps.segment_size ps.number) ps few
            (small_keys num_cells (n * ps.segment_size) (segment_num n ps.segment_size ps.number) ps
              cells (omega arith))
            (omega arith) in
        (
          record ps {
            ptcs = r.ptcs;
            index = r.index;
            partition = scratch.partition;
            segment_nums = write ps.segment_nums n (scratch.partition num_cells % 2 ^ 32);
          },
          rw
              (
                ==_ne (n * ps.segment_size) ps.number (omega arith),
                leb-gt (2 ^ 32) (add_size num_cells 2) (omega arith),
              )
              (rw (e, sort_segment)),
          record {
            sorted =
                rw
                  (
                    write_same ps.segment_nums n n (scratch.partition num_cells % 2 ^ 32) refl,
                    int_count (scratch.partition num_cells) sorted.live_le,
                  )
                  sorted;
            outside = outside;
            others = λ m ne. ground arith;
            same = record { size = refl; number = refl; segment_size = refl };
          },
        )

    -- A round of the first loop ends and sorts its segment, if the segment starts within the number
    -- of slots in use and its cells are the grid's or empty.
    pub sort_segment_lem :
        n * ps.segment_size ≤ ps.number
        → (ps' : Particles S) × (sort_segment num_cells n ps ≡ some ps')
          × SegmentDone num_cells n ps.segment_size ps.number ps ps'
    unfolding sort_segment
    sort_segment_lem h = elim (eq-cases (n * ps.segment_size) ps.number) [
      | inl e ↦ (
        record ps { segment_nums = write ps.segment_nums n 0 },
        rw (==_eq (n * ps.segment_size) ps.number e),
        fringe-SegmentDone num_cells n ps e,
      )
      | inr ne ↦ full_segment (omega arith)
    ]
