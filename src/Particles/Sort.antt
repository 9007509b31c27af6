-- ===== src/Particles/Sort.antt =====
-- core/particles_functions.cpp, `ptc_sort_by_cell`: each segment is sorted by cell, with the empty
-- slots last, and the holes at the ends of the segments are filled from the last one.
pub mod Ranks
pub mod Passes
pub mod Sorted
pub mod Segment
pub mod Phase
pub mod Segments
pub mod Loop
pub mod Weights
pub mod Moves
pub mod Filling
pub mod Round
pub mod Fills
pub mod Start
pub mod Whole
use aperture4_nick.Base.{
  ℕ, zero, suc, ◌+◌, ◌-◌, ◌*◌, ◌/◌, ◌%◌, ◌^◌, ◌≡◌, min, Bool, true, false, ltb, leb, ◌==◌, add_size,
  sub_size, if◌then◌else◌, Array, write, Option, none, some,
}
use aperture4_nick.Particles.{Ptc, Particles, empty_cell, set_num, copy_from, erase}
use aperture4_nick.Particles.Append.{extend}
use aperture4_nick.Grid.{lt_int}
use aperture4_nick.Particles.Rearrange.{Slots, rearrange_arrays}

-- `cell_idx`: empty slots sort behind the last cell.
abbrev pub cell_idx : {S : Type 0} → ℕ → Ptc S → ℕ
cell_idx num_cells p = if p.cell == empty_cell then num_cells else p.cell

-- The two scratch arrays of a segment.
pub record Scratch : Type 0 where
  pub index : Array ℕ
  pub partition : Array ℕ

-- The three passes over the keys `key i` of a segment; `n` rounds are left and `i` is next.
module _ (key : ℕ → ℕ) where
  -- `m_index[i]` becomes the place of entry `i` among those of its cell.
  pub count_pass : ℕ → ℕ → Scratch → Scratch
  count_pass zero i s = s
  count_pass (suc n) i s = count_pass n (i + 1) (record {
    index = write s.index i (s.partition (key i + 1));
    partition = write s.partition (key i + 1) (s.partition (key i + 1) + 1);
  })

  -- `m_index[i]` becomes a slot of the whole array.
  pub place_pass : ℕ → ℕ → ℕ → Scratch → Scratch
  place_pass offset zero i s = s
  place_pass offset (suc n) i s =
      place_pass offset n (i + 1)
        (record s { index = write s.index i (s.index i + (s.partition (key i) + offset)) })

-- The running sum, whose counter is a `uint32_t`.
pub scan_pass : ℕ → ℕ → Array ℕ → Array ℕ
scan_pass zero i partition = partition
scan_pass (suc n) i partition =
    scan_pass n ((i + 1) % 2 ^ 32) (write partition i (partition i + partition (i - 1)))

-- `num_cells + 2` is beyond every `uint32_t`: the loop of the running sum does not end.
abbrev pub scan_forever : ℕ → Bool
scan_forever num_cells = leb (2 ^ 32) (add_size num_cells 2)

-- `std::min` of two `int`s
abbrev pub min_int : ℕ → ℕ → ℕ
min_int a b = if lt_int b a then b else a

-- `std::iota` over the first `num` entries.
abbrev pub iota : ℕ → Array ℕ → Array ℕ
iota num index i = if ltb i num then i else index i

module _ {S : Type 0} where
  abbrev pub keys : ℕ → ℕ → Array (Ptc S) → ℕ → ℕ
  keys num_cells offset ptcs i = cell_idx num_cells (ptcs (i + offset))

  -- The scratch arrays of the segment of `num` slots from `offset` after the first pass, after the
  -- running sum, and after the last pass.
  pub counted : ℕ → ℕ → ℕ → Particles S → Scratch
  unfolding count_pass
  counted num_cells offset num ps =
      count_pass (keys num_cells offset ps.ptcs) num 0
        (record { index = iota num ps.index; partition = λ c. 0 })

  pub scanned : ℕ → ℕ → ℕ → Particles S → Scratch
  unfolding counted scan_pass
  scanned num_cells offset num ps = record (counted num_cells offset num ps) {
    partition = scan_pass (num_cells + 1) 1 (counted num_cells offset num ps).partition;
  }

  pub sort_index : ℕ → ℕ → ℕ → Particles S → Scratch
  unfolding scanned place_pass
  sort_index num_cells offset num ps =
      place_pass (keys num_cells offset ps.ptcs) offset num 0 (scanned num_cells offset num ps)

  -- One round of the first loop, for the segment `n`. The elements of `segment_nums` are `int`s, as
  -- are `n`, `m`, `last_segment`, `deficit` and `num_to_copy`: they are 32-bit patterns.
  pub sort_segment : ℕ → ℕ → Particles S → Option (Particles S)
  sort_segment num_cells n ps =
      if offset == ps.number
      then some (record ps { segment_nums = write ps.segment_nums n 0 })
      else (if scan_forever num_cells
          then none
          else elim (rearrange_arrays offset num
              (record { index = sorted.index; ptcs = ps.ptcs })) [
                | none ↦ none
                | some r ↦ some (record ps {
                  ptcs = r.ptcs;
                  index = r.index;
                  partition = sorted.partition;
                  segment_nums = write ps.segment_nums n (sorted.partition num_cells % 2 ^ 32);
                })
              ])
    where
      offset : ℕ
      offset = n * ps.segment_size

      num : ℕ
      num = min ps.segment_size (ps.number - offset)

      sorted : Scratch
      sorted = sort_index num_cells offset num ps

  -- The first loop: `rounds` are left and the segment `n` is next. A counter that an `int` does not
  -- hold is undefined behaviour.
  pub sort_segments : ℕ → ℕ → ℕ → Particles S → Option (Particles S)
  sort_segments num_cells zero n ps = some ps
  sort_segments num_cells (suc rounds) n ps =
      if ltb n (2 ^ 31)
      then elim (sort_segment num_cells n ps) [
        | none ↦ none
        | some ps' ↦ sort_segments num_cells rounds (n + 1) ps'
      ]
      else none

  -- The `while` loop that fills the holes of segment `m` from the segment `last`, on fuel. It returns
  -- the segment that is last then.
  pub fill_segment : ℕ → ℕ → ℕ → Particles S → Option (ℕ × Particles S)
  fill_segment zero m last ps = none
  fill_segment (suc fuel) m last ps =
      let deficit : ℕ = sub_size ps.segment_size (extend (ps.segment_nums m)) % 2 ^ 32 in
      let num_to_copy : ℕ = min_int deficit (ps.segment_nums last) in
      let offset_from : ℕ =
        sub_size (add_size (last * ps.segment_size) (extend (ps.segment_nums last)))
          (extend num_to_copy) in
      let offset_to : ℕ = add_size (m * ps.segment_size) (extend (ps.segment_nums m)) in
      let moved : Particles S = copy_from ps (extend num_to_copy) offset_from offset_to ps in
      let erased : Particles S = erase offset_from (extend num_to_copy) moved in
      let nums₁ : Array ℕ = write ps.segment_nums m ((ps.segment_nums m + num_to_copy) % 2 ^ 32) in
      let nums₂ : Array ℕ = write nums₁ last ((nums₁ last + 2 ^ 32 - num_to_copy) % 2 ^ 32) in
      let ps' : Particles S = record erased { segment_nums = nums₂ } in
      let down = fill_segment fuel m (last - 1) ps' in
      let again = fill_segment fuel m last ps' in
      if ltb (extend (ps.segment_nums m)) ps.segment_size
      then (if nums₂ last == 0
          then (if last - 1 == m then some (last - 1, ps') else down)
          else again)
      else some (last, ps)

  -- The second loop, over the segments below the last, which comes down meanwhile.
  pub defragment : ℕ → ℕ → ℕ → Particles S → Option (ℕ × Particles S)
  defragment zero m last ps = none
  defragment (suc rounds) m last ps =
      if ltb m last
      then elim (fill_segment (last + 2) m last ps) [
        | none ↦ none
        | some (last', ps') ↦ defragment rounds (m + 1) last' ps'
      ]
      else some (last, ps)

  -- The scratch arrays get the sizes that the sort wants; what they hold is then unspecified, and the
  -- sort writes every element before it reads it.
  pub resize_scratch : ℕ → Particles S → Particles S
  resize_scratch num_cells ps = record ps {
    partition_size = num_cells + 2;
    segment_nums_size = ps.size / ps.segment_size + 1;
    index_size = ps.segment_size;
  }

  pub sort_by_cell : ℕ → Particles S → Option (Particles S)
  sort_by_cell num_cells ps =
      if ltb 0 ps.number
      then elim (sort_segments num_cells (ps.number / ps.segment_size + 1) 0
          (resize_scratch num_cells ps)) [
            | none ↦ none
            | some ps' ↦ elim (defragment (last + 1) 0 last ps') [
              | none ↦ none
              | some (last', ps'') ↦ some (
                  set_num (add_size (last' * ps.segment_size) (extend (ps''.segment_nums last')))
                    ps'')
            ]
          ]
      else some ps
    where
      last : ℕ
      last = (ps.number / ps.segment_size) % 2 ^ 32
