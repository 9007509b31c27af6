-- ===== src/Particles/Sort/Segment.antt =====
-- core/particles_functions.cpp, `ptc_sort_by_cell`: one segment, sorted.
use native.Mathlib.Nat.{add_comm}
use native.Mathlib.Numerals.{add-one}
use aperture4_nick.Base.{
  IsPermutation, ℕ, zero, suc, ◌+◌, ◌^◌, ◌-◌, ◌≤◌, ◌<◌, ◌≡◌, refl, sym, ap, ◌∙◌, arith, ◌⊎◌, inr,
  Array, some, ◌↔◌,
}
use aperture4_nick.Particles.{Ptc, Particles}
use aperture4_nick.Particles.Rearrange.{done, Slots, rearrange_arrays}
use aperture4_nick.Particles.Rearrange.Invariant.{IsPlacement}
use aperture4_nick.Particles.Rearrange.Placed.{rearrange_arrays_lem}
use aperture4_nick.Particles.Sort.{Scratch, counted, scanned, sort_index, keys, cell_idx}
use aperture4_nick.Particles.Sort.Ranks.{
  count, below, below-le, rank, rank-lt, rank_apart, rank_mono, count_zero, below_zero, find_rank,
  key-le-of_rank-le, rank-lt-below_iff,
}
use aperture4_nick.Particles.Sort.Sorted.{IsSorted}
use aperture4_nick.Particles.Sort.Passes.{
  Counted, count_pass-Counted, scan_pass_lem, Placing, place_pass-Placing, partition-place_pass,
}

module _ {S : Type 0} (num_cells offset num : ℕ) (ps : Particles S) where
  abbrev pub key : ℕ → ℕ
  key = keys num_cells offset ps.ptcs

  -- `m_index` and `m_partition` after the passes, if every cell is one of the grid's, or empty.
  pub record Indexed (s : Scratch) : Type 0 where
    pub ranked : (j : ℕ) → j < num → s.index j ≡ offset + rank key num j
    pub live : s.partition num_cells ≡ below key num num_cells

  counted-Counted : Counted key num (counted num_cells offset num ps)
  unfolding counted
  counted-Counted = count_pass-Counted key num 0 num _ (omega arith) (record {
    first = refl;
    tally = λ c. sym (count_zero key c);
    place = λ j h. absurd (omega arith);
  })

  scanned_lem :
      num_cells + 2 < 2 ^ 32
      → (c : ℕ) → c < num_cells + 2
      → (scanned num_cells offset num ps).partition c ≡ below key num c
  unfolding scanned
  scanned_lem few =
      scan_pass_lem key num (num_cells + 1) 1 (num_cells + 2)
        (counted num_cells offset num ps).partition (omega arith) few (omega arith)
        (λ c h. start c h) (λ c h. tally c h)
    where
      start : (c : ℕ) → c < 1 → (counted num_cells offset num ps).partition c ≡ below key num c
      start c h = let e : c ≡ 0 = omega arith in rw (e, below_zero key num) counted-Counted.first

      tally :
          (c : ℕ) → 1 ≤ c → (counted num_cells offset num ps).partition c ≡ count key num (c - 1)
      tally zero h = absurd (omega arith)
      tally (suc c) h =
          let e : suc c - 1 ≡ c = omega arith in rw (e, ← add-one c) (counted-Counted.tally c)

  sort_index-Indexed :
      num_cells + 2 < 2 ^ 32
      → ((j : ℕ) → j < num → key j < num_cells + 1)
      → Indexed (sort_index num_cells offset num ps)
  unfolding sort_index
  sort_index-Indexed few small = record {
    ranked = placed.placed;
    live =
        ap (λ (p : Array ℕ). p num_cells)
          (partition-place_pass key offset num 0 (scanned num_cells offset num ps))
        ∙ scanned_lem few num_cells (omega arith);
  }
    where
      counted_place :
          (j : ℕ) → j < num → (scanned num_cells offset num ps).index j ≡ count key j (key j)
      counted_place j h = counted-Counted.place j h

      placed : Placing key offset num num (sort_index num_cells offset num ps)
      placed =
          place_pass-Placing key offset num num 0 (scanned num_cells offset num ps) (omega arith)
            (record {
              base = λ c j h e. scanned_lem few c (omega (arith, small j h));
              placed = λ j h. absurd (omega arith);
              place = λ j l h. counted_place j h;
            })

module _ {S : Type 0} (num_cells offset num : ℕ) (ps : Particles S) (few : num_cells + 2 < 2 ^ 32)
    (small : (j : ℕ) → j < num → keys num_cells offset ps.ptcs j < num_cells + 1)
    (fits : offset + num < done) where
  abbrev σ : ℕ → ℕ
  σ = rank (key num_cells offset num ps) num

  indexed : Indexed num_cells offset num ps (sort_index num_cells offset num ps)
  indexed = sort_index-Indexed num_cells offset num ps few small

  index-IsPlacement : IsPlacement (sort_index num_cells offset num ps).index offset num
  index-IsPlacement = record {
    low = λ k h. omega (arith, indexed.ranked k h);
    high = λ k h. omega (arith, indexed.ranked k h, rank-lt (key num_cells offset num ps) num k h);
    apart = λ k l h g e.
        rank_apart (key num_cells offset num ps) num k l h g
          (omega (arith, indexed.ranked k h, indexed.ranked l g));
    small = fits;
  }

  σ-IsPermutation : IsPermutation σ num
  σ-IsPermutation = record {
    within = rank-lt (key num_cells offset num ps) num;
    apart = rank_apart (key num_cells offset num ps) num;
    onto = λ a h. find_rank (key num_cells offset num ps) num (num_cells + 1) a small h;
  }

  module _ (after : Array (Ptc S))
      (moved : (k : ℕ) → k < num → after (offset + σ k) ≡ ps.ptcs (offset + k)) where
    key-eq : (k : ℕ) → cell_idx num_cells (ps.ptcs (offset + k)) ≡ key num_cells offset num ps k
    key-eq k = ap (λ a. cell_idx num_cells (ps.ptcs a)) (add_comm offset k)

    abbrev Holds : ℕ → ℕ → Type 0
    Holds a i =
        (i < num)
        × (σ i ≡ a)
        × (cell_idx num_cells (after (offset + a)) ≡ key num_cells offset num ps i)

    -- the entry that slot `a` has come from, and its key
    entry : (a : ℕ) → a < num → (i : ℕ) × Holds a i
    entry a h =
        let (i, i_in, e) = find_rank (key num_cells offset num ps) num (num_cells + 1) a small h in
        (
          i,
          (
            i_in,
            e,
            ap (λ b. cell_idx num_cells (after (offset + b))) (sym e)
                ∙ ap (cell_idx num_cells) (moved i i_in)
                ∙ key-eq i,
          ),
        )

    ordered_lem :
        (a b : ℕ)
        → a ≤ b
        → b < num
        → cell_idx num_cells (after (offset + a)) ≤ cell_idx num_cells (after (offset + b))
    ordered_lem a b le h =
        let (i, (i_in, i_at, i_key)) = entry a (omega arith) in
        let (j, (j_in, j_at, j_key)) = entry b h in
        rw (i_key, j_key)
          (key-le-of_rank-le (key num_cells offset num ps) num i j j_in (omega (arith, i_at, j_at)))

    stable_lem :
        (k l : ℕ)
        → k < l
        → l < num
        → cell_idx num_cells (ps.ptcs (offset + k)) ≡ cell_idx num_cells (ps.ptcs (offset + l))
        → σ k < σ l
    stable_lem k l h g e =
        rank_mono (key num_cells offset num ps) num k l (omega arith)
          (inr (sym (key-eq k) ∙ e ∙ key-eq l, h))

    filled_lem :
        (a : ℕ)
        → a < num
        → (a < (sort_index num_cells offset num ps).partition num_cells)
          ↔ (cell_idx num_cells (after (offset + a)) < num_cells)
    filled_lem a h =
        let (i, (i_in, i_at, i_key)) = entry a h in
        rw (i_key, indexed.live, ← i_at)
          (rank-lt-below_iff (key num_cells offset num ps) num num_cells i i_in)

    rearranged-IsSorted :
        IsSorted num_cells offset num
          ((sort_index num_cells offset num ps).partition num_cells)
          ps.ptcs
          after
    rearranged-IsSorted = record {
      σ = σ;
      live_le = rw indexed.live (below-le (key num_cells offset num ps) num num_cells);
      permutes = σ-IsPermutation;
      moved = moved;
      ordered = ordered_lem;
      stable = stable_lem;
      filled = filled_lem;
    }

  -- The rearrangement of the segment by the sorted index ends, and sorts it.
  pub rearrange-IsSorted :
      (r : Slots (Ptc S)) × (rearrange_arrays offset num
          (record { index = (sort_index num_cells offset num ps).index; ptcs = ps.ptcs })
        ≡ some r)
      × IsSorted num_cells offset num
          ((sort_index num_cells offset num ps).partition num_cells)
          ps.ptcs
          r.ptcs
      × ((a : ℕ) → (a < offset) ⊎ (offset + num ≤ a) → r.ptcs a ≡ ps.ptcs a)
  rearrange-IsSorted =
      let (r, e, moved, outside, _) =
        rearrange_arrays_lem offset num
          (record { index = (sort_index num_cells offset num ps).index; ptcs = ps.ptcs })
          index-IsPlacement in
      (r, e, rearranged-IsSorted r.ptcs (λ k h. rw (← indexed.ranked k h) (moved k h)), outside)
