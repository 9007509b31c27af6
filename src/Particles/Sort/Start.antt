-- ===== src/Particles/Sort/Start.antt =====
-- core/particles_functions.cpp, `ptc_sort_by_cell`: the second phase starts from sorted segments.
use native.Mathlib.Nat.{div-add-mod, mod-lt}
use aperture4_nick.Base.{ℕ, ◌+◌, ◌-◌, ◌*◌, ◌/◌, ◌≤◌, ◌<◌, ◌≡◌, ◌≢◌, sym, ap, ◌∙◌, arith, ◌⊎◌}
use aperture4_nick.Particles.{Ptc, Particles, empty_cell}
use aperture4_nick.Particles.Sort.{cell_idx}
use aperture4_nick.Particles.Sort.Phase.{segment_num, HasCells}
use aperture4_nick.Particles.Sort.Segments.{SortedUpTo}
use aperture4_nick.Particles.Sort.Weights.{total-SortedUpTo_all}
use aperture4_nick.Particles.Sort.Filling.{Filling, segment_before}

module _ {S : Type 0} (num_cells : ℕ) where
  cell-of_idx :
      (p : Ptc S)
      → (p.cell ≡ empty_cell) ⊎ (p.cell < num_cells)
      → (p.cell ≡ empty_cell → ¬ (cell_idx num_cells p < num_cells))
        × (¬ (cell_idx num_cells p < num_cells) → p.cell ≡ empty_cell)
  cell-of_idx p h = (λ e. ground arith, λ n. ground arith)

  module _ (before ps : Particles S) (seg : ℕ) (cells : HasCells num_cells 0 before)
      (v : SortedUpTo num_cells seg before.number (before.number / seg + 1) before ps)
      (some_seg : 0 < seg) where
    abbrev last : ℕ
    last = before.number / seg

    last_fits : (last * seg ≤ before.number) × (before.number < last * seg + seg)
    last_fits =
        let e = div-add-mod before.number seg in
        let r = mod-lt before.number some_seg in (grind arith, grind arith)

    -- A slot of a sorted segment holds what a slot in use held before.
    cells_after :
        (j k : ℕ)
        → j ≤ last
        → k < segment_num j seg before.number
        → ((ps.ptcs (j * seg + k)).cell ≡ empty_cell) ⊎ ((ps.ptcs (j * seg + k)).cell < num_cells)
    cells_after j k l h =
        let w = v.sorted j (omega arith) in
        let (i, i_in, e) = w.permutes.onto k h in
        rw (← e, w.moved i i_in) (cells (j * seg + i) (omega arith) (omega arith))

    live_start :
        (j k : ℕ) → j ≤ last → k < ps.segment_nums j → (ps.ptcs (j * seg + k)).cell ≢ empty_cell
    live_start j k l h e =
        let w = v.sorted j (omega arith) in
        let k_in : k < segment_num j seg before.number = omega (arith, w.live_le) in
        (cell-of_idx (ps.ptcs (j * seg + k)) (cells_after j k l k_in)).0 e ((w.filled k k_in).0 h)

    holes_start :
        (j k : ℕ)
        → j ≤ last
        → ps.segment_nums j ≤ k
        → k < segment_num j seg before.number
        → (ps.ptcs (j * seg + k)).cell ≡ empty_cell
    holes_start j k l h k_in =
        let w = v.sorted j (omega arith) in
        (cell-of_idx (ps.ptcs (j * seg + k)) (cells_after j k l k_in)).1
          (λ g. omega (arith, (w.filled k k_in).1 g))

    earlier_num : (j : ℕ) → j < last → segment_num j seg before.number ≡ seg
    earlier_num j l = omega (arith, segment_before j last seg l, last_fits.0)

    tail_start :
        (a : ℕ)
        → last * seg + ps.segment_nums last ≤ a
        → a < before.number
        → (ps.ptcs a).cell ≡ empty_cell
    tail_start a g h =
        ap (λ i. (ps.ptcs i).cell) {x = a} {y = last * seg + (a - last * seg)} (omega arith)
        ∙ holes_start last (a - last * seg) (omega arith) (omega arith) (omega (arith, last_fits.1))

    -- Sorted segments are the start of the second phase.
    pub start-Filling : before.segment_size ≡ seg → Filling 0 last before ps
    start-Filling e = record {
      fits =
          rw (v.segment_size, v.number)
            (omega (arith, (v.sorted last (omega arith)).live_le, last_fits.0));
      counts = λ j l. rw v.segment_size (omega (arith, (v.sorted j (omega arith)).live_le));
      full = λ j l. absurd (omega arith);
      live = rw v.segment_size live_start;
      holes =
          rw v.segment_size
            (λ j k l g h. holes_start j k (omega arith) g (omega (arith, earlier_num j l)));
      tail = rw (v.segment_size, v.number) tail_start;
      weights = λ f. rw v.number (
          total-SortedUpTo_all f num_cells seg before.number (last + 1) before ps v
            (grind (arith, last_fits)));
      segment_size = v.segment_size ∙ sym e;
      number = v.number;
      size = v.size;
    }
