-- ===== src/Particles/Sort/Round.antt =====
-- core/particles_functions.cpp, `ptc_sort_by_cell`: a round of the `while` loop of the second phase moves
-- particles from the end of the last segment into the holes of the segment `m`.
use aperture4_nick.Base.{
  ℕ, suc, add_size, sub_size, fun_ext, Option, ◌%◌, ◌+◌, ◌-◌, ◌*◌, ◌≤◌, ◌<◌, ◌^◌, ◌≡◌, ◌≢◌, sym, ap,
  ◌∙◌, arith, if◌then◌else◌, ltb, ◌==◌, Array, write, ◌⊎◌, inl, inr, eq-cases, lt-cases, min, some,
}
use aperture4_nick.Particles.{Ptc, Particles, empty_cell, copy_from, erase}
use aperture4_nick.Particles.Append.{extend}
use aperture4_nick.Particles.Sort.{fill_segment, min_int}
use aperture4_nick.Particles.Sort.Moves.{moved_ptcs, Movable, move_lem, total-moved}
use aperture4_nick.Particles.Sort.Filling.{Filling, segment_before, segment_cases}

module _ {S : Type 0} where
  module _ (m last : ℕ) (ps : Particles S) where
    -- How many particles a round moves, from where, and the state after it.
    abbrev pub num_to_copy : ℕ
    num_to_copy = min (ps.segment_size - ps.segment_nums m) (ps.segment_nums last)

    abbrev pub offset_from : ℕ
    offset_from = last * ps.segment_size + ps.segment_nums last - num_to_copy

    abbrev pub offset_to : ℕ
    offset_to = m * ps.segment_size + ps.segment_nums m

    abbrev pub nums_after : Array ℕ
    nums_after =
        let nums : Array ℕ = write ps.segment_nums m (ps.segment_nums m + num_to_copy) in
        write nums last (nums last - num_to_copy)

    abbrev pub after : Particles S
    after = record ps {
      ptcs = moved_ptcs num_to_copy offset_from offset_to ps.ptcs;
      segment_nums = nums_after;
    }

    -- The counts of both segments are those of `int`s.
    pub record IsInts : Type 0 where
      pub segment_lt : ps.segment_size < 2 ^ 31
      pub count_le : ps.segment_nums m ≤ ps.segment_size
      pub last_le : ps.segment_nums last ≤ ps.segment_size

    -- What the code computes in `int`s.
    abbrev int_copy : ℕ
    int_copy =
        min_int (sub_size ps.segment_size (extend (ps.segment_nums m)) % 2 ^ 32)
          (ps.segment_nums last)

    abbrev int_nums : Array ℕ
    int_nums =
        let nums : Array ℕ = write ps.segment_nums m ((ps.segment_nums m + int_copy) % 2 ^ 32) in
        write nums last ((nums last + 2 ^ 32 - int_copy) % 2 ^ 32)

    abbrev int_from : ℕ
    int_from =
        sub_size (add_size (last * ps.segment_size) (extend (ps.segment_nums last)))
          (extend int_copy)

    abbrev int_to : ℕ
    int_to = add_size (m * ps.segment_size) (extend (ps.segment_nums m))

    abbrev int_count : ℕ
    int_count = extend (ps.segment_nums m)

    int_copy_eq : IsInts → int_copy ≡ num_to_copy
    int_copy_eq b = ground (arith, b.segment_lt, b.count_le, b.last_le)

    int_nums_eq : IsInts → (i : ℕ) → int_nums i ≡ nums_after i
    int_nums_eq b i = ground (arith, int_copy_eq b, b.segment_lt, b.count_le, b.last_le)

    -- A round that moves `k` particles.
    abbrev stepped : ℕ → ℕ → ℕ → ℕ → Array ℕ → ℕ → Option (ℕ × Particles S)
    stepped fuel k src dst nums count =
        let after' : Particles S = record (erase src k (copy_from ps k src dst ps)) {
          segment_nums = nums;
        } in
        let down = fill_segment fuel m (last - 1) after' in
        let again = fill_segment fuel m last after' in
        if ltb count ps.segment_size
        then (if nums last == 0
            then (if last - 1 == m then some (last - 1, after') else down)
            else again)
        else some (last, ps)

    -- A round, with the two copies of the fields as one move.
    pub fill_step :
        (fuel : ℕ)
        → Movable num_to_copy offset_from offset_to ps
        → IsInts
        → fill_segment (suc fuel) m last ps ≡ (
            let down = fill_segment fuel m (last - 1) after in
            let again = fill_segment fuel m last after in
            if ltb (ps.segment_nums m) ps.segment_size
            then (if nums_after last == 0
                then (if last - 1 == m then some (last - 1, after) else down)
                else again)
            else some (last, ps))
    unfolding fill_segment
    fill_step fuel v b =
        let k : extend int_copy ≡ num_to_copy =
          ground (arith, int_copy_eq b, b.segment_lt, b.last_le) in
        let n : extend (ps.segment_nums last) ≡ ps.segment_nums last =
          ground (arith, b.segment_lt, b.last_le) in
        let c : extend (ps.segment_nums m) ≡ ps.segment_nums m =
          ground (arith, b.segment_lt, b.count_le) in
        let src : int_from ≡ offset_from =
          rw (k, n) (omega (arith, v.within, v.number_le, v.size_lt)) in
        let dst : int_to ≡ offset_to =
          rw c (omega (arith, v.apart, v.within, v.number_le, v.size_lt)) in
        ap (λ x. stepped fuel x int_from int_to int_nums int_count) k
        ∙ ap (λ x. stepped fuel num_to_copy x int_to int_nums int_count) src
        ∙ ap (λ x. stepped fuel num_to_copy offset_from x int_nums int_count) dst
        ∙ ap (λ x. stepped fuel num_to_copy offset_from offset_to x int_count)
            (fun_ext (int_nums_eq b))
        ∙ ap (λ x. stepped fuel num_to_copy offset_from offset_to nums_after x) c
        ∙ ap
            (λ (e : Particles S).
              let after' : Particles S = record e { segment_nums = nums_after } in
              let down = fill_segment fuel m (last - 1) after' in
              let again = fill_segment fuel m last after' in
              if ltb (ps.segment_nums m) ps.segment_size
              then (if nums_after last == 0
                  then (if last - 1 == m then some (last - 1, after') else down)
                  else again)
              else some (last, ps))
            (move_lem num_to_copy offset_from offset_to ps v)

    -- Slots outside both ranges stay.
    untouched :
        (a : ℕ)
        → (a < offset_to) ⊎ (offset_to + num_to_copy ≤ a)
        → (a < offset_from) ⊎ (offset_from + num_to_copy ≤ a)
        → after.ptcs a ≡ ps.ptcs a
    untouched a t f = ground arith

  module _ (before : Particles S) (room : before.number ≤ before.size)
      (small : before.size < 2 ^ 64) (m last : ℕ) (ps : Particles S) (v : Filling m last before ps)
      (h : m < last) where
    pub round-Movable :
        Movable (num_to_copy m last ps) (offset_from m last ps) (offset_to m last ps) ps
    round-Movable = record {
      apart = omega (arith, segment_before m last ps.segment_size h, v.counts m (omega arith));
      within = omega (arith, v.fits);
      number_le = omega (arith, v.number, v.size);
      size_lt = omega (arith, v.size);
    }

    pub round-IsInts : before.segment_size < 2 ^ 31 → IsInts m last ps
    round-IsInts l = record {
      segment_lt = omega (arith, l, v.segment_size);
      count_le = v.counts m (omega arith);
      last_le = v.counts last (omega arith);
    }

    arrives :
        (i : ℕ)
        → i < num_to_copy m last ps
        → (after m last ps).ptcs (offset_to m last ps + i) ≡ ps.ptcs (offset_from m last ps + i)
    arrives i l = ground (arith, round-Movable.apart)

    -- A slot of another segment, or one of those that were filled before.
    stays :
        (j k : ℕ)
        → j ≤ last
        → k < ps.segment_size
        → (j ≡ m → (k < ps.segment_nums m) ⊎ (ps.segment_nums m + num_to_copy m last ps ≤ k))
        → (j ≡ last → k < ps.segment_nums last - num_to_copy m last ps)
        → (after m last ps).ptcs (j * ps.segment_size + k) ≡ ps.ptcs (j * ps.segment_size + k)
    stays j k l g in_m in_last =
        untouched m last ps (j * ps.segment_size + k)
          (elim (segment_cases j m ps.segment_size) [
            | inl e ↦ omega (arith, in_m e, ap (λ t. t * ps.segment_size) e)
            | inr (inl b) ↦ omega arith
            | inr (inr b) ↦ omega arith
          ])
          (elim (segment_cases j last ps.segment_size) [
            | inl e ↦ omega (arith, in_last e, ap (λ t. t * ps.segment_size) e)
            | inr (inl b) ↦ omega arith
            | inr (inr b) ↦ omega (arith, v.counts last (omega arith))
          ])

    -- The particles of a segment, old and new.
    live_after :
        (j k : ℕ)
        → j ≤ last
        → k < nums_after m last ps j
        → ((after m last ps).ptcs (j * ps.segment_size + k)).cell ≢ empty_cell
    live_after j k l g = elim (eq-cases j m) [
      | inl e ↦ elim (lt-cases k (ps.segment_nums m)) [
        | inl low ↦ old (λ q. inl low) (rw e low)
        | inr high ↦ rw e (new (k - ps.segment_nums m) (ground arith) (omega arith))
      ]
      | inr ne ↦ old (λ q. absurd (ne q)) (ground arith)
    ]
      where
        old :
            (j ≡ m → (k < ps.segment_nums m) ⊎ (ps.segment_nums m + num_to_copy m last ps ≤ k))
            → k < ps.segment_nums j
            → ((after m last ps).ptcs (j * ps.segment_size + k)).cell ≢ empty_cell
        old in_m low empty = v.live j k l low (
            ap (λ (p : Ptc S). p.cell)
              (sym (stays j k l (omega (arith, v.counts j l)) in_m (λ e. ground arith)))
            ∙ empty)

        new :
            (i : ℕ)
            → i < num_to_copy m last ps
            → k ≡ ps.segment_nums m + i
            → ((after m last ps).ptcs (m * ps.segment_size + k)).cell ≢ empty_cell
        new i low e empty =
            v.live last (ps.segment_nums last - num_to_copy m last ps + i) (omega arith)
              (omega arith)
              (ap (λ a. (ps.ptcs a).cell)
                  {x = last * ps.segment_size + (ps.segment_nums last - num_to_copy m last ps + i)}
                  {y = offset_from m last ps + i} (omega arith)
                ∙ ap (λ (p : Ptc S). p.cell) (sym (arrives i low))
                ∙ ap (λ a. ((after m last ps).ptcs a).cell) {x = offset_to m last ps + i}
                    {y = m * ps.segment_size + k} (omega (arith, e))
                ∙ empty)

    holes_after :
        (j k : ℕ)
        → j < last
        → nums_after m last ps j ≤ k
        → k < ps.segment_size
        → ((after m last ps).ptcs (j * ps.segment_size + k)).cell ≡ empty_cell
    holes_after j k l g i =
        ap (λ (p : Ptc S). p.cell)
          (stays j k (omega arith) i (λ e. ground arith) (λ e. absurd (omega arith)))
        ∙ v.holes j k l (ground arith) i

    tail_after :
        (a : ℕ)
        → last * ps.segment_size + nums_after m last ps last ≤ a
        → a < ps.number
        → ((after m last ps).ptcs a).cell ≡ empty_cell
    tail_after a g i = elim (lt-cases a (last * ps.segment_size + ps.segment_nums last)) [
      | inl l ↦ ground arith
      | inr ge ↦
          ap (λ (p : Ptc S). p.cell)
            (untouched m last ps a
              (inr
                (omega (arith, segment_before m last ps.segment_size h, v.counts m (omega arith))))
              (inr (omega arith)))
          ∙ v.tail a ge i
    ]

    pub round-Filling : Filling m last before (after m last ps)
    round-Filling = record {
      fits = ground (arith, v.fits);
      counts = λ j l.
          ground (arith, v.counts j l, v.counts m (omega arith), v.counts last (omega arith));
      full = λ j l g. ground (arith, v.full j l g);
      live = live_after;
      holes = holes_after;
      tail = tail_after;
      weights = λ f.
          total-moved f (num_to_copy m last ps) (offset_from m last ps) (offset_to m last ps) ps
            round-Movable
            (λ i l.
              ap (λ a. (ps.ptcs a).cell) {x = offset_to m last ps + i}
                {y = m * ps.segment_size + (ps.segment_nums m + i)} (omega arith)
              ∙ v.holes m (ps.segment_nums m + i) h (omega arith) (omega arith))
          ∙ v.weights f;
      segment_size = v.segment_size;
      number = v.number;
      size = v.size;
    }
