-- ===== src/Particles/Sort/Whole.antt =====
-- core/particles_functions.cpp, `ptc_sort_by_cell`: the whole sort.
use native.Mathlib.Nat.{div-add-mod, mod-lt}
use aperture4_nick.Base.{
  ℕ, ◌+◌, ◌-◌, ◌*◌, ◌/◌, ◌%◌, ◌≤◌, ◌<◌, ◌^◌, ◌≡◌, ◌≢◌, refl, ap, subst, ◌∙◌, arith, ltb-ge, ltb-lt,
  inl, inr, eq-cases, lt-cases, min, some, add_size,
}
use aperture4_nick.Particles.{Ptc, Particles, empty_cell, set_num}
use aperture4_nick.Particles.Append.{extend}
use aperture4_nick.Particles.Rearrange.{done}
use aperture4_nick.Particles.Sort.{sort_by_cell, resize_scratch}
use aperture4_nick.Particles.Sort.Phase.{HasCells}
use aperture4_nick.Particles.Sort.Loop.{sort_segments-SortedUpTo}
use aperture4_nick.Particles.Sort.Weights.{total, total-add, total_empty}
use aperture4_nick.Particles.Sort.Filling.{Filling, segment_cases}
use aperture4_nick.Particles.Sort.Fills.{defragment_lem}
use aperture4_nick.Particles.Sort.Start.{start-Filling}

module _ {S : Type 0} where
  -- The slots in use hold particles, those that were in use and are no longer are empty, and the
  -- particles are those of `ps`: whatever is summed over them comes to the same.
  pub record Compacted (ps ps' : Particles S) : Type 0 where
    pub number_le : ps'.number ≤ ps.number
    pub live : (a : ℕ) → a < ps'.number → (ps'.ptcs a).cell ≢ empty_cell
    pub rest : (a : ℕ) → ps'.number ≤ a → a < ps.number → (ps'.ptcs a).cell ≡ empty_cell
    pub weights : (f : Ptc S → ℕ) → total f ps'.ptcs 0 ps'.number ≡ total f ps.ptcs 0 ps.number

  module _ (m last : ℕ) (before ps : Particles S) (v : Filling m last before ps) (h : last ≤ m)
      (pos : 0 < before.segment_size) (room : before.number ≤ before.size) where
    abbrev total_num : ℕ
    total_num = last * ps.segment_size + ps.segment_nums last

    -- Below the last segment every segment is full.
    live_slot :
        (j k : ℕ)
        → k < ps.segment_size
        → j * ps.segment_size + k < total_num
        → (ps.ptcs (j * ps.segment_size + k)).cell ≢ empty_cell
    live_slot j k l g = elim (eq-cases j last) [
      | inl e ↦ v.live j k (omega arith) (rw e (omega (arith, g, ap (λ t. t * ps.segment_size) e)))
      | inr ne ↦ elim (lt-cases j last) [
        | inl lt ↦ v.live j k (omega arith) (omega (arith, v.full j (omega arith) lt))
        | inr ge ↦
            absurd
              (grind (arith, segment_cases j last ps.segment_size, v.counts last (omega arith)))
      ]
    ]

    slot_eq : (a : ℕ) → a / ps.segment_size * ps.segment_size + a % ps.segment_size ≡ a
    slot_eq a = let e = div-add-mod a ps.segment_size in grind arith

    in_use : (f : Ptc S → ℕ) → total f ps.ptcs 0 total_num ≡ total f ps.ptcs 0 ps.number
    in_use f =
        omega (
          arith,
          total_empty f ps.ptcs (0 + total_num) (ps.number - total_num)
              (λ i l. v.tail (0 + total_num + i) (omega arith) (omega (arith, v.fits))),
          total-add f ps.ptcs 0 total_num (ps.number - total_num),
        )
        ∙ ap (total f ps.ptcs 0) {x = total_num + (ps.number - total_num)} {y = ps.number}
            (omega (arith, v.fits))

    compacted : Compacted before (set_num total_num ps)
    unfolding set_num
    compacted = record {
      number_le = omega (arith, v.fits, v.number);
      live = λ a g.
          subst (λ i. (ps.ptcs i).cell ≢ empty_cell)
            {x = a / ps.segment_size * ps.segment_size + a % ps.segment_size} {y = a} (slot_eq a)
            (live_slot (a / ps.segment_size) (a % ps.segment_size)
              (mod-lt a (omega (arith, v.segment_size))) (omega (arith, slot_eq a)));
      rest = λ a g l. v.tail a (omega (arith, v.fits, v.number, v.size)) (omega (arith, v.number));
      weights = λ f.
          ap (total f ps.ptcs 0) {x = min total_num ps.size} {y = total_num}
            (omega (arith, v.fits, v.number, v.size))
          ∙ in_use f
          ∙ v.weights f;
    }

as_int : (n : ℕ) → n < 2 ^ 31 → n % 2 ^ 32 ≡ n
as_int n l = omega arith

-- If the cells of the slots in use are cells of the grid or empty, the grid has less than 2^32 - 2 cells,
-- the number of these slots is at most the size and below 2^64 - 1, the size is below 2^64, the
-- segment size is positive and below 2^31, and the last segment in use has a number below 2^31, the
-- sort returns. Then the slots in use are those from 0 to a number that is at most the old one, each
-- holds a particle, the slots from there to the old number are empty, and every sum of natural
-- numbers over the particles in use is what it was: none is lost, doubled or changed.
pub sort_by_cell_lem :
    {S : Type 0} (num_cells : ℕ) (ps : Particles S)
    → HasCells num_cells 0 ps
    → num_cells + 2 < 2 ^ 32
    → ps.number < done
    → ps.number ≤ ps.size
    → ps.size < 2 ^ 64
    → 0 < ps.segment_size
    → ps.segment_size < 2 ^ 31
    → ps.number / ps.segment_size < 2 ^ 31
    → (ps' : Particles S) × (sort_by_cell num_cells ps ≡ some ps') × Compacted ps ps'
unfolding sort_by_cell resize_scratch
sort_by_cell_lem num_cells ps cells few small room size_lt pos seg_lt last_lt =
    elim (lt-cases 0 ps.number) [
      | inr none_used ↦ (
        ps,
        rw (ltb-ge 0 ps.number none_used) refl,
        record {
          number_le = omega arith;
          live = λ a l. absurd (omega arith);
          rest = λ a g l. absurd (omega arith);
          weights = λ f. refl;
        },
      )
      | inl used ↦
          let start = resize_scratch num_cells ps in
          let (ps₁, e₁, v₁) =
            sort_segments-SortedUpTo num_cells start cells few small seg_lt last_lt in
          let (last, m, ps₂, e₂, h, _, v₂) =
            defragment_lem start room size_lt seg_lt (ps.number / ps.segment_size + 1) 0
              (ps.number / ps.segment_size) ps₁ (omega arith) (omega arith)
              (start-Filling num_cells start ps₁ ps.segment_size cells v₁ pos refl) in
          let count_lt : ps₂.segment_nums last < 2 ^ 31 =
            omega (arith, v₂.counts last (omega arith), v₂.segment_size) in
          let below : last * ps.segment_size + ps₂.segment_nums last ≤ ps.number =
            rw v₂.number at (rw v₂.segment_size at v₂.fits) in
          let total : add_size (last * ps.segment_size) (extend (ps₂.segment_nums last))
              ≡ last * ps.segment_size + ps₂.segment_nums last =
            rw (ltb-lt (ps₂.segment_nums last) (2 ^ 31) count_lt) (omega (arith, below)) in
          let c =
            subst (λ seg. Compacted start (set_num (last * seg + ps₂.segment_nums last) ps₂))
              v₂.segment_size (compacted m last start ps₂ v₂ h pos room) in
          (
            set_num (last * ps.segment_size + ps₂.segment_nums last) ps₂,
            rw (ltb-lt 0 ps.number used) (
                rw e₁ (
                  rw (as_int (ps.number / ps.segment_size) last_lt)
                    (rw e₂ (ap (λ n. some (set_num n ps₂)) total)))),
            record { number_le = c.number_le; live = c.live; rest = c.rest; weights = c.weights },
          )
    ]
