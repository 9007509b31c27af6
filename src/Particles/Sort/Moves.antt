-- ===== src/Particles/Sort/Moves.antt =====
-- core/particles_functions.cpp, `ptc_sort_by_cell`: the second loop moves particles from the end of the
-- last segment into the holes of an earlier one.
use aperture4_nick.Base.{
  ℕ, ◌+◌, ◌-◌, ◌≤◌, ◌<◌, ◌^◌, ◌≡◌, refl, sym, ap, ◌∙◌, arith, if◌then◌else◌, ltb, leb, ◌&&◌, Array,
  ltb-ge, add_size, min, fun_ext,
}
use aperture4_nick.Particles.{Ptc, Particles, empty_cell, copy_from, erase}
use aperture4_nick.Particles.Sort.Weights.{total, total-add, total_ext, total_empty}

module _ {S : Type 0} where
  -- The slots after `k` of them from `src` on have gone to `dst`.
  abbrev pub moved_ptcs : ℕ → ℕ → ℕ → Array (Ptc S) → Array (Ptc S)
  moved_ptcs k src dst ptcs a =
      if leb src a && ltb a (src + k)
      then record (ptcs a) { cell = empty_cell }
      else if leb dst a && ltb a (dst + k)
      then ptcs (src + (a - dst))
      else ptcs a

  -- Both ranges lie in the slots in use, the target before the source.
  pub record Movable (k src dst : ℕ) (ps : Particles S) : Type 0 where
    pub apart : dst + k ≤ src
    pub within : src + k ≤ ps.number
    pub number_le : ps.number ≤ ps.size
    pub size_lt : ps.size < 2 ^ 64

  copy_lem :
      (k src dst : ℕ) (ps : Particles S)
      → Movable k src dst ps
      → copy_from ps k src dst ps ≡ record ps {
        ptcs = λ a. if leb dst a && ltb a (dst + k) then ps.ptcs (src + (a - dst)) else ps.ptcs a;
      }
  unfolding copy_from
  copy_lem k src dst ps v = rw (ltb-ge ps.size (add_size dst k) (omega arith)) (
      rw (ltb-ge ps.size (add_size src k) (omega arith))
        (rw (ltb-ge ps.number (add_size dst k) (omega arith)) refl))

  erase_lem :
      (k src : ℕ) (ps : Particles S)
      → src + k ≤ ps.size
      → ps.size < 2 ^ 64
      → erase src k ps ≡ record ps {
        ptcs = λ a.
            if leb src a && ltb a (src + k)
            then record (ps.ptcs a) { cell = empty_cell }
            else ps.ptcs a;
      }
  unfolding erase
  erase_lem k src ps h l =
      let e : min ps.size (add_size src k) ≡ src + k = omega arith in
      let f : min src (src + k) ≡ src = omega arith in rw e (rw f refl)

  pub move_lem :
      (k src dst : ℕ) (ps : Particles S)
      → Movable k src dst ps
      → erase src k (copy_from ps k src dst ps) ≡ record ps { ptcs = moved_ptcs k src dst ps.ptcs }
  move_lem k src dst ps v =
      ap (erase src k) (copy_lem k src dst ps v)
      ∙ erase_lem k src _ (omega arith) (omega arith)
      ∙ ap (λ (p : Array (Ptc S)). record ps { ptcs = p }) (fun_ext (λ a. ground arith))

  -- A move into empty slots keeps the particles in use.
  pub total-moved :
      (f : Ptc S → ℕ) (k src dst : ℕ) (ps : Particles S)
      → Movable k src dst ps
      → ((i : ℕ) → i < k → (ps.ptcs (dst + i)).cell ≡ empty_cell)
      → total f (moved_ptcs k src dst ps.ptcs) 0 ps.number ≡ total f ps.ptcs 0 ps.number
  total-moved f k src dst ps v holes =
      pieces moved
      ∙ omega (
        arith,
        total_ext f moved ps.ptcs 0 0 dst (λ i h. ground arith),
        total_ext f moved ps.ptcs dst src k (λ i h. ground arith),
        total_ext f moved ps.ptcs (dst + k) (dst + k) gap (λ i h. ground arith),
        total_empty f moved src k (λ i h. ground arith),
        total_ext f moved ps.ptcs (src + k) (src + k) (ps.number - (src + k)) (λ i h. ground arith),
        total_empty f ps.ptcs dst k holes,
      )
      ∙ sym (pieces ps.ptcs)
    where
      moved : Array (Ptc S)
      moved = moved_ptcs k src dst ps.ptcs

      gap : ℕ
      gap = src - (dst + k)

      pieces :
          (a : Array (Ptc S))
          → total f a 0 ps.number
            ≡ total f a 0 dst
              + total f a dst k
              + total f a (dst + k) gap
              + total f a src k
              + total f a (src + k) (ps.number - (src + k))
      pieces a = ground (
        arith,
        total-add f a 0 dst (ps.number - dst),
        total-add f a dst k (ps.number - (dst + k)),
        total-add f a (dst + k) gap (ps.number - src),
        total-add f a src k (ps.number - (src + k)),
      )
