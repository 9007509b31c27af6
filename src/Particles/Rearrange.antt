-- ===== src/Particles/Rearrange.antt =====
-- core/particles_functions.cpp, `ptc_rearrange_arrays`: the particles of a segment move to the
-- slots that `index` names, cycle by cycle, in place. The element type stands for one slot of all
-- the field arrays, since every statement of the function acts on all of them alike.
pub mod Invariant
pub mod Follow
pub mod Placed
use aperture4_nick.Base.{
  ℕ, zero, suc, ◌+◌, ◌-◌, ◌%◌, ◌^◌, ◌≤◌, ◌<◌, ◌≡◌, Bool, true, false, ltb, ◌==◌, if◌then◌else◌,
  Array, sub_size, write, Option, none, some,
}

-- `(size_t)-1`, the mark of an entry of `index` that is done
abbrev pub done : ℕ
done = 2 ^ 64 - 1

-- The two arrays that the function changes.
pub record Slots (A : Type 0) : Type 0 where
  pub index : Array ℕ
  pub ptcs : Array A

module _ {A : Type 0} (i offset : ℕ) where
  -- The loop over `j`, on fuel. `swap` leaves the old content of the slot in `p_tmp`.
  pub follow : ℕ → ℕ → A → Slots A → Option (Slots A)
  follow zero j p_tmp s = none
  follow (suc fuel) j p_tmp s =
      let id : ℕ = s.index j in
      let marked : Array ℕ = write s.index j done in
      let rest =
        follow fuel (sub_size id offset) (s.ptcs id)
          (record { index = marked; ptcs = write s.ptcs id p_tmp }) in
      if id == i + offset
      then some (record { index = marked; ptcs = write s.ptcs (i + offset) p_tmp })
      else rest

-- The loop over `i`: `n` rounds are left of `num`.
pub rearrange_from : {A : Type 0} → (offset num n i : ℕ) → Slots A → Option (Slots A)
rearrange_from offset num zero i s = some s
rearrange_from offset num (suc n) i s = elim (s.index i == done) [
  | true ↦ rearrange_from offset num n (i + 1) s
  | false ↦ elim (follow i offset (suc num) i (s.ptcs (i + offset)) s) [
    | none ↦ none
    | some s' ↦ rearrange_from offset num n (i + 1) s'
  ]
]

unfoldable pub rearrange_arrays : {A : Type 0} → (offset num : ℕ) → Slots A → Option (Slots A)
unfolding follow rearrange_from
rearrange_arrays offset num s = rearrange_from offset num num 0 s
