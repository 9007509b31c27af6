-- ===== src/Comm.antt =====
-- systems/domain_comm_impl.hpp, with `ptc_copy_to_comm_buffers` of core/particles_functions.cpp: particles
-- that left the interior of the grid go to the buffer of their zone, with the cell that they have on the
-- neighbouring rank.
pub mod Shift
pub mod Arrival
pub mod Outgoing
pub mod Delivered
pub mod Route
pub mod Contents
pub mod Routed
pub mod Arrived
pub mod Loads
pub mod Kept
pub mod Ranks
pub mod Overwritten
mod Tests
mod RankTests
use aperture4_nick.Base.{
  ℕ, zero, suc, ◌+◌, ◌-◌, ◌*◌, ◌/◌, ◌%◌, ◌^◌, Bool, true, false, ltb, ◌==◌, if◌then◌else◌, List, [],
  ◌∷◌, length, Option, none, some, Array, write,
}
use aperture4_nick.Base.Int.{ℤ, pos, negsuc, signed32}
use aperture4_nick.Index.ColMajor.{get_pos1, get_pos2, get_pos3, Idx, dec}
use aperture4_nick.Grid.{Grid, extent, find_zone, reduced_dim}
use aperture4_nick.Grid.Zones.{get_zone_offset}
use aperture4_nick.Particles.{Ptc, empty_cell}

-- `get_pos(idx, ext)`, which is there for one, two and three dimensions.
unfoldable pub get_pos : ℕ → List ℕ → List ℕ
unfolding get_pos1 get_pos2 get_pos3
get_pos n (e₀ ∷ []) = get_pos1 n
get_pos n (e₀ ∷ e₁ ∷ []) = get_pos2 n e₀
get_pos n (e₀ ∷ e₁ ∷ e₂ ∷ []) = get_pos3 n e₀ e₁
get_pos n _ = []

-- `dz * grid.reduced_dim(2)` for a `dz` of `digit - 1`: the product is a `uint32_t` and becomes an
-- `int` argument.
unfoldable pub displacement : ℕ → ℕ → ℤ
displacement digit reduced = signed32 (((digit + 2 ^ 32 - 1) % 2 ^ 32 * reduced) % 2 ^ 32)

-- A `linear` stored into a `uint32_t`.
unfoldable pub to_uint32 : ℤ → ℕ
to_uint32 (pos n) = n % 2 ^ 32
to_uint32 (negsuc n) = (2 ^ 32 - 1 - n % 2 ^ 32) % 2 ^ 32

-- `dz`, `dy` and `dx`, one more each: 1 stands for no move.
unfoldable pub digit_z : ℕ → ℕ → ℕ
digit_z dim zone = if ltb 2 dim then zone / 9 else 1

unfoldable pub digit_y : ℕ → ℕ → ℕ
digit_y dim zone = if ltb 1 dim then zone / 3 % 3 else 1

unfoldable pub shifted : Grid → ℕ → Idx → ℕ
unfolding dec displacement reduced_dim to_uint32 digit_z digit_y
shifted grid zone idx =
    let z = dec 2 (displacement (digit_z (length grid) zone) (reduced_dim 2 grid)) idx in
    let y = dec 1 (displacement (digit_y (length grid) zone) (reduced_dim 1 grid)) z in
    let x = dec 0 (displacement (zone % 3) (reduced_dim 0 grid)) y in to_uint32 x.linear

-- The particle slots, the buffers of the zones and the counts of these.
pub record Buffers (S : Type 0) : Type 0 where
  pub ptcs : Array (Ptc S)
  pub buffers : Array (Array (Ptc S))
  pub nums : Array ℕ

module _ {S : Type 0} where
  -- One round: slot `n`. `none` is a write behind the end of a buffer, of `capacity` elements.
  unfoldable pub copy_one : Grid → ℕ → ℕ → Buffers S → Option (Buffers S)
  unfolding get_pos find_zone get_zone_offset extent shifted
  copy_one grid capacity n s =
      let cell : ℕ = (s.ptcs n).cell in
      let ext : List ℕ = extent grid in
      let zone_id : ℕ = find_zone grid (get_pos cell ext) in
      let zone : ℕ = zone_id + get_zone_offset (length grid) in
      let num : ℕ = s.nums zone_id in
      let moved : ℕ = shifted grid zone (record { linear = pos cell; ext = ext }) in
      if cell == empty_cell
      then some s
      else (if zone == 13
          then some s
          else (if ltb num capacity
              then some (record {
                ptcs = write s.ptcs n (record (s.ptcs n) { cell = empty_cell });
                buffers =
                    write s.buffers zone_id
                      (write (s.buffers zone_id) num (record (s.ptcs n) { cell = moved }));
                nums = write s.nums zone_id (num + 1);
              })
              else none))

  unfoldable pub copy_loop : Grid → ℕ → ℕ → ℕ → Buffers S → Option (Buffers S)
  unfolding copy_one
  copy_loop grid capacity zero n s = some s
  copy_loop grid capacity (suc rounds) n s = elim (copy_one grid capacity n s) [
    | none ↦ none
    | some s' ↦ copy_loop grid capacity rounds (n + 1) s'
  ]

  -- `ptc_copy_to_comm_buffers` for `number` slots in use
  unfoldable pub copy_to_comm_buffers : Grid → ℕ → ℕ → Buffers S → Option (Buffers S)
  unfolding copy_loop
  copy_to_comm_buffers grid capacity number s =
      if ltb 0 number then copy_loop grid capacity number 0 (record s { nums = λ z. 0 }) else some s
