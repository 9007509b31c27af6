-- ===== src/Particles.antt =====
-- core/particles.h, core/particles.cpp, core/particle_structs.h: the particle array, for a build in
-- which its buffers live on the host. All field arrays have the same size and every operation but
-- `erase` treats them alike, so a slot is one `Ptc`.
pub mod Append
pub mod Rearrange
pub mod Sort
mod Tests
use aperture4_nick.Base.{
  ℕ, ◌+◌, ◌-◌, ◌*◌, ◌^◌, ◌≤◌, ◌<◌, min, ltb, leb, ◌&&◌, if◌then◌else◌, Array, write, add_size,
  sub_size,
}

-- `numeric_limits<uint32_t>::max()`: the cell of a slot that holds no particle
abbrev pub empty_cell : ℕ
empty_cell = 2 ^ 32 - 1

-- `single_ptc_t`. `S` is the type `Scalar` of the build, float or double.
pub record Ptc (S : Type 0) : Type 0 where
  pub x1 : S
  pub x2 : S
  pub x3 : S
  pub p1 : S
  pub p2 : S
  pub p3 : S
  pub energy : S
  pub weight : S
  pub aux1 : S
  pub cell : ℕ
  pub id : ℕ
  pub flag : ℕ

-- `particles_base`: the slots, `m_size` of them, of which the first `m_number` are in use, and the
-- scratch arrays of the sort with their sizes. `ptc_id` is the counter of `m_ptc_id`.
pub record Particles (S : Type 0) : Type 0 where
  pub size : ℕ
  pub number : ℕ
  pub segment_size : ℕ
  pub ptcs : Array (Ptc S)
  pub index : Array ℕ
  pub index_size : ℕ
  pub partition : Array ℕ
  pub partition_size : ℕ
  pub segment_nums : Array ℕ
  pub segment_nums_size : ℕ
  pub ptc_id : ℕ

module _ {S : Type 0} where
  unfoldable pub set_num : ℕ → Particles S → Particles S
  set_num num ps = record ps { number = min num ps.size }

  unfoldable pub add_num : ℕ → Particles S → Particles S
  unfolding set_num
  add_num num ps = set_num (add_size ps.number num) ps

  -- `buffer::assign_host` on the cells: `std::fill` over the clamped range.
  unfoldable pub erase : ℕ → ℕ → Particles S → Particles S
  erase pos amount ps = record ps {
    ptcs = λ a.
        if leb start a && ltb a end then record (ps.ptcs a) { cell = empty_cell } else ps.ptcs a;
  }
    where
      end : ℕ
      end = min ps.size (add_size pos amount)

      start : ℕ
      start = min pos end

  -- `buffer::host_copy_from` on every field array. The count that `set_num` sees is clamped by this
  -- array only. `std::copy` wants ranges that do not overlap upwards.
  unfoldable pub copy_from : Particles S → ℕ → ℕ → ℕ → Particles S → Particles S
  unfolding set_num
  copy_from other num src_pos dst_pos ps =
      if ltb copied.number (add_size dst_pos fitting)
      then set_num (add_size dst_pos fitting) copied
      else copied
    where
      fitting : ℕ
      fitting = if ltb ps.size (add_size dst_pos num) then sub_size ps.size dst_pos else num

      amount : ℕ
      amount =
          if ltb other.size (add_size src_pos fitting) then sub_size other.size src_pos else fitting

      copied : Particles S
      copied = record ps {
        ptcs = λ a.
            if leb dst_pos a && ltb a (dst_pos + amount)
            then other.ptcs (src_pos + (a - dst_pos))
            else ps.ptcs a;
      }

  -- Put `p` into slot `pos`; what was there comes back in `p`.
  unfoldable pub swap : ℕ → Ptc S → Particles S → Ptc S × Particles S
  swap pos p ps = (ps.ptcs pos, record ps { ptcs = write ps.ptcs pos p })
