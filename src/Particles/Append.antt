-- ===== src/Particles/Append.antt =====
-- core/particles_functions.cpp: `ptc_append` and `ptc_copy_from_buffer` put particles behind those in use.
pub mod Filled
use aperture4_nick.Base.{
  ℕ, zero, suc, ◌+◌, ◌-◌, ◌*◌, ◌%◌, ◌^◌, ◌&&◌, ltb, leb, ◌==◌, if◌then◌else◌, Array, write,
  add_size, sub_size,
}
use aperture4_nick.Particles.{Ptc, Particles, set_num}

-- The arithmetic of `Scalar` that the energy of a particle is computed with.
pub record Scalars : Type 1 where
  pub S : Type 0
  pub one : S
  pub plus : S → S → S
  pub times : S → S → S
  pub sqrt : S → S

-- The field arrays get their elements one after the other; `aux1` is left as it is. `rank` is that of
-- the process.
unfoldable pub append :
    (F : Scalars)
    → ℕ
    → F.S
    → F.S
    → F.S
    → F.S
    → F.S
    → F.S
    → ℕ
    → F.S
    → ℕ
    → Particles F.S
    → Particles F.S
unfolding set_num
append F rank x₀ x₁ x₂ p₀ p₁ p₂ cell weight flag ps =
    let n : ℕ = ps.number in
    let added : Particles F.S = record ps {
      ptcs = write ps.ptcs n (record (ps.ptcs n) {
        x1 = x₀;
        x2 = x₁;
        x3 = x₂;
        p1 = p₀;
        p2 = p₁;
        p3 = p₂;
        energy =
            F.sqrt (F.plus (F.plus (F.plus F.one (F.times p₀ p₀)) (F.times p₁ p₁)) (F.times p₂ p₂));
        weight = weight;
        cell = cell;
        flag = flag;
        id = add_size ((rank * 2 ^ 32) % 2 ^ 64) ps.ptc_id;
      });
      ptc_id = (ps.ptc_id + 1) % 2 ^ 32;
    } in
    if ps.number == ps.size then ps else set_num (add_size n 1) added

-- an `int` where a `size_t` is wanted
abbrev pub extend : ℕ → ℕ
extend n = if ltb n (2 ^ 31) then n else n + (2 ^ 64 - 2 ^ 32)

module _ {S : Type 0} where
  -- `num` is the pattern of an `int`; so is the count after the check.
  unfoldable pub fitting : ℕ → ℕ → Particles S → ℕ
  fitting num dst_idx ps =
      if ltb ps.size (add_size dst_idx (extend num)) then sub_size ps.size dst_idx % 2 ^ 32 else num

  -- `ptc_copy_from_buffer` after the check: `n` is the count.
  unfoldable pub copy_count : Array (Ptc S) → ℕ → ℕ → Particles S → Particles S
  unfolding set_num
  copy_count buf n dst_idx ps =
      let copied : Particles S = record ps {
        ptcs = λ a.
            if ltb 0 n && ltb n (2 ^ 31) && leb dst_idx a && ltb a (dst_idx + n)
            then buf (a - dst_idx)
            else ps.ptcs a;
      } in
      if ltb ps.number (add_size dst_idx (extend n))
      then set_num (add_size dst_idx (extend n)) copied
      else copied

  unfoldable pub copy_from_buffer : Array (Ptc S) → ℕ → ℕ → Particles S → Particles S
  unfolding fitting copy_count
  copy_from_buffer buf num dst_idx ps = copy_count buf (fitting num dst_idx ps) dst_idx ps
