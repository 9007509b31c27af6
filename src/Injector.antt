-- ===== src/Injector.antt =====
-- systems/ptc_injector_host.hpp: `inject_pairs` puts pairs of an electron and a positron into the cells that a
-- criterion chooses, behind the particles in use.
pub mod Pairs
pub mod Filled
pub mod Injected
mod Tests
use aperture4_nick.Base.{
  ℕ, zero, suc, ◌+◌, ◌*◌, ◌/◌, ◌%◌, ◌^◌, Bool, ◌||◌, ltb, leb, if◌then◌else◌, List, [], Array,
  write, add_size,
}
use aperture4_nick.Vec.{size}
use aperture4_nick.Grid.{Grid, extent, is_in_bound}
use aperture4_nick.Particles.{Ptc, Particles, add_num}
use aperture4_nick.Flags.{Bits, bits_of, value_of, set_flag, set_ptc_type_flag}
use aperture4_nick.Comm.{get_pos}

-- `PtcType` with its numbers.
pub data PtcType : Type 0 where
  electron : PtcType
  positron : PtcType
  ion : PtcType

unfoldable pub type_number : PtcType → ℕ
type_number electron = 0
type_number positron = 1
type_number ion = 2

-- `PtcFlag::tracked`
abbrev pub tracked : ℕ
tracked = 1

-- What a call of `inject_pairs` is given, with the random generator and the arithmetic of `value_t`:
-- `R` is the state of the generator, `energy` is the square root of 1 + p · p, and `is_tracked` compares
-- with the fraction of tracked particles. A count that is not positive is 0 here.
pub record Injection : Type 1 where
  pub S : Type 0
  pub R : Type 0
  pub uniform : R → S × R
  pub energy : S → S → S → S
  pub is_tracked : S → Bool
  pub coord_global : List ℕ → S × S × S → S × S × S
  pub f_criteria : List ℕ → Bool
  pub f_num : List ℕ → ℕ
  pub f_dist : S × S × S → R → PtcType → (S × S × S) × R
  pub f_weight : S × S × S → PtcType → S

module _ (I : Injection) where
  open I use {S, R, uniform, energy, is_tracked, coord_global, f_criteria, f_num, f_dist, f_weight}

  -- What the loops change.
  pub record State : Type 0 where
    pub ptcs : Array (Ptc S)
    pub rng : R
    pub cum_num : ℕ
    pub ptc_id_base : ℕ

  -- The fields of one particle of a pair; `aux1` stays.
  unfoldable pub fill_slot : ℕ → S × S × S → S × S × S → S → ℕ → ℕ → Ptc S → Ptc S
  fill_slot cell x p weight flag id old = record old {
    cell = cell;
    x1 = x.0;
    x2 = x.1;
    x3 = x.2;
    p1 = p.0;
    p2 = p.1;
    p3 = p.2;
    energy = energy p.0 p.1 p.2;
    weight = weight;
    flag = flag;
    id = id;
  }

  -- The flag of a particle of a type, as the number that is stored.
  unfoldable pub typed_flag : Bool → ℕ → PtcType → ℕ
  unfolding set_flag set_ptc_type_flag type_number
  typed_flag is_tracked flag type =
      let local_flag : Bits =
        if is_tracked then set_flag (bits_of flag) tracked [] else bits_of flag in
      value_of 32 (set_ptc_type_flag local_flag (type_number type))

  module _ (grid : Grid) (track_rank flag num max_num : ℕ) where
    -- The body of the inner loop, behind its check. The order in which the three coordinates are drawn is
    -- that of their text; the language leaves it open.
    unfoldable pub inject_pair : ℕ → List ℕ → ℕ → ℕ → State → State
    unfolding fill_slot typed_flag
    inject_pair linear pos offset_e offset_p s =
        let (x₀, r₀) = uniform s.rng in
        let (x₁, r₁) = uniform r₀ in
        let (x₂, r₂) = uniform r₁ in
        let x : S × S × S = (x₀, x₁, x₂) in
        let x_global : S × S × S = coord_global pos x in
        let (p_e, r₃) = f_dist x_global r₂ electron in
        let (p_p, r₄) = f_dist x_global r₃ positron in
        let (u, r₅) = uniform r₄ in
        let cell : ℕ = linear % 2 ^ 32 in
        let ptcs_e : Array (Ptc S) = write s.ptcs offset_e (
          fill_slot cell x p_e (f_weight x_global electron)
            (typed_flag (is_tracked u) flag electron) (add_size track_rank s.ptc_id_base)
            (s.ptcs offset_e)) in
        let ptcs_p : Array (Ptc S) = write ptcs_e offset_p (
          fill_slot cell x p_p (f_weight x_global positron)
            (typed_flag (is_tracked u) flag positron)
            (add_size track_rank (add_size s.ptc_id_base 1)) (s.ptcs offset_p)) in
        record s { ptcs = ptcs_p; rng = r₅; ptc_id_base = add_size (add_size s.ptc_id_base 1) 1 }

    -- The inner loop: `rounds` are left, and `n` is the counter.
    unfoldable pub inject_loop : ℕ → List ℕ → ℕ → ℕ → State → State
    inject_loop linear pos zero n s = s
    inject_loop linear pos (suc rounds) n s =
        let offset_e : ℕ = (num + s.cum_num + n) % 2 ^ 32 in
        let offset_p : ℕ = (offset_e + 1) % 2 ^ 32 in
        let rest =
          inject_loop linear pos rounds (n + 2) (inject_pair linear pos offset_e offset_p s) in
        if leb max_num offset_e || leb max_num offset_p then s else rest

    -- One cell. The counter runs over 0, 2, 4 and so on below the count.
    unfoldable pub inject_cell : ℕ → State → State
    inject_cell linear s =
        let pos : List ℕ = get_pos linear (extent grid) in
        let num_inject : ℕ = if f_criteria pos then f_num pos else 0 in
        let s' : State = inject_loop linear pos ((num_inject + 1) / 2) 0 s in
        if is_in_bound grid pos
        then (if ltb 0 num_inject
            then record s' { cum_num = add_size s'.cum_num num_inject }
            else s)
        else s

    unfoldable pub inject_cells : ℕ → ℕ → State → State
    inject_cells zero linear s = s
    inject_cells (suc rounds) linear s = inject_cells rounds (linear + 1) (inject_cell linear s)

  -- `inject_pairs` on a rank: the counter of the ids is a local copy.
  unfoldable pub inject_pairs : Grid → ℕ → ℕ → Particles S × R → Particles S × R
  inject_pairs grid rank flag (ps, rng) =
      let s : State =
        inject_cells grid ((rank * 2 ^ 32) % 2 ^ 64) flag ps.number ps.size (size (extent grid)) 0
          (record { ptcs = ps.ptcs; rng = rng; cum_num = 0; ptc_id_base = ps.ptc_id }) in
      (add_num s.cum_num (record ps { ptcs = s.ptcs }), s.rng)
