-- ===== src/Injector/Pairs.antt =====
-- systems/ptc_injector_host.hpp: a pair of an electron and a positron, and how many particles a cell gets.
use aperture4_nick.Base.{
  ℕ, ◌+◌, ◌%◌, ◌^◌, ◌<◌, ◌≡◌, ◌≢◌, refl, ◌∙◌, arith, Bool, true, if◌then◌else◌, List, Array, write,
  write_same, write_other,
}
use aperture4_nick.Grid.{Grid, extent, is_in_bound}
use aperture4_nick.Particles.{Ptc}
use aperture4_nick.Comm.{get_pos}
use aperture4_nick.Injector.{Injection, electron, positron, typed_flag, fill_slot}

pub two_writes :
    {A : Type 0} (a : Array A) (o : ℕ) (x y : A)
    → (write (write a o x) (o + 1) y o ≡ x)
      × (write (write a o x) (o + 1) y (o + 1) ≡ y)
      × ((i : ℕ) → i ≢ o → i ≢ o + 1 → write (write a o x) (o + 1) y i ≡ a i)
two_writes a o x y = (
  write_other (write a o x) (o + 1) o y (omega arith) ∙ write_same a o o x refl,
  write_same (write a o x) (o + 1) (o + 1) y refl,
  λ i n m. write_other (write a o x) (o + 1) i y m ∙ write_other a o i x n,
)

module _ (I : Injection) (grid : Grid) (flag : ℕ) where
  open I use {S, f_criteria, f_num}

  -- An electron and a positron at one place of a cell in the interior that the criterion chooses.
  pub record IsPair (e p : Ptc S) : Type 0 where
    pub cell : e.cell ≡ p.cell
    pub x1 : e.x1 ≡ p.x1
    pub x2 : e.x2 ≡ p.x2
    pub x3 : e.x3 ≡ p.x3
    pub is_tracked : Bool
    pub electron : e.flag ≡ typed_flag I is_tracked flag electron
    pub positron : p.flag ≡ typed_flag I is_tracked flag positron
    pub chosen : f_criteria (get_pos e.cell (extent grid)) ≡ true
    pub inside : is_in_bound grid (get_pos e.cell (extent grid)) ≡ true

  -- How many particles a cell gets.
  abbrev pub count_at : ℕ → ℕ
  count_at linear =
      let pos : List ℕ = get_pos linear (extent grid) in
      if is_in_bound grid pos then (if f_criteria pos then f_num pos else 0) else 0

  module _ (linear : ℕ) (linear_lt : linear < 2 ^ 32)
      (chosen : f_criteria (get_pos linear (extent grid)) ≡ true)
      (inside : is_in_bound grid (get_pos linear (extent grid)) ≡ true) where
    pub slots-IsPair :
        (x p_e p_p : S × S × S) (w_e w_p : S) (t : Bool) (id_e id_p : ℕ) (old_e old_p : Ptc S)
        → IsPair
            (fill_slot I (linear % 2 ^ 32) x p_e w_e (typed_flag I t flag electron) id_e old_e)
            (fill_slot I (linear % 2 ^ 32) x p_p w_p (typed_flag I t flag positron) id_p old_p)
    unfolding fill_slot
    slots-IsPair x p_e p_p w_e w_p t id_e id_p old_e old_p =
        let small : linear % 2 ^ 32 ≡ linear = omega arith in
        record {
          cell = refl;
          x1 = refl;
          x2 = refl;
          x3 = refl;
          is_tracked = t;
          electron = refl;
          positron = refl;
          chosen = rw small chosen;
          inside = rw small inside;
        }
