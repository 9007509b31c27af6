-- ===== src/Flags/Tests.antt =====
-- Flags and staggerings of a few bits, and the theorems at them.
use aperture4_nick.Base.{
  ℕ, ◌-◌, ◌<◌, ◌≡◌, refl, arith, true, false, not, ◌&&◌, ◌||◌, [], ◌∷◌, ◌==◌, if◌then◌else◌,
}
use aperture4_nick.Flags.{
  Bits, differ, bits_of, value_of, check_flag, flag_or, set_flag, clear_flag, toggle_flag,
  get_ptc_type, set_ptc_type_flag, gen_ptc_type_flag, stagger_at, set_bit, flip, complement,
}
use aperture4_nick.Flags.Checks.{is_among, flags_lem}
use aperture4_nick.Flags.Types.{set_ptc_type_flag_lem}
use aperture4_nick.Flags.Stagger.{stagger_lem}

abbrev some_flag : Bits
some_flag = bits_of 37

toggled : value_of 32 (toggle_flag some_flag 2 (3 ∷ 2 ∷ [])) ≡ 41
unfolding toggle_flag flag_or value_of bits_of
toggled = refl

typed : value_of 32 (set_ptc_type_flag some_flag 2) ≡ 536870949
unfolding set_ptc_type_flag gen_ptc_type_flag value_of bits_of
typed = refl

set_twice : value_of 8 (set_bit (set_bit (bits_of 6) 0 true) 2 false) ≡ 3
unfolding set_bit value_of bits_of
set_twice = refl

flags_lem_example :
    (check_flag (set_flag some_flag 2 (3 ∷ [])) 3
      ≡ (check_flag some_flag 3 || is_among 3 2 (3 ∷ [])))
    × (check_flag (clear_flag some_flag 2 (3 ∷ [])) 3
        ≡ (check_flag some_flag 3 && not (is_among 3 2 (3 ∷ []))))
    × (check_flag (toggle_flag some_flag 2 (3 ∷ [])) 3
        ≡ differ (check_flag some_flag 3) (is_among 3 2 (3 ∷ [])))
flags_lem_example = flags_lem some_flag 2 (3 ∷ []) 3 (omega arith)

set_ptc_type_flag_lem_example :
    (value_of 32 (get_ptc_type (set_ptc_type_flag some_flag 2)) ≡ 2)
    × ((b : ℕ) → b < 28 → check_flag (set_ptc_type_flag some_flag 2) b ≡ check_flag some_flag b)
set_ptc_type_flag_lem_example = set_ptc_type_flag_lem some_flag 2 (omega arith)

stagger_lem_example :
    (stagger_at (set_bit (bits_of 6) 1 false) 2
      ≡ (if 2 == 1 then (if false then 1 else 0) else stagger_at (bits_of 6) 2))
    × (stagger_at (flip (bits_of 6) 1) 2
        ≡ (if 2 == 1 then 1 - stagger_at (bits_of 6) 2 else stagger_at (bits_of 6) 2))
    × (stagger_at (complement (bits_of 6)) 2 ≡ 1 - stagger_at (bits_of 6) 2)
stagger_lem_example = stagger_lem (bits_of 6) 1 false 2 (omega arith)
