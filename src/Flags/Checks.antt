-- ===== src/Flags/Checks.antt =====
-- utils/util_functions.h: setting, clearing and toggling flags, as `check_flag` sees them.
use aperture4_nick.Base.{
  ℕ, zero, suc, ◌<◌, ◌≡◌, arith, Bool, not, ◌&&◌, ◌||◌, List, [], ◌∷◌, ltb, ◌==◌, ap, ap₂, ◌∙◌, sym,
  ltb-lt,
}
use aperture4_nick.Flags.{
  Bits, differ, is_nonzero, one, shift_left, bit_and, check_flag, flag_or, set_flag, clear_flag,
  toggle_flag,
}

-- Is `b` one of the bits?
unfoldable pub is_among : ℕ → ℕ → List ℕ → Bool
is_among b bit [] = b == bit
is_among b bit (next ∷ bits) = (b == bit) || is_among b next bits

single : (w : ℕ) (bit i : ℕ) → i < w → shift_left w bit one i ≡ (i == bit)
single w bit i lt = ground arith

is_nonzero-masked :
    (w bit : ℕ) (a : Bits)
    → bit < 32
    → is_nonzero w (bit_and a (shift_left 32 bit one)) ≡ (ltb bit w && a bit)
unfolding is_nonzero
is_nonzero-masked zero bit a lt = ground arith
is_nonzero-masked (suc w) bit a lt = grind (arith, is_nonzero-masked w bit a lt, single 32 bit w)

pub check_flag-bit : (a : Bits) (bit : ℕ) → bit < 32 → check_flag a bit ≡ a bit
unfolding check_flag
check_flag-bit a bit lt = is_nonzero-masked 32 bit a lt ∙ ground arith

flag_or-is_among : (b bit : ℕ) (bits : List ℕ) → b < 32 → flag_or bit bits b ≡ is_among b bit bits
unfolding flag_or is_among
flag_or-is_among b bit [] lt = single 32 bit b lt
flag_or-is_among b bit (next ∷ bits) lt =
    ap₂ ◌||◌ (single 32 bit b lt) (flag_or-is_among b next bits lt)

-- After `set_flag` a flag is set if it was or is one of the given; after `clear_flag` if it was and is
-- none of them; after `toggle_flag` if exactly one of both holds, so that a flag given twice is
-- toggled once.
pub flags_lem :
    (flag : Bits) (bit : ℕ) (bits : List ℕ) (b : ℕ)
    → b < 32
    → (check_flag (set_flag flag bit bits) b ≡ (check_flag flag b || is_among b bit bits))
      × (check_flag (clear_flag flag bit bits) b ≡ (check_flag flag b && not (is_among b bit bits)))
      × (check_flag (toggle_flag flag bit bits) b
          ≡ differ (check_flag flag b) (is_among b bit bits))
unfolding set_flag clear_flag toggle_flag
flags_lem flag bit bits b lt = (
  check_flag-bit (set_flag flag bit bits) b lt
      ∙ ap₂ ◌||◌ (sym (check_flag-bit flag b lt)) (flag_or-is_among b bit bits lt),
  check_flag-bit (clear_flag flag bit bits) b lt
      ∙ ap₂ ◌&&◌ (sym (check_flag-bit flag b lt)) (
          ap (λ in_range. in_range && not (flag_or bit bits b)) (ltb-lt b 32 lt)
          ∙ ap not (flag_or-is_among b bit bits lt)),
  check_flag-bit (toggle_flag flag bit bits) b lt
      ∙ ap₂ differ (sym (check_flag-bit flag b lt)) (flag_or-is_among b bit bits lt),
)
