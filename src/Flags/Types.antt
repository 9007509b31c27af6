-- ===== src/Flags/Types.antt =====
-- utils/util_functions.h: the type in the highest bits of a particle's flag.
use aperture4_nick.Base.{
  ℕ, zero, suc, ◌+◌, ◌*◌, ◌/◌, ◌^◌, if◌then◌else◌, fun_ext, ◌<◌, ◌≤◌, ◌≡◌, refl, arith, false, ap,
  ◌∙◌, sym,
}
use aperture4_nick.Flags.{
  Bits, bits_of, check_flag, get_ptc_type, gen_ptc_type_flag, set_ptc_type_flag, value_of,
}
use aperture4_nick.Flags.Checks.{check_flag-bit}

bits_of-zero : (i : ℕ) → bits_of 0 i ≡ false
unfolding bits_of
bits_of-zero zero = refl
bits_of-zero (suc i) = bits_of-zero i

bits_of-high : (n i : ℕ) → n < 16 → bits_of n (suc (suc (suc (suc i)))) ≡ false
unfolding bits_of
bits_of-high n i lt =
    ap (λ m. bits_of m i) {x = n / 2 / 2 / 2 / 2} {y = 0} (omega (arith, lt)) ∙ bits_of-zero i

beyond : (n i : ℕ) → n < 16 → 4 ≤ i → bits_of n i ≡ false
beyond n (suc (suc (suc (suc i)))) lt ge = bits_of-high n i lt
beyond n (suc (suc (suc zero))) lt ge = absurd (omega arith)
beyond n (suc (suc zero)) lt ge = absurd (omega arith)
beyond n (suc zero) lt ge = absurd (omega arith)
beyond n zero lt ge = absurd (omega arith)

value_of-ext : (w : ℕ) (a b : Bits) → ((i : ℕ) → a i ≡ b i) → value_of w a ≡ value_of w b
value_of-ext w a b same = ap (value_of w) (fun_ext same)

-- A word's value from its lowest bit and the others.
value_of-lowest :
    (w : ℕ) (a : Bits)
    → value_of (suc w) a ≡ (if a 0 then 1 else 0) + 2 * value_of w (λ i. a (suc i))
unfolding value_of
value_of-lowest zero a = ground arith
value_of-lowest (suc w) a = ground (arith, value_of-lowest w a)

value_of-bits_of : (w n : ℕ) → n < 2 ^ w → value_of w (bits_of n) ≡ n
unfolding value_of bits_of
value_of-bits_of zero n lt = omega (arith, lt)
value_of-bits_of (suc w) n lt =
    value_of-lowest w (bits_of n) ∙ ground (arith, value_of-bits_of w (n / 2) (omega (arith, lt)))

kept : (flag : Bits) (type i : ℕ) → i < 28 → set_ptc_type_flag flag type i ≡ flag i
unfolding set_ptc_type_flag gen_ptc_type_flag
kept flag type i lt = ground (arith, bits_of-zero (i + 4))

type_bit :
    (flag : Bits) (type i : ℕ)
    → type < 16
    → get_ptc_type (set_ptc_type_flag flag type) i ≡ bits_of type i
unfolding set_ptc_type_flag gen_ptc_type_flag get_ptc_type
type_bit flag type i lt = grind (arith, bits_of-zero (i + 28 + 4), beyond type i lt)

-- The type set last is the type read, as a word of 32 bits, if it has at most four bits; a flag below
-- the type's bits is as it was.
pub set_ptc_type_flag_lem :
    (flag : Bits) (type : ℕ)
    → type < 16
    → (value_of 32 (get_ptc_type (set_ptc_type_flag flag type)) ≡ type)
      × ((b : ℕ) → b < 28 → check_flag (set_ptc_type_flag flag type) b ≡ check_flag flag b)
unfolding get_ptc_type
set_ptc_type_flag_lem flag type lt = (
  value_of-ext 32 (get_ptc_type (set_ptc_type_flag flag type)) (bits_of type)
        (λ i. type_bit flag type i lt)
      ∙ value_of-bits_of 32 type (omega (arith, lt)),
  λ b below.
      check_flag-bit (set_ptc_type_flag flag type) b (omega (arith, below))
      ∙ kept flag type b below
      ∙ sym (check_flag-bit flag b (omega (arith, below))),
)
