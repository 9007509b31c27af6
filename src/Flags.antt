-- ===== src/Flags.antt =====
-- utils/util_functions.h and utils/stagger.h: the flags of a particle, the type that its highest bits
-- hold, and the staggering of a field, as words given by their bits.
pub mod Checks
pub mod Types
pub mod Stagger
mod Tests
use aperture4_nick.Base.{
  ℕ, zero, suc, ◌+◌, ◌-◌, ◌*◌, ◌/◌, ◌%◌, ◌^◌, Bool, true, false, not, ◌&&◌, ◌||◌, List, [], ◌∷◌,
  ltb, leb, ◌==◌, if◌then◌else◌,
}

-- A word is the function from positions to bits, the lowest at 0.
abbrev pub Bits : Type 0
Bits = ℕ → Bool

abbrev pub differ : Bool → Bool → Bool
differ true b = not b
differ false b = b

-- The operators of the language, at `w` bits where the width matters. A left shift by the width or
-- more, which is undefined in the source, gives 0.
abbrev pub bit_and : Bits → Bits → Bits
bit_and a b i = a i && b i

abbrev pub bit_or : Bits → Bits → Bits
bit_or a b i = a i || b i

abbrev pub bit_xor : Bits → Bits → Bits
bit_xor a b i = differ (a i) (b i)

abbrev pub complement_bits : ℕ → Bits → Bits
complement_bits w a i = ltb i w && not (a i)

abbrev pub shift_left : ℕ → ℕ → Bits → Bits
shift_left w k a i = leb k i && ltb i w && a (i - k)

abbrev pub shift_right : ℕ → ℕ → Bits → Bits
shift_right w k a i = ltb (i + k) w && a (i + k)

abbrev pub truncate : ℕ → Bits → Bits
truncate w a i = ltb i w && a i

-- The bits of a number, the test `!= 0`, and the number that a word stands for.
unfoldable pub bits_of : ℕ → Bits
bits_of n zero = n % 2 == 1
bits_of n (suc i) = bits_of (n / 2) i

unfoldable pub is_nonzero : ℕ → Bits → Bool
is_nonzero zero a = false
is_nonzero (suc w) a = a w || is_nonzero w a

unfoldable pub value_of : ℕ → Bits → ℕ
value_of zero a = 0
value_of (suc w) a = value_of w a + (if a w then 2 ^ w else 0)

abbrev pub one : Bits
one i = i == 0

unfoldable pub check_flag : Bits → ℕ → Bool
check_flag flag bit = is_nonzero 32 (bit_and flag (shift_left 32 bit one))

-- `flag_or` of one or more bits.
unfoldable pub flag_or : ℕ → List ℕ → Bits
flag_or bit [] = shift_left 32 bit one
flag_or bit (next ∷ bits) = bit_or (shift_left 32 bit one) (flag_or next bits)

unfoldable pub set_flag : Bits → ℕ → List ℕ → Bits
set_flag flag bit bits = bit_or flag (flag_or bit bits)

unfoldable pub clear_flag : Bits → ℕ → List ℕ → Bits
clear_flag flag bit bits = bit_and flag (complement_bits 32 (flag_or bit bits))

unfoldable pub toggle_flag : Bits → ℕ → List ℕ → Bits
toggle_flag flag bit bits = bit_xor flag (flag_or bit bits)

-- The type of a particle, in the highest four bits of its flag.
abbrev pub max_ptc_type_bits : ℕ
max_ptc_type_bits = 4

unfoldable pub get_ptc_type : Bits → Bits
get_ptc_type flag = shift_right 32 (32 - max_ptc_type_bits) flag

unfoldable pub gen_ptc_type_flag : ℕ → Bits
gen_ptc_type_flag type = shift_left 32 (32 - max_ptc_type_bits) (bits_of type)

unfoldable pub set_ptc_type_flag : Bits → ℕ → Bits
set_ptc_type_flag flag type =
    bit_or (bit_and flag (shift_right 32 max_ptc_type_bits (complement_bits 32 (bits_of 0))))
      (gen_ptc_type_flag type)

-- The staggering of a field: a byte, of which the lowest three bits are used. The operators compute in
-- wider words, and a byte keeps their lowest eight bits.
unfoldable pub stagger_at : Bits → ℕ → ℕ
stagger_at stagger i = value_of 8 (bit_and (shift_right 8 i stagger) one)

-- The negation of 0 or 1 as an `unsigned long`: no bit set, or every one.
abbrev negated : Bool → Bits
negated i j = ltb j 64 && i

unfoldable pub set_bit : Bits → ℕ → Bool → Bits
set_bit stagger bit i =
    truncate 8 (bit_xor stagger (bit_and (bit_xor (negated i) stagger) (shift_left 64 bit one)))

unfoldable pub flip : Bits → ℕ → Bits
flip stagger n = truncate 8 (bit_xor stagger (shift_left 64 n one))

unfoldable pub complement : Bits → Bits
complement stagger = truncate 8 (complement_bits 32 stagger)
