-- ===== src/Flags/Stagger.antt =====
-- utils/stagger.h: reading and changing the staggering of one direction.
use aperture4_nick.Base.{ℕ, zero, suc, ◌-◌, ◌<◌, ◌≡◌, arith, Bool, ◌==◌, if◌then◌else◌, ◌∙◌}
use aperture4_nick.Flags.{
  Bits, value_of, bit_and, one, shift_right, stagger_at, set_bit, flip, complement,
}

value_of-one : (w : ℕ) (a : Bits) → value_of (suc w) (bit_and a one) ≡ (if a 0 then 1 else 0)
unfolding value_of
value_of-one zero a = ground arith
value_of-one (suc w) a = ground (arith, value_of-one w a)

stagger_at-bit : (s : Bits) (i : ℕ) → i < 8 → stagger_at s i ≡ (if s i then 1 else 0)
unfolding stagger_at
stagger_at-bit s i lt = value_of-one 7 (shift_right 8 i s) ∙ ground arith

-- In the byte's eight directions: `set_bit` sets the direction it is given and no other, `flip` turns
-- the one and no other, and `complement` turns every one.
pub stagger_lem :
    (s : Bits) (n : ℕ) (b : Bool) (i : ℕ)
    → i < 8
    → (stagger_at (set_bit s n b) i ≡ (if i == n then (if b then 1 else 0) else stagger_at s i))
      × (stagger_at (flip s n) i ≡ (if i == n then 1 - stagger_at s i else stagger_at s i))
      × (stagger_at (complement s) i ≡ 1 - stagger_at s i)
unfolding set_bit flip complement
stagger_lem s n b i lt = (
  stagger_at-bit (set_bit s n b) i lt ∙ ground (arith, stagger_at-bit s i lt),
  stagger_at-bit (flip s n) i lt ∙ ground (arith, stagger_at-bit s i lt),
  stagger_at-bit (complement s) i lt ∙ ground (arith, stagger_at-bit s i lt),
)
