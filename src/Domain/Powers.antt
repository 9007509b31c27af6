-- ===== src/Domain/Powers.antt =====
-- utils/util_functions.h: `next_power_of_two`.
use aperture4_nick.Base.{
  ℕ, zero, suc, ◌+◌, ◌*◌, ◌%◌, ◌^◌, ◌≤◌, ◌<◌, ◌≡◌, refl, sym, ap, ◌∙◌, arith, ltb-lt, ltb-ge,
  lt-cases, inl, inr, some, eq-cases,
}
use aperture4_nick.Domain.{next_power_from, next_power_of_two}

power_suc : (k : ℕ) → 2 ^ suc k ≡ 2 ^ k * 2
power_suc k = ground arith

power_pos : (k : ℕ) → 0 < 2 ^ k
power_pos zero = omega arith
power_pos (suc k) = omega (arith, power_pos k, power_suc k)

le_mul : (m n k : ℕ) → 0 < n → m * n ≡ k → m ≤ k
le_mul m zero k h e = absurd (omega arith)
le_mul m (suc n) k h e = let d : m * suc n ≡ m + m * n = grind arith in omega (arith, d, e)

move_two : (m n : ℕ) → m * 2 * n ≡ m * (n * 2)
move_two m n = grind arith

-- From 2^k on, where the powers before are too small and 2^r times as much is 2^31.
from_power :
    (r k num : ℕ)
    → num ≤ 2 ^ 31
    → 2 ^ k * 2 ^ r ≡ 2 ^ 31
    → ((j : ℕ) → j < k → 2 ^ j < num)
    → (l : ℕ) × (next_power_from (suc (suc r)) num (2 ^ k) ≡ some (2 ^ l))
      × (num ≤ 2 ^ l)
      × ((j : ℕ) → j < l → 2 ^ j < num)
unfolding next_power_from
from_power zero k num small e before =
    let enough : num ≤ 2 ^ k = omega (arith, e) in
    (k, rw (ltb-ge (2 ^ k) num enough) refl, enough, before)
from_power (suc r) k num small e before = elim (lt-cases (2 ^ k) num) [
  | inr enough ↦ (k, rw (ltb-ge (2 ^ k) num enough) refl, enough, before)
  | inl more ↦
      let split : 2 ^ suc k * 2 ^ r ≡ 2 ^ 31 =
        ap (λ t. t * 2 ^ r) (power_suc k)
        ∙ move_two (2 ^ k) (2 ^ r)
        ∙ ap (λ t. 2 ^ k * t) (sym (power_suc r))
        ∙ e in
      let le : 2 ^ suc k ≤ 2 ^ 31 = le_mul (2 ^ suc k) (2 ^ r) (2 ^ 31) (power_pos r) split in
      let next : (2 ^ k * 2) % 2 ^ 32 ≡ 2 ^ suc k = omega (arith, le, power_suc k) in
      let (l, f, enough, below) = from_power r (suc k) num small split (λ j h. elim (eq-cases j k) [
        | inl same ↦ omega (arith, more, ap (λ i. 2 ^ i) same)
        | inr ne ↦ before j (omega arith)
      ]) in
      (
        l,
        rw (ltb-lt (2 ^ k) num more) (ap (next_power_from (suc (suc r)) num) next ∙ f),
        enough,
        below,
      )
]

-- Up to 2^31 the loop ends, at the least power of two that is not smaller.
pub next_power_of_two_lem :
    (num : ℕ)
    → num ≤ 2 ^ 31
    → (l : ℕ) × (next_power_of_two num ≡ some (2 ^ l))
      × (num ≤ 2 ^ l)
      × ((j : ℕ) → j < l → 2 ^ j < num)
unfolding next_power_of_two
next_power_of_two_lem num small = from_power 31 0 num small refl (λ j h. absurd (omega arith))
