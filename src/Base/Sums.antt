-- ===== src/Base/Sums.antt =====
-- Sums over the first numbers, and that a permutation of the numbers keeps them.
use Prim.Native.Nat.{ℕ, zero, suc, ◌+◌, ◌<◌}
use mathlib.Core.Path.{◌≡◌, refl, ap, ap₂, ◌∙◌, sym}
use mathlib.Core.Logic.{◌≢◌, inl, inr}
use native.Mathlib.Omega.{arith}
use aperture4_nick.Base.Tests.{◌==◌, if◌then◌else◌, eq-cases, ==_ne, ==_refl, ==_eq}

-- g 0 + … + g (n - 1)
unfoldable pub sum : (ℕ → ℕ) → ℕ → ℕ
sum g zero = 0
sum g (suc n) = sum g n + g n

pub sum_none : (g : ℕ → ℕ) → sum g 0 ≡ 0
unfolding sum
sum_none g = refl

pub sum-suc : (g : ℕ → ℕ) (n : ℕ) → sum g (suc n) ≡ sum g n + g n
unfolding sum
sum-suc g n = refl

pub sum_ext : (g h : ℕ → ℕ) (n : ℕ) → ((i : ℕ) → i < n → g i ≡ h i) → sum g n ≡ sum h n
unfolding sum
sum_ext g h zero e = refl
sum_ext g h (suc n) e = ap₂ ◌+◌ (sum_ext g h n (λ i l. e i (omega arith))) (e n (omega arith))

pub sum-add : (g : ℕ → ℕ) (m n : ℕ) → sum g (m + n) ≡ sum g m + sum (λ i. g (m + i)) n
unfolding sum
sum-add g m zero = ap (sum g) {x = m + 0} {y = m} (omega arith) ∙ omega arith
sum-add g m (suc n) =
    ap (sum g) {x = m + suc n} {y = suc (m + n)} (omega arith) ∙ omega (arith, sum-add g m n)

pub sum_zero : (g : ℕ → ℕ) (n : ℕ) → ((i : ℕ) → i < n → g i ≡ 0) → sum g n ≡ 0
unfolding sum
sum_zero g zero e = refl
sum_zero g (suc n) e = omega (arith, sum_zero g n (λ i l. e i (omega arith)), e n (omega arith))

pub sum_plus : (g h : ℕ → ℕ) (n : ℕ) → sum (λ i. g i + h i) n ≡ sum g n + sum h n
unfolding sum
sum_plus g h zero = refl
sum_plus g h (suc n) = omega (arith, sum_plus g h n)

-- A sum with one term that may differ from 0.
pub sum_only : (g : ℕ → ℕ) (n k : ℕ) → k < n → ((i : ℕ) → i < n → i ≢ k → g i ≡ 0) → sum g n ≡ g k
unfolding sum
sum_only g zero k l e = absurd (omega arith)
sum_only g (suc n) k l e = elim (eq-cases k n) [
  | inl same ↦ omega (arith, ap g same, sum_zero g n (λ i h. e i (omega arith) (omega arith)))
  | inr ne ↦ omega (
    arith,
    sum_only g n k (omega arith) (λ i h. e i (omega arith)),
    e n (omega arith) (λ q. ne (sym q)),
  )
]

sum_swap : (g : ℕ → ℕ → ℕ) (m n : ℕ) → sum (λ i. sum (g i) n) m ≡ sum (λ j. sum (λ i. g i j) m) n
unfolding sum
sum_swap g zero n = sym (sum_zero (λ j. 0) n (λ i h. refl))
sum_swap g (suc m) n =
    ap (λ t. t + sum (g m) n) (sum_swap g m n) ∙ sym (sum_plus (λ j. sum (λ i. g i j) m) (g m) n)

-- `σ` permutes the numbers below `num`, with the inverse at hand.
pub record IsPermutation (σ : ℕ → ℕ) (num : ℕ) : Type 0 where
  pub within : (k : ℕ) → k < num → σ k < num
  pub apart : (k l : ℕ) → k < num → l < num → σ k ≡ σ l → k ≡ l
  pub onto : (a : ℕ) → a < num → (k : ℕ) × (k < num) × (σ k ≡ a)

-- Summed over both the places and the numbers that go there, each term counts once.
pub sum-permute : (g σ : ℕ → ℕ) (num : ℕ) → IsPermutation σ num → sum (λ k. g (σ k)) num ≡ sum g num
sum-permute g σ num p =
    sum_ext _ _ num (λ k l. sym (chosen k l))
    ∙ sum_swap (λ k a. if a == σ k then g a else 0) num num
    ∙ sum_ext _ _ num taken
  where
    chosen : (k : ℕ) → k < num → sum (λ a. if a == σ k then g a else 0) num ≡ g (σ k)
    chosen k l =
        sum_only _ num (σ k) (p.within k l) (λ a h ne. rw (==_ne a (σ k) ne)) ∙ rw (==_refl (σ k))

    taken : (a : ℕ) → a < num → sum (λ k. if a == σ k then g a else 0) num ≡ g a
    taken a l =
        let (k, k_in, e) = p.onto a l in
        sum_only _ num k k_in
          (λ j h ne. rw (==_ne a (σ j) (λ q. ne (p.apart j k h k_in (sym q ∙ sym e)))))
        ∙ rw (==_eq a (σ k) (sym e))
