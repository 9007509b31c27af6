-- ===== src/Search/Bisect.antt =====
-- The loop that both searches of utils/binary_search.h run, over a test that switches once.
use aperture4_nick.Base.{
  ℕ, zero, suc, ◌+◌, ◌-◌, ◌/◌, ◌≤◌, ◌<◌, ◌≡◌, Bool, true, false, arith, ltb, ltb-lt, ltb-ge,
  if◌then◌else◌, inl, inr, Bool-cases, lt-cases,
}

unfoldable pub bisect : (ℕ → Bool) → ℕ → ℕ → ℕ → ℕ
bisect p zero low high = low
bisect p (suc fuel) low high =
    let mid : ℕ = low + (high - low) / 2 in
    let left = bisect p fuel low mid in
    let right = bisect p fuel (mid + 1) high in
    if ltb low high then (if p mid then left else right) else low

-- `r` is where `p` switches from false to true among the indices below `size`.
pub record Splits (p : ℕ → Bool) (size r : ℕ) : Type 0 where
  pub within : r ≤ size
  pub before : (k : ℕ) → k < r → p k ≡ false
  pub after : (k : ℕ) → r ≤ k → k < size → p k ≡ true

-- Once true, `p` stays true below `size`.
abbrev pub Switches : (ℕ → Bool) → ℕ → Type 0
Switches p size = (i j : ℕ) → i ≤ j → j < size → p i ≡ true → p j ≡ true

module _ (p : ℕ → Bool) (size : ℕ) (mono : Switches p size) where
  false_below : (k mid : ℕ) → k ≤ mid → mid < size → p mid ≡ false → p k ≡ false
  false_below k mid h lt e = elim (Bool-cases (p k)) [
    | inl t ↦ ground (arith, mono k mid h lt t)
    | inr f ↦ f
  ]

  pub bisect-Splits :
      (fuel low high : ℕ)
      → high - low < fuel
      → low ≤ high
      → high ≤ size
      → ((k : ℕ) → k < low → p k ≡ false)
      → ((k : ℕ) → high ≤ k → k < size → p k ≡ true)
      → Splits p size (bisect p fuel low high)
  unfolding bisect
  bisect-Splits zero low high f le hs lo hi = absurd (omega arith)
  bisect-Splits (suc fuel) low high f le hs lo hi = elim (lt-cases low high) [
    | inr stop ↦ rw (ltb-ge low high stop) (record {
      within = omega arith;
      before = lo;
      after = λ k above under. hi k (omega arith) under;
    })
    | inl go ↦ elim (Bool-cases (p (low + (high - low) / 2))) [
      | inl t ↦
          rw (ltb-lt low high go, t)
            (bisect-Splits fuel low (low + (high - low) / 2) (omega arith) (omega arith)
              (omega arith) lo (λ k above under. mono (low + (high - low) / 2) k above under t))
      | inr t ↦
          rw (ltb-lt low high go, t)
            (bisect-Splits fuel (low + (high - low) / 2 + 1) high (omega arith) (omega arith)
              (omega arith)
              (λ k under. false_below k (low + (high - low) / 2) (omega arith) (omega arith) t) hi)
    ]
  ]

-- Started on the whole array, one round more than the size is fuel enough.
pub bisect_all :
    (p : ℕ → Bool) (size : ℕ) → Switches p size → Splits p size (bisect p (suc size) 0 size)
bisect_all p size mono =
    bisect-Splits p size mono (suc size) 0 size (omega arith) (omega arith) (omega arith)
      (λ k h. absurd (omega arith)) (λ k h l. absurd (omega arith))
