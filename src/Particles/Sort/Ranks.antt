-- ===== src/Particles/Sort/Ranks.antt =====
-- core/particles_functions.cpp, `ptc_sort_by_cell`: where a stable sort by key puts an entry.
use native.Mathlib.Numerals.{add-one}
use aperture4_nick.Base.{
  ℕ, zero, suc, ◌+◌, ◌-◌, ◌≤◌, ◌<◌, ◌≡◌, refl, sym, ◌↔◌, arith, ◌⊎◌, inl, inr, ◌==◌, ltb,
  if◌then◌else◌, eq-cases, lt-cases,
}

module _ (key : ℕ → ℕ) where
  -- How many of the first `n` entries have the key `c`, and how many have a smaller one.
  unfoldable pub count : ℕ → ℕ → ℕ
  count zero c = 0
  count (suc n) c = count n c + (if key n == c then 1 else 0)

  unfoldable pub below : ℕ → ℕ → ℕ
  below zero c = 0
  below (suc n) c = below n c + (if ltb (key n) c then 1 else 0)

  -- Entry `i` of `n` comes after the smaller keys and after the earlier entries of its own key.
  abbrev pub rank : ℕ → ℕ → ℕ
  rank n i = below n (key i) + count i (key i)

  pub count_zero : (c : ℕ) → count 0 c ≡ 0
  unfolding count
  count_zero c = refl

  pub below_zero : (n : ℕ) → below n 0 ≡ 0
  unfolding below
  below_zero zero = refl
  below_zero (suc n) = ground (arith, below_zero n)

  pub below-suc : (n c : ℕ) → below n (suc c) ≡ below n c + count n c
  unfolding below count
  below-suc zero c = omega arith
  below-suc (suc n) c = ground (arith, below-suc n c)

  pub below_pred : (n c : ℕ) → 0 < c → below n c ≡ below n (c - 1) + count n (c - 1)
  below_pred n zero h = absurd (omega arith)
  below_pred n (suc c) h = let e : suc c - 1 ≡ c = omega arith in rw e (below-suc n c)

  pub count_step : (i c : ℕ) → count (i + 1) c ≡ count i c + (if key i == c then 1 else 0)
  unfolding count
  count_step i c = rw (add-one i) refl

  below_mono : (n c d : ℕ) → c ≤ d → below n c ≤ below n d
  unfolding below
  below_mono zero c d h = omega arith
  below_mono (suc n) c d h = ground (arith, below_mono n c d h)

  pub below-le : (n c : ℕ) → below n c ≤ n
  unfolding below
  below-le zero c = omega arith
  below-le (suc n) c = ground (arith, below-le n c)

  pub below_all : (n c : ℕ) → ((k : ℕ) → k < n → key k < c) → below n c ≡ n
  unfolding below
  below_all zero c h = refl
  below_all (suc n) c h = ground (arith, below_all n c (λ k l. h k (omega arith)), h n)

  count_mono : (m n c : ℕ) → m ≤ n → count m c ≤ count n c
  unfolding count
  count_mono m zero c h = let e : m ≡ 0 = omega arith in rw e (omega arith)
  count_mono m (suc n) c h = elim (eq-cases m (suc n)) [
    | inl e ↦ rw e (omega arith)
    | inr ne ↦ ground (arith, count_mono m n c (omega arith))
  ]

  count_next : (i c : ℕ) → key i ≡ c → count (suc i) c ≡ count i c + 1
  unfolding count
  count_next i c e = ground arith

  pub count-lt : (i n c : ℕ) → i < n → key i ≡ c → count i c < count n c
  count-lt i n c h e = omega (arith, count_next i c e, count_mono (suc i) n c h)

  pub rank-lt-below : (n i : ℕ) → i < n → rank n i < below n (suc (key i))
  rank-lt-below n i h = omega (arith, below-suc n (key i), count-lt i n (key i) h refl)

  -- Ranks follow the keys, and within a key the old order.
  pub rank_mono :
      (n i j : ℕ) → i < n → (key i < key j) ⊎ ((key i ≡ key j) × (i < j)) → rank n i < rank n j
  rank_mono n i j h (inl l) =
      omega (arith, rank-lt-below n i h, below_mono n (suc (key i)) (key j) l)
  rank_mono n i j h (inr (e, l)) = rw e (omega (arith, count-lt i j (key j) l e))

  pub rank-lt : (n i : ℕ) → i < n → rank n i < n
  rank-lt n i h = omega (arith, rank-lt-below n i h, below-le n (suc (key i)))

  pub rank_apart : (n i j : ℕ) → i < n → j < n → rank n i ≡ rank n j → i ≡ j
  rank_apart n i j hi hj e = elim (lt-cases (key i) (key j)) [
    | inl l ↦ absurd (omega (arith, rank_mono n i j hi (inl l)))
    | inr le ↦ elim (lt-cases (key j) (key i)) [
      | inl l ↦ absurd (omega (arith, rank_mono n j i hj (inl l)))
      | inr ge ↦ same_key (omega arith)
    ]
  ]
    where
      same_key : key i ≡ key j → i ≡ j
      same_key k = elim (lt-cases i j) [
        | inl l ↦ absurd (omega (arith, rank_mono n i j hi (inr (k, l))))
        | inr ge ↦ elim (lt-cases j i) [
          | inl l ↦ absurd (omega (arith, rank_mono n j i hj (inr (sym k, l))))
          | inr le ↦ omega arith
        ]
      ]

  -- A rank that is no larger belongs to a key that is no larger.
  pub key-le-of_rank-le : (n i j : ℕ) → j < n → rank n i ≤ rank n j → key i ≤ key j
  key-le-of_rank-le n i j h e = elim (lt-cases (key j) (key i)) [
    | inl l ↦ absurd (omega (arith, rank_mono n j i h (inl l)))
    | inr le ↦ le
  ]

  pub find_entry : (n c t : ℕ) → t < count n c → (i : ℕ) × (i < n) × (key i ≡ c) × (count i c ≡ t)
  unfolding count
  find_entry zero c t h = absurd (omega arith)
  find_entry (suc n) c t h = elim (lt-cases t (count n c)) [
    | inl l ↦ let (i, i_in, i_key, i_count) = find_entry n c t l in (i, omega arith, i_key, i_count)
    | inr g ↦ elim (eq-cases (key n) c) [
      | inl e ↦ (n, omega arith, e, ground arith)
      | inr ne ↦ absurd (ground arith)
    ]
  ]

  find_key : (n c a : ℕ) → a < below n c → (d : ℕ) × (below n d ≤ a) × (a < below n d + count n d)
  find_key n zero a h = absurd (omega (arith, below_zero n))
  find_key n (suc c) a h = elim (lt-cases a (below n c)) [
    | inl l ↦ find_key n c a l
    | inr g ↦ (c, g, omega (arith, below-suc n c))
  ]

  -- Every slot is the rank of one entry.
  pub find_rank :
      (n c a : ℕ) → ((k : ℕ) → k < n → key k < c) → a < n → (i : ℕ) × (i < n) × (rank n i ≡ a)
  find_rank n c a small h =
      let (d, from, upto) = find_key n c a (omega (arith, below_all n c small)) in
      let (i, i_in, i_key, i_count) = find_entry n d (a - below n d) (omega arith) in
      (i, i_in, rw i_key (omega arith))

  -- The slots below `below n c` are those of the smaller keys.
  pub rank-lt-below_iff : (n c i : ℕ) → i < n → (rank n i < below n c) ↔ (key i < c)
  rank-lt-below_iff n c i h = (
    (λ l. elim (lt-cases (key i) c) [
      | inl k ↦ k
      | inr g ↦ absurd (omega (arith, below_mono n c (key i) g))
    ]),
    (λ l. omega (arith, rank-lt-below n i h, below_mono n (suc (key i)) c l)),
  )
