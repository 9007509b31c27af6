-- ===== src/Particles/Sort/Passes.antt =====
-- core/particles_functions.cpp, `ptc_sort_by_cell`: what the three passes over a segment compute.
use aperture4_nick.Base.{
  ℕ, zero, suc, ◌+◌, ◌-◌, ◌%◌, ◌^◌, ◌≤◌, ◌<◌, ◌≡◌, refl, ap, arith, inl, inr, Array, write,
  eq-cases,
}
use aperture4_nick.Particles.Sort.{Scratch, count_pass, place_pass, scan_pass}
use aperture4_nick.Particles.Sort.Ranks.{count, below, below_pred, count_step, rank}

module _ (key : ℕ → ℕ) where
  -- After `i` rounds of the count.
  pub record Counted (i : ℕ) (s : Scratch) : Type 0 where
    pub first : s.partition 0 ≡ 0
    pub tally : (c : ℕ) → s.partition (c + 1) ≡ count key i c
    pub place : (j : ℕ) → j < i → s.index j ≡ count key j (key j)

  pub count_pass-Counted :
      (n i t : ℕ) (s : Scratch) → i + n ≡ t → Counted i s → Counted t (count_pass key n i s)
  unfolding count_pass
  count_pass-Counted zero i t s e v = let e' : t ≡ i = omega arith in rw e' v
  count_pass-Counted (suc n) i t s e v = count_pass-Counted n (i + 1) t _ (omega arith) (record {
    first = ground (arith, v.first);
    tally = λ c. tally_next c;
    place = λ j h. ground (arith, v.place j, v.tally (key i));
  })
    where
      tally_next :
          (c : ℕ)
          → write s.partition (key i + 1) (s.partition (key i + 1) + 1) (c + 1)
            ≡ count key (i + 1) c
      tally_next c = ground (arith, v.tally c, v.tally (key i), count_step key i c)

  -- After the running sum has passed `c`.
  pub scan_pass_lem :
      (m n i t : ℕ) (p : Array ℕ)
      → i + n ≡ t
      → t < 2 ^ 32
      → 0 < i
      → ((c : ℕ) → c < i → p c ≡ below key m c)
      → ((c : ℕ) → i ≤ c → p c ≡ count key m (c - 1))
      → (c : ℕ) → c < t
      → scan_pass n i p c ≡ below key m c
  unfolding scan_pass
  scan_pass_lem m zero i t p e t_lt pos done rest c h = done c (omega arith)
  scan_pass_lem m (suc n) i t p e t_lt pos done rest c h =
      let next : (i + 1) % 2 ^ 32 ≡ i + 1 = omega arith in
      rw next (
        scan_pass_lem m n (i + 1) t _ (omega arith) t_lt (omega arith) done_next
          (λ d l. rest_next d l) c h)
    where
      done_next : (d : ℕ) → d < i + 1 → write p i (p i + p (i - 1)) d ≡ below key m d
      done_next d l = elim (eq-cases d i) [
        | inl e ↦ ground (arith, rest i, done (i - 1), below_pred key m i pos, ap (below key m) e)
        | inr ne ↦ ground (arith, done d)
      ]

      rest_next : (d : ℕ) → i + 1 ≤ d → write p i (p i + p (i - 1)) d ≡ count key m (d - 1)
      rest_next d l = ground (arith, rest d)

  -- After `i` rounds of the last pass; the entries from `i` on still hold their place in the cell.
  pub record Placing (offset m i : ℕ) (s : Scratch) : Type 0 where
    pub base : (c : ℕ) → (j : ℕ) → j < m → key j ≡ c → s.partition c ≡ below key m c
    pub placed : (j : ℕ) → j < i → s.index j ≡ offset + rank key m j
    pub place : (j : ℕ) → i ≤ j → j < m → s.index j ≡ count key j (key j)

  pub place_pass-Placing :
      (offset m n i : ℕ) (s : Scratch)
      → i + n ≡ m
      → Placing offset m i s
      → Placing offset m m (place_pass key offset n i s)
  unfolding place_pass
  place_pass-Placing offset m zero i s e v = record {
    base = v.base;
    placed = λ j h. v.placed j (omega arith);
    place = λ j h l. v.place j (omega arith) l;
  }
  place_pass-Placing offset m (suc n) i s e v =
      place_pass-Placing offset m n (i + 1) _ (omega arith) (record {
        base = v.base;
        placed = λ j h.
            ground
              (arith, v.placed j, v.place j, v.base (key j) j, ap (rank key m) {x = j} {y = i});
        place = λ j h l. ground (arith, v.place j);
      })

  pub partition-place_pass :
      (offset n i : ℕ) (s : Scratch) → (place_pass key offset n i s).partition ≡ s.partition
  unfolding place_pass
  partition-place_pass offset zero i s = refl
  partition-place_pass offset (suc n) i s = partition-place_pass offset n (i + 1) _
