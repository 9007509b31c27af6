-- ===== src/Particles/Rearrange/Invariant.antt =====
-- core/particles_functions.cpp, `ptc_rearrange_arrays`: what holds between two cycles and inside one.
use native.Mathlib.Nat.{add_comm}
use aperture4_nick.Base.{
  ℕ, zero, suc, ◌+◌, ◌≤◌, ◌<◌, ◌≡◌, ◌≢◌, refl, arith, ◌⊎◌, inl, inr, ◌==◌, if◌then◌else◌, Array,
  write, eq-cases,
}
use aperture4_nick.Particles.Rearrange.{done, Slots}

-- `index` sends the entries below `num` one to one into the slots of the segment.
pub record IsPlacement (index : Array ℕ) (offset num : ℕ) : Type 0 where
  pub low : (k : ℕ) → k < num → offset ≤ index k
  pub high : (k : ℕ) → k < num → index k < offset + num
  pub apart : (k l : ℕ) → k < num → l < num → index k ≡ index l → k ≡ l
  pub small : offset + num < done

-- How many of the first `n` entries are not done.
pub pending : Array ℕ → ℕ → ℕ
pending index zero = 0
pending index (suc n) = (if index n == done then 0 else 1) + pending index n

pub pending-le : (index : Array ℕ) (n : ℕ) → pending index n ≤ n
unfolding pending
pending-le index zero = omega arith
pending-le index (suc n) = ground (arith, pending-le index n)

pending_above :
    (index : Array ℕ) (n j : ℕ) → n ≤ j → pending (write index j done) n ≡ pending index n
unfolding pending
pending_above index zero j h = refl
pending_above index (suc n) j h = ground (arith, pending_above index n j)

-- Marking an entry leaves one fewer.
pub pending_mark :
    (index : Array ℕ) (n j : ℕ)
    → j < n
    → index j ≢ done
    → pending (write index j done) n + 1 ≡ pending index n
unfolding pending
pending_mark index zero j h ne = absurd (omega arith)
pending_mark index (suc n) j h ne = elim (eq-cases j n) [
  | inl e ↦ ground (arith, pending_above index n j)
  | inr other ↦ ground (arith, pending_mark index n j)
]

module _ {A : Type 0} (s₀ s : Slots A) (offset num : ℕ) where
  -- An entry is done and its particle has arrived, or neither it nor its particle has changed.
  abbrev pub Settled : ℕ → Type 0
  Settled k =
      ((s.index k ≡ done) × (s.ptcs (s₀.index k) ≡ s₀.ptcs (offset + k)))
      ⊎ ((s.index k ≡ s₀.index k) × (s.ptcs (offset + k) ≡ s₀.ptcs (offset + k)))

  -- The particle that belongs into slot `k` has arrived.
  abbrev pub HasSource : ℕ → Type 0
  HasSource k = (m : ℕ) × (m < num) × (s.index m ≡ done) × (s₀.index m ≡ offset + k)

  -- Between two cycles: `s₀` is the state at the start.
  pub record Between : Type 0 where
    pub settled : (k : ℕ) → k < num → Settled k
    pub sourced : (k : ℕ) → k < num → s.index k ≡ done → HasSource k
    pub outside : (a : ℕ) → (a < offset) ⊎ (offset + num ≤ a) → s.ptcs a ≡ s₀.ptcs a

  -- Inside the cycle of `i`, at the entry `j`, with its particle in `p_tmp`.
  pub record Inside (i j : ℕ) (p_tmp : A) : Type 0 where
    pub i_in : i < num
    pub j_in : j < num
    pub here : s.index j ≡ s₀.index j
    pub held : p_tmp ≡ s₀.ptcs (offset + j)
    pub settled : (k : ℕ) → k < num → k ≢ j → Settled k
    pub sourced : (k : ℕ) → k < num → k ≢ i → s.index k ≡ done → HasSource k
    pub started : (j ≡ i) ⊎ ((s.index i ≡ done) × HasSource j)
    pub outside : (a : ℕ) → (a < offset) ⊎ (offset + num ≤ a) → s.ptcs a ≡ s₀.ptcs a

pub start-Between :
    {A : Type 0} (s : Slots A) (offset num : ℕ)
    → IsPlacement s.index offset num
    → Between s s offset num
start-Between s offset num p = record {
  settled = λ k h. inr (refl, refl);
  sourced = λ k h e. absurd (omega (arith, p.high k h, p.small));
  outside = λ a h. refl;
}

-- An entry that is not done opens its cycle.
pub Between-Inside :
    {A : Type 0} (s₀ s : Slots A) (offset num i : ℕ)
    → Between s₀ s offset num
    → i < num
    → s.index i ≢ done
    → Inside s₀ s offset num i i (s.ptcs (i + offset))
Between-Inside s₀ s offset num i b h ne = record {
  i_in = h;
  j_in = h;
  here = ground (arith, b.settled i h);
  held = rw (add_comm i offset) (ground (arith, b.settled i h));
  settled = λ k l _. b.settled k l;
  sourced = λ k l _. b.sourced k l;
  started = inl refl;
  outside = b.outside;
}
