-- ===== src/Comm/Delivered.antt =====
-- core/particles_functions.cpp, `ptc_copy_to_comm_buffers`: the whole loop.
use aperture4_nick.Base.{
  ℕ, zero, suc, ◌+◌, ◌≤◌, ◌<◌, ◌≡◌, refl, ap, ◌∙◌, arith, some, inl, inr, Bool-cases, subst, ltb-lt,
}
use aperture4_nick.Grid.{Grid}
use aperture4_nick.Comm.{Buffers, copy_one, copy_loop, copy_to_comm_buffers}
use aperture4_nick.Comm.Outgoing.{
  leaves, zone_of, Sent, after_send, copy_one-stays, copy_one-leaves, stays-Sent, leaves-Sent,
  length-outgoing,
}

module _ (grid : Grid) {S : Type 0} (capacity : ℕ) where
  step-Sent :
      (n : ℕ) (before s : Buffers S)
      → n < capacity
      → Sent grid n before s
      → (s' : Buffers S) × (copy_one grid capacity n s ≡ some s') × Sent grid (n + 1) before s'
  step-Sent n before s l v =
      let here = v.rest n (omega arith) in
      let next : suc n ≡ n + 1 = omega arith in
      elim (Bool-cases (leaves grid (before.ptcs n))) [
        | inl h ↦
            let count = v.counts (zone_of grid (before.ptcs n)) in
            let fits : s.nums (zone_of grid (s.ptcs n)) < capacity =
              rw here (
                omega (arith, length-outgoing grid before.ptcs (zone_of grid (before.ptcs n)) n)) in
            (
              after_send grid (before.ptcs n) n s,
              copy_one-leaves grid capacity n s (ap (leaves grid) here ∙ h) fits
                  ∙ ap (λ p. some (after_send grid p n s)) here,
              subst (λ m. Sent grid m before (after_send grid (before.ptcs n) n s)) next
                  (leaves-Sent grid n before s v h),
            )
        | inr h ↦ (
          s,
          copy_one-stays grid capacity n s (ap (leaves grid) here ∙ h),
          subst (λ m. Sent grid m before s) next (stays-Sent grid n before s v h),
        )
      ]

  loop-Sent :
      (rounds n number : ℕ) (before s : Buffers S)
      → n + rounds ≡ number
      → number ≤ capacity
      → Sent grid n before s
      → (s' : Buffers S) × (copy_loop grid capacity rounds n s ≡ some s')
        × Sent grid number before s'
  unfolding copy_loop
  loop-Sent zero n number before s e fits v =
      let n' : n ≡ number = omega arith in (s, refl, subst (λ m. Sent grid m before s) n' v)
  loop-Sent (suc rounds) n number before s e fits v =
      let (s₁, returns, v₁) = step-Sent n before s (omega arith) v in
      let (s₂, returns₂, v₂) = loop-Sent rounds (n + 1) number before s₁ (omega arith) fits v₁ in
      (s₂, rw (returns, copy_loop) returns₂, v₂)

  pub copy_to_comm_buffers_lem :
      (number : ℕ) (before : Buffers S)
      → 0 < number
      → number ≤ capacity
      → (s : Buffers S) × (copy_to_comm_buffers grid capacity number before ≡ some s)
        × Sent grid number before s
  unfolding copy_to_comm_buffers
  copy_to_comm_buffers_lem number before h fits =
      let cleared : Buffers S = record before { nums = λ z. 0 } in
      let start : Sent grid 0 before cleared = record {
        slots = λ a l. absurd (omega arith);
        rest = λ a l. refl;
        counts = λ zone. refl;
        contents = λ zone k p e. absurd (ground arith);
      } in
      let (s, returns, v) = loop-Sent number 0 number before cleared (omega arith) fits start in
      (s, rw (ltb-lt 0 number h) returns, v)
