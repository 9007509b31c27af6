-- ===== src/Injector/Filled.antt =====
-- systems/ptc_injector_host.hpp: what the loops of `inject_pairs` have written, if every count is even.
use mathlib.Core.Path.{subst₂}
use aperture4_nick.Base.{
  ℕ, zero, suc, ◌+◌, ◌*◌, ◌/◌, ◌%◌, ◌^◌, ◌≤◌, ◌<◌, ◌≡◌, ◌≢◌, refl, sym, ap, ◌∙◌, arith, subst, true,
  leb-gt, ltb-lt, ltb-ge, inl, inr, lt-cases, eq-cases, Bool-cases, List, add_size, sum, sum-suc,
}
use aperture4_nick.Grid.{Grid, extent, is_in_bound}
use aperture4_nick.Particles.{Ptc, Particles}
use aperture4_nick.Comm.{get_pos}
use aperture4_nick.Injector.{Injection, State, fill_slot, inject_pair, inject_loop, inject_cell}
use aperture4_nick.Injector.Pairs.{IsPair, count_at, two_writes, slots-IsPair}

module _ (I : Injection) (grid : Grid) (flag : ℕ) where
  open I use {S, f_criteria, f_num}

  module _ (track_rank : ℕ) (base : Particles S) (id_lt : base.ptc_id < 2 ^ 32)
      (size_lt : base.size < 2 ^ 32) where
    -- The first `w` slots behind those in use are written, in pairs.
    pub record Filled (w : ℕ) (s : State I) : Type 0 where
      pub half : ℕ
      pub even : w ≡ 2 * half
      pub below : (a : ℕ) → a < base.number → s.ptcs a ≡ base.ptcs a
      pub above : (a : ℕ) → base.number + w ≤ a → s.ptcs a ≡ base.ptcs a
      pub ids :
          (k : ℕ) → k < w → (s.ptcs (base.number + k)).id ≡ add_size track_rank (base.ptc_id + k)
      pub next : s.ptc_id_base ≡ base.ptc_id + w
      pub pairs :
          (i : ℕ)
          → 2 * i + 1 < w
          → IsPair I grid flag (s.ptcs (base.number + 2 * i)) (s.ptcs (base.number + (2 * i + 1)))

    module _ (linear : ℕ) (linear_lt : linear < 2 ^ 32)
        (chosen : f_criteria (get_pos linear (extent grid)) ≡ true)
        (inside : is_in_bound grid (get_pos linear (extent grid)) ≡ true) where
      abbrev pos : List ℕ
      pos = get_pos linear (extent grid)

      -- What the body of the loop does at the slots `o` and `o + 1`.
      record Wrote (o : ℕ) (s s' : State I) : Type 0 where
        others : (a : ℕ) → a ≢ o → a ≢ o + 1 → s'.ptcs a ≡ s.ptcs a
        pair : IsPair I grid flag (s'.ptcs o) (s'.ptcs (o + 1))
        id_e : (s'.ptcs o).id ≡ add_size track_rank s.ptc_id_base
        id_p : (s'.ptcs (o + 1)).id ≡ add_size track_rank (add_size s.ptc_id_base 1)
        base_next : s'.ptc_id_base ≡ add_size (add_size s.ptc_id_base 1) 1
        cum_same : s'.cum_num ≡ s.cum_num

      pair-Wrote :
          (o : ℕ) (s : State I)
          → Wrote o s
              (inject_pair I grid track_rank flag base.number base.size linear pos o (o + 1) s)
      unfolding inject_pair fill_slot
      pair-Wrote o s =
          let (e, p, rest) = two_writes s.ptcs o _ _ in
          record {
            others = rest;
            pair = subst₂ (IsPair I grid flag) (sym e) (sym p) (
                slots-IsPair I grid flag linear linear_lt chosen inside _ _ _ _ _ _ _ _ (s.ptcs o)
                  (s.ptcs (o + 1)));
            id_e = ap (λ (q : Ptc S). q.id) e;
            id_p = ap (λ (q : Ptc S). q.id) p;
            base_next = refl;
            cum_same = refl;
          }

      pair-Filled :
          (w : ℕ) (s s' : State I)
          → Filled w s
          → base.number + w + 2 ≤ base.size
          → Wrote (base.number + w) s s'
          → Filled (w + 2) s'
      pair-Filled w s s' v room d = record {
        half = v.half + 1;
        even = omega (arith, v.even);
        below = λ a l. d.others a (omega arith) (omega arith) ∙ v.below a l;
        above = λ a g. d.others a (omega arith) (omega arith) ∙ v.above a (omega arith);
        ids = λ k l. elim (lt-cases k w) [
          | inl old ↦
              ap (λ (q : Ptc S). q.id) (d.others (base.number + k) (omega arith) (omega arith))
              ∙ v.ids k old
          | inr new ↦ elim (eq-cases k w) [
            | inl e ↦
                ap (λ a. (s'.ptcs a).id) {x = base.number + k} {y = base.number + w} (omega arith)
                ∙ d.id_e
                ∙ ap (add_size track_rank) {x = s.ptc_id_base} {y = base.ptc_id + k}
                    (omega (arith, v.next))
            | inr ne ↦
                ap (λ a. (s'.ptcs a).id) {x = base.number + k} {y = base.number + w + 1}
                  (omega arith)
                ∙ d.id_p
                ∙ ap (add_size track_rank) {x = add_size s.ptc_id_base 1} {y = base.ptc_id + k}
                    (omega (arith, v.next))
          ]
        ];
        next = d.base_next ∙ omega (arith, v.next);
        pairs = λ i l. elim (lt-cases (2 * i + 1) w) [
          | inl old ↦
              subst₂ (IsPair I grid flag)
                (sym (d.others (base.number + 2 * i) (omega arith) (omega arith)))
                (sym (d.others (base.number + (2 * i + 1)) (omega arith) (omega arith)))
                (v.pairs i old)
          | inr new ↦
              let e : 2 * i ≡ w = omega (arith, v.even) in
              subst₂ (λ a b. IsPair I grid flag (s'.ptcs a) (s'.ptcs b)) {x = base.number + w}
                {y = base.number + 2 * i} {u = base.number + w + 1} {v = base.number + (2 * i + 1)}
                (omega arith) (omega arith) d.pair
        ];
      }

      loop-Filled :
          (rounds n : ℕ) (s : State I)
          → Filled (s.cum_num + n) s
          → base.number + s.cum_num + n + 2 * rounds ≤ base.size
          → let s' : State I =
              inject_loop I grid track_rank flag base.number base.size linear pos rounds n s in
            Filled (s.cum_num + n + 2 * rounds) s' × (s'.cum_num ≡ s.cum_num)
      unfolding inject_loop
      loop-Filled zero n s v room =
          (subst (λ w. Filled w s) {x = s.cum_num + n} (omega arith) v, refl)
      loop-Filled (suc rounds) n s v room =
          let e : (base.number + s.cum_num + n) % 2 ^ 32 ≡ base.number + (s.cum_num + n) =
            omega arith in
          let f : (base.number + (s.cum_num + n) + 1) % 2 ^ 32 ≡ base.number + (s.cum_num + n) + 1 =
            omega arith in
          let s₁ =
            inject_pair I grid track_rank flag base.number base.size linear pos
              (base.number + (s.cum_num + n)) (base.number + (s.cum_num + n) + 1) s in
          let d = pair-Wrote (base.number + (s.cum_num + n)) s in
          let v₁ = pair-Filled (s.cum_num + n) s s₁ v (omega arith) d in
          let next : s.cum_num + n + 2 ≡ s₁.cum_num + (n + 2) = omega (arith, d.cum_same) in
          let (w, c) =
            loop-Filled rounds (n + 2) s₁ (subst (λ w. Filled w s₁) next v₁)
              (omega (arith, d.cum_same)) in
          rw e (
            rw f (
              rw
                (
                  leb-gt base.size (base.number + (s.cum_num + n)) (omega arith),
                  leb-gt base.size (base.number + (s.cum_num + n) + 1) (omega arith),
                )
                (
                  subst
                      (λ k. Filled k (
                        inject_loop I grid track_rank flag base.number base.size linear pos rounds
                          (n + 2) s₁))
                      {x = s₁.cum_num + (n + 2) + 2 * rounds} (omega (arith, d.cum_same)) w,
                  c ∙ d.cum_same,
                )))

    recount : (w c : ℕ) (s : State I) → Filled w s → Filled w (record s { cum_num = c })
    recount w c s v = record {
      half = v.half;
      even = v.even;
      below = v.below;
      above = v.above;
      ids = v.ids;
      next = v.next;
      pairs = v.pairs;
    }

    -- After the cells below `linear`.
    abbrev pub CellsDone : ℕ → State I → Type 0
    CellsDone linear s = Filled s.cum_num s × (s.cum_num ≡ sum (count_at I grid flag) linear)

    pub cell-CellsDone :
        (linear : ℕ) (s : State I)
        → linear < 2 ^ 32
        → ((pos : List ℕ) → f_num pos % 2 ≡ 0)
        → CellsDone linear s
        → base.number + sum (count_at I grid flag) (suc linear) ≤ base.size
        → CellsDone (suc linear) (inject_cell I grid track_rank flag base.number base.size linear s)
    unfolding inject_cell
    cell-CellsDone linear s lt even (v, c) room = elim (Bool-cases (is_in_bound grid pos)) [
      | inr out ↦ rw out (v, c ∙ sym (nothing (rw out refl)))
      | inl inside ↦ elim (Bool-cases (f_criteria pos)) [
        | inr not_chosen ↦
            rw (inside, not_chosen) (v, c ∙ sym (nothing (rw (inside, not_chosen) refl)))
        | inl chosen ↦
            rw (inside, chosen)
              (elim (lt-cases 0 (f_num pos)) [
                | inr none ↦
                    rw (ltb-ge 0 (f_num pos) none)
                      (v, c ∙ sym (nothing (rw (inside, chosen) (omega (arith, none)))))
                | inl some_num ↦ rw (ltb-lt 0 (f_num pos) some_num) (count inside chosen)
              ])
      ]
    ]
      where
        pos : List ℕ
        pos = get_pos linear (extent grid)

        nothing :
            count_at I grid flag linear ≡ 0
            → sum (count_at I grid flag) (suc linear) ≡ sum (count_at I grid flag) linear
        nothing e = omega (arith, sum-suc (count_at I grid flag) linear, e)

        count :
            is_in_bound grid pos ≡ true
            → f_criteria pos ≡ true
            → let s' : State I =
                inject_loop I grid track_rank flag base.number base.size linear pos
                  ((f_num pos + 1) / 2)
                  0
                  s in
              CellsDone (suc linear) (record s' { cum_num = add_size s'.cum_num (f_num pos) })
        count inside chosen =
            let here : count_at I grid flag linear ≡ f_num pos = rw (inside, chosen) refl in
            let s' : State I =
              inject_loop I grid track_rank flag base.number base.size linear pos
                ((f_num pos + 1) / 2) 0 s in
            let (w, same) =
              loop-Filled linear lt chosen inside ((f_num pos + 1) / 2) 0 s
                (subst (λ k. Filled k s) {y = s.cum_num + 0} (omega arith) v)
                (omega (arith, sum-suc (count_at I grid flag) linear, here, c, even pos)) in
            let total : add_size s'.cum_num (f_num pos) ≡ s.cum_num + f_num pos =
              omega (arith, same, sum-suc (count_at I grid flag) linear, here, c, room, size_lt) in
            (
              subst (λ k. Filled k (record s' { cum_num = add_size s'.cum_num (f_num pos) }))
                  {x = s.cum_num + 0 + 2 * ((f_num pos + 1) / 2)} (omega (arith, total, even pos))
                  (recount (s.cum_num + 0 + 2 * ((f_num pos + 1) / 2))
                    (add_size s'.cum_num (f_num pos)) s' w),
              total ∙ omega (arith, c, here, sum-suc (count_at I grid flag) linear),
            )
