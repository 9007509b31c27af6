-- ===== src/Injector/Injected.antt =====
-- systems/ptc_injector_host.hpp: the whole of `inject_pairs`, and a second call of it.
use aperture4_nick.Base.{
  ℕ, zero, suc, ◌+◌, ◌*◌, ◌%◌, ◌^◌, ◌≤◌, ◌<◌, ◌≡◌, refl, sym, ap, ◌∙◌, arith, subst, List, add_size,
  sum, sum-add, sum_none, min,
}
use aperture4_nick.Vec.{size}
use aperture4_nick.Grid.{Grid, extent}
use aperture4_nick.Particles.{Ptc, Particles, add_num, set_num}
use aperture4_nick.Injector.{Injection, State, inject_cell, inject_cells, inject_pairs}
use aperture4_nick.Injector.Pairs.{IsPair, count_at}
use aperture4_nick.Injector.Filled.{CellsDone, cell-CellsDone}

sum_le : (g : ℕ → ℕ) (m n : ℕ) → sum g m ≤ sum g (m + n)
sum_le g m n = omega (arith, sum-add g m n)

-- `track_rank`
abbrev pub rank_bits : ℕ → ℕ
rank_bits rank = (rank * 2 ^ 32) % 2 ^ 64

module _ (I : Injection) (grid : Grid) (flag : ℕ) where
  open I use {S, R, f_num}

  -- How many particles a call adds.
  abbrev pub injected : ℕ
  injected = sum (count_at I grid flag) (size (extent grid))

  -- What the call did with the particles: `n` are added in pairs, with ids that count on from `ptc_id`.
  pub record Injected (rank n : ℕ) (before after : Particles S) : Type 0 where
    pub number : after.number ≡ before.number + n
    pub size : after.size ≡ before.size
    pub ptc_id : after.ptc_id ≡ before.ptc_id
    pub kept : (a : ℕ) → a < before.number → after.ptcs a ≡ before.ptcs a
    pub behind : (a : ℕ) → after.number ≤ a → after.ptcs a ≡ before.ptcs a
    pub ids :
        (k : ℕ)
        → k < n
        → (after.ptcs (before.number + k)).id ≡ add_size (rank_bits rank) (before.ptc_id + k)
    pub pairs :
        (i : ℕ)
        → 2 * i + 1 < n
        → IsPair I grid flag
            (after.ptcs (before.number + 2 * i))
            (after.ptcs (before.number + (2 * i + 1)))

  module _ (track_rank : ℕ) (base : Particles S) (id_lt : base.ptc_id < 2 ^ 32)
      (size_lt : base.size < 2 ^ 32) (even : (pos : List ℕ) → f_num pos % 2 ≡ 0) where
    cells-CellsDone :
        (rounds linear : ℕ) (s : State I)
        → linear + rounds ≤ 2 ^ 32
        → CellsDone I grid flag track_rank base id_lt size_lt linear s
        → base.number + sum (count_at I grid flag) (linear + rounds) ≤ base.size
        → CellsDone I grid flag track_rank base id_lt size_lt
            (linear + rounds)
            (inject_cells I grid track_rank flag base.number base.size rounds linear s)
    unfolding inject_cells
    cells-CellsDone zero linear s lt v room =
        subst (λ n. CellsDone I grid flag track_rank base id_lt size_lt n s) {y = linear + 0}
          (omega arith) v
    cells-CellsDone (suc rounds) linear s lt v room =
        let s₁ : State I = inject_cell I grid track_rank flag base.number base.size linear s in
        let next : suc linear + rounds ≡ linear + suc rounds = omega arith in
        let v₁ =
          cell-CellsDone I grid flag track_rank base id_lt size_lt linear s (omega arith) even v (
            omega (
              arith,
              sum_le (count_at I grid flag) (suc linear) rounds,
              ap (sum (count_at I grid flag)) next,
            )) in
        subst
          (λ n.
            CellsDone I grid flag track_rank base id_lt size_lt n
              (inject_cells I grid track_rank flag base.number base.size rounds (linear + 1) s₁))
          {x = linear + 1 + rounds} (omega arith)
          (cells-CellsDone rounds (linear + 1) s₁ (omega arith)
            (subst (λ n. CellsDone I grid flag track_rank base id_lt size_lt n s₁) {x = suc linear}
              {y = linear + 1} (omega arith) v₁)
            (omega (
              arith,
              ap (sum (count_at I grid flag)) {x = linear + 1 + rounds} {y = linear + suc rounds}
                  (omega arith),
            )))

pub inject_pairs_lem :
    (I : Injection) (grid : Grid) (rank flag : ℕ) (ps : Particles I.S) (rng : I.R)
    → ((pos : List ℕ) → I.f_num pos % 2 ≡ 0)
    → size (extent grid) ≤ 2 ^ 32
    → ps.ptc_id < 2 ^ 32
    → ps.size < 2 ^ 32
    → ps.number + injected I grid flag ≤ ps.size
    → Injected I grid flag rank
        (injected I grid flag)
        ps
        (inject_pairs I grid rank flag (ps, rng)).0
unfolding inject_pairs add_num set_num
inject_pairs_lem I grid rank flag ps rng even cells id_lt size_lt room =
    let start : State I = record {
      ptcs = ps.ptcs;
      rng = rng;
      cum_num = 0;
      ptc_id_base = ps.ptc_id;
    } in
    let total : sum (count_at I grid flag) (0 + size (extent grid)) ≡ injected I grid flag =
      ap (sum (count_at I grid flag)) (omega arith) in
    let (v, c) =
      cells-CellsDone I grid flag (rank_bits rank) ps id_lt size_lt even (size (extent grid)) 0
        start (omega (arith, cells))
        (
          record {
            half = 0;
            even = refl;
            below = λ a l. refl;
            above = λ a g. refl;
            ids = λ k l. absurd (omega arith);
            next = omega arith;
            pairs = λ i l. absurd (omega arith);
          },
          sym (sum_none (count_at I grid flag)),
        )
        (omega (arith, total, room)) in
    let end : State I =
      inject_cells I grid (rank_bits rank) flag ps.number ps.size (size (extent grid)) 0 start in
    let n : end.cum_num ≡ injected I grid flag = c ∙ total in
    let number : min (add_size ps.number end.cum_num) ps.size ≡ ps.number + injected I grid flag =
      omega (arith, n, room, size_lt) in
    record {
      number = number;
      size = refl;
      ptc_id = refl;
      kept = v.below;
      behind = λ a g. v.above a (omega (arith, n, number, g));
      ids = λ k l. v.ids k (omega (arith, n, l));
      pairs = λ i l. v.pairs i (omega (arith, n, l));
    }

-- Two calls in a row under these conditions, with room for both, give the `k`-th new particle of
-- the second call the id of the `k`-th new particle of the first, which is still there: the ids that
-- are meant to be unique are not.
pub inject_pairs-id_repeats :
    (I : Injection) (grid : Grid) (rank flag : ℕ) (ps : Particles I.S) (rng : I.R)
    → ((pos : List ℕ) → I.f_num pos % 2 ≡ 0)
    → size (extent grid) ≤ 2 ^ 32
    → ps.ptc_id < 2 ^ 32
    → ps.size < 2 ^ 32
    → ps.number + injected I grid flag + injected I grid flag ≤ ps.size
    → (k : ℕ) → k < injected I grid flag
    → let twice : Particles I.S =
        (inject_pairs I grid rank flag (inject_pairs I grid rank flag (ps, rng))).0 in
      (ps.number + injected I grid flag + k < twice.number)
      × ((twice.ptcs (ps.number + injected I grid flag + k)).id ≡ (twice.ptcs (ps.number + k)).id)
inject_pairs-id_repeats I grid rank flag ps rng even cells id_lt size_lt room k l =
    let once : Particles I.S × I.R = inject_pairs I grid rank flag (ps, rng) in
    let v : Injected I grid flag rank (injected I grid flag) ps once.0 =
      inject_pairs_lem I grid rank flag ps rng even cells id_lt size_lt (omega (arith, room)) in
    let w =
      inject_pairs_lem I grid rank flag once.0 once.1 even cells (omega (arith, v.ptc_id, id_lt))
        (omega (arith, v.size, size_lt)) (omega (arith, v.number, v.size, room)) in
    (
      omega (arith, v.number, w.number, l),
      ap (λ a. ((inject_pairs I grid rank flag once).0.ptcs a).id)
            {x = ps.number + injected I grid flag + k} {y = once.0.number + k}
            (omega (arith, v.number))
          ∙ w.ids k l
          ∙ ap (λ c. add_size (rank_bits rank) (c + k)) v.ptc_id
          ∙ sym (v.ids k l)
          ∙ ap (λ (q : Ptc I.S). q.id) (sym (w.kept (ps.number + k) (omega (arith, v.number, l)))),
    )
