-- ===== src/Particles/Rearrange/Placed.antt =====
-- core/particles_functions.cpp, `ptc_rearrange_arrays`: the whole function ends and moves every
-- particle to its slot.
use aperture4_nick.Base.{
  sub_size, ℕ, zero, suc, ◌+◌, ◌≤◌, ◌<◌, ◌≡◌, ◌≢◌, refl, arith, ◌⊎◌, inl, inr, ==_eq, ==_ne,
  eq-cases, Option, some,
}
use aperture4_nick.Particles.Rearrange.{done, Slots, follow, rearrange_from, rearrange_arrays}
use aperture4_nick.Particles.Rearrange.Invariant.{
  IsPlacement, Between, Inside, pending, pending_mark, pending-le, start-Between, Between-Inside,
}
use aperture4_nick.Particles.Rearrange.Follow.{put, put-Inside, put-Between}

module _ {A : Type 0} (s₀ : Slots A) (offset num : ℕ) (p : IsPlacement s₀.index offset num) where
  -- What a cycle of `i` that starts at `s` comes to.
  record Closed (i : ℕ) (s : Slots A) (r : Option (Slots A)) : Type 0 where
    state : Slots A
    returns : r ≡ some state
    between : Between s₀ state offset num
    kept : (k : ℕ) → s.index k ≡ done → state.index k ≡ done
    marked : state.index i ≡ done

  module _ (i j : ℕ) (p_tmp : A) (s : Slots A) (v : Inside s₀ s offset num i j p_tmp) where
    abbrev next : ℕ
    next = sub_size (s.index j) offset

    abbrev after : Slots A
    after = put s₀ s offset num i j p_tmp p v

    j_pending : s.index j ≢ done
    j_pending e = omega (arith, v.here, e, p.high j v.j_in, p.small)

    after_kept : (k : ℕ) → s.index k ≡ done → after.index k ≡ done
    after_kept k h = ground arith

    next_eq : s₀.index j ≡ offset + next
    next_eq = omega (arith, v.here, p.low j v.j_in, p.high j v.j_in, p.small)

    close-Closed : s.index j ≡ i + offset → Closed i s (some after)
    close-Closed e = record {
      state = after;
      returns = refl;
      between = put-Between s₀ s offset num i j p_tmp p v (omega (arith, v.here));
      kept = after_kept;
      marked = ground (arith, v.started);
    }

    go-Inside : s.index j ≢ i + offset → Inside s₀ after offset num i next (s.ptcs (s.index j))
    go-Inside ne =
        put-Inside s₀ s offset num i j p_tmp p v next next_eq
          (λ e. ne (omega (arith, next_eq, v.here))) (omega (arith, next_eq, p.high j v.j_in))

  -- Rounds made from a state that keeps the done entries.
  Closed-from :
      (i : ℕ) (s s' : Slots A) (r : Option (Slots A))
      → ((k : ℕ) → s.index k ≡ done → s'.index k ≡ done)
      → Closed i s' r
      → Closed i s r
  Closed-from i s s' r keep c = record {
    state = c.state;
    returns = c.returns;
    between = c.between;
    kept = λ k h. c.kept k (keep k h);
    marked = c.marked;
  }

  follow-Closed :
      (fuel i j : ℕ) (p_tmp : A) (s : Slots A)
      → pending s.index num ≤ fuel
      → Inside s₀ s offset num i j p_tmp
      → Closed i s (follow i offset fuel j p_tmp s)
  unfolding follow
  follow-Closed zero i j p_tmp s f v =
      absurd (omega (arith, pending_mark s.index num j v.j_in (j_pending i j p_tmp s v)))
  follow-Closed (suc fuel) i j p_tmp s f v = elim (eq-cases (s.index j) (i + offset)) [
    | inl e ↦ rw (← e, ==_eq (s.index j) (s.index j) refl) (close-Closed i j p_tmp s v e)
    | inr ne ↦ rw (==_ne (s.index j) (i + offset) ne) (
        Closed-from i s (after i j p_tmp s v) _ (after_kept i j p_tmp s v) (
          follow-Closed fuel i (next i j p_tmp s v) (s.ptcs (s.index j)) (after i j p_tmp s v)
            (omega (arith, pending_mark s.index num j v.j_in (j_pending i j p_tmp s v)))
            (go-Inside i j p_tmp s v ne)))
  ]

  -- What the loop over `i` comes to with the entries below `i` done.
  record Arranged (r : Option (Slots A)) : Type 0 where
    result : Slots A
    returns : r ≡ some result
    between : Between s₀ result offset num
    marked : (k : ℕ) → k < num → result.index k ≡ done

  rearrange_from-Arranged :
      (n i : ℕ) (s : Slots A)
      → i + n ≡ num
      → Between s₀ s offset num
      → ((k : ℕ) → k < i → s.index k ≡ done)
      → Arranged (rearrange_from offset num n i s)
  unfolding rearrange_from
  rearrange_from-Arranged zero i s e b m = record {
    result = s;
    returns = refl;
    between = b;
    marked = λ k h. m k (omega arith);
  }
  rearrange_from-Arranged (suc n) i s e b m = elim (eq-cases (s.index i) done) [
    | inl is_done ↦
        rw (==_eq (s.index i) done is_done, rearrange_from)
          (rearrange_from-Arranged n (i + 1) s (omega arith) b (marked_next s is_done m))
    | inr ne ↦
        let c = cycle ne in
        rw (==_ne (s.index i) done ne, rearrange_from)
          (rw (c.returns, rearrange_from)
            (rearrange_from-Arranged n (i + 1) c.state (omega arith) c.between
              (marked_next c.state c.marked (λ k h. c.kept k (m k h)))))
  ]
    where
      cycle : s.index i ≢ done → Closed i s (follow i offset (suc num) i (s.ptcs (i + offset)) s)
      cycle ne =
          follow-Closed (suc num) i i (s.ptcs (i + offset)) s
            (omega (arith, pending-le s.index num))
            (Between-Inside s₀ s offset num i b (omega arith) ne)

      marked_next :
          (t : Slots A)
          → t.index i ≡ done
          → ((k : ℕ) → k < i → t.index k ≡ done)
          → (k : ℕ) → k < i + 1
          → t.index k ≡ done
      marked_next t here before k h = elim (eq-cases k i) [
        | inl same ↦ rw same here
        | inr other ↦ before k (omega arith)
      ]

  arrived :
      {r : Option (Slots A)} (a : Arranged r) (k : ℕ)
      → k < num
      → a.result.ptcs (s₀.index k) ≡ s₀.ptcs (offset + k)
  arrived a k h = ground (arith, a.between.settled k h, a.marked k h, p.high k h, p.small)

-- With an index that sends the entries one to one into the segment, the function ends, moves the
-- particle at `offset + k` to the slot `index[k]` for every `k` below `num`, changes no slot outside
-- the segment, and leaves every entry of the index marked as done.
pub rearrange_arrays_lem :
    {A : Type 0} (offset num : ℕ) (s : Slots A)
    → IsPlacement s.index offset num
    → (s' : Slots A) × (rearrange_arrays offset num s ≡ some s')
      × ((k : ℕ) → k < num → s'.ptcs (s.index k) ≡ s.ptcs (offset + k))
      × ((a : ℕ) → (a < offset) ⊎ (offset + num ≤ a) → s'.ptcs a ≡ s.ptcs a)
      × ((k : ℕ) → k < num → s'.index k ≡ done)
unfolding rearrange_arrays
rearrange_arrays_lem offset num s p =
    let r =
      rearrange_from-Arranged s offset num p num 0 s (omega arith) (start-Between s offset num p)
        (λ k h. absurd (omega arith)) in
    (r.result, r.returns, arrived s offset num p r, r.between.outside, r.marked)
