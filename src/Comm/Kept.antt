-- ===== src/Comm/Kept.antt =====
-- core/particles_functions.cpp, `ptc_copy_to_comm_buffers`, in two dimensions: what stays in the slots and
-- what goes to the buffers sum up to what was there.
use aperture4_nick.Base.{
  ℕ, zero, suc, ◌+◌, ◌*◌, ◌^◌, ◌≤◌, ◌<◌, ◌≡◌, ◌≢◌, refl, sym, ap, ap₂, ◌∙◌, arith, true, ◌&&◌, ◌==◌,
  ==_ne, ==_refl, ==_eq, Bool-cases, inl, inr, if◌then◌else◌, List, [], ◌∷◌, length, get_elem?,
  some, Array, sum, sum-suc, sum_ext, sum_none, sum_plus, sum_only, sum_zero, subst,
}
use aperture4_nick.Base.Int.{pos}
use aperture4_nick.Index.Radix.{cells, digits_of, value-lt}
use aperture4_nick.Index.ColMajor.{to_linear, position_of, get_pos2}
use aperture4_nick.Index.ColMajor.RoundTrip.{
  to_linear-position_of, to_linear-value, get_pos-position_of,
}
use aperture4_nick.Grid.{Grid, Axis, extent, find_zone}
use aperture4_nick.Grid.Zones.{IsGrid, IsCell, find_zone-parts, parts, part-le}
use aperture4_nick.Particles.{Ptc, empty_cell}
use aperture4_nick.Particles.Sort.Weights.{weigh, total, total-add}
use aperture4_nick.Comm.{get_pos}
use aperture4_nick.Comm.Shift.{moved, HasRoom, IsCell-IsInside}
use aperture4_nick.Comm.Arrival.{shifted-moved}
use aperture4_nick.Comm.Outgoing.{zone_of, leaves, sent, remains, outgoing}
use aperture4_nick.Comm.Loads.{load, load-append}

module _ (a b : Axis) (w : IsGrid (a ∷ b ∷ [])) (room : HasRoom (a ∷ b ∷ []))
    (small : a.dims * b.dims ≤ 2 ^ 31) where
  abbrev plane : Grid
  plane = a ∷ b ∷ []

  cells_eq : cells (extent plane) ≡ a.dims * b.dims
  unfolding extent
  cells_eq = ground arith

  get_pos-IsCell :
      (n : ℕ)
      → n < a.dims * b.dims
      → IsCell plane (get_pos n (extent plane))
        × (to_linear (get_pos n (extent plane)) (extent plane) ≡ pos n)
  unfolding extent get_pos position_of digits_of
  get_pos-IsCell n l =
      let e : get_pos2 n a.dims ≡ position_of n (a.dims ∷ b.dims ∷ []) =
        (get_pos-position_of n a.dims b.dims 0).1 l in
      let (inside, back) =
        to_linear-position_of n (a.dims ∷ b.dims ∷ []) (omega (arith, l, cells_eq))
          (omega (arith, cells_eq)) in
      (subst (IsCell plane) (sym e) inside, ap (λ p. to_linear p (a.dims ∷ b.dims ∷ [])) e ∙ back)

  module _ {S : Type 0} where
    -- A particle in use has the number of a cell.
    abbrev pub HasCell : Ptc S → Type 0
    HasCell p = p.cell ≢ empty_cell → p.cell < a.dims * b.dims

    zone_lt : (p : Ptc S) → p.cell < a.dims * b.dims → zone_of plane p < 9
    zone_lt p l =
        let (c, _) = get_pos-IsCell p.cell l in
        let ps : List ℕ = get_pos p.cell (extent plane) in
        let e : find_zone plane ps ≡ parts plane ps = find_zone-parts plane ps w c in
        omega (arith, e, parts_lt ps c)
      where
        parts_lt : (ps : List ℕ) → IsCell plane ps → parts plane ps < 9
        parts_lt [] c = absurd c
        parts_lt (p ∷ []) c = absurd c.1
        parts_lt (p ∷ q ∷ []) c = omega (arith, part-le a p, part-le b q)
        parts_lt (p ∷ q ∷ r ∷ ps) c = absurd c.1.1

    sent_lt : (p : Ptc S) → p.cell < a.dims * b.dims → (sent plane p).cell < 2 ^ 31
    sent_lt p l =
        let (c, back) = get_pos-IsCell p.cell l in
        let ps : List ℕ = get_pos p.cell (extent plane) in
        let (e, c', _) =
          shifted-moved plane ps w c room (omega arith) (omega arith) (omega (arith, cells_eq)) in
        let inside = IsCell-IsInside plane (moved plane ps) c' in
        let v = to_linear-value (moved plane ps) (extent plane) inside (omega (arith, cells_eq)) in
        ground
          (arith, rw back at (e ∙ v), value-lt (moved plane ps) (extent plane) inside, cells_eq)

    module _ (f : Ptc S → ℕ) (blind : (p : Ptc S) (c : ℕ) → f (record p { cell = c }) ≡ f p) where
      -- What of the particle `p` goes to the buffer of `zone`.
      abbrev to_zone : Ptc S → ℕ → List (Ptc S)
      to_zone p zone = if leaves plane p && (zone_of plane p == zone) then sent plane p ∷ [] else []

      weigh_live : (p : Ptc S) → p.cell ≢ empty_cell → weigh f p ≡ f p
      weigh_live p ne = rw (==_ne p.cell empty_cell ne) refl

      leaves_live : (p : Ptc S) → leaves plane p ≡ true → p.cell ≢ empty_cell
      leaves_live p goes e = ground (arith, rw (==_eq p.cell empty_cell e) at goes)

      weigh-sent : (p : Ptc S) → p.cell < a.dims * b.dims → weigh f (sent plane p) ≡ f p
      weigh-sent p l =
          weigh_live (sent plane p) (let s = sent_lt p l in omega arith)
          ∙ blind p (sent plane p).cell

      weigh-remains : (p : Ptc S) → leaves plane p ≡ true → weigh f (remains plane p) ≡ 0
      weigh-remains p goes = rw goes refl

      here : (p : Ptc S) → leaves plane p ≡ true → to_zone p (zone_of plane p) ≡ sent plane p ∷ []
      here p goes = rw (goes, ==_refl (zone_of plane p)) refl

      elsewhere : (p : Ptc S) (z : ℕ) → z ≢ zone_of plane p → to_zone p z ≡ []
      elsewhere p z ne = rw (==_ne (zone_of plane p) z (λ q. ne (sym q))) (ground arith)

      one-kept :
          (p : Ptc S)
          → HasCell p
          → weigh f (remains plane p) + sum (λ z. load (weigh f) (to_zone p z)) 9 ≡ weigh f p
      one-kept p h = elim (Bool-cases (leaves plane p)) [
        | inr stays ↦ rw stays (omega (arith, sum_zero (λ z. 0) 9 (λ i l. refl)))
        | inl goes ↦
            let live : p.cell ≢ empty_cell = leaves_live p goes in
            omega (
              arith,
              weigh-remains p goes,
              sum_only (λ z. load (weigh f) (to_zone p z)) 9 (zone_of plane p) (zone_lt p (h live))
                  (λ z l ne. ap (load (weigh f)) (elsewhere p z ne)),
              ap (load (weigh f)) (here p goes),
              weigh-sent p (h live),
              weigh_live p live,
            )
      ]

      -- The particles that stay and those that leave weigh what all weighed.
      pub outgoing-kept :
          (ptcs : Array (Ptc S)) (n : ℕ)
          → ((i : ℕ) → i < n → HasCell (ptcs i))
          → total f (λ i. remains plane (ptcs i)) 0 n
              + sum (λ z. load (weigh f) (outgoing plane ptcs z n)) 9
            ≡ total f ptcs 0 n
      unfolding total
      outgoing-kept ptcs zero h = omega (
        arith,
        sum_none (λ i. weigh f (remains plane (ptcs (0 + i)))),
        sum_none (λ i. weigh f (ptcs (0 + i))),
        sum_zero (λ z. 0) 9 (λ i l. refl),
      )
      outgoing-kept ptcs (suc n) h = omega (
        arith,
        sum-suc (λ i. weigh f (remains plane (ptcs (0 + i)))) n,
        sum-suc (λ i. weigh f (ptcs (0 + i))) n,
        ap (λ i. weigh f (ptcs i)) {x = 0 + n} {y = n} (omega arith),
        ap (λ i. weigh f (remains plane (ptcs i))) {x = 0 + n} {y = n} (omega arith),
        sum_ext _ _ 9 (λ z l. load-append (weigh f) (outgoing plane ptcs z n) (to_zone (ptcs n) z)),
        sum_plus (λ z. load (weigh f) (outgoing plane ptcs z n))
            (λ z. load (weigh f) (to_zone (ptcs n) z)) 9,
        one-kept (ptcs n) (h n (omega arith)),
        outgoing-kept ptcs n (λ i l. h i (omega arith)),
      )

-- Slots that hold a list of particles weigh what the list weighs.
pub total-listed :
    {S : Type 0} (f : Ptc S → ℕ) (slots : Array (Ptc S)) (from : ℕ) (xs : List (Ptc S))
    → ((k : ℕ) (p : Ptc S) → get_elem? xs k ≡ some p → slots (from + k) ≡ p)
    → total f slots from (length xs) ≡ load (weigh f) xs
unfolding total
total-listed f slots from [] h = sum_none (λ i. weigh f (slots (from + i)))
total-listed f slots from (x ∷ xs) h =
    let one : sum (λ i. weigh f (slots (from + i))) 1 ≡ weigh f (slots (from + 0)) = omega (
      arith,
      sum-suc (λ i. weigh f (slots (from + i))) 0,
      sum_none (λ i. weigh f (slots (from + i))),
    ) in
    ap (total f slots from) {x = suc (length xs)} {y = 1 + length xs} (omega arith)
    ∙ total-add f slots from 1 (length xs)
    ∙ ap₂ ◌+◌ (one ∙ ap (λ p. weigh f p) (h 0 x refl)) (
        total-listed f slots (from + 1) xs
          (λ k p e. ap slots {x = from + 1 + k} {y = from + suc k} (omega arith) ∙ h (suc k) p e))
