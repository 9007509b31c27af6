-- ===== src/Comm/Outgoing.antt =====
-- core/particles_functions.cpp, `ptc_copy_to_comm_buffers`: every particle that left the interior is in the
-- buffer of its zone afterwards, in the order of the slots, and its slot is empty.
use aperture4_nick.Base.{
  ℕ, zero, suc, ◌+◌, ◌≤◌, ◌<◌, ◌≡◌, refl, sym, ap, ◌∙◌, arith, Bool, true, false, not, ◌&&◌, List,
  [], ◌∷◌, ◌++◌, append-nil, length, length-append, get_elem?, get_elem?-lt, some, inl, inr, ◌⊎◌,
  if◌then◌else◌, eq-cases, ◌==◌, ==_ne, ==_eq, Array, write, write_same, write_other, subst,
}
use aperture4_nick.Base.Int.{pos}
use aperture4_nick.Grid.{Grid, extent, find_zone}
use aperture4_nick.Grid.Zones.{get_zone_offset}
use aperture4_nick.Particles.{Ptc, empty_cell}
use aperture4_nick.Comm.{get_pos, shifted, Buffers, copy_one}

module _ {A : Type 0} where
  get_elem?-snoc :
      (xs : List A) (y : A) (k : ℕ) (x : A)
      → get_elem? (xs ++ y ∷ []) k ≡ some x
      → (get_elem? xs k ≡ some x) ⊎ ((k ≡ length xs) × (y ≡ x))
  get_elem?-snoc [] y zero x h = inr (refl, ground arith)
  get_elem?-snoc [] y (suc k) x h = absurd (ground arith)
  get_elem?-snoc (z ∷ xs) y zero x h = inl h
  get_elem?-snoc (z ∷ xs) y (suc k) x h = elim (get_elem?-snoc xs y k x h) [
    | inl g ↦ inl g
    | inr (e, g) ↦ inr (ap suc e, g)
  ]

  at_most_one : (b : Bool) (x : A) → length (if b then x ∷ [] else []) ≤ 1
  at_most_one true x = omega arith
  at_most_one false x = omega arith

module _ (grid : Grid) {S : Type 0} where
  abbrev pub zone_of : Ptc S → ℕ
  zone_of p = find_zone grid (get_pos p.cell (extent grid))

  -- A particle leaves when its slot is in use and its zone is not the centre.
  abbrev pub leaves : Ptc S → Bool
  leaves p = not (p.cell == empty_cell) && not (zone_of p + get_zone_offset (length grid) == 13)

  -- the particle as the neighbour gets it
  abbrev pub sent : Ptc S → Ptc S
  sent p = record p {
    cell =
        shifted grid (zone_of p + get_zone_offset (length grid))
          (record { linear = pos p.cell; ext = extent grid });
  }

  -- what is left of it in its slot
  abbrev pub remains : Ptc S → Ptc S
  remains p = if leaves p then record p { cell = empty_cell } else p

  -- The particles that leave for a zone from the first `n` slots, in the order of the slots.
  abbrev pub outgoing : Array (Ptc S) → ℕ → ℕ → List (Ptc S)
  outgoing ptcs zone zero = []
  outgoing ptcs zone (suc n) =
      outgoing ptcs zone n
      ++ (if leaves (ptcs n) && (zone_of (ptcs n) == zone) then sent (ptcs n) ∷ [] else [])

  pub length-outgoing : (ptcs : Array (Ptc S)) (zone n : ℕ) → length (outgoing ptcs zone n) ≤ n
  length-outgoing ptcs zone zero = omega arith
  length-outgoing ptcs zone (suc n) =
      let xs = if leaves (ptcs n) && (zone_of (ptcs n) == zone) then sent (ptcs n) ∷ [] else [] in
      omega (
        arith,
        length-append (outgoing ptcs zone n) xs,
        at_most_one (leaves (ptcs n) && (zone_of (ptcs n) == zone)) (sent (ptcs n)),
        length-outgoing ptcs zone n,
      )

  -- After the first `n` slots are done.
  pub record Sent (n : ℕ) (before s : Buffers S) : Type 0 where
    pub slots : (a : ℕ) → a < n → s.ptcs a ≡ remains (before.ptcs a)
    pub rest : (a : ℕ) → n ≤ a → s.ptcs a ≡ before.ptcs a
    pub counts : (zone : ℕ) → s.nums zone ≡ length (outgoing before.ptcs zone n)
    pub contents :
        (zone k : ℕ) (p : Ptc S)
        → get_elem? (outgoing before.ptcs zone n) k ≡ some p
        → s.buffers zone k ≡ p

  -- the state after the particle `p` of slot `n` is sent
  abbrev pub after_send : Ptc S → ℕ → Buffers S → Buffers S
  after_send p n s = record {
    ptcs = write s.ptcs n (record p { cell = empty_cell });
    buffers =
        write s.buffers (zone_of p) (write (s.buffers (zone_of p)) (s.nums (zone_of p)) (sent p));
    nums = write s.nums (zone_of p) (s.nums (zone_of p) + 1);
  }

  pub copy_one-stays :
      (capacity n : ℕ) (s : Buffers S)
      → leaves (s.ptcs n) ≡ false
      → copy_one grid capacity n s ≡ some s
  unfolding copy_one
  copy_one-stays capacity n s h = ground arith

  pub copy_one-leaves :
      (capacity n : ℕ) (s : Buffers S)
      → leaves (s.ptcs n) ≡ true
      → s.nums (zone_of (s.ptcs n)) < capacity
      → copy_one grid capacity n s ≡ some (after_send (s.ptcs n) n s)
  unfolding copy_one
  copy_one-leaves capacity n s h l = ground arith

  outgoing-same :
      (ptcs : Array (Ptc S)) (zone n : ℕ)
      → (leaves (ptcs n) && (zone_of (ptcs n) == zone)) ≡ false
      → outgoing ptcs zone (suc n) ≡ outgoing ptcs zone n
  outgoing-same ptcs zone n h = rw h (append-nil (outgoing ptcs zone n))

  outgoing-snoc :
      (ptcs : Array (Ptc S)) (zone n : ℕ)
      → leaves (ptcs n) ≡ true
      → zone ≡ zone_of (ptcs n)
      → outgoing ptcs zone (suc n) ≡ outgoing ptcs zone n ++ sent (ptcs n) ∷ []
  outgoing-snoc ptcs zone n h e =
      let f : (leaves (ptcs n) && (zone_of (ptcs n) == zone)) ≡ true =
        rw (h, ==_eq (zone_of (ptcs n)) zone (sym e)) refl in
      rw f refl

  pub stays-Sent :
      (n : ℕ) (before s : Buffers S)
      → Sent n before s
      → leaves (before.ptcs n) ≡ false
      → Sent (suc n) before s
  stays-Sent n before s v h = record {
    slots = λ a l. elim (eq-cases a n) [
      | inl e ↦
          subst (λ b. s.ptcs b ≡ remains (before.ptcs b)) (sym e)
            (v.rest n (omega arith) ∙ rw h refl)
      | inr ne ↦ v.slots a (omega arith)
    ];
    rest = λ a l. v.rest a (omega arith);
    counts = λ zone. v.counts zone ∙ ap length (sym (outgoing-same before.ptcs zone n (rw h refl)));
    contents = λ zone k p e.
        v.contents zone k p
          (ap (λ xs. get_elem? xs k) (sym (outgoing-same before.ptcs zone n (rw h refl))) ∙ e);
  }

  deliver_here :
      (n : ℕ) (before s : Buffers S)
      → Sent n before s
      → leaves (before.ptcs n) ≡ true
      → (k : ℕ) (p : Ptc S)
      → get_elem? (outgoing before.ptcs (zone_of (before.ptcs n)) (suc n)) k ≡ some p
      → (after_send (before.ptcs n) n s).buffers (zone_of (before.ptcs n)) k ≡ p
  deliver_here n before s v h k p e =
      let q = before.ptcs n in
      let zone : ℕ = zone_of q in
      let count = v.counts zone in
      let snoc = outgoing-snoc before.ptcs zone n h refl in
      ap (λ f. f k)
        (write_same s.buffers zone zone (write (s.buffers zone) (s.nums zone) (sent q)) refl)
      ∙ elim (get_elem?-snoc (outgoing before.ptcs zone n) (sent q) k p
          (ap (λ xs. get_elem? xs k) (sym snoc) ∙ e)) [
            | inl old ↦
                write_other (s.buffers zone) (s.nums zone) k (sent q)
                  (λ at_end. omega (arith, get_elem?-lt (outgoing before.ptcs zone n) k p old))
                ∙ v.contents zone k p old
            | inr (at_end, new) ↦
                write_same (s.buffers zone) (s.nums zone) k (sent q) (omega arith) ∙ new
          ]

  deliver_contents :
      (n : ℕ) (before s : Buffers S)
      → Sent n before s
      → leaves (before.ptcs n) ≡ true
      → (zone k : ℕ) (p : Ptc S) → get_elem? (outgoing before.ptcs zone (suc n)) k ≡ some p
      → (after_send (before.ptcs n) n s).buffers zone k ≡ p
  deliver_contents n before s v h zone k p e =
      let q = before.ptcs n in
      elim (eq-cases zone (zone_of q)) [
        | inl same ↦
            ap (λ z. (after_send q n s).buffers z k) same
            ∙ deliver_here n before s v h k p
                (ap (λ z. get_elem? (outgoing before.ptcs z (suc n)) k) (sym same) ∙ e)
        | inr other ↦
            let out =
              outgoing-same before.ptcs zone n
                (rw (==_ne (zone_of q) zone (λ x. other (sym x))) (ground arith)) in
            ap (λ f. f k)
              (write_other s.buffers (zone_of q) zone
                (write (s.buffers (zone_of q)) (s.nums (zone_of q)) (sent q)) other)
            ∙ v.contents zone k p (ap (λ xs. get_elem? xs k) (sym out) ∙ e)
      ]

  deliver_counts :
      (n : ℕ) (before s : Buffers S)
      → Sent n before s
      → leaves (before.ptcs n) ≡ true
      → (zone : ℕ)
      → (after_send (before.ptcs n) n s).nums zone ≡ length (outgoing before.ptcs zone (suc n))
  deliver_counts n before s v h zone =
      let q = before.ptcs n in
      elim (eq-cases zone (zone_of q)) [
        | inl same ↦
            write_same s.nums (zone_of q) zone (s.nums (zone_of q) + 1) same
            ∙ ap (λ z. s.nums z + 1) (sym same)
            ∙ omega
                (arith, v.counts zone, length-append (outgoing before.ptcs zone n) (sent q ∷ []))
            ∙ ap length (sym (outgoing-snoc before.ptcs zone n h same))
        | inr other ↦
            let out =
              outgoing-same before.ptcs zone n
                (rw (==_ne (zone_of q) zone (λ x. other (sym x))) (ground arith)) in
            write_other s.nums (zone_of q) zone (s.nums (zone_of q) + 1) other
            ∙ v.counts zone
            ∙ ap length (sym out)
      ]

  pub leaves-Sent :
      (n : ℕ) (before s : Buffers S)
      → Sent n before s
      → leaves (before.ptcs n) ≡ true
      → Sent (suc n) before (after_send (before.ptcs n) n s)
  leaves-Sent n before s v h =
      let gone = record (before.ptcs n) { cell = empty_cell } in
      record {
        slots = λ a l. elim (eq-cases a n) [
          | inl e ↦
              write_same s.ptcs n a gone e
              ∙ subst (λ b. gone ≡ remains (before.ptcs b)) (sym e) (rw h refl)
          | inr ne ↦ write_other s.ptcs n a gone ne ∙ v.slots a (omega arith)
        ];
        rest = λ a l. write_other s.ptcs n a gone (omega arith) ∙ v.rest a (omega arith);
        counts = deliver_counts n before s v h;
        contents = deliver_contents n before s v h;
      }
