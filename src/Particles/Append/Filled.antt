-- ===== src/Particles/Append/Filled.antt =====
-- core/particles_functions.cpp: what `ptc_append` and `ptc_copy_from_buffer` leave in the array.
use aperture4_nick.Base.{
  ℕ, ◌+◌, ◌-◌, ◌*◌, ◌%◌, ◌^◌, ◌≤◌, ◌<◌, ◌≡◌, ◌≢◌, refl, sym, ap, ap₂, fun_ext, ltb-lt, ltb-ge, ◌∙◌,
  arith, min, ◌&&◌, ltb, leb, if◌then◌else◌, ==_ne, ==_eq, ==_refl, Array, inl, inr, ◌⊎◌, eq-cases,
  ◌↔◌, lt-cases,
}
use aperture4_nick.Particles.{Ptc, Particles, set_num}
use aperture4_nick.Particles.Append.{Scalars, append, fitting, copy_count, copy_from_buffer}

-- The sizes are those of memory, and the id counter is a `uint32_t`.
pub record IsParticles {S : Type 0} (ps : Particles S) : Type 0 where
  pub number_le : ps.number ≤ ps.size
  pub size_lt : ps.size < 2 ^ 63
  pub counter_lt : ps.ptc_id < 2 ^ 32

-- The particle `q` has this place, momentum, cell, weight, flag and id, the energy of the momentum, and the
-- `aux1` that its slot `old` had.
pub record IsParticleAt (F : Scalars) (x₀ x₁ x₂ p₀ p₁ p₂ : F.S) (at : ℕ) (worth : F.S)
    (mark name : ℕ) (old q : Ptc F.S) : Type 0 where
  pub x1 : q.x1 ≡ x₀
  pub x2 : q.x2 ≡ x₁
  pub x3 : q.x3 ≡ x₂
  pub p1 : q.p1 ≡ p₀
  pub p2 : q.p2 ≡ p₁
  pub p3 : q.p3 ≡ p₂
  pub energy :
      q.energy
      ≡ F.sqrt (F.plus (F.plus (F.plus F.one (F.times p₀ p₀)) (F.times p₁ p₁)) (F.times p₂ p₂))
  pub weight : q.weight ≡ worth
  pub aux1 : q.aux1 ≡ old.aux1
  pub cell : q.cell ≡ at
  pub flag : q.flag ≡ mark
  pub id : q.id ≡ name

-- For a well-formed array and a rank below 2^32: a full array is left as it is. Otherwise the first slot
-- that was not in use has the place, momentum, cell, weight and flag that were given, the energy of
-- the momentum, and an id made of the rank and the counter, which advances; the other slots keep
-- their particles and one more slot is in use. The array stays well-formed in both cases.
pub append_lem :
    (F : Scalars) (rank : ℕ) (x₀ x₁ x₂ p₀ p₁ p₂ : F.S) (cell : ℕ) (weight : F.S) (flag : ℕ)
    (ps : Particles F.S)
    → IsParticles ps
    → rank < 2 ^ 32
    → let ps' : Particles F.S = append F rank x₀ x₁ x₂ p₀ p₁ p₂ cell weight flag ps in
      IsParticles ps'
      × (ps.number ≡ ps.size → ps' ≡ ps)
      × (ps.number < ps.size
          → (ps'.number ≡ ps.number + 1)
            × IsParticleAt F x₀ x₁ x₂ p₀ p₁ p₂ cell weight flag
                (rank * 2 ^ 32 + ps.ptc_id)
                (ps.ptcs ps.number)
                (ps'.ptcs ps.number)
            × (ps'.ptc_id ≡ (ps.ptc_id + 1) % 2 ^ 32)
            × ((a : ℕ) → a ≢ ps.number → ps'.ptcs a ≡ ps.ptcs a))
unfolding append set_num
append_lem F rank x₀ x₁ x₂ p₀ p₁ p₂ cell weight flag ps v small =
    elim (eq-cases ps.number ps.size) [
      | inl e ↦ rw (==_eq ps.number ps.size e, append) (v, λ q. refl, λ l. absurd (omega arith))
      | inr ne ↦
          rw (==_ne ps.number ps.size ne, append)
            (
              record {
                number_le = omega (arith, v.number_le);
                size_lt = v.size_lt;
                counter_lt = omega arith;
              },
              λ q. absurd (ne q),
              λ l. (
                omega (arith, v.size_lt),
                rw (==_refl ps.number) (record {
                  x1 = refl;
                  x2 = refl;
                  x3 = refl;
                  p1 = refl;
                  p2 = refl;
                  p3 = refl;
                  energy = refl;
                  weight = refl;
                  aux1 = refl;
                  cell = refl;
                  flag = refl;
                  id = omega (arith, v.counter_lt);
                }),
                refl,
                λ a other. rw (==_ne a ps.number other) refl,
              ),
            )
    ]

-- Any two particles that two ranks append to well-formed arrays with room have the same id exactly when
-- the ranks and the counters are the same, if the ranks are below 2^32.
pub append-id_unique :
    (F : Scalars) (x₀ x₁ x₂ p₀ p₁ p₂ y₀ y₁ y₂ q₀ q₁ q₂ : F.S) (cell₁ cell₂ : ℕ)
    (weight₁ weight₂ : F.S) (flag₁ flag₂ : ℕ) (rank₁ rank₂ : ℕ) (ps₁ ps₂ : Particles F.S)
    → IsParticles ps₁
    → IsParticles ps₂
    → ps₁.number < ps₁.size
    → ps₂.number < ps₂.size
    → rank₁ < 2 ^ 32
    → rank₂ < 2 ^ 32
    → (((append F rank₁ x₀ x₁ x₂ p₀ p₁ p₂ cell₁ weight₁ flag₁ ps₁).ptcs ps₁.number).id
        ≡ ((append F rank₂ y₀ y₁ y₂ q₀ q₁ q₂ cell₂ weight₂ flag₂ ps₂).ptcs ps₂.number).id)
      ↔ ((rank₁ ≡ rank₂) × (ps₁.ptc_id ≡ ps₂.ptc_id))
append-id_unique F x₀ x₁ x₂ p₀ p₁ p₂ y₀ y₁ y₂ q₀ q₁ q₂ cell₁ cell₂ weight₁ weight₂ flag₁ flag₂ rank₁
      rank₂ ps₁ ps₂ v w l m small small' =
    let (_, _, f) = append_lem F rank₁ x₀ x₁ x₂ p₀ p₁ p₂ cell₁ weight₁ flag₁ ps₁ v small in
    let (_, _, g) = append_lem F rank₂ y₀ y₁ y₂ q₀ q₁ q₂ cell₂ weight₂ flag₂ ps₂ w small' in
    let (_, i, _, _) = f l in
    let (_, j, _, _) = g m in
    (
      λ e. (
        omega (arith, e, i.id, j.id, v.counter_lt, w.counter_lt),
        omega (arith, e, i.id, j.id, v.counter_lt, w.counter_lt),
      ),
      λ e. omega (arith, e.0, e.1, i.id, j.id),
    )

fitting-min :
    {S : Type 0} (num : ℕ) (ps : Particles S)
    → IsParticles ps
    → num < 2 ^ 31
    → fitting num ps.number ps ≡ min num (ps.size - ps.number)
unfolding fitting
fitting-min num ps v small = ground (arith, v.number_le, v.size_lt)

module _ {S : Type 0} (buf : Array (Ptc S)) (ps : Particles S) where
  -- the array with `n` particles of the buffer behind those in use
  abbrev filled : ℕ → Particles S
  filled n = record ps {
    ptcs = λ a. if leb ps.number a && ltb a (ps.number + n) then buf (a - ps.number) else ps.ptcs a;
    number = ps.number + n;
  }

  copy_count-filled :
      (n : ℕ)
      → n < 2 ^ 31
      → ps.number + n ≤ ps.size
      → ps.size < 2 ^ 63
      → copy_count buf n ps.number ps ≡ filled n
  unfolding copy_count set_num
  copy_count-filled n small fits l = elim (lt-cases 0 n) [
    | inl h ↦
        let sum : (ps.number + n) % 2 ^ 64 ≡ ps.number + n = omega arith in
        let top : min (ps.number + n) ps.size ≡ ps.number + n = omega arith in
        rw (ltb-lt 0 n h, ltb-lt n (2 ^ 31) small)
          (rw sum (rw (ltb-lt ps.number (ps.number + n) (omega arith), top) refl))
    | inr h ↦
        let sum : (ps.number + n) % 2 ^ 64 ≡ ps.number + n = omega arith in
        let same : ps.number + n ≡ ps.number = omega arith in
        rw (ltb-ge 0 n h, ltb-lt n (2 ^ 31) small)
          (rw sum (
            rw (ltb-ge ps.number (ps.number + n) (omega arith)) (
              ap₂ (λ (f : Array (Ptc S)) (k : ℕ). record ps { ptcs = f; number = k })
                (fun_ext (λ a. ground arith)) (sym same))))
  ]

  copy_from_buffer-filled :
      (num : ℕ)
      → IsParticles ps
      → num < 2 ^ 31
      → copy_from_buffer buf num ps.number ps ≡ filled (min num (ps.size - ps.number))
  unfolding copy_from_buffer
  copy_from_buffer-filled num v small =
      ap (λ n. copy_count buf n ps.number ps) (fitting-min num ps v small)
      ∙ copy_count-filled (min num (ps.size - ps.number)) (omega arith) (omega (arith, v.number_le))
          v.size_lt

-- In a well-formed array, copying `num` particles, fewer than 2^31, behind those in use puts as many of
-- them there as there is room for, and they are in use then; all other slots keep their particles, and the
-- array stays well-formed.
pub copy_from_buffer_lem :
    {S : Type 0} (buf : Array (Ptc S)) (num : ℕ) (ps : Particles S)
    → IsParticles ps
    → num < 2 ^ 31
    → let ps' : Particles S = copy_from_buffer buf num ps.number ps in
      IsParticles ps'
      × (ps'.number ≡ min (ps.number + num) ps.size)
      × ((k : ℕ) → k < num → ps.number + k < ps.size → ps'.ptcs (ps.number + k) ≡ buf k)
      × ((a : ℕ) → (a < ps.number) ⊎ (ps'.number ≤ a) → ps'.ptcs a ≡ ps.ptcs a)
copy_from_buffer_lem buf num ps v small = rw (copy_from_buffer-filled buf ps num v small) (
  record { number_le = omega (arith, v.number_le); size_lt = v.size_lt; counter_lt = v.counter_lt },
  omega (arith, v.number_le),
  (λ k l m. ground arith),
  λ a o. ground (arith, v.number_le),
)
