-- ===== src/Index/RowMajor/Specialised.antt =====
-- utils/index.hpp: the specialised `get_pos` of `idx_row_major_t` divides by the first extent where the
-- layout has the last one in its place.
use native.Mathlib.Nat.{
  add-mul-div_right, add-mul-mod_self_right, div-eq_of_lt, mod-eq_of_lt, div_self,
}
use aperture4_nick.Base.{
  ℕ, ◌+◌, ◌*◌, ◌/◌, ◌<◌, ◌≡◌, refl, sym, ap, ap₂, ◌∙◌, arith, List, [], ◌∷◌, ◌↔◌, inl, inr,
  lt-cases,
}
use aperture4_nick.Index.RowMajor.{to_linear, get_pos2}

to_linear2 : (p₀ p₁ e₀ e₁ : ℕ) → to_linear (p₀ ∷ p₁ ∷ []) (e₀ ∷ e₁ ∷ []) ≡ p₁ + p₀ * e₁
unfolding to_linear
to_linear2 p₀ p₁ e₀ e₁ = refl

first : List ℕ → ℕ
first [] = 0
first (x ∷ xs) = x

first-get_pos2 : (n e₀ : ℕ) → first (get_pos2 n e₀) ≡ n / e₀
unfolding get_pos2 first
first-get_pos2 n e₀ = refl

-- Every cell of the extent survives `to_linear` followed by the specialised `get_pos`.
abbrev pub Recovers : ℕ → ℕ → Type 0
Recovers e₀ e₁ =
    (p₀ p₁ : ℕ)
    → p₀ < e₀
    → p₁ < e₁
    → get_pos2 (to_linear (p₀ ∷ p₁ ∷ []) (e₀ ∷ e₁ ∷ [])) e₀ ≡ p₀ ∷ p₁ ∷ []

first_coordinate : (e₀ e₁ p₀ p₁ : ℕ) → Recovers e₀ e₁ → p₀ < e₀ → p₁ < e₁ → (p₁ + p₀ * e₁) / e₀ ≡ p₀
unfolding first
first_coordinate e₀ e₁ p₀ p₁ all l₀ l₁ =
    sym (first-get_pos2 (p₁ + p₀ * e₁) e₀)
    ∙ ap (λ (n : ℕ). first (get_pos2 n e₀)) (sym (to_linear2 p₀ p₁ e₀ e₁))
    ∙ ap first (all p₀ p₁ l₀ l₁)

not_wider : (e₀ e₁ : ℕ) → 0 < e₀ → Recovers e₀ e₁ → e₀ < e₁ → ⊥
not_wider e₀ e₁ h all l =
    let q = first_coordinate e₀ e₁ 0 e₀ all h l in
    let f : e₀ + 0 * e₁ ≡ e₀ = omega arith in
    let d : (e₀ + 0 * e₁) / e₀ ≡ 1 = rw f (div_self h) in omega arith

not_taller : (e₀ e₁ : ℕ) → 0 < e₁ → Recovers e₀ e₁ → e₁ < e₀ → ⊥
not_taller e₀ e₁ h all l =
    let q = first_coordinate e₀ e₁ 1 0 all (omega arith) h in
    let f : 0 + 1 * e₁ ≡ e₁ = omega arith in
    let d : (0 + 1 * e₁) / e₀ ≡ 0 = rw f (div-eq_of_lt l) in omega arith

square_recovers : (e p₀ p₁ : ℕ) → p₁ < e → get_pos2 (p₁ + p₀ * e) e ≡ p₀ ∷ p₁ ∷ []
unfolding get_pos2
square_recovers e p₀ p₁ l =
    let d = div-eq_of_lt l in
    let g : 0 < e = omega arith in
    let q = add-mul-div_right p₁ p₀ g in
    ap₂ (λ (a b : ℕ). a ∷ b ∷ []) (omega arith) (add-mul-mod_self_right p₁ p₀ e ∙ mod-eq_of_lt l)

-- In two dimensions the specialised `get_pos` undoes `to_linear` on every position inside the
-- extent exactly when the two extents, which are positive, are equal.
pub get_pos2-square_iff : (e₀ e₁ : ℕ) → 0 < e₀ → 0 < e₁ → Recovers e₀ e₁ ↔ (e₀ ≡ e₁)
get_pos2-square_iff e₀ e₁ h₀ h₁ = (necessary, sufficient)
  where
    necessary : Recovers e₀ e₁ → e₀ ≡ e₁
    necessary all = elim (lt-cases e₀ e₁) [
      | inl l ↦ absurd (not_wider e₀ e₁ h₀ all l)
      | inr g ↦ elim (lt-cases e₁ e₀) [
        | inl k ↦ absurd (not_taller e₀ e₁ h₁ all k)
        | inr k ↦ omega arith
      ]
    ]

    sufficient : e₀ ≡ e₁ → Recovers e₀ e₁
    sufficient e p₀ p₁ l₀ l₁ = rw (to_linear2 p₀ p₁ e₀ e₁, e) (square_recovers e₁ p₀ p₁ l₁)
