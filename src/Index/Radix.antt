-- ===== src/Index/Radix.antt =====
-- utils/index.hpp: the mixed-radix numbers that both layouts count in.
use native.Mathlib.Nat.{
  mod-add-mod, mod-eq_of_lt, add-mul-mod_self_left, add-mul-div_left, div-eq_of_lt, mod-lt,
  div-add-mod, div-lt_iff_lt-mul,
}
use aperture4_nick.Base.{
  ℕ, zero, suc, ◌+◌, ◌*◌, ◌/◌, ◌%◌, ◌^◌, ◌<◌, ◌≡◌, refl, ap, ap₂, ◌∙◌, arith, List, [], ◌∷◌,
}
use aperture4_nick.Vec.{strides_from, dot_from}

-- The loop of `pos`: digit by digit, lowest first.
unfoldable pub digits_of : ℕ → List ℕ → List ℕ
digits_of n [] = []
digits_of n (e ∷ es) = (n % e) ∷ digits_of (n / e) es

-- `pos` lies inside the extent.
abbrev pub IsInside : List ℕ → List ℕ → Type 0
IsInside [] [] = Unit {0}
IsInside [] (e ∷ es) = ⊥
IsInside (p ∷ ps) [] = ⊥
IsInside (p ∷ ps) (e ∷ es) = (p < e) × IsInside ps es

-- The number of cells, and the cell that a position numbers.
abbrev pub cells : List ℕ → ℕ
cells [] = 1
cells (e ∷ es) = e * cells es

abbrev pub value : List ℕ → List ℕ → ℕ
value (p ∷ ps) (e ∷ es) = p + e * value ps es
value _ _ = 0

pub value-lt : (ps es : List ℕ) → IsInside ps es → value ps es < cells es
value-lt [] [] h = omega arith
value-lt [] (e ∷ es) h = absurd h
value-lt (p ∷ ps) [] h = absurd h
value-lt (p ∷ ps) (e ∷ es) h = grind (arith, value-lt ps es h.1)

pub digits-value : (ps es : List ℕ) → IsInside ps es → digits_of (value ps es) es ≡ ps
unfolding digits_of
digits-value [] [] h = refl
digits-value [] (e ∷ es) h = absurd h
digits-value (p ∷ ps) [] h = absurd h
digits-value (p ∷ ps) (e ∷ es) h =
    ap₂ ◌∷◌ (add-mul-mod_self_left p e (value ps es) ∙ mod-eq_of_lt h.0) (
      ap (λ n. digits_of n es)
        (add-mul-div_left p (value ps es) {y = e} (omega (arith, h.0))
          ∙ omega (arith, div-eq_of_lt {n = p} {m = e} h.0))
      ∙ digits-value ps es h.1)

-- A number below a product splits into digits in range.
pub digit_rest : (n e c : ℕ) → n < e * c → (0 < e) × (n / e < c)
digit_rest n zero c h = absurd (omega arith)
digit_rest n (suc e) c h =
    (omega arith, (div-lt_iff_lt-mul {k = suc e} (omega arith)).1 (omega arith))

pub digits-IsInside : (n : ℕ) (es : List ℕ) → n < cells es → IsInside (digits_of n es) es
unfolding digits_of
digits-IsInside n [] h = tt
digits-IsInside n (e ∷ es) h =
    let (p, q) = digit_rest n e (cells es) h in (mod-lt n p, digits-IsInside (n / e) es q)

pub value-digits : (n : ℕ) (es : List ℕ) → n < cells es → value (digits_of n es) es ≡ n
unfolding digits_of
value-digits n [] h = omega arith
value-digits n (e ∷ es) h =
    let (p, q) = digit_rest n e (cells es) h in
    ap (λ v. n % e + e * v) (value-digits (n / e) es q) ∙ omega (arith, div-add-mod n e)

-- The loop of `dot` over the strides computes the number, modulo the word.
pub dot_from-value :
    (acc s : ℕ) (ps es : List ℕ)
    → IsInside ps es
    → acc < 2 ^ 32
    → dot_from acc ps (strides_from s es) ≡ (acc + s * value ps es) % 2 ^ 32
unfolding dot_from strides_from
dot_from-value acc s [] [] h l = omega arith
dot_from-value acc s [] (e ∷ es) h l = absurd h
dot_from-value acc s (p ∷ ps) [] h l = absurd h
dot_from-value acc s (p ∷ ps) (e ∷ es) h l =
    dot_from-value ((acc + p * s) % 2 ^ 32) (s * e) ps es h.1 (omega arith)
    ∙ mod-add-mod (acc + p * s) (2 ^ 32) (s * e * value ps es)
    ∙ ap (λ n. n % 2 ^ 32) (omega arith)
