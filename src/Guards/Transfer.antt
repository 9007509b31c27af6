-- ===== src/Guards/Transfer.antt =====
-- core/detail/multi_array_helpers.cpp: `copy` and `add` change the box at the target position, cell by
-- cell, and nothing else.
use aperture4_nick.Base.{
  ℕ, zero, suc, ◌+◌, ◌≤◌, ◌<◌, ◌≡◌, ◌≢◌, refl, sym, ap, ap₂, ◌∙◌, arith, true, false, ==_refl,
  ==_iff, List, [], ◌∷◌, length, eq-cases, inl, inr, Bool-cases,
}
use aperture4_nick.Index.Radix.{
  IsInside, cells, value, value-lt, digits-value, digits-IsInside, value-digits,
}
use aperture4_nick.Index.ColMajor.{position_of}
use aperture4_nick.Guards.{Field, add_pos, same_pos, set_at, transfer}

pub same_pos_refl : (p : List ℕ) → same_pos p p ≡ true
same_pos_refl [] = refl
same_pos_refl (p ∷ ps) = rw (==_refl p, same_pos_refl ps) refl

pub same_pos-eq : (p q : List ℕ) → same_pos p q ≡ true → p ≡ q
same_pos-eq [] [] h = refl
same_pos-eq [] (q ∷ qs) h = absurd (ground arith)
same_pos-eq (p ∷ ps) [] h = absurd (ground arith)
same_pos-eq (p ∷ ps) (q ∷ qs) h =
    ap₂ ◌∷◌ (ground (arith, (==_iff p q).0)) (same_pos-eq ps qs (ground arith))

pub same_pos-ne : (p q : List ℕ) → p ≢ q → same_pos p q ≡ false
same_pos-ne p q ne = elim (Bool-cases (same_pos p q)) [
  | inl e ↦ absurd (ne (same_pos-eq p q e))
  | inr e ↦ e
]

-- Positions in a box of one size are apart after a shift when they are apart before.
pub add_pos-same :
    (d q r ext : List ℕ)
    → length d ≡ length ext
    → IsInside q ext
    → IsInside r ext
    → same_pos (add_pos d q) (add_pos d r) ≡ same_pos q r
add_pos-same [] [] [] [] e h k = refl
add_pos-same (w ∷ d) [] [] [] e h k = absurd (omega arith)
add_pos-same d [] r (x ∷ ext) e h k = absurd h
add_pos-same d [] (y ∷ r) [] e h k = absurd k
add_pos-same d (x ∷ q) r [] e h k = absurd h
add_pos-same d (x ∷ q) [] (z ∷ ext) e h k = absurd k
add_pos-same [] (x ∷ q) (y ∷ r) (z ∷ ext) e h k = absurd (omega arith)
add_pos-same (w ∷ d) (x ∷ q) (y ∷ r) (z ∷ ext) e h k =
    ground (arith, add_pos-same d q r ext (omega arith) h.1 k.1)

module _ {A : Type 0} (join : A → A → A) (ext dst_pos src_pos : List ℕ)
    (fits : length dst_pos ≡ length ext) where
  position-value : (q : List ℕ) → IsInside q ext → position_of (value q ext) ext ≡ q
  unfolding position_of
  position-value q h = digits-value q ext h

  position-IsInside : (n : ℕ) → n < cells ext → IsInside (position_of n ext) ext
  unfolding position_of
  position-IsInside n l = digits-IsInside n ext l

  value-position : (n : ℕ) → n < cells ext → value (position_of n ext) ext ≡ n
  unfolding position_of
  value-position n l = value-digits n ext l

  -- Two cells of the box with different numbers are apart.
  apart-value :
      (q : List ℕ) (m : ℕ)
      → IsInside q ext
      → m < cells ext
      → value q ext ≢ m
      → same_pos (add_pos dst_pos q) (add_pos dst_pos (position_of m ext)) ≡ false
  apart-value q m h l ne =
      add_pos-same dst_pos q (position_of m ext) ext fits h (position-IsInside m l)
      ∙ same_pos-ne q (position_of m ext) (λ e. ne (ap (λ r. value r ext) e ∙ value-position m l))

  -- A cell that is not one of those from round `n` on is left alone.
  pub transfer-other :
      (rounds n : ℕ) (dst src : Field A) (p : List ℕ)
      → n + rounds ≡ cells ext
      → ((m : ℕ) → n ≤ m → m < cells ext → same_pos p (add_pos dst_pos (position_of m ext)) ≡ false)
      → transfer join ext dst_pos src_pos rounds n dst src p ≡ dst p
  unfolding transfer
  transfer-other zero n dst src p e apart = refl
  transfer-other (suc rounds) n dst src p e apart =
      let to = add_pos dst_pos (position_of n ext) in
      let v = join (dst to) (src (add_pos src_pos (position_of n ext))) in
      transfer-other rounds (n + 1) (set_at dst to v) src p (omega arith)
        (λ m l k. apart m (omega arith) k)
      ∙ rw (apart n (omega arith) (omega arith)) refl

  -- A cell of the box from round `n` on is changed once.
  pub transfer-box :
      (rounds n : ℕ) (dst src : Field A) (q : List ℕ)
      → n + rounds ≡ cells ext
      → IsInside q ext
      → n ≤ value q ext
      → transfer join ext dst_pos src_pos rounds n dst src (add_pos dst_pos q)
        ≡ join (dst (add_pos dst_pos q)) (src (add_pos src_pos q))
  unfolding transfer
  transfer-box zero n dst src q e h l = absurd (omega (arith, value-lt q ext h))
  transfer-box (suc rounds) n dst src q e h l =
      let at = position_of n ext in
      let v = join (dst (add_pos dst_pos at)) (src (add_pos src_pos at)) in
      let dst' = set_at dst (add_pos dst_pos at) v in
      elim (eq-cases (value q ext) n) [
        | inl same ↦
            let here : position_of n ext ≡ q =
              ap (λ m. position_of m ext) (sym same) ∙ position-value q h in
            transfer-other rounds (n + 1) dst' src (add_pos dst_pos q) (omega arith)
              (λ m k f. apart-value q m h f (λ x. omega arith))
            ∙ rw here (rw (same_pos_refl (add_pos dst_pos q)) refl)
        | inr other ↦
            transfer-box rounds (n + 1) dst' src q (omega arith) h (omega arith)
            ∙ rw (apart-value q n h (omega arith) other) refl
      ]
