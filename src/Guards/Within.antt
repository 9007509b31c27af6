-- ===== src/Guards/Within.antt =====
-- core/detail/multi_array_helpers.cpp: when the two boxes of one array do not meet, moving data inside the
-- array is the same as moving it from a copy of the array.
use aperture4_nick.Base.{ℕ, zero, suc, ◌+◌, ◌<◌, ◌≡◌, refl, ap, ◌∙◌, arith, false, List}
use aperture4_nick.Index.Radix.{IsInside, cells, digits-IsInside}
use aperture4_nick.Index.ColMajor.{position_of}
use aperture4_nick.Guards.{Field, add_pos, same_pos, set_at, transfer, transfer_within}

module _ {A : Type 0} (join : A → A → A) (ext dst_pos src_pos : List ℕ)
    (apart : (q r : List ℕ)
      → IsInside q ext
      → IsInside r ext
      → same_pos (add_pos src_pos q) (add_pos dst_pos r) ≡ false) where
  position-IsInside : (n : ℕ) → n < cells ext → IsInside (position_of n ext) ext
  unfolding position_of
  position-IsInside n l = digits-IsInside n ext l

  -- `array` is the copy, and `dst` agrees with it on the source box.
  pub within-transfer :
      (rounds n : ℕ) (dst array : Field A)
      → n + rounds ≡ cells ext
      → ((q : List ℕ) → IsInside q ext → dst (add_pos src_pos q) ≡ array (add_pos src_pos q))
      → transfer_within join ext dst_pos src_pos rounds n dst
        ≡ transfer join ext dst_pos src_pos rounds n dst array
  unfolding transfer transfer_within
  within-transfer zero n dst array e agree = refl
  within-transfer (suc rounds) n dst array e agree =
      let at = position_of n ext in
      let inside = position-IsInside n (omega arith) in
      let to = add_pos dst_pos at in
      ap
        (λ v.
          transfer_within join ext dst_pos src_pos rounds (n + 1) (set_at dst to (join (dst to) v)))
        (agree at inside)
      ∙ within-transfer rounds (n + 1) (set_at dst to (join (dst to) (array (add_pos src_pos at))))
          array (omega arith) (λ q h. rw (apart q at h inside) (agree q h))
