-- ===== src/Guards.antt =====
-- systems/domain_comm_impl.hpp: the exchange of guard cells, with `copy` and `add` of
-- core/detail/multi_array_helpers.cpp. An array is a function of the position of a cell; the number of
-- the cell in memory is that of Index, which is one to one up to 2^31 cells. The message passing library is the
-- interface `Messages`.
pub mod Transfer
pub mod Within
pub mod Axes
pub mod Exchange
pub mod Periodic
pub mod Image
mod Tests
use aperture4_nick.Base.{
  ℕ, zero, suc, ◌+◌, ◌-◌, ◌*◌, ◌%◌, ◌^◌, Bool, true, false, ◌&&◌, ltb, ◌==◌, if◌then◌else◌, List,
  [], ◌∷◌, length, get_elem?, Option, none, some,
}
use aperture4_nick.Index.ColMajor.{position_of}
use aperture4_nick.Index.Radix.{cells}
use aperture4_nick.Grid.{Axis, Grid, extent}

abbrev pub Field : Type 0 → Type 0
Field A = List ℕ → A

-- `ext.size()`, a product of `uint32_t`s, which the loops of `copy` and `add` run up to
abbrev pub loop_size : List ℕ → ℕ
loop_size ext = cells ext % 2 ^ 32

-- The sum of two `index_t`.
abbrev pub add_pos : List ℕ → List ℕ → List ℕ
add_pos (p ∷ ps) (q ∷ qs) = (p + q) ∷ add_pos ps qs
add_pos _ _ = []

abbrev pub same_pos : List ℕ → List ℕ → Bool
same_pos [] [] = true
same_pos [] (q ∷ qs) = false
same_pos (p ∷ ps) [] = false
same_pos (p ∷ ps) (q ∷ qs) = (p == q) && same_pos ps qs

module _ {A : Type 0} where
  abbrev pub set_at : Field A → List ℕ → A → Field A
  set_at f p v q = if same_pos q p then v else f q

  -- The loops of `copy` and `add`: `join` makes the new element out of the old one and the source.
  unfoldable pub transfer :
      (A → A → A) → List ℕ → List ℕ → List ℕ → ℕ → ℕ → Field A → Field A → Field A
  unfolding position_of
  transfer join ext dst_pos src_pos zero n dst src = dst
  transfer join ext dst_pos src_pos (suc rounds) n dst src =
      let to : List ℕ = add_pos dst_pos (position_of n ext) in
      let from : List ℕ = add_pos src_pos (position_of n ext) in
      transfer join ext dst_pos src_pos rounds (n + 1) (set_at dst to (join (dst to) (src from)))
        src

  -- the same where source and target are one array
  unfoldable pub transfer_within :
      (A → A → A) → List ℕ → List ℕ → List ℕ → ℕ → ℕ → Field A → Field A
  unfolding position_of
  transfer_within join ext dst_pos src_pos zero n dst = dst
  transfer_within join ext dst_pos src_pos (suc rounds) n dst =
      let to : List ℕ = add_pos dst_pos (position_of n ext) in
      let from : List ℕ = add_pos src_pos (position_of n ext) in
      transfer_within join ext dst_pos src_pos rounds (n + 1)
        (set_at dst to (join (dst to) (dst from)))

  -- `copy`, between two arrays and in one
  unfoldable pub copy : Field A → Field A → List ℕ → List ℕ → List ℕ → Field A
  unfolding transfer
  copy dst src dst_pos src_pos ext =
      transfer (λ d s. s) ext dst_pos src_pos (loop_size ext) 0 dst src

  unfoldable pub copy_within : Field A → List ℕ → List ℕ → List ℕ → Field A
  unfolding transfer_within
  copy_within array dst_pos src_pos ext =
      transfer_within (λ d s. s) ext dst_pos src_pos (loop_size ext) 0 array

  -- `add`, with `plus d s` for `d + s * scale`
  unfoldable pub add : (A → A → A) → Field A → Field A → List ℕ → List ℕ → List ℕ → Field A
  unfolding transfer
  add plus dst src dst_pos src_pos ext = transfer plus ext dst_pos src_pos (loop_size ext) 0 dst src

  unfoldable pub add_within : (A → A → A) → Field A → List ℕ → List ℕ → List ℕ → Field A
  unfolding transfer_within
  add_within plus array dst_pos src_pos ext =
      transfer_within plus ext dst_pos src_pos (loop_size ext) 0 array

-- `index_t{}`, and with one component set; and the extent of a buffer, as `resize_buffers` makes it.
abbrev pub zeros : Grid → List ℕ
zeros [] = []
zeros (a ∷ axes) = 0 ∷ zeros axes

unfoldable pub axis_idx : ℕ → ℕ → Grid → List ℕ
axis_idx dim v [] = []
axis_idx zero v (a ∷ axes) = v ∷ zeros axes
axis_idx (suc dim) v (a ∷ axes) = 0 ∷ axis_idx dim v axes

unfoldable pub buffer_extent : ℕ → Grid → List ℕ
unfolding extent
buffer_extent dim [] = []
buffer_extent zero (a ∷ axes) = a.guard ∷ extent axes
buffer_extent (suc dim) (a ∷ axes) = a.dims ∷ buffer_extent dim axes
