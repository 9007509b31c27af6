-- ===== src/Guards/Exchange.antt =====
-- systems/domain_comm_impl.hpp: sending guard cells to the neighbours, for arrays and for vector fields, and
-- adding them up. The path of a build without a device.
use aperture4_nick.Base.{
  ℕ, zero, suc, ◌+◌, ◌-◌, ◌*◌, ◌%◌, ◌^◌, Bool, true, false, ◌&&◌, ltb, ◌==◌, if◌then◌else◌, List,
  [], ◌∷◌, length, Option, none, some,
}
use aperture4_nick.Grid.{Grid}
use aperture4_nick.Guards.{
  Field, zeros, axis_idx, buffer_extent, copy, copy_within, add, add_within,
}
use aperture4_nick.Guards.Axes.{guard_of, nth}

-- `dims` of one axis
abbrev pub dims_of : ℕ → Grid → ℕ
dims_of dim [] = 0
dims_of zero (a ∷ axes) = a.dims
dims_of (suc dim) (a ∷ axes) = dims_of dim axes

-- `m_rank`, `neighbor_left` and `neighbor_right`; `none` is `MPI_PROC_NULL`.
pub record Domain : Type 0 where
  pub rank : ℕ
  pub left : ℕ → Option ℕ
  pub right : ℕ → Option ℕ

abbrev pub is_rank : ℕ → Option ℕ → Bool
is_rank rank none = false
is_rank rank (some other) = other == rank

-- `dir == -1` is `left`.
abbrev pub dest : Domain → ℕ → Bool → Option ℕ
dest d dim left = if left then d.left dim else d.right dim

abbrev pub origin : Domain → ℕ → Bool → Option ℕ
origin d dim left = if left then d.right dim else d.left dim

-- `dims - guard` and `dims - 2 * guard`, in `uint32_t`
abbrev pub upper_guard : ℕ → Grid → ℕ
upper_guard dim grid = (dims_of dim grid + 2 ^ 32 - guard_of dim grid) % 2 ^ 32

abbrev pub upper_cells : ℕ → Grid → ℕ
upper_cells dim grid = (dims_of dim grid + 2 ^ 32 - 2 * guard_of dim grid) % 2 ^ 32

-- `send_idx[dim]` and `recv_idx[dim]` of the copy and of the sum
abbrev pub send_at : ℕ → Bool → Grid → ℕ
send_at dim left grid = if left then guard_of dim grid else upper_cells dim grid

abbrev pub recv_at : ℕ → Bool → Grid → ℕ
recv_at dim left grid = if left then upper_guard dim grid else 0

abbrev pub add_send_at : ℕ → Bool → Grid → ℕ
add_send_at dim left grid = if left then 0 else upper_guard dim grid

abbrev pub add_recv_at : ℕ → Bool → Grid → ℕ
add_recv_at dim left grid = if left then upper_cells dim grid else guard_of dim grid

-- The buffers of each direction, for arrays and for vector fields.
pub record Buffers (A : Type 0) : Type 0 where
  pub send : ℕ → Field A
  pub recv : ℕ → Field A
  pub send_vec : ℕ → Field A
  pub recv_vec : ℕ → Field A

-- `MPI_Sendrecv` to `dest` and from `origin` under a tag: what the receive buffer holds afterwards, from
-- the sent buffer and its old content.
abbrev pub Sendrecv : Type 0 → Type 0
Sendrecv A = Option ℕ → Option ℕ → ℕ → Field A → Field A → Field A

module _ {A : Type 0} (sendrecv : Sendrecv A) (d : Domain) (grid : Grid) where
  abbrev set_buffer : ℕ → Field A → (ℕ → Field A) → ℕ → Field A
  set_buffer dim f buffers other = if other == dim then f else buffers other

  unfoldable pub send_array_single : ℕ → Bool → Field A × Buffers A → Field A × Buffers A
  unfolding copy copy_within axis_idx buffer_extent
  send_array_single dim left (array, b) =
      let ext = buffer_extent dim grid in
      let send_idx = axis_idx dim (send_at dim left grid) grid in
      let recv_idx = axis_idx dim (recv_at dim left grid) grid in
      let sent = copy (b.send dim) array (zeros grid) send_idx ext in
      let received = sendrecv (dest d dim left) (origin d dim left) dim sent (b.recv dim) in
      let b' = record b {
        send = set_buffer dim sent b.send;
        recv = set_buffer dim received b.recv;
      } in
      if ltb dim (length grid)
      then (if is_rank d.rank (dest d dim left) && is_rank d.rank (origin d dim left)
          then (copy_within array recv_idx send_idx ext, b)
          else elim (origin d dim left) [
            | none ↦ (array, b')
            | some rank ↦ (copy array received recv_idx (zeros grid) ext, b')
          ])
      else (array, b)

  -- `send_add_array_guard_cells_single_dir`
  unfoldable pub send_add_array_single :
      (A → A → A) → ℕ → Bool → Field A × Buffers A → Field A × Buffers A
  unfolding copy add add_within axis_idx buffer_extent
  send_add_array_single plus dim left (array, b) =
      let ext = buffer_extent dim grid in
      let send_idx = axis_idx dim (add_send_at dim left grid) grid in
      let recv_idx = axis_idx dim (add_recv_at dim left grid) grid in
      let sent = copy (b.send dim) array (zeros grid) send_idx ext in
      let received = sendrecv (dest d dim left) (origin d dim left) 0 sent (b.recv dim) in
      let b' = record b {
        send = set_buffer dim sent b.send;
        recv = set_buffer dim received b.recv;
      } in
      if ltb dim (length grid)
      then (if is_rank d.rank (dest d dim left) && is_rank d.rank (origin d dim left)
          then (add_within plus array recv_idx send_idx ext, b)
          else elim (origin d dim left) [
            | none ↦ (array, b')
            | some rank ↦ (add plus array received recv_idx (zeros grid) ext, b')
          ])
      else (array, b)

  -- `vec_buf_idx`: the place of component `n` in the buffer of a vector field
  abbrev vec_buf_idx : ℕ → ℕ → List ℕ
  vec_buf_idx dim n =
      axis_idx (length grid - 1) (n * nth (length grid - 1) (buffer_extent dim grid)) grid

  -- The three components of the field, one after the other.
  abbrev pack : ℕ → List ℕ → (ℕ → Field A) → Field A → Field A
  pack dim send_idx field buffer =
      let ext = buffer_extent dim grid in
      let one = copy buffer (field 0) (vec_buf_idx dim 0) send_idx ext in
      let two = copy one (field 1) (vec_buf_idx dim 1) send_idx ext in
      copy two (field 2) (vec_buf_idx dim 2) send_idx ext

  unfoldable pub send_vector_single :
      ℕ → Bool → (ℕ → Field A) × Buffers A → (ℕ → Field A) × Buffers A
  unfolding copy copy_within axis_idx buffer_extent
  send_vector_single dim left (field, b) =
      let ext = buffer_extent dim grid in
      let send_idx = axis_idx dim (send_at dim left grid) grid in
      let recv_idx = axis_idx dim (recv_at dim left grid) grid in
      let sent = pack dim send_idx field (b.send_vec dim) in
      let received = sendrecv (dest d dim left) (origin d dim left) 0 sent (b.recv_vec dim) in
      let b' = record b {
        send_vec = set_buffer dim sent b.send_vec;
        recv_vec = set_buffer dim received b.recv_vec;
      } in
      if ltb dim (length grid)
      then (if is_rank d.rank (dest d dim left) && is_rank d.rank (origin d dim left)
          then ((λ n. copy_within (field n) recv_idx send_idx ext), b)
          else elim (origin d dim left) [
            | none ↦ (field, b')
            | some rank ↦ ((λ n. copy (field n) received recv_idx (vec_buf_idx dim n) ext), b')
          ])
      else (field, b)

  unfoldable pub send_add_vector_single :
      (A → A → A) → ℕ → Bool → (ℕ → Field A) × Buffers A → (ℕ → Field A) × Buffers A
  unfolding copy add add_within axis_idx buffer_extent
  send_add_vector_single plus dim left (field, b) =
      let ext = buffer_extent dim grid in
      let send_idx = axis_idx dim (add_send_at dim left grid) grid in
      let recv_idx = axis_idx dim (add_recv_at dim left grid) grid in
      let sent = pack dim send_idx field (b.send_vec dim) in
      let received = sendrecv (dest d dim left) (origin d dim left) 0 sent (b.recv_vec dim) in
      let b' = record b {
        send_vec = set_buffer dim sent b.send_vec;
        recv_vec = set_buffer dim received b.recv_vec;
      } in
      if ltb dim (length grid)
      then (if is_rank d.rank (dest d dim left) && is_rank d.rank (origin d dim left)
          then ((λ n. add_within plus (field n) recv_idx send_idx ext), b)
          else elim (origin d dim left) [
            | none ↦ (field, b')
            | some rank ↦ ((λ n. add plus (field n) received recv_idx (vec_buf_idx dim n) ext), b')
          ])
      else (field, b)

  -- `send_guard_cells` and `send_add_guard_cells`, of an array and of a vector field
  unfoldable pub send_array : Field A × Buffers A → Field A × Buffers A
  unfolding send_array_single
  send_array s₀ =
      let s₁ = send_array_single 0 false (send_array_single 0 true s₀) in
      let s₂ = send_array_single 1 false (send_array_single 1 true s₁) in
      send_array_single 2 false (send_array_single 2 true s₂)

  unfoldable pub send_add_array : (A → A → A) → Field A × Buffers A → Field A × Buffers A
  unfolding send_add_array_single
  send_add_array plus s₀ =
      let s₁ = send_add_array_single plus 0 false (send_add_array_single plus 0 true s₀) in
      let s₂ = send_add_array_single plus 1 false (send_add_array_single plus 1 true s₁) in
      send_add_array_single plus 2 false (send_add_array_single plus 2 true s₂)

  unfoldable pub send_vector : (ℕ → Field A) × Buffers A → (ℕ → Field A) × Buffers A
  unfolding send_vector_single
  send_vector s₀ =
      let s₁ = send_vector_single 0 false (send_vector_single 0 true s₀) in
      let s₂ = send_vector_single 1 false (send_vector_single 1 true s₁) in
      send_vector_single 2 false (send_vector_single 2 true s₂)

  unfoldable pub send_add_vector :
      (A → A → A) → (ℕ → Field A) × Buffers A → (ℕ → Field A) × Buffers A
  unfolding send_add_vector_single
  send_add_vector plus s₀ =
      let s₁ = send_add_vector_single plus 0 false (send_add_vector_single plus 0 true s₀) in
      let s₂ = send_add_vector_single plus 1 false (send_add_vector_single plus 1 true s₁) in
      send_add_vector_single plus 2 false (send_add_vector_single plus 2 true s₂)
