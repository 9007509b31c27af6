-- ===== src/Comm/Route.antt =====
-- systems/domain_comm_impl.hpp: `send_particle_array` and `send_particles_impl`, which pass the buffers of the
-- zones on from rank to rank, on a build whose buffers live on the host.
use aperture4_nick.Base.{
  ℕ, zero, suc, ◌+◌, ◌*◌, ◌&&◌, leb, ◌==◌, if◌then◌else◌, List, [], ◌∷◌, length, Option, none, some,
  ◌>>=◌, Array, write, listing, write_list,
}
use aperture4_nick.Grid.{Grid}
use aperture4_nick.Particles.{Ptc, Particles}
use aperture4_nick.Particles.Append.{copy_from_buffer}
use aperture4_nick.Guards.Exchange.{Domain, is_rank}
use aperture4_nick.Comm.{Buffers, copy_to_comm_buffers}

-- `MPI_Sendrecv` to `dst` and from `src` under a tag: the particles that arrive, from those sent. That
-- the message is one of whole particles is part of it.
abbrev pub Sendrecv : Type 0 → Type 0
Sendrecv S = Option ℕ → Option ℕ → ℕ → List (Ptc S) → List (Ptc S)

-- The first `num` pairs of a buffer to send and a buffer to receive into.
unfoldable pub batch : ℕ → (ℕ → ℕ × ℕ) → List (ℕ × ℕ)
batch zero pair = []
batch (suc num) pair = pair 0 ∷ batch num (λ i. pair (suc i))

abbrev pub central : ℕ → ℕ
central dim = if dim == 2 then 4 else if dim == 1 then 1 else 13

abbrev pub num_send_x : ℕ → ℕ
num_send_x dim = if dim == 2 then 3 else if dim == 1 then 1 else 9

module _ {S : Type 0} where
  abbrev pub outbox : ℕ → Buffers S → List (Ptc S)
  outbox send s = listing (s.buffers send) (s.nums send)

  -- What arrives goes to `offset` of the buffer `recv`, and is counted. `none` is a write behind the
  -- end of a buffer.
  unfoldable pub receive : ℕ → ℕ → ℕ → List (Ptc S) → Buffers S → Option (Buffers S)
  receive capacity recv offset arrived s =
      if leb (offset + length arrived) capacity
      then some (record s {
        buffers = write s.buffers recv (write_list (s.buffers recv) offset arrived);
        nums = write s.nums recv (s.nums recv + length arrived);
      })
      else none

  -- The last loop: the sent buffers count as empty.
  unfoldable pub clear_sent : List (ℕ × ℕ) → Buffers S → Buffers S
  clear_sent [] s = s
  clear_sent ((send, recv) ∷ ps) s = clear_sent ps (record s { nums = write s.nums send 0 })

module _ {S : Type 0} (sendrecv : Sendrecv S) (d : Domain) (capacity : ℕ) where
  -- One round of the loop of the batched `send_particle_array`; `i` is the tag.
  unfoldable pub send_one : Option ℕ → Option ℕ → ℕ → ℕ × ℕ → Buffers S → Option (Buffers S)
  unfolding receive
  send_one src dst i (send, recv) s =
      receive capacity recv (s.nums recv)
        (if is_rank d.rank src && is_rank d.rank dst
          then outbox send s
          else sendrecv dst src i (outbox send s))
        s

  unfoldable pub send_loop : Option ℕ → Option ℕ → ℕ → List (ℕ × ℕ) → Buffers S → Option (Buffers S)
  unfolding send_one
  send_loop src dst i [] s = some s
  send_loop src dst i (p ∷ ps) s = send_one src dst i p s >>= send_loop src dst (suc i) ps

  unfoldable pub send_particle_arrays :
      Option ℕ → Option ℕ → List (ℕ × ℕ) → Buffers S → Option (Buffers S)
  unfolding send_loop clear_sent
  send_particle_arrays src dst ps s = do s₁ ← send_loop src dst 0 ps s; some (clear_sent ps s₁)

  -- The other `send_particle_array`, for one buffer. On the host the target of the message is the
  -- start of the buffer, not the place behind the particles that are there.
  unfoldable pub send_particle_array :
      Option ℕ → Option ℕ → ℕ → ℕ → ℕ → Buffers S → Option (Buffers S)
  unfolding receive
  send_particle_array src dst tag send recv s = do
    s₁ ← receive capacity recv 0 (sendrecv dst src tag (outbox send s)) s
    some (record s₁ { nums = write s₁.nums send 0 })

module _ {S : Type 0} (sendrecv : ℕ → Sendrecv S) (d : Domain) (capacity : ℕ) where
  -- What a message brings depends on when it is sent. The exchange calls `send_particle_array` twice for
  -- each direction `n`: `sendrecv (2 * n)` is the library during the first of these calls, and
  -- `sendrecv (2 * n + 1)` during the second.
  unfoldable pub exchange_x : ℕ → Buffers S → Option (Buffers S)
  unfolding batch send_particle_arrays
  exchange_x dim s = do
    s₁ ←
        send_particle_arrays (sendrecv 0) d capacity (d.right 0) (d.left 0)
          (batch (num_send_x dim) (λ i. (i * 3, i * 3 + 1))) s
    send_particle_arrays (sendrecv 1) d capacity (d.left 0) (d.right 0)
        (batch (num_send_x dim) (λ i. (i * 3 + 2, i * 3 + 1))) s₁

  unfoldable pub exchange_y : ℕ → Buffers S → Option (Buffers S)
  unfolding batch send_particle_arrays
  exchange_y dim s = do
    let num_send_y : ℕ = if dim == 2 then 1 else 3
    s₁ ←
        send_particle_arrays (sendrecv 2) d capacity (d.right 1) (d.left 1)
          (batch num_send_y (λ i. (1 + i * 9, 1 + 3 + i * 9))) s
    send_particle_arrays (sendrecv 3) d capacity (d.left 1) (d.right 1)
        (batch num_send_y (λ i. (1 + 6 + i * 9, 1 + 3 + i * 9))) s₁

  unfoldable pub exchange_z : Buffers S → Option (Buffers S)
  unfolding send_particle_array
  exchange_z s = do
    s₁ ← send_particle_array (sendrecv 4) d capacity (d.right 2) (d.left 2) 13 4 13 s
    send_particle_array (sendrecv 5) d capacity (d.left 2) (d.right 2) 13 22 13 s₁

  -- The three directions of `send_particles_impl`.
  unfoldable pub exchange : ℕ → Buffers S → Option (Buffers S)
  unfolding exchange_x exchange_y exchange_z
  exchange dim s = do
    s₁ ← exchange_x dim s
    s₂ ← if leb 2 dim then exchange_y dim s₁ else some s₁
    if dim == 3 then exchange_z s₂ else some s₂

  -- `send_particles_impl` after the buffers are there: the particles, the buffers and the counts.
  unfoldable pub send_particles :
      Grid → Particles S × Array (Array (Ptc S)) → Option (Particles S × Buffers S)
  unfolding copy_to_comm_buffers exchange copy_from_buffer
  send_particles grid (ps, buffers) = do
    let cleared : Buffers S = record { ptcs = ps.ptcs; buffers = buffers; nums = λ z. 0 }
    s ← copy_to_comm_buffers grid capacity ps.number cleared
    s₁ ← exchange (length grid) s
    let c : ℕ = central (length grid)
    let left : Particles S = record ps { ptcs = s₁.ptcs }
    let ps' : Particles S = copy_from_buffer (s₁.buffers c) (s₁.nums c) left.number left
    some (ps', record s₁ { ptcs = ps'.ptcs; nums = write s₁.nums c 0 })
