-- ===== src/Domain/Setup.antt =====
-- systems/domain_comm_impl.hpp, `setup_domain`, and the `domain_info_t` of core/domain_info.h that it fills.
use aperture4_nick.Base.{
  ℕ, zero, suc, ◌*◌, ◌/◌, ◌%◌, ◌^◌, Bool, true, false, ◌&&◌, ltb, ◌==◌, if◌then◌else◌, List, [],
  ◌∷◌, map, Option, none, some, ◌>>=◌,
}
use aperture4_nick.Base.Int.{ℤ, pos, negsuc}

-- The calls of the message passing library: `MPI_Dims_create`, and on the communicator that
-- `MPI_Cart_create` makes of dims and periods `MPI_Cart_coords` and the destination of `MPI_Cart_shift`
-- for a rank of this communicator. `MPI_Cart_create` may reorder: `cart_rank` is the rank there of a
-- process, from its rank in the world. `MPI_Cart_shift` goes from the rank of the calling process; the
-- code asks for the coordinates of the rank in the world. A rank of `none` is `MPI_PROC_NULL`.
pub record Library : Type 0 where
  pub dims_create : ℕ → List ℕ → Option (List ℕ)
  pub cart_coords : List ℕ → List Bool → ℕ → List ℕ
  pub cart_rank : List ℕ → List Bool → ℕ → ℕ
  pub cart_shift : List ℕ → List Bool → ℕ → ℤ → ℕ → Option ℕ

-- `domain_info_t`; the arrays of neighbours are functions of the direction.
pub record DomainInfo : Type 0 where
  pub mpi_dims : List ℕ
  pub mpi_coord : List ℕ
  pub is_periodic : List Bool
  pub neighbor_left : ℕ → Option ℕ
  pub neighbor_right : ℕ → Option ℕ
  pub is_boundary : ℕ → Bool

-- The product of `int64_t` patterns.
unfoldable pub product_int64 : List ℕ → ℕ
product_int64 [] = 1
product_int64 (d ∷ dims) = (d * product_int64 dims) % 2 ^ 64

-- The first `n` elements of a vector, which is filled up with `x` if it is shorter.
unfoldable pub resized : {A : Type 0} → ℕ → A → List A → List A
resized zero x xs = []
resized (suc n) x [] = x ∷ resized n x []
resized (suc n) x (y ∷ ys) = y ∷ resized n x ys

abbrev pub is_none : Option ℕ → Bool
is_none none = true
is_none (some r) = false

-- What `setup_domain` asks the library for, when the dims and the periods are there.
unfoldable pub cart_info : Library → ℕ → ℕ → List ℕ → List Bool → DomainInfo
cart_info lib dim rank mpi_dims periods =
    let here : ℕ = lib.cart_rank mpi_dims periods rank in
    let left : ℕ → Option ℕ =
      λ n. if ltb n dim then lib.cart_shift mpi_dims periods n (negsuc 0) here else none in
    let right : ℕ → Option ℕ =
      λ n. if ltb n dim then lib.cart_shift mpi_dims periods n (pos 1) here else none in
    record {
      mpi_dims = mpi_dims;
      mpi_coord = lib.cart_coords mpi_dims periods rank;
      is_periodic = periods;
      neighbor_left = left;
      neighbor_right = right;
      is_boundary = λ k.
          ltb k (2 * dim)
          && (if k % 2 == 0 then is_none (left (k / 2)) else is_none (right (k / 2)));
    }

-- `setup_domain` on the rank `rank` of `num` ranks, for `dim` directions: `ranks` and `periodic` are
-- what the parameter store has under "ranks" and "periodic_boundary". The dims that
-- `MPI_Dims_create` starts from are those of the constructor of `domain_info_t`.
unfoldable pub setup_domain : Library → ℕ → ℕ → ℕ → List ℕ → List Bool → Option DomainInfo
unfolding resized product_int64 cart_info
setup_domain lib dim num rank ranks periodic = do
  let dims : List ℕ = resized dim 1 ranks
  mpi_dims ←
      if product_int64 dims == num
      then some (map (λ d. d % 2 ^ 32) dims)
      else lib.dims_create num (resized dim 1 [])
  some (cart_info lib dim rank mpi_dims (resized dim false periodic))
