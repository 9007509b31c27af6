-- ===== src/Vec.antt =====
-- utils/vec.hpp: `vec_t`, `extent_t` and `index_t`, of any rank. A vector is the list of its
-- components.
use aperture4_nick.Base.{
  ℕ, ◌+◌, ◌*◌, ◌%◌, ◌^◌, Bool, true, false, not, ltb, leb, ◌==◌, if◌then◌else◌, List, [], ◌∷◌,
}

-- `operator<`, `operator<=` and `operator==`: the loops stop at the first component that fails.
pub less : List ℕ → List ℕ → Bool
less (x ∷ xs) (y ∷ ys) = if leb y x then false else less xs ys
less _ _ = true

pub less_eq : List ℕ → List ℕ → Bool
less_eq (x ∷ xs) (y ∷ ys) = if ltb y x then false else less_eq xs ys
less_eq _ _ = true

pub equal : List ℕ → List ℕ → Bool
equal (x ∷ xs) (y ∷ ys) = if not (x == y) then false else equal xs ys
equal _ _ = true

-- `get_strides`: each stride is the one before times the extent before.
unfoldable pub strides_from : ℕ → List ℕ → List ℕ
strides_from stride [] = []
strides_from stride (e ∷ es) = stride ∷ strides_from (stride * e) es

unfoldable pub strides : List ℕ → List ℕ
unfolding strides_from
strides ext = strides_from 1 ext

-- `dot` of an `index_t`: the sum is kept in an `int32_t`, here its 32-bit pattern.
unfoldable pub dot_from : ℕ → List ℕ → List ℕ → ℕ
dot_from result (x ∷ xs) (y ∷ ys) = dot_from ((result + x * y) % 2 ^ 32) xs ys
dot_from result _ _ = result

unfoldable pub dot : List ℕ → List ℕ → ℕ
unfolding dot_from
dot xs ys = dot_from 0 xs ys

-- `product` of an `extent_t`, in `uint32_t`; it is `size()` of the extent.
unfoldable pub product_from : ℕ → List ℕ → ℕ
product_from result [] = result
product_from result (x ∷ xs) = product_from ((result * x) % 2 ^ 32) xs

unfoldable pub size : List ℕ → ℕ
unfolding product_from
size [] = 1
size (x ∷ xs) = product_from x xs
