-- ===== src/Domain/Torus.antt =====
-- systems/domain_comm_impl.hpp, `setup_domain`: with periodic boundaries the ranks stand on a torus.
use aperture4_nick.Base.{
  ℕ, zero, suc, ◌+◌, ◌-◌, ◌%◌, ◌^◌, ◌<◌, ◌≡◌, refl, sym, ap, ◌∙◌, arith, Bool, false, ◌==◌, ==_refl,
  ltb-lt, if◌then◌else◌, List, [], ◌∷◌, map, length, Option, none, some, IsPermutation,
}
use aperture4_nick.Base.Int.{pos, negsuc}
use aperture4_nick.Domain.Setup.{
  Library, DomainInfo, resized, product_int64, cart_info, setup_domain,
}
use aperture4_nick.Domain.Tiles.{AllBelow}

-- One step up and down in the direction `n`, around the torus.
abbrev pub up : List ℕ → ℕ → List ℕ → List ℕ
up (m ∷ ms) zero (c ∷ cs) = (if c + 1 == m then 0 else c + 1) ∷ cs
up (m ∷ ms) (suc n) (c ∷ cs) = c ∷ up ms n cs
up _ _ _ = []

abbrev pub down : List ℕ → ℕ → List ℕ → List ℕ
down (m ∷ ms) zero (c ∷ cs) = (if c == 0 then m - 1 else c - 1) ∷ cs
down (m ∷ ms) (suc n) (c ∷ cs) = c ∷ down ms n cs
down _ _ _ = []

down-up :
    (ms : List ℕ) (n : ℕ) (cs : List ℕ)
    → n < length ms
    → AllBelow cs ms
    → down ms n (up ms n cs) ≡ cs
down-up [] n cs l b = absurd (omega arith)
down-up (m ∷ ms) n [] l b = absurd b
down-up (m ∷ ms) zero (c ∷ cs) l b = ap (λ d. d ∷ cs) (let h = b.0 in ground arith)
down-up (m ∷ ms) (suc n) (c ∷ cs) l b = ap (λ ds. c ∷ ds) (down-up ms n cs (omega arith) b.1)

up-down :
    (ms : List ℕ) (n : ℕ) (cs : List ℕ)
    → n < length ms
    → AllBelow cs ms
    → up ms n (down ms n cs) ≡ cs
up-down [] n cs l b = absurd (omega arith)
up-down (m ∷ ms) n [] l b = absurd b
up-down (m ∷ ms) zero (c ∷ cs) l b = ap (λ d. d ∷ cs) (let h = b.0 in ground arith)
up-down (m ∷ ms) (suc n) (c ∷ cs) l b = ap (λ ds. c ∷ ds) (up-down ms n cs (omega arith) b.1)

-- What the library documents of a Cartesian communicator with periods in all directions: the ranks have
-- the coordinates below the dims, each once, and a shift goes around.
pub record IsCart (lib : Library) (dims : List ℕ) (periods : List Bool) (num : ℕ) : Type 0 where
  pub below : (r : ℕ) → r < num → AllBelow (lib.cart_coords dims periods r) dims
  pub apart :
      (r s : ℕ)
      → r < num
      → s < num
      → lib.cart_coords dims periods r ≡ lib.cart_coords dims periods s
      → r ≡ s
  pub shift_up :
      (n r : ℕ)
      → n < length dims
      → r < num
      → (q : ℕ) × (lib.cart_shift dims periods n (pos 1) r ≡ some q)
        × (q < num)
        × (lib.cart_coords dims periods q ≡ up dims n (lib.cart_coords dims periods r))
  pub shift_down :
      (n r : ℕ)
      → n < length dims
      → r < num
      → (q : ℕ) × (lib.cart_shift dims periods n (negsuc 0) r ≡ some q)
        × (q < num)
        × (lib.cart_coords dims periods q ≡ down dims n (lib.cart_coords dims periods r))

abbrev rank_in : Option ℕ → ℕ
rank_in none = 0
rank_in (some r) = r

-- A function with an inverse permutes.
inverse-IsPermutation :
    (f g : ℕ → ℕ) (num : ℕ)
    → ((r : ℕ) → r < num → f r < num)
    → ((r : ℕ) → r < num → g r < num)
    → ((r : ℕ) → r < num → g (f r) ≡ r)
    → ((r : ℕ) → r < num → f (g r) ≡ r)
    → IsPermutation f num
inverse-IsPermutation f g num f_lt g_lt gf fg = record {
  within = f_lt;
  apart = λ r s l m e. sym (gf r l) ∙ ap g e ∙ gf s m;
  onto = λ a l. (g a, g_lt a l, fg a l);
}

module _ (lib : Library) (dims : List ℕ) (periods : List Bool) (num : ℕ)
    (v : IsCart lib dims periods num) where
  abbrev coords : ℕ → List ℕ
  coords r = lib.cart_coords dims periods r

  abbrev right_of : ℕ → ℕ → ℕ
  right_of n r = rank_in (lib.cart_shift dims periods n (pos 1) r)

  abbrev left_of : ℕ → ℕ → ℕ
  left_of n r = rank_in (lib.cart_shift dims periods n (negsuc 0) r)

  right_of-lt :
      (n r : ℕ)
      → n < length dims
      → r < num
      → (lib.cart_shift dims periods n (pos 1) r ≡ some (right_of n r))
        × (right_of n r < num)
        × (coords (right_of n r) ≡ up dims n (coords r))
  right_of-lt n r l h = let (q, e, lt, c) = v.shift_up n r l h in rw e (refl, lt, c)

  left_of-lt :
      (n r : ℕ)
      → n < length dims
      → r < num
      → (lib.cart_shift dims periods n (negsuc 0) r ≡ some (left_of n r))
        × (left_of n r < num)
        × (coords (left_of n r) ≡ down dims n (coords r))
  left_of-lt n r l h = let (q, e, lt, c) = v.shift_down n r l h in rw e (refl, lt, c)

  left_of-right_of : (n r : ℕ) → n < length dims → r < num → left_of n (right_of n r) ≡ r
  left_of-right_of n r l h =
      let (_, lt, c) = right_of-lt n r l h in
      let (_, lt', c') = left_of-lt n (right_of n r) l lt in
      v.apart (left_of n (right_of n r)) r lt' h
        (c' ∙ ap (down dims n) c ∙ down-up dims n (coords r) l (v.below r h))

  right_of-left_of : (n r : ℕ) → n < length dims → r < num → right_of n (left_of n r) ≡ r
  right_of-left_of n r l h =
      let (_, lt, c) = left_of-lt n r l h in
      let (_, lt', c') = right_of-lt n (left_of n r) l lt in
      v.apart (right_of n (left_of n r)) r lt' h
        (c' ∙ ap (up dims n) c ∙ up-down dims n (coords r) l (v.below r h))

  right_of-IsPermutation : (n : ℕ) → n < length dims → IsPermutation (right_of n) num
  right_of-IsPermutation n l =
      inverse-IsPermutation (right_of n) (left_of n) num (λ r h. (right_of-lt n r l h).1)
        (λ r h. (left_of-lt n r l h).1) (λ r h. left_of-right_of n r l h)
        (λ r h. right_of-left_of n r l h)

  left_of-IsPermutation : (n : ℕ) → n < length dims → IsPermutation (left_of n) num
  left_of-IsPermutation n l =
      inverse-IsPermutation (left_of n) (right_of n) num (λ r h. (left_of-lt n r l h).1)
        (λ r h. (right_of-lt n r l h).1) (λ r h. right_of-left_of n r l h)
        (λ r h. left_of-right_of n r l h)

resized_same : {A : Type 0} (x : A) (xs : List A) → resized (length xs) x xs ≡ xs
unfolding resized
resized_same x [] = refl
resized_same x (y ∷ ys) = ap (λ zs. y ∷ zs) (resized_same x ys)

length-map {ℓ} : {A B : Type ℓ} (f : A → B) (xs : List A) → length (map f xs) ≡ length xs
length-map f [] = refl
length-map f (x ∷ xs) = ap suc (length-map f xs)

-- If the product of the configured ranks is their number, boundaries are periodic in every direction,
-- the library does what it documents, and it keeps the ranks in the order of the world, `setup_domain`
-- returns on every rank, with the coordinates of the rank and with neighbours in every direction: the
-- right neighbour is the rank one coordinate up, the left one that one coordinate down, around the
-- torus. The right neighbours of all ranks are a permutation of the ranks, as are the left neighbours,
-- and each is the inverse of the other.
pub setup_domain-torus :
    (lib : Library) (num : ℕ) (ranks : List ℕ) (periodic : List Bool)
    → product_int64 ranks ≡ num
    → length periodic ≡ length ranks
    → let dims : List ℕ = map (λ d. d % 2 ^ 32) ranks in
      IsCart lib dims periodic num
      → ((r : ℕ) → r < num → lib.cart_rank dims periodic r ≡ r)
      → (left : ℕ → ℕ → ℕ) × (right : ℕ → ℕ → ℕ) × ((r : ℕ)
          → r < num
          → (info : DomainInfo) × (setup_domain lib (length ranks) num r ranks periodic ≡ some info)
            × (info.mpi_coord ≡ lib.cart_coords (map (λ d. d % 2 ^ 32) ranks) periodic r)
            × ((n : ℕ)
                → n < length ranks
                → (info.neighbor_right n ≡ some (right n r))
                  × (info.neighbor_left n ≡ some (left n r))))
        × ((n : ℕ)
            → n < length ranks
            → IsPermutation (right n) num
              × IsPermutation (left n) num
              × ((r : ℕ) → r < num → (left n (right n r) ≡ r) × (right n (left n r) ≡ r))
              × ((r : ℕ)
                  → r < num
                  → (lib.cart_coords dims periodic (right n r)
                      ≡ up dims n (lib.cart_coords dims periodic r))
                    × (lib.cart_coords dims periodic (left n r)
                        ≡ down dims n (lib.cart_coords dims periodic r))))
unfolding setup_domain cart_info
setup_domain-torus lib num ranks periodic e same v in_order =
    let dims : List ℕ = map (λ d. d % 2 ^ 32) ranks in
    let in_dims : (n : ℕ) → n < length ranks → n < length dims =
      λ n l. omega (arith, length-map (λ d. d % 2 ^ 32) ranks) in
    let periods : resized (length ranks) false periodic ≡ periodic =
      ap (λ k. resized k false periodic) (sym same) ∙ resized_same false periodic in
    (
      left_of lib dims periodic num v,
      right_of lib dims periodic num v,
      λ r h. (
        cart_info lib (length ranks) r dims periodic,
        rw (resized_same 1 ranks, periods, e, ==_refl num) refl,
        refl,
        λ n l.
            rw (ltb-lt n (length ranks) l, in_order r h)
              (
                (right_of-lt lib dims periodic num v n r (in_dims n l) h).0,
                (left_of-lt lib dims periodic num v n r (in_dims n l) h).0,
              ),
      ),
      λ n l.
          let k = in_dims n l in
          (
            right_of-IsPermutation lib dims periodic num v n k,
            left_of-IsPermutation lib dims periodic num v n k,
            λ r h. (
              left_of-right_of lib dims periodic num v n r k h,
              right_of-left_of lib dims periodic num v n r k h,
            ),
            λ r h. (
              (right_of-lt lib dims periodic num v n r k h).2,
              (left_of-lt lib dims periodic num v n r k h).2,
            ),
          ),
    )
