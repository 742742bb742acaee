-- ===== src/Bytes/Order.antt =====
-- `Buffer.compare`, the order of bytes from the left, and `Array.prototype.sort` by it.
use agent_mobile.Common.{
  ℕ, ◌≡◌, refl, Bool, true, false, List, [], ◌∷◌, ltb, ◌==◌, if◌then◌else◌, arith,
}

-- `a.compare(b) <= 0`
unfoldable pub le_bytes : List ℕ → List ℕ → Bool
le_bytes [] ys = true
le_bytes (x ∷ xs) [] = false
le_bytes (x ∷ xs) (y ∷ ys) = if x == y then le_bytes xs ys else ltb x y

unfoldable pub put_sorted : List ℕ → List (List ℕ) → List (List ℕ)
put_sorted x [] = x ∷ []
put_sorted x (y ∷ ys) = if le_bytes x y then x ∷ y ∷ ys else y ∷ put_sorted x ys

unfoldable pub sort_bytes : List (List ℕ) → List (List ℕ)
sort_bytes [] = []
sort_bytes (x ∷ xs) = put_sorted x (sort_bytes xs)

le_bytes-total : (xs ys : List ℕ) → le_bytes xs ys ≡ false → le_bytes ys xs ≡ true
unfolding le_bytes
le_bytes-total [] ys h = cc
le_bytes-total (x ∷ xs) [] h = refl
le_bytes-total (x ∷ xs) (y ∷ ys) h = ground (arith, h, le_bytes-total xs ys)

le_bytes-antisym : (xs ys : List ℕ) → le_bytes xs ys ≡ true → le_bytes ys xs ≡ true → xs ≡ ys
unfolding le_bytes
le_bytes-antisym [] [] h k = refl
le_bytes-antisym [] (y ∷ ys) h k = cc
le_bytes-antisym (x ∷ xs) [] h k = cc
le_bytes-antisym (x ∷ xs) (y ∷ ys) h k = ground (arith, h, k, le_bytes-antisym xs ys)

le_bytes_trans :
    (xs ys zs : List ℕ) → le_bytes xs ys ≡ true → le_bytes ys zs ≡ true → le_bytes xs zs ≡ true
unfolding le_bytes
le_bytes_trans [] ys zs h k = refl
le_bytes_trans (x ∷ xs) [] zs h k = cc
le_bytes_trans (x ∷ xs) (y ∷ ys) [] h k = cc
le_bytes_trans (x ∷ xs) (y ∷ ys) (z ∷ zs) h k = ground (arith, h, k, le_bytes_trans xs ys zs)

-- The order in which two values are put in does not matter.
pub put_sorted_comm :
    (x y : List ℕ) (l : List (List ℕ))
    → put_sorted x (put_sorted y l) ≡ put_sorted y (put_sorted x l)
unfolding put_sorted
put_sorted_comm x y [] =
    ground (arith, le_bytes-total x y, le_bytes-total y x, le_bytes-antisym x y)
put_sorted_comm x y (z ∷ l) = ground (
  arith,
  put_sorted_comm x y l,
  le_bytes-total x y,
  le_bytes-total y x,
  le_bytes-antisym x y,
  le_bytes-total x z,
  le_bytes-total y z,
  le_bytes-total z x,
  le_bytes-total z y,
  le_bytes_trans x y z,
  le_bytes_trans y x z,
  le_bytes-antisym x z,
  le_bytes-antisym y z,
)
