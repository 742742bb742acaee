-- ===== src/Bytes.antt =====
-- Node's Buffer as a list of bytes, with the big-endian reads and writes that proto.js,
-- transport/wsframes.js and transport/udp-media.js make.
pub mod Order
use native.Mathlib.Nat.{pow-suc}
use agent_mobile.Common.{
  ℕ, zero, suc, ◌+◌, ◌*◌, ◌/◌, ◌%◌, ◌^◌, ◌<◌, ◌≡◌, refl, ◌∙◌, List, [], ◌∷◌, ◌++◌, length,
  length-append, arith,
}

-- `writeUInt32BE`, `writeBigUInt64BE` and the like: the last `k` bytes of a number.
unfoldable pub to_be : ℕ → ℕ → List ℕ
to_be zero n = []
to_be (suc k) n = to_be k (n / 256) ++ (n % 256 ∷ [])

unfoldable pub of_be_from : ℕ → List ℕ → ℕ
of_be_from acc [] = acc
of_be_from acc (b ∷ bs) = of_be_from (acc * 256 + b) bs

-- `readUInt32BE` and the like.
unfoldable pub of_be : List ℕ → ℕ
unfolding of_be_from
of_be bs = of_be_from 0 bs

of_be_from-append :
    (acc : ℕ) (xs ys : List ℕ) → of_be_from acc (xs ++ ys) ≡ of_be_from (of_be_from acc xs) ys
unfolding of_be_from
of_be_from-append acc [] ys = refl
of_be_from-append acc (x ∷ xs) ys = of_be_from-append (acc * 256 + x) xs ys

pub length-to_be : (k n : ℕ) → length (to_be k n) ≡ k
unfolding to_be
length-to_be zero n = refl
length-to_be (suc k) n =
    omega (arith, length-append (to_be k (n / 256)) (n % 256 ∷ []), length-to_be k (n / 256))

-- What is written in `k` bytes is read back, if it fits.
pub of_be-to_be : (k n : ℕ) → n < 256 ^ k → of_be (to_be k n) ≡ n
unfolding to_be of_be
of_be-to_be zero n h = omega arith
of_be-to_be (suc k) n h =
    of_be_from-append 0 (to_be k (n / 256)) (n % 256 ∷ [])
    ∙ omega (arith, of_be-to_be k (n / 256) (omega (arith, h, pow-suc 256 k)))
