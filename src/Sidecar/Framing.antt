-- ===== src/Sidecar/Framing.antt =====
-- vendor/hermes-plugin/sidecar/index.mjs: the lines of a buffer, and of a buffer to which more comes.
use agent_mobile.Common.{
  ℕ, zero, suc, ◌≤◌, ◌<◌, ◌≡◌, refl, none, some, List, [], ◌∷◌, ◌++◌, length, arith, length-append,
  Option-cases, inl, inr, ◌∙◌, sym,
}
use agent_mobile.Handshake.Base.{Text}
use agent_mobile.Sidecar.{cut, lines_of}

-- What follows a line that ends is left for later.
pub cut-append : (s t : Text) (l r : Text) → cut s ≡ some (l, r) → cut (s ++ t) ≡ some (l, r ++ t)
unfolding cut
cut-append [] t l r h = cc
cut-append (c ∷ s) t l r h = elim (Option-cases (cut s)) [
  | inl e ↦ ground (arith, e)
  | inr ((l', r'), e) ↦ ground (arith, e, cut-append s t l' r' e)
]

pub cut-shorter : (s l r : Text) → cut s ≡ some (l, r) → length r < length s
unfolding cut
cut-shorter [] l r h = cc
cut-shorter (c ∷ s) l r h = elim (Option-cases (cut s)) [
  | inl e ↦ ground (arith, e)
  | inr ((l', r'), e) ↦ ground (arith, e, cut-shorter s l' r' e)
]

-- One turn of the loop.
lines_of-last : (n : ℕ) (s : Text) → cut s ≡ none → lines_of n s ≡ ([], s)
unfolding lines_of
lines_of-last zero s e = refl
lines_of-last (suc n) s e = rw (lines_of, e) refl

lines_of-next :
    (n : ℕ) (s l r : Text)
    → cut s ≡ some (l, r)
    → lines_of (suc n) s ≡ (let (ls, t) = lines_of n r in (l ∷ ls, t))
unfolding lines_of
lines_of-next n s l r e = rw (lines_of, e) refl

-- Any fuel that counts the characters reads the same lines.
pub lines_of-enough :
    (m n : ℕ) (s : Text) → length s ≤ m → length s ≤ n → lines_of m s ≡ lines_of n s
unfolding lines_of cut
lines_of-enough zero zero s a b = refl
lines_of-enough zero (suc n) [] a b = refl
lines_of-enough zero (suc n) (c ∷ s) a b = absurd (omega (arith, a))
lines_of-enough (suc m) zero [] a b = refl
lines_of-enough (suc m) zero (c ∷ s) a b = absurd (omega (arith, b))
lines_of-enough (suc m) (suc n) s a b = elim (Option-cases (cut s)) [
  | inl e ↦ lines_of-last (suc m) s e ∙ sym (lines_of-last (suc n) s e)
  | inr ((l, r), e) ↦
      let k = cut-shorter s l r e in
      rw
        (
          lines_of-next m s l r e,
          lines_of-next n s l r e,
          lines_of-enough m n r (omega (arith, a, k)) (omega (arith, b, k)),
        )
        refl
]

-- The loop over the lines, with the fuel that it has in the code.
abbrev pub all_lines : Text → List Text × Text
all_lines s = lines_of (length s) s

abbrev pub then_lines : List Text × Text → Text → List Text × Text
then_lines (ls, r) t = let (ls', r') = all_lines (r ++ t) in (ls ++ ls', r')

lines_of-append :
    (n : ℕ) (s t : Text) → length s ≤ n → all_lines (s ++ t) ≡ then_lines (lines_of n s) t
unfolding lines_of
lines_of-append zero [] t a = refl
lines_of-append zero (c ∷ s) t a = absurd (omega (arith, a))
lines_of-append (suc n) s t a = elim (Option-cases (cut s)) [
  | inl e ↦ rw (lines_of-last (suc n) s e) refl
  | inr ((l, r), e) ↦
      let k = cut-shorter s l r e in
      let whole = length (s ++ t) in
      let again = lines_of-append n r t (omega (arith, a, k)) in
      let rest : lines_of whole (r ++ t) ≡ all_lines (r ++ t) =
        lines_of-enough whole _ (r ++ t) (rw (length-append, length-append) (omega (arith, k)))
          (omega arith) in
      lines_of-enough whole (suc whole) (s ++ t) (omega arith) (omega arith)
      ∙ (rw
          (
            lines_of-next whole (s ++ t) l (r ++ t) (cut-append s t l r e),
            lines_of-next n s l r e,
            rest,
            again,
          )
          refl)
]

pub all_lines-append : (s t : Text) → all_lines (s ++ t) ≡ then_lines (all_lines s) t
all_lines-append s t = lines_of-append (length s) s t (omega arith)
