-- ===== src/Jitter/Keys.antt =====
-- transport/adaptive-jitter.js: the sequence numbers in the buffer, and how many there can be.
use agent_mobile.Common.{
  ℕ, zero, suc, ◌+◌, ◌≤◌, ◌<◌, ◌≡◌, ◌≢◌, refl, inl, inr, none, some, List, [], ◌∷◌, ltb, ◌==◌,
  if◌then◌else◌, length, lookup, erase, nat_eq, IsMap, erase-IsMap, lookup-erase, erase-eq_self,
  length-erase_le, arith, Bool-cases, ==_iff,
}
use agent_mobile.Jitter.{lowest, drop_below}

module _ {A : Type 0} where
  -- Erasing one key shortens a map by one at most.
  pub length-erase : (k : ℕ) (m : List (ℕ × A)) → IsMap m → length m ≤ suc (length (erase k m))
  unfolding erase
  length-erase k [] d = omega arith
  length-erase k ((i, w) ∷ m) d = elim (Bool-cases (i == k)) [
    | inl e ↦ rw (e, erase-eq_self k m (rw ((==_iff i k).0 e) at d.0)) (omega arith)
    | inr e ↦ rw e (omega (arith, length-erase k m d.1))
  ]

  -- A map whose keys lie in a range of `n` numbers has `n` entries at most.
  pub length-le-range :
      (n lo : ℕ) (m : List (ℕ × A))
      → IsMap m
      → ((k : ℕ) (v : A) → lookup k m ≡ some v → (lo ≤ k) × (k < lo + n))
      → length m ≤ n
  length-le-range zero lo [] d h = omega arith
  length-le-range zero lo ((k, v) ∷ m) d h =
      absurd (omega (arith, h k v (unfold lookup in ground arith)))
  length-le-range (suc n) lo m d h = omega (
    arith,
    length-erase (lo + n) m d,
    length-le-range n lo (erase (lo + n) m) (erase-IsMap (lo + n) m d)
        (λ k v e. ground (arith, e, h k v, lookup-erase (lo + n) k m)),
  )

  length-erase_of_present :
      (k : ℕ) (m : List (ℕ × A)) → lookup k m ≢ none → suc (length (erase k m)) ≤ length m
  unfolding lookup erase
  length-erase_of_present k [] h = absurd (h refl)
  length-erase_of_present k ((i, w) ∷ m) h = elim (Bool-cases (i == k)) [
    | inl e ↦ rw e (omega (arith, length-erase_le k m))
    | inr e ↦ rw e (omega (arith, length-erase_of_present k m (rw e at h)))
  ]

  -- A run of `n` consecutive keys takes `n` entries.
  pub run-le-length :
      (n s : ℕ) (m : List (ℕ × A))
      → IsMap m
      → ((k : ℕ) → s ≤ k → k < s + n → lookup k m ≢ none)
      → n ≤ length m
  run-le-length zero s m d h = omega arith
  run-le-length (suc n) s m d h = omega (
    arith,
    length-erase_of_present s m (h s (omega arith) (omega arith)),
    run-le-length n (suc s) (erase s m) (erase-IsMap s m d)
        (λ k le lt e. h k (omega arith) (omega arith) (ground (arith, e, lookup-erase s k m, le))),
  )

  lowest-le-best : (best : ℕ) (m : List (ℕ × A)) → lowest best m ≤ best
  unfolding lowest
  lowest-le-best best [] = omega arith
  lowest-le-best best ((i, w) ∷ m) =
      ground (arith, lowest-le-best (if ltb i best then i else best) m)

  -- The least key is a bound for all, and is one of them.
  pub lowest-le :
      (best : ℕ) (m : List (ℕ × A)) (k : ℕ) (v : A) → lookup k m ≡ some v → lowest best m ≤ k
  unfolding lookup lowest
  lowest-le best [] k v e = absurd (cc)
  lowest-le best ((i, w) ∷ m) k v e = ground (
    arith,
    e,
    lowest-le-best (if ltb i best then i else best) m,
    lowest-le (if ltb i best then i else best) m k v,
  )

  pub lowest-ge :
      (best lo : ℕ) (m : List (ℕ × A))
      → lo ≤ best
      → IsMap m
      → ((k : ℕ) (v : A) → lookup k m ≡ some v → lo ≤ k)
      → lo ≤ lowest best m
  unfolding lookup lowest
  lowest-ge best lo [] b d h = b
  lowest-ge best lo ((i, w) ∷ m) b d h =
      lowest-ge (if ltb i best then i else best) lo m (ground (arith, h i w (ground arith), b)) d.1
        (λ k v e. h k v (ground (arith, e, d.0)))

  pub lookup-drop_below :
      (seq k : ℕ) (m : List (ℕ × A))
      → lookup k (drop_below seq m) ≡ (if ltb k seq then none else lookup k m)
  unfolding lookup drop_below
  lookup-drop_below seq k [] = ground arith
  lookup-drop_below seq k ((i, w) ∷ m) = ground (arith, lookup-drop_below seq k m)

  pub drop_below-IsMap : (seq : ℕ) (m : List (ℕ × A)) → IsMap m → IsMap (drop_below seq m)
  unfolding lookup drop_below
  drop_below-IsMap seq [] d = tt
  drop_below-IsMap seq ((i, w) ∷ m) d = elim (Bool-cases (ltb i seq)) [
    | inl e ↦ rw e (drop_below-IsMap seq m d.1)
    | inr e ↦ rw e (rw (lookup-drop_below seq i m, e) d.0, drop_below-IsMap seq m d.1)
  ]
