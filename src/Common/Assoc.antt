-- ===== src/Common/Assoc.antt =====
-- Association lists for the source's Maps and plain objects, over a Boolean equality of keys.
use Prim.Native.Nat.{ℕ, suc, ◌+◌, ◌≤◌}
use Prim.Native.String.{String}
use text.Mathlib.Text.{◌==◌ as str_eq}
use text.Mathlib.TextEquality.{eq_iff}
use mathlib.Core.Path.{◌≡◌, refl}
use mathlib.Core.Logic.{◌↔◌, inl, inr}
use mathlib.Core.Bool.{Bool, true}
use mathlib.Core.Option.{Option, none, some}
use mathlib.Core.List.{List, [], ◌∷◌}
use native.Mathlib.Omega.{arith}
use agent_mobile.Common.Tests.{◌==◌, ==_iff, if◌then◌else◌, Bool-cases}
use agent_mobile.Common.Lists.{length}

pub record Eq (K : Type 0) : Type 0 where
  pub beq : K → K → Bool
  pub beq_iff : (a b : K) → (beq a b ≡ true) ↔ (a ≡ b)

instance abbrev pub nat_eq : Eq ℕ
nat_eq = record { beq = ◌==◌; beq_iff = ==_iff }

instance abbrev pub string_eq : Eq String
string_eq = record { beq = str_eq; beq_iff = eq_iff }

-- What one key contributes to a sum.
abbrev pub share : {V : Type 0} → (V → ℕ) → Option V → ℕ
share f none = 0
share f (some v) = f v

pub beq_refl : {K : Type 0} ⦃e : Eq K⦄ (k : K) → e.beq k k ≡ true
beq_refl ⦃e⦄ k = (e.beq_iff k k).1 refl

module _ {K : Type 0} ⦃e : Eq K⦄ {V : Type 0} where
  unfoldable pub lookup : K → List (K × V) → Option V
  lookup k [] = none
  lookup k ((j, v) ∷ m) = if e.beq j k then some v else lookup k m

  -- `m.set(k, v)`: a key that is there keeps its place.
  unfoldable pub insert : K → V → List (K × V) → List (K × V)
  insert k v [] = (k, v) ∷ []
  insert k v ((j, w) ∷ m) = if e.beq j k then (j, v) ∷ m else (j, w) ∷ insert k v m

  -- `m.delete(k)`
  unfoldable pub erase : K → List (K × V) → List (K × V)
  erase k [] = []
  erase k ((j, w) ∷ m) = if e.beq j k then erase k m else (j, w) ∷ erase k m

  pub lookup-nil : (k : K) {v : V} → ¬ (lookup k [] ≡ some v)
  unfolding lookup
  lookup-nil k h = cc

  pub lookup-insert :
      (k j : K) (v : V) (m : List (K × V))
      → lookup j (insert k v m) ≡ (if e.beq k j then some v else lookup j m)
  unfolding lookup insert
  lookup-insert k j v [] = refl
  lookup-insert k j v ((i, w) ∷ m) =
      ground (arith, e.beq_iff k j, e.beq_iff i k, e.beq_iff i j, lookup-insert k j v m)

  pub lookup-erase :
      (k j : K) (m : List (K × V)) → lookup j (erase k m) ≡ (if e.beq k j then none else lookup j m)
  unfolding lookup erase
  lookup-erase k j [] = ground arith
  lookup-erase k j ((i, w) ∷ m) =
      ground (arith, e.beq_iff k j, e.beq_iff i k, e.beq_iff i j, lookup-erase k j m)

  pub lookup-insert_self : (k : K) (v : V) (m : List (K × V)) → lookup k (insert k v m) ≡ some v
  lookup-insert_self k v m = rw (lookup-insert, beq_refl k)

  pub lookup-erase_self : (k : K) (m : List (K × V)) → lookup k (erase k m) ≡ none
  lookup-erase_self k m = rw (lookup-erase, beq_refl k)

  -- Each key stands once.
  abbrev pub IsMap : List (K × V) → Type 0
  IsMap [] = Unit {0}
  IsMap ((k, v) ∷ m) = (lookup k m ≡ none) × IsMap m

  pub insert-IsMap : (k : K) (v : V) (m : List (K × V)) → IsMap m → IsMap (insert k v m)
  unfolding lookup insert
  insert-IsMap k v [] d = (refl, tt)
  insert-IsMap k v ((i, w) ∷ m) d = elim (Bool-cases (e.beq i k)) [
    | inl h ↦ rw h d
    | inr h ↦ rw h (
      rw (lookup-insert k i v m) (ground (arith, e.beq_iff i k, e.beq_iff k i)),
      insert-IsMap k v m d.1,
    )
  ]

  pub erase-IsMap : (k : K) (m : List (K × V)) → IsMap m → IsMap (erase k m)
  unfolding lookup erase
  erase-IsMap k [] d = tt
  erase-IsMap k ((i, w) ∷ m) d = elim (Bool-cases (e.beq i k)) [
    | inl h ↦ rw h (erase-IsMap k m d.1)
    | inr h ↦ rw h (
      rw (lookup-erase k i m) (ground (arith, e.beq_iff i k, e.beq_iff k i)),
      erase-IsMap k m d.1,
    )
  ]

  pub erase-eq_self : (k : K) (m : List (K × V)) → lookup k m ≡ none → erase k m ≡ m
  unfolding lookup erase
  erase-eq_self k [] h = refl
  erase-eq_self k ((i, w) ∷ m) h = ground (arith, erase-eq_self k m)

  -- The sum of a measure over the values.
  unfoldable pub total : (V → ℕ) → List (K × V) → ℕ
  total f [] = 0
  total f ((k, v) ∷ m) = f v + total f m

  pub total-insert :
      (f : V → ℕ) (k : K) (v : V) (m : List (K × V))
      → total f (insert k v m) + share f (lookup k m) ≡ total f m + f v
  unfolding lookup insert total
  total-insert f k v [] = omega arith
  total-insert f k v ((i, w) ∷ m) = ground (arith, total-insert f k v m)

  pub total-erase :
      (f : V → ℕ) (k : K) (m : List (K × V))
      → IsMap m
      → total f (erase k m) + share f (lookup k m) ≡ total f m
  unfolding lookup erase total
  total-erase f k [] d = refl
  total-erase f k ((i, w) ∷ m) d = elim (Bool-cases (e.beq i k)) [
    | inl h ↦ rw (h, erase-eq_self k m (rw ((e.beq_iff i k).0 h) at d.0)) (omega arith)
    | inr h ↦ rw h (omega (arith, total-erase f k m d.1))
  ]

  pub length-insert_le : (k : K) (v : V) (m : List (K × V)) → length (insert k v m) ≤ suc (length m)
  unfolding insert
  length-insert_le k v [] = omega arith
  length-insert_le k v ((i, w) ∷ m) = ground (arith, length-insert_le k v m)

  pub length-erase_le : (k : K) (m : List (K × V)) → length (erase k m) ≤ length m
  unfolding erase
  length-erase_le k [] = omega arith
  length-erase_le k ((i, w) ∷ m) = ground (arith, length-erase_le k m)

  pub insert_twice : (k : K) (v w : V) (m : List (K × V)) → insert k w (insert k v m) ≡ insert k w m
  unfolding insert
  insert_twice k v w [] = ground (arith, e.beq_iff k k)
  insert_twice k v w ((i, x) ∷ m) = ground (arith, insert_twice k v w m)

  pub erase-insert : (k : K) (v : V) (m : List (K × V)) → erase k (insert k v m) ≡ erase k m
  unfolding insert erase
  erase-insert k v [] = ground (arith, e.beq_iff k k)
  erase-insert k v ((i, x) ∷ m) = ground (arith, erase-insert k v m)
