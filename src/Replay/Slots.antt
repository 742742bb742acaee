-- ===== src/Replay/Slots.antt =====
-- proto.js, `ReplayWindow`: which slots the loop of `mark` clears.
use native.Mathlib.Nat.{mod-add-mod, mod-lt, mod-eq_of_lt, mod-eq-sub-mod}
use native.Mathlib.Decide.{dec_lt}
use agent_mobile.Common.{
  ℕ, zero, suc, ◌+◌, ◌-◌, ◌%◌, ◌≤◌, ◌<◌, ◌≡◌, ◌≢◌, refl, ap, ◌∙◌, List, get_or, set, length,
  get_or-set_self, get_or-set_ne, length-set, arith,
}
use agent_mobile.Replay.{clear}

-- Fewer than `n` steps from a place in a ring of `n` slots do not come back to it.
add-mod-ne : {n h k : ℕ} → h < n → suc k < n → (h + suc k) % n ≢ h
add-mod-ne {n} {h} {k} hh hk = elim (dec_lt (h + suc k) n) [
  | yes p ↦ omega (arith, mod-eq_of_lt p)
  | no p ↦ omega (
    arith,
    mod-eq-sub-mod {n = h + suc k} {m = n} (omega arith),
    mod-eq_of_lt {n = h + suc k - n} {m = n} (omega arith),
  )
]

-- Two counters less than `n` apart have different slots.
pub slots_differ : (n a b : ℕ) → a < b → b < a + n → b % n ≢ a % n
slots_differ n a b lt near e =
    add-mod-ne {n = n} {h = a % n} {k = b - a - 1} (mod-lt a {m = n} (omega arith)) (omega arith)
      (mod-add-mod a n (suc (b - a - 1)) ∙ ap (λ x. x % n) shift ∙ e)
  where
    shift : a + suc (b - a - 1) ≡ b
    shift = omega arith

pub length-clear : (size from n : ℕ) (seen : List ℕ) → length (clear size from n seen) ≡ length seen
unfolding clear
length-clear size from zero seen = refl
length-clear size from (suc n) seen =
    length-clear size (from + 1) n (set seen (from % size) 0) ∙ length-set seen (from % size) 0

-- The slot of a counter before the cleared ones, and less than `size` behind the last, stays.
pub clear-before :
    (size from n d : ℕ) (seen : List ℕ)
    → d < from
    → from + n ≤ d + size
    → get_or (clear size from n seen) (d % size) 0 ≡ get_or seen (d % size) 0
unfolding clear
clear-before size from zero d seen lt near = refl
clear-before size from (suc n) d seen lt near =
    clear-before size (from + 1) n d (set seen (from % size) 0) (omega arith) (omega arith)
    ∙ get_or-set_ne seen 0 0 (slots_differ size d from lt (omega arith))

-- The slot of a cleared counter is 0.
pub clear-within :
    (size from n d : ℕ) (seen : List ℕ)
    → length seen ≡ size
    → from ≤ d
    → d < from + n
    → n ≤ size
    → get_or (clear size from n seen) (d % size) 0 ≡ 0
unfolding clear
clear-within size from zero d seen len le lt small = absurd (omega arith)
clear-within size from (suc n) d seen len le lt small = elim (dec_lt from d) [
  | yes later ↦
      clear-within size (from + 1) n d (set seen (from % size) 0)
        (length-set seen (from % size) 0 ∙ len) (omega arith) (omega arith) (omega arith)
  | no same ↦
      let e : d ≡ from = omega arith in
      clear-before size (from + 1) n d (set seen (from % size) 0) (omega arith) (omega arith)
      ∙ rw e (get_or-set_self seen (from % size) 0 0 (rw len (mod-lt from (omega arith))))
]
