-- ===== src/Replay/Marks.antt =====
-- proto.js, `ReplayWindow`: the window stands for the set of the counters that it has marked.
use native.Mathlib.Nat.{mod-lt}
use native.Mathlib.Decide.{dec_lt, ℕ_discrete}
use agent_mobile.Common.{
  ℕ, ◌+◌, ◌-◌, ◌%◌, ◌≤◌, ◌<◌, ◌≡◌, ◌≢◌, sym, ◌∙◌, Bool, true, false, ◌||◌, ◌&&◌, ltb, leb, ◌==◌,
  if◌then◌else◌, get_or, set, length, get_or-set_self, get_or-set_ne, length-set, get_or-replicate,
  length-replicate, arith,
}
use agent_mobile.Replay.{Window, new_window, accepts, advance, mark}
use agent_mobile.Replay.Slots.{slots_differ, length-clear, clear-before, clear-within}

-- What a receiver is to remember: which counters it has marked.
abbrev pub Marked : Type 0
Marked = ℕ → Bool

abbrev pub with_mark : ℕ → Marked → Marked
with_mark c m d = d == c || m d

abbrev pub bit : Bool → ℕ
bit false = 0
bit true = 1

-- The window `w` stands for the marked counters `m`: none of them exceeds the maximum, and each slot of
-- the last `size` counters tells whether its counter is marked.
pub record Stands (w : Window) (m : Marked) : Type 0 where
  pub some_slots : 0 < w.size
  pub slots : length w.seen ≡ w.size
  pub below : (c : ℕ) → m c ≡ true → c < w.top
  pub agrees : (c : ℕ) → c < w.top → w.top ≤ c + w.size → get_or w.seen (c % w.size) 0 ≡ bit (m c)

pub new_window-Stands : (size : ℕ) → 0 < size → Stands (new_window size) (λ c. false)
unfolding new_window
new_window-Stands size pos = record {
  some_slots = pos;
  slots = length-replicate size 0;
  below = λ c h. cc;
  agrees = λ c h k. get_or-replicate size (c % size) 0;
}

-- The specification of `accepts`: a counter beyond the maximum, or one of the last `size`
-- counters that is not marked.
abbrev pub is_fresh : ℕ → ℕ → Marked → ℕ → Bool
is_fresh size top m c = leb top c || (ltb top (c + size + 1) && (if m c then false else true))

-- For a window that stands for a set of counters, `accepts` holds of exactly the counters beyond
-- the maximum and those of the last `size` counters that are not in the set.
pub accepts_lem :
    {w : Window} {m : Marked} (c : ℕ) → Stands w m → accepts w c ≡ is_fresh w.size w.top m c
unfolding accepts
accepts_lem {w} {m} c v = ground (arith, v.agrees c, v.some_slots)

module _ {w : Window} {m : Marked} (v : Stands w m) (c : ℕ) where
  -- The slots of the other counters once the window has moved up to `c`.
  advanced :
      (d : ℕ)
      → d ≢ c
      → d < (advance w c).top
      → (advance w c).top ≤ d + w.size
      → get_or (advance w c).seen (d % w.size) 0 ≡ bit (m d)
  unfolding advance
  advanced d ne lt near = ground (
    arith,
    v.agrees d,
    v.below d,
    v.slots,
    get_or-replicate {A = ℕ} w.size (d % w.size) 0,
    clear-before w.size w.top (c - w.top) d w.seen,
    clear-within w.size w.top (c - w.top) d w.seen,
  )

  length-advance : length (advance w c).seen ≡ w.size
  unfolding advance
  length-advance = ground (
    arith,
    v.slots,
    length-replicate {A = ℕ} w.size 0,
    length-clear w.size w.top (c - w.top) w.seen,
  )

  -- Where the window ends up.
  advance_top :
      w.top ≤ c + w.size
      → (c < (advance w c).top)
        × ((advance w c).top ≤ c + w.size)
        × ((d : ℕ) → d < w.top → d < (advance w c).top)
  unfolding advance
  advance_top recent = (ground arith, ground (arith, v.some_slots), λ d h. ground (arith, h))

  size-advance : (advance w c).size ≡ w.size
  unfolding advance
  size-advance = ground arith

  slot_of_other :
      (d : ℕ)
      → w.top ≤ c + w.size
      → d ≢ c
      → d < (advance w c).top
      → (advance w c).top ≤ d + w.size
      → c % w.size ≢ d % w.size
  slot_of_other d recent ne lt near = elim (dec_lt d c) [
    | yes before ↦ slots_differ w.size d c before (omega (arith, advance_top recent))
    | no after ↦
        λ e. slots_differ w.size c d (omega (arith, ne)) (omega (arith, advance_top recent)) (sym e)
  ]

  marked_slot :
      (d : ℕ)
      → w.top ≤ c + w.size
      → d < (advance w c).top
      → (advance w c).top ≤ d + w.size
      → get_or (set (advance w c).seen (c % w.size) 1) (d % w.size) 0 ≡ bit (with_mark c m d)
  marked_slot d recent lt near = elim (ℕ_discrete d c) [
    | yes e ↦ rw e (
        get_or-set_self (advance w c).seen (c % w.size) 1 0
          (rw length-advance (mod-lt c v.some_slots))
        ∙ ground arith)
    | no ne ↦
        get_or-set_ne (advance w c).seen 1 0 (slot_of_other d recent ne lt near)
        ∙ advanced d ne lt near
        ∙ ground (arith, ne)
  ]

  -- Marking a counter that is not too old adds it to the set that the window stands for, and
  -- nothing else.
  pub mark-Stands : w.top ≤ c + w.size → Stands (mark w c) (with_mark c m)
  unfolding mark
  mark-Stands recent = record {
    some_slots = rw size-advance v.some_slots;
    slots = length-set (advance w c).seen _ 1 ∙ length-advance ∙ sym size-advance;
    below = λ d h. ground (arith, h, v.below d, (advance_top recent).0, (advance_top recent).2 d);
    agrees = λ d lt near. rw size-advance (marked_slot d recent lt (rw size-advance at near));
  }

-- A marked counter is refused.
pub accepts_marked :
    {w : Window} {m : Marked} (c : ℕ) → Stands w m → m c ≡ true → accepts w c ≡ false
accepts_marked {w} {m} c v h = accepts_lem c v ∙ ground (arith, v.below c h, h)

-- A counter that is accepted is not too old to be marked.
pub accepts_recent :
    {w : Window} {m : Marked} (c : ℕ) → Stands w m → accepts w c ≡ true → w.top ≤ c + w.size
unfolding accepts
accepts_recent c v h = ground (arith, h)
