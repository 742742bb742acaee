-- ===== src/Replay.antt =====
-- proto.js, `ReplayWindow`: the anti-replay window of one stream.
pub mod Slots
pub mod Marks
use agent_mobile.Common.{
  ℕ, zero, suc, ◌+◌, ◌-◌, ◌%◌, Bool, true, false, List, ltb, leb, ◌==◌, if◌then◌else◌, get_or, set,
  replicate,
}

-- `top` is the source's `max` plus one, so that 0 stands for its -1: the counters below `top` are
-- those that do not exceed `max`. `seen` is the Uint8Array, one slot for `counter % size`.
pub record Window : Type 0 where
  pub size : ℕ
  pub top : ℕ
  pub seen : List ℕ

-- `new ReplayWindow(size)`
unfoldable pub new_window : ℕ → Window
new_window size = record { size = size; top = 0; seen = replicate size 0 }

-- `accepts(counter)`; `parseNonce` hands it a natural number.
unfoldable pub accepts : Window → ℕ → Bool
accepts w c =
    if leb w.top c
    then true
    else if leb w.size (w.top - 1 - c)
    then false
    else get_or w.seen (c % w.size) 0 == 0

-- The loop `for (let c = from; c < from + n; c++) seen[c % size] = 0`.
unfoldable pub clear : ℕ → ℕ → ℕ → List ℕ → List ℕ
clear size from zero seen = seen
clear size from (suc n) seen = clear size (from + 1) n (set seen (from % size) 0)

-- What `mark` does before it sets its slot: a new maximum moves the window, and clears the slots
-- that it passes over. The shift `counter - max` is `c + 1 - top`.
unfoldable pub advance : Window → ℕ → Window
unfolding clear
advance w c =
    if leb w.top c
    then record w {
      top = c + 1;
      seen =
          if leb w.size (c + 1 - w.top)
          then replicate w.size 0
          else clear w.size w.top (c - w.top) w.seen;
    }
    else w

-- `mark(counter)`
unfoldable pub mark : Window → ℕ → Window
mark w c = let w' = advance w c in record w' { seen = set w'.seen (c % w'.size) 1 }
