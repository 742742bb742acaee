-- ===== src/Jitter.antt =====
-- transport/adaptive-jitter.js: `AdaptiveJitterBuffer`.
--
-- Sequence numbers and times are natural numbers (u32 and u64 on the wire). The jitter estimate
-- is a float in the source: its type and the four things that the code does with it are the
-- parameter `Estimator`. Maps are association lists.
pub mod Keys
pub mod Bounds
pub mod Step
pub mod Order
pub mod Progress
pub mod Pump
mod Tests
use agent_mobile.Common.{
  ℕ, zero, suc, ◌+◌, ◌-◌, ◌*◌, ◌≡◌, min, Bool, true, false, Option, none, some, List, [], ◌∷◌, ltb,
  leb, ◌==◌, if◌then◌else◌, length, lookup, insert, erase, nat_eq,
}

pub record Estimator (N : Type 0) : Type 0 where
  pub zero_ms : N
  -- `=== 0`
  pub is_zero : N → Bool
  pub of_ms : ℕ → N
  -- `0.75 * old + 0.25 * spike`
  pub blend : N → N → N
  -- `Math.ceil(jitter / frameMs)`
  pub frames : N → ℕ → ℕ

-- The constructor's options.
pub record Config : Type 0 where
  pub baseline : ℕ
  pub max_frames : ℕ
  pub frame_ms : ℕ
  pub max_hold_ms : ℕ
  pub rehold_ms : ℕ

-- `N` is the type of the estimate and `F` that of a frame. The buffer maps a sequence number to
-- the frame and its `tsMs`. `loss_timer` stops at 0 where the source's goes below it; both tests of it
-- agree.
pub record Buffer (N F : Type 0) : Type 0 where
  pub config : Config
  pub open config use *
  pub buf : List (ℕ × (F × ℕ))
  pub next : Option ℕ
  pub target : ℕ
  pub started : Bool
  pub prev_ts_ms : Option ℕ
  pub prev_seq : Option ℕ
  pub ewma_jitter : N
  pub loss_penalty : ℕ
  pub loss_timer : ℕ
  pub waiting_since : ℕ
  pub waiting_for_late : List (ℕ × ℕ)
  pub lost : ℕ
  pub concealed : ℕ
  pub dropped_late : ℕ

-- What `pull` hands out: a frame with its time, or the marker of a frame that is missing.
pub data Out (F : Type 0) : Type 0 where
  play : ℕ → F → ℕ → Out F
  conceal : ℕ → Out F

-- The absolute difference.
abbrev pub dist : ℕ → ℕ → ℕ
dist a b = (a - b) + (b - a)

-- The least key of a map, from `best` down.
unfoldable pub lowest : {A : Type 0} → ℕ → List (ℕ × A) → ℕ
lowest best [] = best
lowest best ((k, _) ∷ m) = lowest (if ltb k best then k else best) m

-- `for (const k of this.buf.keys()) if (k < seq) this.buf.delete(k)`
unfoldable pub drop_below : {A : Type 0} → ℕ → List (ℕ × A) → List (ℕ × A)
drop_below seq [] = []
drop_below seq ((k, v) ∷ m) = if ltb k seq then drop_below seq m else (k, v) ∷ drop_below seq m

-- The loop of `_runAhead` with fuel; at most as many frames as the buffer holds follow `s`.
unfoldable pub run_from : {A : Type 0} → ℕ → ℕ → List (ℕ × A) → ℕ
run_from zero s m = 0
run_from (suc fuel) s m = elim (lookup s m) [ none ↦ 0 | some _ ↦ suc (run_from fuel (s + 1) m) ]

abbrev pub or_else : Option ℕ → ℕ → ℕ
or_else none d = d
or_else (some n) d = n

module _ {N F : Type 0} where
  -- `push`, the loss count
  unfoldable pub note_loss : Buffer N F → ℕ → Buffer N F
  note_loss b seq = elim b.prev_seq [
    | none ↦ b
    | some ps ↦
        let skipped = seq - ps - 1 in
        if ltb (ps + 1) seq
        then record b {
          lost = b.lost + skipped;
          loss_penalty = min 10 (b.loss_penalty + skipped);
          loss_timer = 500;
        }
        else b
  ]

  -- `push`, the bound on the buffer, for the next number `n` to be played
  unfoldable pub bound_buffer : Buffer N F → ℕ → ℕ → Buffer N F
  bound_buffer b n seq =
      if ltb (b.max_frames * 4) (seq - n)
      then record b {
        dropped_late = b.dropped_late + (length b.buf - 1);
        buf = drop_below seq b.buf;
        next = some seq;
        started = false;
        waiting_for_late = [];
      }
      else if ltb b.max_frames (length b.buf)
      then record b {
        dropped_late = b.dropped_late + (lowest seq b.buf - n);
        next = some (lowest seq b.buf);
        waiting_for_late = [];
      }
      else record b { next = some n }

  -- `_runAhead()`
  unfoldable pub run_ahead : Buffer N F → ℕ → ℕ
  run_ahead b n = run_from (length b.buf) n b.buf

  -- `pull`, the hand-out of the frame that is next
  unfoldable pub hand_out : Buffer N F → ℕ → F × ℕ → Option (Out F) × Buffer N F
  hand_out b n cur = (
    some (play n cur.0 cur.1),
    record b {
      buf = erase n b.buf;
      waiting_for_late = erase n b.waiting_for_late;
      next = some (n + 1);
    },
  )

  -- `pull`, when the next frame is there: before the start it is held back until enough follow it,
  -- or for `reholdMs`
  unfoldable pub pull_ready : Buffer N F → ℕ → F × ℕ → ℕ → Option (Out F) × Buffer N F
  pull_ready b n cur now =
      let since = if b.waiting_since == 0 then now else b.waiting_since in
      let go = hand_out (record b { waiting_since = 0; started = true }) n cur in
      if b.started
      then hand_out b n cur
      else if ltb (run_ahead b n) b.target
      then if ltb now (since + b.rehold_ms) then (none, record b { waiting_since = since }) else go
      else go

  -- `pull`, when it is not: wait, and conceal it past the deadline
  unfoldable pub pull_missing : Buffer N F → ℕ → Option (Out F) × Buffer N F
  pull_missing b n =
      let waited = or_else (lookup n b.waiting_for_late) 0 + b.frame_ms in
      if leb waited b.max_hold_ms
      then (none, record b { waiting_for_late = insert n waited b.waiting_for_late })
      else (
        some (conceal n),
        record b {
          waiting_for_late = erase n b.waiting_for_late;
          waiting_since = 0;
          started = true;
          next = some (n + 1);
          concealed = b.concealed + 1;
        },
      )

  unfoldable pub pull : Buffer N F → ℕ → Option (Out F) × Buffer N F
  pull b now = elim b.next [
    | none ↦ (none, b)
    | some n ↦ elim (lookup n b.buf) [ none ↦ pull_missing b n | some cur ↦ pull_ready b n cur now ]
  ]

  unfoldable pub tick : Buffer N F → Buffer N F
  tick b =
      if ltb 0 b.loss_timer
      then record b {
        loss_timer = b.loss_timer - 1000;
        loss_penalty = if leb b.loss_timer 1000 then 0 else b.loss_penalty;
      }
      else b

module _ {N F : Type 0} (est : Estimator N) where
  -- `new AdaptiveJitterBuffer(options)`
  unfoldable pub new_buffer : Config → Buffer N F
  new_buffer c = record {
    config = c;
    buf = [];
    next = none;
    target = c.baseline;
    started = false;
    prev_ts_ms = none;
    prev_seq = none;
    ewma_jitter = est.zero_ms;
    loss_penalty = 0;
    loss_timer = 0;
    waiting_since = 0;
    waiting_for_late = [];
    lost = 0;
    concealed = 0;
    dropped_late = 0;
  }

  -- `push`, the jitter estimate
  unfoldable pub note_jitter : Buffer N F → ℕ → ℕ → Buffer N F
  note_jitter b seq ts = elim b.prev_ts_ms [
    | none ↦ b
    | some pt ↦ elim b.prev_seq [
      | none ↦ b
      | some ps ↦
          let spike = dist ts (pt + (seq - ps) * b.frame_ms) in
          if ltb ps seq
          then record b {
            ewma_jitter =
                if est.is_zero b.ewma_jitter
                then est.of_ms spike
                else est.blend b.ewma_jitter (est.of_ms spike);
          }
          else b
    ]
  ]

  unfoldable pub set_target : Buffer N F → Buffer N F
  set_target b = record b {
    target = min b.max_frames (b.baseline + est.frames b.ewma_jitter b.frame_ms + b.loss_penalty);
  }

  -- `push`, for a packet that is not late
  unfoldable pub admit : Buffer N F → ℕ → ℕ → F → Buffer N F
  admit b seq ts frame =
      let noted = note_loss (note_jitter b seq ts) seq in
      let stored = record noted {
        prev_ts_ms = some ts;
        prev_seq = some seq;
        buf = insert seq (frame, ts) noted.buf;
      } in
      set_target (bound_buffer stored (or_else b.next seq) seq)

  unfoldable pub push : Buffer N F → ℕ → ℕ → F → Buffer N F
  push b seq ts frame =
      if ltb seq (or_else b.next 0)
      then record b { dropped_late = b.dropped_late + 1 }
      else admit b seq ts frame
