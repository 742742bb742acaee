-- ===== src/Renderer/Status.antt =====
-- www/renderer.js: the live status strip, `showTemp` and `applyStatus`.
--
-- `L` is the type of a level; `percent` is `Math.round(level * 100)`, and 0 where that is negative.
-- The elements of the strip belong to the page: `has_…` says which of them are there. A timer is an
-- effect, and its turn an operation.
use agent_mobile.Common.{
  ℕ, Bool, true, false, Option, none, some, List, [], ◌∷◌, ◌++◌, min, max, ◌&&◌, if◌then◌else◌,
}

-- A message `status`; `speaking` and `level` are none where they have another type, and `working`
-- where it is missing.
pub record StatusMessage (L : Type 0) : Type 0 where
  pub hb : Bool
  pub level : Option L
  pub speaking : Option Bool
  pub heard : Bool
  pub working : Option Bool

-- The elements `#hb`, `#micfill`, `#heard`, `#work` and `#workprog`, and their classes.
pub record Strip : Type 0 where
  pub has_hb : Bool
  pub has_micfill : Bool
  pub has_heard : Bool
  pub has_work : Bool
  pub has_workprog : Bool
  pub hb_off : Bool
  pub hb_pulse : Bool
  pub mic_width : Option ℕ
  pub heard_shown : Bool
  pub work_shown : Bool
  pub work_dots : Bool

pub data StripEffect (L : Type 0) : Type 0 where
  set_mic_level : L → StripEffect L
  set_agent_speaking : Bool → StripEffect L
  -- the milliseconds after which the pulse, or the note, is taken off
  pulse_for heard_for : ℕ → StripEffect L

module _ {L : Type 0} (percent : L → ℕ) where
  -- The width of the meter, in percent.
  unfoldable pub width : L → ℕ
  width l = max 2 (min 100 (percent l))

  unfoldable pub apply_level : Option L → Strip → List (StripEffect L) × Strip
  apply_level none s = ([], s)
  apply_level (some l) s =
      (set_mic_level l ∷ [], if s.has_micfill then record s { mic_width = some (width l) } else s)

  unfoldable pub apply_speaking : Option Bool → List (StripEffect L)
  apply_speaking none = []
  apply_speaking (some b) = set_agent_speaking b ∷ []

  -- `showTemp('heard', 4000)`
  unfoldable pub apply_heard : Bool → Strip → List (StripEffect L) × Strip
  apply_heard heard s =
      if heard && s.has_heard
      then (heard_for 4000 ∷ [], record s { heard_shown = true })
      else ([], s)

  unfoldable pub apply_working : Option Bool → Strip → Strip
  apply_working none s = s
  apply_working (some w) s =
      if s.has_work
      then if w
        then record s {
          work_shown = true;
          work_dots = if s.has_workprog then true else s.work_dots;
        }
        else record s { work_shown = false }
      else s

  -- What comes after the heartbeat.
  unfoldable pub apply_rest : StatusMessage L → Strip → List (StripEffect L) × Strip
  apply_rest st s =
      let (es, s1) = apply_level st.level s in
      let (es', s2) = apply_heard st.heard s1 in
      (es ++ (apply_speaking st.speaking ++ es'), apply_working st.working s2)

  -- `applyStatus(st)`: with no `#hb` a heartbeat ends it.
  unfoldable pub apply_status : StatusMessage L → Strip → List (StripEffect L) × Strip
  apply_status st s =
      if st.hb
      then if s.has_hb
        then (let (es, s') = apply_rest st (record s { hb_off = false; hb_pulse = true }) in
            (pulse_for 3400 ∷ es, s'))
        else ([], s)
      else apply_rest st s
