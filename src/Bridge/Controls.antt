-- ===== src/Bridge/Controls.antt =====
-- www/bridge.js: the controls that the page always shows, and the dispatch of a message.
--
-- The ring and the boxes are elements of the page, with their classes. `L` is the type of a level,
-- and `loud` its test `typeof lvl === 'number' && lvl > 0.03`. The bars of the wave are left out.
use agent_mobile.Common.{
  ℕ, ◌+◌, ◌%◌, Bool, false, Option, none, some, List, [], ◌∷◌, map, ◌==◌, not, if◌then◌else◌, codes,
}
use agent_mobile.Handshake.Base.{Text}

-- `#mic-ring`, by its classes.
pub record Ring : Type 0 where
  pub unmuted : Bool
  pub muted : Bool
  pub pulse : Bool

-- An element `[data-ctl="mic"]`: its attributes, none where they are missing, and its text.
pub record MicButton : Type 0 where
  pub data_on : Option Text
  pub data_off : Option Text
  pub label : Text

-- What the page shows of the controls; an element that is missing is `none`.
pub record Controls : Type 0 where
  pub ring : Option Ring
  pub mics : List MicButton
  pub agent_id : Option Text
  pub speech_widget : Option Text
  pub speech_index : ℕ
  pub agent_speech : Option Bool

abbrev pub or_text : Option Text → Text → Text
or_text none d = d
or_text (some []) d = d
or_text (some (c ∷ s)) d = c ∷ s

unfoldable pub sync_ring : Bool → Ring → Ring
sync_ring running r = record {
  unmuted = running;
  muted = not running;
  pulse = if running then r.pulse else false;
}

unfoldable pub sync_button : Bool → MicButton → MicButton
sync_button running b = record b {
  label =
      if running
      then or_text b.data_on (codes "Mic on")
      else or_text b.data_off (codes "Start audio");
}

abbrev pub on_ring : (Ring → Ring) → Option Ring → Option Ring
on_ring f none = none
on_ring f (some r) = some (f r)

-- `__syncAudioCtl(running)`
unfoldable pub sync_audio_ctl : Bool → Controls → Controls
sync_audio_ctl running c = record c {
  ring = on_ring (sync_ring running) c.ring;
  mics = map (sync_button running) c.mics;
}

-- The ring's part of `__setMicLevel(lvl)`, of a level that is loud or not
unfoldable pub level_ring : Bool → Ring → Ring
level_ring loud r = if r.muted then r else record r { pulse = loud }

unfoldable pub set_mic_level : Bool → Controls → Controls
set_mic_level loud c = record c { ring = on_ring (level_ring loud) c.ring }

-- `__setAgentSpeaking(on)`
unfoldable pub set_agent_speaking : Bool → Controls → Controls
set_agent_speaking on c = record c {
  agent_speech = elim c.agent_speech [ none ↦ none | some _ ↦ some on ];
}

-- `__setAgentId(id)`
unfoldable pub set_agent_id : Text → Controls → Controls
set_agent_id id c = record c { agent_id = elim c.agent_id [ none ↦ none | some _ ↦ some id ] }

-- The markup of the variants 'bars', 'orb' and 'dots'.
unfoldable pub variant : ℕ → Text
variant i =
    if i == 0
    then codes
        "<span class=\"sp-speech bars\"><span class=\"spbar\"></span><span class=\"spbar\"></span><span class=\"spbar\"></span><span class=\"spbar\"></span></span>"
    else if i == 1
    then codes "<span class=\"sp-speech orb\"></span>"
    else codes "<span class=\"sp-speech dots\"></span>"

-- `renderSpeech()`
unfoldable pub render_speech : Controls → Controls
render_speech c = record c {
  speech_widget = elim c.speech_widget [
    | none ↦ none
    | some _ ↦ some (variant ((c.speech_index % 3 + 3) % 3))
  ];
}

-- A tap on the widget, where there is one.
unfoldable pub tap_speech : Controls → Controls
tap_speech c = elim c.speech_widget [
  | none ↦ c
  | some _ ↦ render_speech (record c { speech_index = c.speech_index + 1 })
]

pub data ControlEvent : Type 0 where
  audio_is : Bool → ControlEvent
  -- whether the level is loud
  level : Bool → ControlEvent
  speaking : Bool → ControlEvent
  agent : Text → ControlEvent
  widget_tap : ControlEvent

unfoldable pub control : Controls → ControlEvent → Controls
control c (audio_is running) = sync_audio_ctl running c
control c (level loud) = set_mic_level loud c
control c (speaking on) = set_agent_speaking on c
control c (agent id) = set_agent_id id c
control c widget_tap = tap_speech c

unfoldable pub control_run : Controls → List ControlEvent → Controls
control_run c [] = c
control_run c (e ∷ es) = control_run (control c e) es
