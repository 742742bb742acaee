-- ===== src/Bridge/Tests.antt =====
-- www/bridge.js: the theorems on the bridge at concrete inputs.
use agent_mobile.Common.{◌≤◌, ◌≡◌, refl, true, false, some, List, [], ◌∷◌, none}
use agent_mobile.Bridge.{
  is_audio_running, stop_audio, calls, sync_audio, Event, tap, running_is, switched, session,
  ensure_hears, new_bridge, audio_toggle, on_running, on_switched, step, run,
}
use agent_mobile.Bridge.Mic.{mutes, taps, IsGuarded, run-new_bridge-IsGuarded}
use agent_mobile.Bridge.Controls.{Controls, control_run, audio_is, level, widget_tap}
use agent_mobile.Bridge.Ring.{IsHonest, control_run-IsHonest}

-- A session starts the microphone, a tap stops it, and a second one in between does nothing.
abbrev evening : List Event
evening =
    session (some (7 ∷ []))
    ∷ ensure_hears (some false)
    ∷ tap true
    ∷ tap true
    ∷ running_is (some true)
    ∷ switched true
    ∷ []

run-new_bridge-IsGuarded_example :
    (mutes (run new_bridge evening).0 ≤ taps evening) × IsGuarded (run new_bridge evening).1
run-new_bridge-IsGuarded_example = run-new_bridge-IsGuarded evening

double_tap :
    (run new_bridge (tap true ∷ tap true ∷ running_is (some true) ∷ switched true ∷ [])).0
    ≡ calls is_audio_running ∷ calls stop_audio ∷ sync_audio false ∷ []
unfolding run step audio_toggle on_running on_switched
double_tap = refl

abbrev controls : Controls
controls = record {
  ring = some (record { unmuted = false; muted = true; pulse = false });
  mics = [];
  agent_id = none;
  speech_widget = some [];
  speech_index = 0;
  agent_speech = some false;
}

control_run-IsHonest_example :
    IsHonest
      (control_run controls (audio_is true ∷ level true ∷ widget_tap ∷ audio_is false ∷ [])).ring
control_run-IsHonest_example =
    control_run-IsHonest (audio_is true ∷ level true ∷ widget_tap ∷ audio_is false ∷ []) controls
      (λ h. refl)
