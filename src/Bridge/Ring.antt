-- ===== src/Bridge/Ring.antt =====
-- www/bridge.js: what the ring of the microphone shows.
use agent_mobile.Common.{
  Bool, true, false, Option, none, some, List, [], ◌∷◌, ◌≡◌, refl, arith, Option-match,
}
use agent_mobile.Bridge.Controls.{
  Ring, Controls, ControlEvent, audio_is, level, speaking, agent, widget_tap, on_ring, sync_ring,
  level_ring, sync_audio_ctl, set_mic_level, set_agent_speaking, set_agent_id, tap_speech,
  render_speech, control, control_run,
}

-- A ring that says that the microphone is muted does not pulse.
abbrev pub IsHonest : Option Ring → Type 0
IsHonest none = Unit {0}
IsHonest (some r) = r.muted ≡ true → r.pulse ≡ false

sync-IsHonest : (running : Bool) (r : Option Ring) → IsHonest (on_ring (sync_ring running) r)
unfolding sync_ring
sync-IsHonest running none = tt
sync-IsHonest true (some r) = λ h. cc
sync-IsHonest false (some r) = λ h. refl

level-IsHonest :
    (loud : Bool) (r : Option Ring) → IsHonest r → IsHonest (on_ring (level_ring loud) r)
unfolding level_ring
level-IsHonest loud none h = tt
level-IsHonest loud (some r) h = ground (arith, h)

control-IsHonest : (c : Controls) (e : ControlEvent) → IsHonest c.ring → IsHonest (control c e).ring
unfolding control sync_audio_ctl set_mic_level set_agent_speaking set_agent_id tap_speech
    render_speech
control-IsHonest c (audio_is running) h = sync-IsHonest running c.ring
control-IsHonest c (level loud) h = level-IsHonest loud c.ring h
control-IsHonest c (speaking on) h = h
control-IsHonest c (agent id) h = h
control-IsHonest c widget_tap h =
    Option-match (λ (d : Controls). IsHonest d.ring) c.speech_widget _ _ (λ _. h) (λ _ _. h)

-- Whatever the plugin, the agent and the taps do, a ring that says that the microphone is muted
-- does not pulse.
pub control_run-IsHonest :
    (es : List ControlEvent) (c : Controls) → IsHonest c.ring → IsHonest (control_run c es).ring
unfolding control_run
control_run-IsHonest [] c h = h
control_run-IsHonest (e ∷ es) c h = control_run-IsHonest es (control c e) (control-IsHonest c e h)
