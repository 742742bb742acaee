-- ===== src/Bridge/Mic.antt =====
-- www/bridge.js: who switches the microphone.
use agent_mobile.Common.{ℕ, ◌+◌, ◌≤◌, ◌≡◌, true, some, List, [], ◌∷◌, ◌++◌, arith}
use agent_mobile.Bridge.{
  Chain, asking, Bridge, stop_audio, Effect, calls, Event, tap, new_bridge, audio_toggle,
  on_running, on_switched, on_ensured, stop, on_session, to_page, step, run,
}

-- The calls that mute the microphone.
abbrev pub mutes : List Effect → ℕ
mutes [] = 0
mutes (calls stop_audio ∷ es) = 1 + mutes es
mutes (_ ∷ es) = mutes es

abbrev pub taps : List Event → ℕ
taps [] = 0
taps (tap _ ∷ es) = 1 + taps es
taps (_ ∷ es) = taps es

-- The toggles that may still mute: one while the chain waits for `isAudioRunning`.
abbrev pub may_mute : Bridge → ℕ
may_mute b = elim b.chain [ some asking ↦ 1 | _ ↦ 0 ]

mutes-append : (xs ys : List Effect) → mutes (xs ++ ys) ≡ mutes xs + mutes ys
mutes-append [] ys = omega arith
mutes-append (x ∷ xs) ys = ground (arith, mutes-append xs ys)

-- The guard is up while a chain is under way.
abbrev pub IsGuarded : Bridge → Type 0
IsGuarded b = (ch : Chain) → b.chain ≡ some ch → b.busy ≡ true

step-mutes :
    (b : Bridge) (e : Event)
    → mutes (step b e).0 + may_mute (step b e).1 ≤ may_mute b + taps (e ∷ [])
unfolding step audio_toggle on_running on_switched on_ensured stop on_session to_page
step-mutes b e = ground arith

step-IsGuarded : (b : Bridge) (e : Event) → IsGuarded b → IsGuarded (step b e).1
unfolding step audio_toggle on_running on_switched on_ensured stop on_session
step-IsGuarded b e g ch h = ground (arith, h, g ch, g asking)

run-mutes :
    (es : List Event) (b : Bridge)
    → mutes (run b es).0 + may_mute (run b es).1 ≤ may_mute b + taps es
unfolding run
run-mutes [] b = omega arith
run-mutes (e ∷ es) b = ground (
  arith,
  step-mutes b e,
  run-mutes es (step b e).1,
  mutes-append (step b e).0 (run (step b e).1 es).0,
)

run-IsGuarded : (es : List Event) (b : Bridge) → IsGuarded b → IsGuarded (run b es).1
unfolding run
run-IsGuarded [] b g = g
run-IsGuarded (e ∷ es) b g = run-IsGuarded es (step b e).1 (step-IsGuarded b e g)

-- Whatever sessions, answers, messages and taps come, in any order: the microphone is muted at most
-- as often as it was tapped, so that no session mutes it; and the guard against a second tap is
-- up for as long as a toggle is under way.
pub run-new_bridge-IsGuarded :
    (es : List Event) → (mutes (run new_bridge es).0 ≤ taps es) × IsGuarded (run new_bridge es).1
run-new_bridge-IsGuarded es =
    (omega (arith, run-mutes es new_bridge), run-IsGuarded es new_bridge (λ ch h. absurd (cc)))
