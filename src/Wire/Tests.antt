-- ===== src/Wire/Tests.antt =====
-- vendor/hermes-plugin/sidecar/wire.mjs: drops at a concrete input.
use agent_mobile.Common.{◌≡◌, ◌≢◌, refl, true, [], ◌∷◌}
use agent_mobile.Wire.{closed, closing, not_sent, Options, send_frame}
use agent_mobile.Wire.Reports.{send_times, silence_is_bounded}

abbrev status : Options
status = record { every_nth = 3; quiet_when_closed = true }

four_drops :
    send_times 4 closed "status" status 0
    ≡ not_sent "status" closed 1 ∷ not_sent "status" closed 3 ∷ []
unfolding send_times send_frame
four_drops = refl

silence_is_bounded_example : send_times 3 closing "status" status 7 ≢ []
silence_is_bounded_example = silence_is_bounded closing "status" status 7 refl
