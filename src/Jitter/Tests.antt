-- ===== src/Jitter/Tests.antt =====
-- transport/adaptive-jitter.js: the theorems on the buffer at concrete inputs.
use agent_mobile.Common.{
  lookup-nil, ◌+◌, nat_eq, ℕ, ◌+◌, ◌-◌, ◌*◌, ◌/◌, ◌≤◌, ◌≡◌, refl, Bool, true, some, List, [], ◌∷◌,
  ◌++◌, ◌==◌, length, lookup, insert, erase, arith,
}
use agent_mobile.Jitter.{
  Estimator, Config, Buffer, Out, play, conceal, lowest, drop_below, run_from, note_loss,
  bound_buffer, run_ahead, hand_out, pull_ready, pull_missing, pull, tick, new_buffer, note_jitter,
  set_target, admit, push,
}
use agent_mobile.Jitter.Pump.{drain, drain-enough}
use agent_mobile.Jitter.Step.{Event, packet, poll, second, step, run, run-bounded}
use agent_mobile.Jitter.Order.{Rising, run-plays_in_order}
use agent_mobile.Jitter.Progress.{polls, conceals_at_deadline, starts_by_rehold}

-- The estimate in whole milliseconds.
abbrev whole_ms : Estimator ℕ
whole_ms = record {
  zero_ms = 0;
  is_zero = λ n. n == 0;
  of_ms = λ n. n;
  blend = λ old spike. (3 * old + spike) / 4;
  frames = λ jitter frame_ms. (jitter + frame_ms - 1) / frame_ms;
}

abbrev settings : Config
settings = record { baseline = 1; max_frames = 2; frame_ms = 20; max_hold_ms = 20; rehold_ms = 100 }

-- Frame 2 is lost, 4 arrives before 3, and 1 arrives again after it was played.
abbrev traffic : List (Event Bool)
traffic =
    packet 1 20 true
    ∷ poll 10
    ∷ poll 111
    ∷ packet 4 80 true
    ∷ packet 3 60 true
    ∷ packet 1 20 true
    ∷ poll 131
    ∷ poll 151
    ∷ poll 171
    ∷ second
    ∷ poll 191
    ∷ []

traffic_played :
    (run whole_ms (new_buffer whole_ms settings) traffic).0
    ≡ play 1 true 20 ∷ conceal 2 ∷ play 3 true 60 ∷ play 4 true 80 ∷ []
unfolding run step push admit set_target note_jitter note_loss bound_buffer lowest drop_below pull
    pull_ready pull_missing hand_out run_ahead run_from new_buffer tick insert erase lookup
traffic_played = refl

run-plays_in_order_example : Rising 0 (run whole_ms (new_buffer whole_ms settings) traffic).0
run-plays_in_order_example = run-plays_in_order whole_ms settings traffic (omega arith)

run-bounded_example :
    (length (run whole_ms (new_buffer whole_ms settings) traffic).1.buf ≤ 2 * 4 + 1)
    × ((run whole_ms (new_buffer whole_ms settings) traffic).1.target ≤ 2)
run-bounded_example = run-bounded whole_ms settings traffic (omega arith)

-- A buffer at frame 7, which is missing while 8 is there.
abbrev gap : Buffer ℕ Bool
gap = record (new_buffer whole_ms settings) {
  next = some 7;
  buf = (8, (true, 160)) ∷ [];
  started = true;
}

conceals_at_deadline_example :
    (run whole_ms gap (polls (5 ∷ []) ++ (poll 25 ∷ []))).0 ≡ conceal 7 ∷ []
unfolding lookup new_buffer
conceals_at_deadline_example =
    conceals_at_deadline whole_ms gap 7 (5 ∷ []) 25 refl refl (omega arith) (omega arith)

-- The same buffer, at frame 8 and not started.
abbrev held : Buffer ℕ Bool
held = record (new_buffer whole_ms settings) { next = some 8; buf = (8, (true, 160)) ∷ [] }

starts_by_rehold_example :
    (os : List (Out Bool)) × ((run whole_ms held (poll 5 ∷ poll 105 ∷ [])).0 ≡ play 8 true 160 ∷ os)
unfolding lookup new_buffer
starts_by_rehold_example =
    starts_by_rehold whole_ms held 8 5 105 true 160 refl refl refl refl (λ e. absurd (cc))
      (omega arith)

drain-enough_example : drain (length gap.buf + 2 + 10) gap 25 ≡ drain (length gap.buf + 2) gap 25
drain-enough_example =
    drain-enough 10 gap 25
      (record {
        within = record {
          is_map = unfold new_buffer lookup in (refl, tt);
          before = unfold new_buffer in λ h. absurd (cc);
          window = unfold new_buffer lookup in λ n e k v g. ground (arith, e, g);
          waits = unfold new_buffer in λ k v g. absurd (lookup-nil k g);
        };
        capped = unfold new_buffer in omega arith;
      })
      (unfold new_buffer in omega arith)
