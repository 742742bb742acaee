-- ===== src/Client/Tests.antt =====
-- transport/ws-client.mjs: the theorems on the client at concrete inputs.
use agent_mobile.Handshake.Base.{none_pinned}
use agent_mobile.Handshake.Plain.{plain_crypto, pair}
use agent_mobile.Client.Connect.{
  gateway_error, hook_returns, is_unpinned, opens, arrives, closes, connecting, connect_run,
}
use agent_mobile.Client.Vetted.{IsVetted, channels, approvals, rejections, connect_run-IsVetted}
use agent_mobile.Common.{
  if◌then◌else◌, ◌&&◌, ◌≤◌, ◌≡◌, refl, sym, subst, true, false, none, some, [], ◌∷◌, replicate,
  arith,
}
use agent_mobile.Bytes.{to_be, of_be}
use agent_mobile.Replay.{new_window, accepts}
use agent_mobile.Channel.{
  Bytes, Aead, Frame, new_channel, encrypt, decrypt, recv_in, recv_bytes, nonce_for, parse_nonce,
}
use agent_mobile.Frames.{pack, unpack}
use agent_mobile.Client.{Client, Codec, wrote, partition_change, other, start, on_frame}
use agent_mobile.Client.Steady.{
  gap_out, command_out, inbound, next_fires, probe_fires, IsSteady, run, run-start-IsSteady,
}
use agent_mobile.Client.Liveness.{
  Pong, emit_all, unopened_is_not_liveness, partition_flushes_in_order, undeclared_is_not_flushed,
  answered_probe_fails,
}

-- A cipher that hides nothing, and commands without content.
abbrev plain : Aead
plain = record {
  seal = λ key nonce aad pt. (pt, replicate 16 0);
  unseal = λ key nonce aad ct tag. some ct;
  unseal-seal = λ key nonce aad pt. refl;
  tag_length = λ key nonce aad pt. refl;
}

abbrev empty : Codec (Unit {0})
empty = record { stringify = λ i d. i ∷ []; parse = λ bs. some (other, tt) }

abbrev key : Bytes
key = replicate 32 7

abbrev fresh : Client
fresh = start 2000 64000 3 (new_channel key key key)

run-start-IsSteady_example :
    IsSteady (run plain empty fresh (next_fires ∷ probe_fires ∷ gap_out ∷ command_out tt ∷ [])).1
run-start-IsSteady_example =
    run-start-IsSteady plain empty 2000 64000 3 (new_channel key key key)
      (next_fires ∷ probe_fires ∷ gap_out ∷ command_out tt ∷ []) (omega arith) (omega arith)
      (omega arith)

-- The agent's first pong.
abbrev answer_frame : Frame
answer_frame = encrypt plain key (nonce_for 0 0) 4 []

abbrev answer : Bytes
answer = pack 4 answer_frame

answer-shape : unpack answer ≡ some answer_frame
answer-shape = unfold pack unpack encrypt nonce_for to_be in refl

answer-opened : (recv_bytes plain (new_channel key key key) answer_frame).0 ≡ some []
answer-opened =
    unfold recv_bytes recv_in decrypt encrypt new_channel nonce_for parse_nonce to_be of_be accepts
      new_window in
    refl

not_a_frame : unpack (1 ∷ 2 ∷ []) ≡ none
not_a_frame = unfold unpack in refl

authentic : (c : Client) → c.channel ≡ new_channel key key key → Pong plain empty c answer
authentic c e = record {
  frame = answer_frame;
  shape = answer-shape;
  is_pong = unfold encrypt in refl;
  plain = [];
  opened = subst (λ ch. (recv_bytes plain ch answer_frame).0 ≡ some []) (sym e) answer-opened;
}

-- A client with two failures, and one that has held a frame back after three.
abbrev troubled : Client
troubled = record fresh { failures = 2; buffer = (1 ∷ []) ∷ [] }

abbrev cut_off : Client
cut_off = record fresh { failures = 3; partitioned = true; buffer = (1 ∷ []) ∷ [] }

abbrev probing : Client
probing = record fresh { next_timer = none; probe_timer = true }

partition_flushes_in_order_example :
    (on_frame plain empty (emit_all {D = Unit {0}} cut_off ((2 ∷ []) ∷ [])).1 answer).0
    ≡ wrote (1 ∷ []) ∷ wrote (2 ∷ []) ∷ partition_change false ∷ []
unfolding start
partition_flushes_in_order_example =
    (partition_flushes_in_order plain empty cut_off ((2 ∷ []) ∷ []) answer (omega arith) refl
      (authentic _ refl)).1

undeclared_is_not_flushed_example : (on_frame plain empty troubled answer).1.buffer ≡ (1 ∷ []) ∷ []
unfolding start
undeclared_is_not_flushed_example =
    (undeclared_is_not_flushed plain empty troubled (2 ∷ []) answer (omega arith) refl
      (authentic _ refl)).1

answered_probe_fails_example :
    (run plain empty probing (inbound answer ∷ probe_fires ∷ [])).1.failures ≡ 1
unfolding start
answered_probe_fails_example =
    answered_probe_fails plain empty probing answer refl refl (authentic _ refl)

unopened_is_not_liveness_example : (on_frame plain empty cut_off (1 ∷ 2 ∷ [])).0 ≡ []
unopened_is_not_liveness_example =
    (unopened_is_not_liveness plain empty cut_off (1 ∷ 2 ∷ [])
      (λ f h. absurd (ground (arith, not_a_frame, h)))).0

connect_run-IsVetted_example :
    let es = opens ∷ arrives (7 ∷ []) ∷ hook_returns 0 true ∷ closes ∷ [] in
    let r =
      connect_run plain_crypto
        (λ raw. some (gateway_error raw))
        (pair 1)
        (pair 3)
        none_pinned
        true
        connecting
        es in
    IsVetted plain_crypto (pair 1) (pair 3) none_pinned r.1
    × (rejections r.0 ≤ 1)
    × ((if is_unpinned none_pinned && true then channels r.1 else 0) ≤ approvals es)
connect_run-IsVetted_example =
    connect_run-IsVetted plain_crypto (λ raw. some (gateway_error raw)) (pair 1) (pair 3)
      none_pinned true (opens ∷ arrives (7 ∷ []) ∷ hook_returns 0 true ∷ closes ∷ [])
