-- ===== src/Media/Tests.antt =====
-- transport/udp-media.js: the theorems at concrete inputs.
use agent_mobile.Common.{
  ℕ, ◌+◌, ◌*◌, ◌^◌, ◌<◌, ◌/◌, ◌-◌, ◌≡◌, refl, true, none, some, [], ◌∷◌, ◌++◌, ◌==◌, replicate,
  arith,
}
use agent_mobile.Channel.{Bytes, Aead, new_channel}
use agent_mobile.Frames.{unpack}
use agent_mobile.Jitter.{Estimator, push}
use agent_mobile.Media.{
  Peer, Media, authfail, new_media, body, learn, on_plain, on_datagram, pump, rcv, to_number,
  double_from,
}
use agent_mobile.Media.Received.{
  unopened_is_harmless, buffer_of, voice_arrives, probe_feeds_nothing,
}

-- A cipher that hides nothing, and an estimate in whole milliseconds.
abbrev plain : Aead
plain = record {
  seal = λ key nonce aad pt. (pt, replicate 16 0);
  unseal = λ key nonce aad ct tag. some ct;
  unseal-seal = λ key nonce aad pt. refl;
  tag_length = λ key nonce aad pt. refl;
}

abbrev whole_ms : Estimator ℕ
whole_ms = record {
  zero_ms = 0;
  is_zero = λ n. n == 0;
  of_ms = λ n. n;
  blend = λ old spike. (3 * old + spike) / 4;
  frames = λ jitter frame_ms. (jitter + frame_ms - 1) / frame_ms;
}

abbrev key : Bytes
key = replicate 32 7

abbrev server : Media ℕ
server = new_media (new_channel key key key) (λ p. true) true

abbrev phone : Peer
phone = record { address = "10.0.0.2"; port = 4000 }

not_a_frame : unpack (1 ∷ 2 ∷ []) ≡ none
not_a_frame = unfold unpack in refl

unopened_is_harmless_example :
    (on_datagram plain whole_ms server (1 ∷ 2 ∷ []) phone 5).0 ≡ authfail phone ∷ []
unfolding new_media
unopened_is_harmless_example =
    (unopened_is_harmless plain whole_ms server (1 ∷ 2 ∷ []) phone 5
      (λ f h. absurd (ground (arith, not_a_frame, h)))).1

voice_arrives_example :
    (pt : Bytes) × (time : ℕ) × (body 1 7 160 (b'o' ∷ []) ≡ some pt)
    × (160 < 2 ^ 53 → time ≡ 160)
    × (on_plain plain whole_ms server pt phone 5 ≡ (
        let l = learn server phone in
        let v =
          pump
            (record l.1 {
              jb = some (push whole_ms (buffer_of whole_ms l.1) 7 time (1, b'o' ∷ []));
              last_kind = 1;
              last_ts_ms = time;
            })
            5 in
        (l.0 ++ (v.0 ++ (rcv 1 7 time phone ∷ [])), v.1)))
voice_arrives_example =
    voice_arrives plain whole_ms server 1 7 160 (b'o' ∷ []) phone 5 (omega arith)
      (λ e. absurd (omega (arith, e))) (omega arith) (omega arith)

probe_feeds_nothing_example :
    (on_plain plain whole_ms server (2 ∷ replicate 12 0) phone 5).1.jb ≡ server.jb
probe_feeds_nothing_example =
    probe_feeds_nothing plain whole_ms server (2 ∷ replicate 12 0) phone 5 refl

-- 2^53 + 1 lies between two doubles, and 2^64 - 1 next to 2^64.
rounds_to_even : to_number 9007199254740993 ≡ 9007199254740992
unfolding to_number double_from
rounds_to_even = refl

rounds_up : to_number 18446744073709551615 ≡ 18446744073709551616
unfolding to_number double_from
rounds_up = refl
