-- ===== src/Media/Received.antt =====
-- transport/udp-media.js: what a datagram does.
use agent_mobile.Common.{
  string_eq, ltb, lt→ltb, suc, true, ◌*◌, ℕ, ◌%◌, ◌^◌, ◌<◌, ◌≡◌, ◌≢◌, refl, ◌∙◌, false, Option,
  none, some, [], ◌∷◌, ◌++◌, ◌==◌, if◌then◌else◌, take, drop, get_or, arith, if-cases, Option-match,
}
use agent_mobile.Bytes.{to_be, of_be, length-to_be, of_be-to_be}
use agent_mobile.Channel.{Bytes, Aead, Channel, Frame, recv_bytes}
use agent_mobile.Frames.{unpack}
use agent_mobile.Frames.Roundtrip.{take-of, drop-of, third_piece}
use agent_mobile.Jitter.{Estimator, Buffer, new_buffer, push}
use agent_mobile.Media.{
  Peer, Media, Step, authfail, body, learn, on_plain, on_probe, on_voice, on_datagram, ack,
  send_body, to_number, double_from, half_even, pump, rcv, Voice, defaults,
}

-- The failure is reported at most, and only the channel changes.
abbrev Harmless : {N : Type 0} → Media N → Peer → Step N → Type 0
Harmless m from r =
    ((ch : Channel) × (r.1 ≡ record m { channel = ch }))
    × (r.0 ≡ (if m.allow from then authfail from ∷ [] else []))

-- A number that fits 53 bits is what `Number` makes of it.
half_even-one : (n : ℕ) → half_even n 1 ≡ n
half_even-one n = rw (lt→ltb (2 * (n % 1)) 1 (omega arith)) (omega arith)

double_from-fits :
    (k m n : ℕ) → ltb n (2 ^ 53 * m) ≡ true → double_from (suc k) m n ≡ m * half_even n m
unfolding double_from
double_from-fits k m n e = rw (double_from, e) refl

to_number-exact : (n : ℕ) → n < 2 ^ 53 → to_number n ≡ n
unfolding to_number
to_number-exact n h =
    double_from-fits 10 1 n (lt→ltb n (2 ^ 53 * 1) (omega (arith, h)))
    ∙ (rw half_even-one (omega arith))

module _ {N : Type 0} (est : Estimator N) where
  -- The jitter buffer that is there, or a new one.
  abbrev pub buffer_of : Media N → Buffer N Voice
  buffer_of m = elim m.jb [ none ↦ new_buffer est defaults | some b ↦ b ]

module _ {N : Type 0} (aead : Aead) (est : Estimator N) where
  -- A datagram that does not open, allowed or not, teaches no peer and feeds no buffer: nothing
  -- changes but the channel, and the failure is reported exactly if the sender is allowed.
  pub unopened_is_harmless :
      (m : Media N) (msg : Bytes) (from : Peer) (now : ℕ)
      → ((f : Frame) → unpack msg ≡ some f → (recv_bytes aead m.channel f).0 ≡ none)
      → let r = on_datagram aead est m msg from now in
        ((ch : Channel) × (r.1 ≡ record m { channel = ch }))
        × (r.0 ≡ (if m.allow from then authfail from ∷ [] else []))
  unfolding on_datagram
  unopened_is_harmless m msg from now h =
      if-cases (Harmless m from) (m.allow from) _ _
        (λ a.
          Option-match (Harmless m from) (unpack msg) _ _ (λ _. ((m.channel, refl), rw a refl))
            (λ f e. rw (h f e) (((recv_bytes aead m.channel f).1, refl), rw a refl)))
        (λ a. ((m.channel, refl), rw a refl))

  -- The voice that `send` writes into a body is what the other side's handler takes out of it, if its
  -- number and time fit their fields and its kind is a byte that is not the probe's: it goes to the
  -- jitter buffer, or to a new one, with its number, its kind and bytes as they were given, and the
  -- time as `Number` makes it, which is the time as it was given if it is less than 2^53; the buffer
  -- is pumped with that kind and time as the last ones, and the reception is reported.
  pub voice_arrives :
      (m : Media N) (kind seq ts : ℕ) (opus : Bytes) (from : Peer) (now : ℕ)
      → kind < 256
      → kind ≢ 2
      → seq < 2 ^ 32
      → ts < 2 ^ 64
      → (pt : Bytes) × (time : ℕ) × (body kind seq ts opus ≡ some pt)
        × (ts < 2 ^ 53 → time ≡ ts)
        × (on_plain aead est m pt from now ≡ (
            let l = learn m from in
            let v =
              pump
                (record l.1 {
                  jb = some (push est (buffer_of est l.1) seq time (kind, opus));
                  last_kind = kind;
                  last_ts_ms = time;
                })
                now in
            (l.0 ++ (v.0 ++ (rcv kind seq time from ∷ [])), v.1)))
  unfolding body on_plain on_voice
  voice_arrives m kind seq ts opus from now hk ne hs ht = (
    (kind % 256 ∷ []) ++ (to_be 4 seq ++ (to_be 8 ts ++ opus)),
    to_number ts,
    ground (arith, hs, ht),
    to_number-exact ts,
    rw
        (
          low,
          take-of 4 (to_be 4 seq) (to_be 8 ts ++ opus) (length-to_be 4 seq),
          drop-of 4 (to_be 4 seq) (to_be 8 ts ++ opus) (length-to_be 4 seq),
          take-of 8 (to_be 8 ts) opus (length-to_be 8 ts),
          third_piece 4 8 (to_be 4 seq) (to_be 8 ts) opus (length-to_be 4 seq) (length-to_be 8 ts),
          of_be-to_be 4 seq (omega (arith, hs)),
          of_be-to_be 8 ts (omega (arith, ht)),
          other,
        )
        refl,
  )
    where
      low : kind % 256 ≡ kind
      low = omega (arith, hk)

      other : (kind == 2) ≡ false
      other = ground (arith, ne)

  jb-learn : (m : Media N) (from : Peer) → (learn m from).1.jb ≡ m.jb
  unfolding learn
  jb-learn m from = ground arith

  jb-send_body :
      (m : Media N) (pt : Option Bytes) (to : Peer) {r : Step N}
      → send_body aead m pt to ≡ some r
      → r.1.jb ≡ m.jb
  unfolding send_body
  jb-send_body m none to h = absurd (cc)
  jb-send_body m (some pt) to h = ground (arith, h)

  jb-on_probe :
      (m : Media N) (seq : ℕ) (from : Peer) (now : ℕ) → (on_probe aead m seq from now).1.jb ≡ m.jb
  unfolding on_probe ack
  jb-on_probe m seq from now =
      if-cases (λ (r : Step N). r.1.jb ≡ m.jb) m.respond_to_probes _ _
        (λ _.
          Option-match (λ (r : Step N). r.1.jb ≡ m.jb) (send_body aead m (body 2 seq now []) from) _
            _ (λ _. refl) (λ r h. jb-send_body m (body 2 seq now []) from h))
        (λ _. refl)

  -- A plaintext of the kind of a probe, acknowledged or not, leaves the jitter buffer alone.
  pub probe_feeds_nothing :
      (m : Media N) (pt : Bytes) (from : Peer) (now : ℕ)
      → get_or pt 0 0 ≡ 2
      → (on_plain aead est m pt from now).1.jb ≡ m.jb
  unfolding on_plain
  probe_feeds_nothing m pt from now h =
      rw h (jb-on_probe (learn m from).1 (of_be (take 4 (drop 1 pt))) from now ∙ jb-learn m from)
