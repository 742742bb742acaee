-- ===== src/Client/Steady.antt =====
-- transport/ws-client.mjs: the invariant of the client's keepalive, over any run of events.
use native.Mathlib.Nat.{one-le-pow, le-mul_of_pos_right}
use agent_mobile.Common.{
  nat_eq, ℕ, ◌+◌, ◌*◌, ◌^◌, ◌≤◌, ◌<◌, ◌≡◌, refl, sym, ◌∙◌, true, false, Option, none, some, List,
  [], ◌∷◌, ◌++◌, ltb, leb, ◌==◌, if◌then◌else◌, length, lookup, insert, erase, arith, if-cases,
  Option-match, length-append,
}
use agent_mobile.Channel.{Bytes, Aead, Channel, send, recv_bytes}
use agent_mobile.Frames.{pack, unpack, pack_audio, code, cmd, audio, gap, ping, pong}
use agent_mobile.Channel.Fresh.{Sent-match}
use agent_mobile.Client.{
  on_liveness_closure, close, threw, wrote, Client, Codec, Step, MessageId, number, minus_one,
  other, start, emit, flush, on_liveness, probe_expires, seal, send_data, send_audio, send_gap,
  command, command_expires, answer, dispatch, on_opened, on_frame, probe,
}

-- What happens to a client. The timers fire only while they wait.
pub data Event (D : Type 0) : Type 0 where
  audio_out : ℕ → ℕ → Bytes → Event D
  gap_out : Event D
  command_out : D → Event D
  inbound : Bytes → Event D
  next_fires : Event D
  probe_fires : Event D
  command_fires : ℕ → Event D
  socket_closes : Event D
  shut : Event D

module _ {D : Type 0} (aead : Aead) (codec : Codec D) where
  unfoldable pub step : Client → Event D → Step D
  step c (audio_out seq ts opus) = send_audio aead codec c seq ts opus
  step c gap_out = send_gap aead codec c
  step c (command_out d) = command aead codec c d
  step c (inbound raw) = on_frame aead codec c raw
  step c next_fires = elim c.next_timer [ none ↦ ([], c) | some _ ↦ probe aead codec c ]
  step c probe_fires = if c.probe_timer then probe_expires c else ([], c)
  step c (command_fires i) = command_expires aead codec c i
  step c socket_closes = on_liveness_closure c
  step c shut = close c

  unfoldable pub run : Client → List (Event D) → Step D
  run c [] = ([], c)
  run c (e ∷ es) = let (fx, c') = step c e in let (fx', c'') = run c' es in (fx ++ fx', c'')

-- The partition is declared exactly from `limit` failures on; the next probe is due after at least
-- the base interval and at most the greatest one, unless an answer is waited for, never both; and
-- every frame that was ever held back has been flushed or is still held.
pub record IsSteady (c : Client) : Type 0 where
  pub options : (0 < c.base) × (c.base ≤ c.max) × (0 < c.limit)
  pub declared : c.partitioned ≡ leb c.limit c.failures
  pub interval :
      (t : ℕ) → c.next_timer ≡ some t → (c.base ≤ t) × (t ≤ c.max) × (c.probe_timer ≡ false)
  pub accounted : c.buffered ≡ c.flushed + length c.buffer

-- What the steps that send and answer leave as it is.
pub record SameKeepalive (c d : Client) : Type 0 where
  pub base : d.base ≡ c.base
  pub max : d.max ≡ c.max
  pub limit : d.limit ≡ c.limit
  pub failures : d.failures ≡ c.failures
  pub partitioned : d.partitioned ≡ c.partitioned
  pub next_timer : d.next_timer ≡ c.next_timer
  pub probe_timer : d.probe_timer ≡ c.probe_timer

same-IsSteady :
    (c d : Client)
    → SameKeepalive c d
    → d.buffered ≡ d.flushed + length d.buffer
    → IsSteady c
    → IsSteady d
same-IsSteady c d s a v = record {
  options = rw (s.base, s.max, s.limit) v.options;
  declared = s.partitioned ∙ rw (s.limit, s.failures) v.declared;
  interval = λ t h. rw (s.base, s.max, s.probe_timer) (v.interval t (sym s.next_timer ∙ h));
  accounted = a;
}

-- Doubling does not make an interval shorter.
le_doubled : (b k : ℕ) → b ≤ b * 2 ^ k
le_doubled b k = le-mul_of_pos_right b (one-le-pow k 2 (omega arith))

module _ (D : Type 0) where
  emit-IsSteady : (c : Client) (frame : Bytes) → IsSteady c → IsSteady (emit {D = D} c frame).1
  unfolding emit
  emit-IsSteady c frame v =
      if-cases (λ (r : Step D). IsSteady r.1) (ltb 0 c.failures) _ _
        (λ _.
          same-IsSteady c _
            (record {
              base = refl;
              max = refl;
              limit = refl;
              failures = refl;
              partitioned = refl;
              next_timer = refl;
              probe_timer = refl;
            })
            (omega (arith, v.accounted, length-append c.buffer (frame ∷ []))) v)
        (λ _.
          same-IsSteady c _
            (record {
              base = refl;
              max = refl;
              limit = refl;
              failures = refl;
              partitioned = refl;
              next_timer = refl;
              probe_timer = refl;
            })
            v.accounted v)

  on_liveness-IsSteady : (c : Client) → IsSteady c → IsSteady (on_liveness {D = D} c).1
  unfolding on_liveness flush
  on_liveness-IsSteady c v =
      if-cases (λ (r : Step D). IsSteady r.1) c.partitioned _ _
        (λ p. record {
          options = v.options;
          declared = ground (arith, v.options);
          interval = λ t h. ground (arith, h, v.options);
          accounted = omega (arith, v.accounted);
        })
        (λ p. record {
          options = v.options;
          declared = ground (arith, v.options, p);
          interval = λ t h. ground (arith, h, v.options);
          accounted = v.accounted;
        })

  probe_expires-IsSteady : (c : Client) → IsSteady c → IsSteady (probe_expires {D = D} c).1
  unfolding probe_expires
  probe_expires-IsSteady c v =
      let due = le_doubled c.base (c.failures + 1) in
      if-cases (λ (r : Step D). IsSteady r.1) c.partitioned _ _
        (λ p. record {
          options = v.options;
          declared = ground (arith, v.declared, p);
          interval = λ t h. ground (arith, h, v.options, due);
          accounted = v.accounted;
        })
        (λ p.
          if-cases (λ (r : Step D). IsSteady r.1) (leb c.limit (c.failures + 1)) _ _
            (λ q. record {
              options = v.options;
              declared = sym q;
              interval = λ t h. ground (arith, h, v.options, due);
              accounted = v.accounted;
            })
            (λ q. record {
              options = v.options;
              declared = p ∙ sym q;
              interval = λ t h. ground (arith, h, v.options, due);
              accounted = v.accounted;
            }))

-- The same client but for its channel, its commands and its count of probes.
abbrev others : Client → Channel → List (ℕ × Unit {0}) → ℕ → Client
others c ch pending mid = record c { channel = ch; pending = pending; mid = mid }

others-IsSteady :
    (c : Client) (ch : Channel) (pending : List (ℕ × Unit {0})) (mid : ℕ)
    → IsSteady c
    → IsSteady (others c ch pending mid)
others-IsSteady c ch pending mid v =
    same-IsSteady c _
      (record {
        base = refl;
        max = refl;
        limit = refl;
        failures = refl;
        partitioned = refl;
        next_timer = refl;
        probe_timer = refl;
      })
      v.accounted v

module _ {D : Type 0} (aead : Aead) (codec : Codec D) where
  abbrev Steadied : Step D → Type 0
  Steadied r = IsSteady r.1

  -- Sealing gives nothing, or changes the channel only.
  seal-cases :
      (P : Option (Bytes × Client) → Type 0) (c : Client) (pt : Bytes) (type : ℕ)
      → P none
      → ((frame : Bytes) (ch : Channel) → P (some (frame, record c { channel = ch })))
      → P (seal aead codec c pt type)
  unfolding seal
  seal-cases P c pt type n s =
      Sent-match P (send aead c.channel pt type 0) _ _ (λ ch f e. s (pack type f) ch) n

  send_data-IsSteady :
      (c : Client) (pt : Bytes) (type : ℕ)
      → IsSteady c
      → IsSteady (send_data aead codec c pt type).1
  unfolding send_data
  send_data-IsSteady c pt type v =
      seal-cases
        (λ r. Steadied (elim r [ none ↦ (threw ∷ [], c) | some (frame, c') ↦ emit c' frame ])) c pt
        type v (λ frame ch. emit-IsSteady D _ frame (others-IsSteady c ch c.pending c.mid v))

  send_audio-IsSteady :
      (c : Client) (seq ts : ℕ) (opus : Bytes)
      → IsSteady c
      → Steadied (send_audio aead codec c seq ts opus)
  unfolding send_audio
  send_audio-IsSteady c seq ts opus v =
      Option-match Steadied (pack_audio seq ts opus) _ _ (λ _. v)
        (λ pt _. send_data-IsSteady c pt (code audio) v)

  command-IsSteady : (c : Client) (d : D) → IsSteady c → Steadied (command aead codec c d)
  unfolding command
  command-IsSteady c d v =
      let counted = record c { mid = c.mid + 1 } in
      seal-cases
        (λ r. Steadied (elim r [
          | none ↦ (threw ∷ [], counted)
          | some (frame, c') ↦ emit (record c' { pending = insert (c.mid + 1) tt c'.pending }) frame
        ]))
        counted (codec.stringify (c.mid + 1) d) (code cmd)
        (others-IsSteady c c.channel c.pending (c.mid + 1) v)
        (λ frame ch.
          emit-IsSteady D _ frame
            (others-IsSteady c ch (insert (c.mid + 1) tt c.pending) (c.mid + 1) v))

  command_expires-IsSteady :
      (c : Client) (i : ℕ) → IsSteady c → Steadied (command_expires aead codec c i)
  unfolding command_expires
  command_expires-IsSteady c i v =
      Option-match Steadied (lookup i c.pending) _ _ (λ _. v)
        (λ _ _. others-IsSteady c c.channel (erase i c.pending) c.mid v)

  answer-IsSteady :
      (c : Client) (i : MessageId) (d : D) → IsSteady c → Steadied (answer aead codec c i d)
  unfolding answer
  answer-IsSteady c (number i) d v =
      Option-match Steadied (lookup i c.pending) _ _ (λ _. v)
        (λ _ _. others-IsSteady c c.channel (erase i c.pending) c.mid v)
  answer-IsSteady c minus_one d v = v
  answer-IsSteady c other d v = v

  dispatch-IsSteady :
      (c : Client) (type : ℕ) (pt : Bytes) → IsSteady c → Steadied (dispatch aead codec c type pt)
  unfolding dispatch
  dispatch-IsSteady c type pt v =
      if-cases Steadied (type == code pong) _ _ (λ _. v)
        (λ _.
          if-cases Steadied (type == code cmd) _ _
            (λ _.
              Option-match Steadied (codec.parse pt) _ _ (λ _. v)
                (λ m _. answer-IsSteady c m.0 m.1 v))
            (λ _.
              if-cases Steadied (type == code audio) _ _
                (λ _. if-cases Steadied (ltb (length pt) 4) _ _ (λ _. v) (λ _. v)) (λ _. v)))

  on_opened-IsSteady :
      (c : Client) (type : ℕ) (pt : Bytes) → IsSteady c → Steadied (on_opened aead codec c type pt)
  unfolding on_opened
  on_opened-IsSteady c type pt v = dispatch-IsSteady _ type pt (
      if-cases Steadied (ltb 0 c.failures) (on_liveness c) ([], c) (λ _. on_liveness-IsSteady D c v)
        (λ _. v))

  on_frame-IsSteady : (c : Client) (raw : Bytes) → IsSteady c → Steadied (on_frame aead codec c raw)
  unfolding on_frame
  on_frame-IsSteady c raw v =
      Option-match Steadied (unpack raw) _ _ (λ _. v)
        (λ f _.
          let ch = (recv_bytes aead c.channel f).1 in
          let w = others-IsSteady c ch c.pending c.mid v in
          Option-match Steadied (recv_bytes aead c.channel f).0 _ _ (λ _. w)
            (λ pt _. on_opened-IsSteady _ f.type pt w))

  probe-IsSteady : (c : Client) → IsSteady c → Steadied (probe aead codec c)
  unfolding probe
  probe-IsSteady c v =
      let counted = record c { probes = c.probes + 1; next_timer = none } in
      seal-cases
        (λ r. Steadied (elim r [
          | none ↦ ([], counted)
          | some (frame, c') ↦ (wrote frame ∷ [], record c' { probe_timer = true })
        ]))
        counted [] (code ping)
        (record {
          options = v.options;
          declared = v.declared;
          interval = λ t h. absurd (cc);
          accounted = v.accounted;
        })
        (λ frame ch. record {
          options = v.options;
          declared = v.declared;
          interval = λ t h. absurd (cc);
          accounted = v.accounted;
        })

  step-IsSteady : (c : Client) (e : Event D) → IsSteady c → Steadied (step aead codec c e)
  unfolding step send_gap on_liveness_closure close
  step-IsSteady c (audio_out seq ts opus) v = send_audio-IsSteady c seq ts opus v
  step-IsSteady c gap_out v = send_data-IsSteady c (b'g' ∷ []) (code gap) v
  step-IsSteady c (command_out d) v = command-IsSteady c d v
  step-IsSteady c (inbound raw) v = on_frame-IsSteady c raw v
  step-IsSteady c next_fires v =
      Option-match Steadied c.next_timer _ _ (λ _. v) (λ _ _. probe-IsSteady c v)
  step-IsSteady c probe_fires v =
      if-cases Steadied c.probe_timer _ _ (λ _. probe_expires-IsSteady D c v) (λ _. v)
  step-IsSteady c (command_fires i) v = command_expires-IsSteady c i v
  step-IsSteady c socket_closes v = v
  step-IsSteady c shut v = record {
    options = v.options;
    declared = v.declared;
    interval = λ t h. absurd (cc);
    accounted = v.accounted;
  }

  run-IsSteady : (c : Client) (es : List (Event D)) → IsSteady c → Steadied (run aead codec c es)
  unfolding run
  run-IsSteady c [] v = v
  run-IsSteady c (e ∷ es) v = run-IsSteady (step aead codec c e).1 es (step-IsSteady c e v)

  -- After any events on a client that has connected and started its keepalive, with a base interval
  -- that is positive and at most the greatest one, and a positive limit of failures: the partition is
  -- declared exactly if the failures have reached the limit; a probe that is due is due in at least
  -- the base interval and at most the greatest one, with no answer waited for; and of the frames that
  -- were held back each has been flushed or is still held, by their counts.
  pub run-start-IsSteady :
      (base max limit : ℕ) (ch : Channel) (es : List (Event D))
      → 0 < base
      → base ≤ max
      → 0 < limit
      → IsSteady (run aead codec (start base max limit ch) es).1
  unfolding start
  run-start-IsSteady base max limit ch es h k l =
      run-IsSteady (start base max limit ch) es (record {
        options = (h, k, l);
        declared = ground (arith, l);
        interval = λ t g. ground (arith, g, h, k, l);
        accounted = refl;
      })
