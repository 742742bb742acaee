-- ===== src/HttpGateway/Rounds.antt =====
-- gateway.js: a client that has a session gets the agent's replies, round after round.
use agent_mobile.Common.{
  ℕ, suc, ◌+◌, ◌≤◌, ◌<◌, ◌≡◌, refl, sym, subst, ap, Bool, Option, none, some, List, [], ◌∷◌, lookup,
  insert, length, get_or, set, arith, get_elem?-lt, lookup-insert_self, get_or-set_self, map,
  Option-cases, inl, inr,
}
use agent_mobile.Replay.{mark}
use agent_mobile.Channel.{Bytes, Aead, Channel, Frame, max_counter, recv_bytes, send, sent}
use agent_mobile.Channel.Delivery.{Synced, Synced-next, send_lem, recv_sent, after_send}
use agent_mobile.Handshake.Base.{Text, KeyPair, Crypto}
use agent_mobile.HttpGateway.{
  text_eq, Session, Sessions, Json, on_request, on_post, on_body, with_session, on_msg, on_frame,
  answer, sealed, thrown, msg_path,
}
use agent_mobile.HttpGateway.Limit.{Fits, whole_request, posted-Fits}
use agent_mobile.HttpGateway.Agent.{AgentReply, agent_reply}
use agent_mobile.HttpGateway.Clients.{
  HttpClient, Reached, reached, roundtrip, open_reply, msg_request, msg_body, rounds, gateway_error,
}

module _ (crypto : Crypto) (aead : Aead) (json : Json) (identity : KeyPair)
    (allow : Option (Bytes → Text → Bool)) where
  -- The client and its session have channels in step, with room for `n` rounds.
  pub record Linked (o : HttpClient) (m : Sessions) (n : ℕ) : Type 0 where
    pub session : Session
    pub ch : Channel
    pub there : lookup o.client_id m ≡ some session
    pub live : session.channel ≡ some ch
    pub up : Synced o.channel ch
    pub down : Synced ch o.channel
    pub room_up : get_or o.channel.tx 0 0 + n ≤ max_counter
    pub room_down : get_or ch.tx 0 0 + n ≤ max_counter

  -- The frame of a payload, however it is sealed, fits into a body; and so for some payloads.
  abbrev pub FrameFits : Text → Bytes → Type 0
  FrameFits id p =
      (ch ch' : Channel) (f : Frame)
      → send aead ch p 0 0 ≡ sent ch' f
      → Fits json msg_path (msg_body id f)

  abbrev pub AllFit : Text → List Bytes → Type 0
  AllFit id [] = Unit {0}
  AllFit id (p ∷ ps) = FrameFits id p × AllFit id ps

  -- Such a frame reaches the handler whole.
  whole_frame :
      (id : Text) (ch ch' : Channel) (f : Frame) (p : Bytes)
      → FrameFits id p
      → send aead ch p 0 0 ≡ sent ch' f
      → msg_request json id f ≡ whole_request msg_path (msg_body id f)
  whole_frame id ch ch' f p h e = posted-Fits json msg_path (msg_body id f) (h ch ch' f e)

  gateway_answers :
      (m : Sessions) (id : Text) (s : Session) (ch ch1 ch2 : Channel) (f f' : Frame) (pt : Bytes)
      (r : AgentReply) (eph : KeyPair)
      → lookup id m ≡ some s
      → s.channel ≡ some ch
      → recv_bytes aead ch f ≡ (some pt, ch1)
      → agent_reply (json.read pt) ≡ some r
      → send aead ch1 (json.write r) 0 0 ≡ sent ch2 f'
      → on_request crypto aead json identity allow m (whole_request msg_path (msg_body id f)) eph
        ≡ ((200, sealed f'), insert id (record s { channel = some ch2 }) m)
  unfolding on_request on_post on_body with_session on_msg on_frame answer
  gateway_answers m id s ch ch1 ch2 f f' pt r eph e1 e2 e3 e4 e5 =
      ground (arith, e1, e2, e3, e4, e5)

  roundtrip_reaches :
      (o : HttpClient) (m m' : Sessions) (c1 c2 : Channel) (f f' : Frame) (pt pt' : Bytes)
      (eph : KeyPair)
      → send aead o.channel pt 0 0 ≡ sent c1 f
      → on_request crypto aead json identity allow m (msg_request json o.client_id f) eph
        ≡ ((200, sealed f'), m')
      → recv_bytes aead c1 f' ≡ (some pt', c2)
      → roundtrip crypto aead json identity allow o pt m eph
        ≡ (reached pt', record o { channel = c2 }, m')
  unfolding roundtrip open_reply
  roundtrip_reaches o m m' c1 c2 f f' pt pt' eph e1 e2 e3 = ground (arith, e1, e2, e3)

  -- One round: the reply is the agent's, and the two sides are in step again.
  round_lem :
      (o : HttpClient) (m : Sessions) (n : ℕ) (pt : Bytes) (r : AgentReply) (eph : KeyPair)
      → Linked o m (suc n)
      → FrameFits o.client_id pt
      → agent_reply (json.read pt) ≡ some r
      → (o' : HttpClient) × (m' : Sessions) × (roundtrip crypto aead json identity allow o pt m eph
          ≡ (reached (json.write r), o', m'))
        × (o'.client_id ≡ o.client_id)
        × Linked o' m' n
  round_lem o m n pt r eph l fit e =
      let a = o.channel in
      let b = l.ch in
      let (w, g) = get_elem?-lt b.rx 0 (omega (arith, l.up.windows)) in
      let (w', g') = get_elem?-lt a.rx 0 (omega (arith, l.down.windows)) in
      let a1 = after_send aead a 0 in
      let b1 : Channel = record b { rx = set b.rx 0 (mark w (get_or a.tx 0 0)) } in
      let b2 = after_send aead b1 0 in
      let a2 : Channel = record a1 { rx = set a.rx 0 (mark w' (get_or b.tx 0 0)) } in
      let up1 = Synced-next aead a b 0 w l.up (omega arith) g in
      let down1 : Synced b1 a1 = record {
        keys = l.down.keys;
        counters = l.down.counters;
        windows = l.down.windows;
        behind = l.down.behind;
      } in
      let down2 = Synced-next aead b1 a1 0 w' down1 (omega arith) g' in
      let small_a : get_or a.tx 0 0 < max_counter = omega (arith, l.room_up) in
      let small_b : get_or b.tx 0 0 < max_counter = omega (arith, l.room_down) in
      let sending = send_lem aead a pt 0 0 (omega arith) small_a in
      (
        record o { channel = a2 },
        insert o.client_id (record l.session { channel = some b2 }) m,
        roundtrip_reaches o m _ a1 a2 _ _ pt (json.write r) eph sending
            (rw (whole_frame o.client_id a a1 _ pt fit sending) (
              gateway_answers m o.client_id l.session b b1 b2 _ _ pt r eph l.there l.live
                (recv_sent aead a b pt 0 0 w l.up (omega arith) small_a g) e
                (send_lem aead b1 (json.write r) 0 0 (omega arith) small_b)))
            (recv_sent aead b1 a1 (json.write r) 0 0 w' down1 (omega arith) small_b g'),
        refl,
        record {
          session = record l.session { channel = some b2 };
          ch = b2;
          there = lookup-insert_self o.client_id _ m;
          live = refl;
          up = record {
            keys = up1.keys;
            counters = up1.counters;
            windows = up1.windows;
            behind = up1.behind;
          };
          down = down2;
          room_up = omega (
            arith,
            l.room_up,
            get_or-set_self a.tx 0 (get_or a.tx 0 0 + 1) 0 (omega (arith, l.up.counters)),
          );
          room_down = omega (
            arith,
            l.room_down,
            get_or-set_self b.tx 0 (get_or b.tx 0 0 + 1) 0 (omega (arith, l.down.counters)),
          );
        },
      )

  -- What a payload should come back as: the agent's reply, or the error of a payload that it throws on.
  abbrev pub reply_to : Bytes → Reached Bytes
  reply_to p = elim (agent_reply (json.read p)) [
    | none ↦ Reached.failed (gateway_error thrown)
    | some r ↦ reached (json.write r)
  ]

  reply_none :
      (p : Bytes)
      → agent_reply (json.read p) ≡ none
      → reply_to p ≡ Reached.failed (gateway_error thrown)
  reply_none p e = ground (arith, e)

  reply_some :
      (p : Bytes) (r : AgentReply)
      → agent_reply (json.read p) ≡ some r
      → reply_to p ≡ reached (json.write r)
  reply_some p r e = ground (arith, e)

  gateway_throws :
      (m : Sessions) (id : Text) (s : Session) (ch ch1 : Channel) (f : Frame) (pt : Bytes)
      (eph : KeyPair)
      → lookup id m ≡ some s
      → s.channel ≡ some ch
      → recv_bytes aead ch f ≡ (some pt, ch1)
      → agent_reply (json.read pt) ≡ none
      → on_request crypto aead json identity allow m (whole_request msg_path (msg_body id f)) eph
        ≡ ((500, thrown), insert id (record s { channel = some ch1 }) m)
  unfolding on_request on_post on_body with_session on_msg on_frame answer
  gateway_throws m id s ch ch1 f pt eph e1 e2 e3 e4 = ground (arith, e1, e2, e3, e4)

  roundtrip_fails :
      (o : HttpClient) (m m' : Sessions) (c1 : Channel) (f : Frame) (pt : Bytes) (eph : KeyPair)
      → send aead o.channel pt 0 0 ≡ sent c1 f
      → on_request crypto aead json identity allow m (msg_request json o.client_id f) eph
        ≡ ((500, thrown), m')
      → roundtrip crypto aead json identity allow o pt m eph
        ≡ (Reached.failed (gateway_error thrown), record o { channel = c1 }, m')
  unfolding roundtrip open_reply
  roundtrip_fails o m m' c1 f pt eph e1 e2 = ground (arith, e1, e2)

  -- A round whose payload the agent throws on leaves the two sides in step, too.
  thrown_round :
      (o : HttpClient) (m : Sessions) (n : ℕ) (pt : Bytes) (eph : KeyPair)
      → Linked o m (suc n)
      → FrameFits o.client_id pt
      → agent_reply (json.read pt) ≡ none
      → (o' : HttpClient) × (m' : Sessions) × (roundtrip crypto aead json identity allow o pt m eph
          ≡ (Reached.failed (gateway_error thrown), o', m'))
        × (o'.client_id ≡ o.client_id)
        × Linked o' m' n
  thrown_round o m n pt eph l fit e =
      let a = o.channel in
      let b = l.ch in
      let (w, g) = get_elem?-lt b.rx 0 (omega (arith, l.up.windows)) in
      let a1 = after_send aead a 0 in
      let b1 : Channel = record b { rx = set b.rx 0 (mark w (get_or a.tx 0 0)) } in
      let small : get_or a.tx 0 0 < max_counter = omega (arith, l.room_up) in
      let sending = send_lem aead a pt 0 0 (omega arith) small in
      (
        record o { channel = a1 },
        insert o.client_id (record l.session { channel = some b1 }) m,
        roundtrip_fails o m _ a1 _ pt eph sending (
            rw (whole_frame o.client_id a a1 _ pt fit sending) (
              gateway_throws m o.client_id l.session b b1 _ pt eph l.there l.live
                (recv_sent aead a b pt 0 0 w l.up (omega arith) small g) e)),
        refl,
        record {
          session = record l.session { channel = some b1 };
          ch = b1;
          there = lookup-insert_self o.client_id _ m;
          live = refl;
          up = Synced-next aead a b 0 w l.up (omega arith) g;
          down = record {
            keys = l.down.keys;
            counters = l.down.counters;
            windows = l.down.windows;
            behind = l.down.behind;
          };
          room_up = omega (
            arith,
            l.room_up,
            get_or-set_self a.tx 0 (get_or a.tx 0 0 + 1) 0 (omega (arith, l.up.counters)),
          );
          room_down = omega (arith, l.room_down);
        },
      )

  -- Between a client and a session in step, every payload that fits comes back as it should.
  pub rounds_lem :
      (ps : List Bytes) (o : HttpClient) (m : Sessions) (eph : KeyPair)
      → Linked o m (length ps)
      → AllFit o.client_id ps
      → rounds crypto aead json identity allow o ps m eph ≡ map reply_to ps
  unfolding rounds
  rounds_lem [] o m eph l fit = refl
  rounds_lem (p ∷ ps) o m eph l (fit, fits) = elim (Option-cases (agent_reply (json.read p))) [
    | inl e ↦
        let (o', m', q, same, l') = thrown_round o m (length ps) p eph l fit e in
        rw (q, rounds_lem ps o' m' eph l' (subst (λ i. AllFit i ps) (sym same) fits))
          (ap (λ x. x ∷ map reply_to ps) (sym (reply_none p e)))
    | inr (r, e) ↦
        let (o', m', q, same, l') = round_lem o m (length ps) p r eph l fit e in
        rw (q, rounds_lem ps o' m' eph l' (subst (λ i. AllFit i ps) (sym same) fits))
          (ap (λ x. x ∷ map reply_to ps) (sym (reply_some p r e)))
  ]
