-- ===== src/HttpGateway/Sessions.antt =====
-- gateway.js: who has a session, and how many have, over any run of requests.
use agent_mobile.Common.{
  ℕ, ◌≡◌, refl, subst, Bool, Option, none, some, List, [], ◌∷◌, if◌then◌else◌, lookup, insert,
  lookup-nil, arith, if-cases, Option-match,
}
use agent_mobile.Channel.{Bytes, Aead, Channel, Frame, send, recv_bytes}
use agent_mobile.Channel.Keys.{
  SameKeys, SameKeys-refl, SameKeys-trans, send-SameKeys, recv_bytes-SameKeys,
}
use agent_mobile.Channel.Fresh.{Sent-match}
use agent_mobile.Handshake.Base.{Text, KeyPair, Crypto, Result, ok, err, Hello, Confirm, Accepted}
use agent_mobile.Handshake.{server_handshake, verify_confirm, identity_id}
use agent_mobile.HttpGateway.Agent.{agent_reply}
use agent_mobile.HttpGateway.{
  text_eq, Session, Sessions, Method, get, post, other_method, Route, pair_path, hello_path,
  confirm_path, msg_path, other_path, Parsed, unreadable, null, parsed, Request, Content, Response,
  Json, session_or_new, is_full, on_hello, on_confirm, answer, on_frame, on_msg, with_session,
  on_body, on_null, on_post, on_request, run, handshake_error, too_many_sessions, replied,
}
use agent_mobile.HttpGateway.Owned.{Asked, IsSound, insert-IsSound, or_new-Owned, fits, known_fits}

module _ (crypto : Crypto) (aead : Aead) (json : Json) (identity : KeyPair)
    (allow : Option (Bytes → Text → Bool)) where
  abbrev Sound : Response → Type 0
  Sound r = IsSound crypto identity allow r.1

  on_hello-IsSound :
      (m : Sessions) (hello : Hello) (eph : KeyPair)
      → IsSound crypto identity allow m
      → Sound (on_hello crypto aead json identity allow m hello eph)
  unfolding on_hello
  on_hello-IsSound m hello eph v = go (server_handshake crypto identity hello allow eph) refl
    where
      go :
          (r : Result Accepted)
          → server_handshake crypto identity hello allow eph ≡ r
          → Sound (elim r [
            | err e ↦ ((403, handshake_error e), m)
            | ok hs ↦ if is_full hs.client_id m then ((503, too_many_sessions), m) else (
              (200, replied hs.reply),
              insert hs.client_id
                  (record (session_or_new (lookup hs.client_id m)) {
                    pending =
                        some
                          (record { channel = hs.channel; expected_confirm = hs.expected_confirm });
                  })
                  m,
            )
          ])
      go (err e) h = v
      go (ok hs) h =
          if-cases Sound (is_full hs.client_id m) _ _ (λ _. v)
            (λ room.
              insert-IsSound crypto identity allow hs.client_id _ m
                (record {
                  waits = λ p k.
                      subst (Asked crypto identity allow hs.client_id) (ground (arith, k)) (record {
                        hello = hello;
                        eph = eph;
                        done = hs;
                        accepted = h;
                        client = refl;
                        channel = refl;
                        expected = refl;
                      });
                  live = (or_new-Owned crypto identity allow hs.client_id m v).live;
                })
                (fits crypto identity allow hs.client_id _ m room v.few) v)

  on_confirm-IsSound :
      (m : Sessions) (k : Text) (s : Session) (msg : Confirm)
      → lookup k m ≡ some s
      → IsSound crypto identity allow m
      → Sound (on_confirm crypto aead json identity allow m k s msg)
  unfolding on_confirm
  on_confirm-IsSound m k s msg e v =
      Option-match Sound s.pending _ _ (λ _. v)
        (λ p w.
          if-cases Sound (verify_confirm crypto p.expected_confirm msg) _ _
            (λ h.
              insert-IsSound crypto identity allow k _ m
                (record {
                  waits = λ q j. absurd (cc);
                  live = λ ch j. record {
                    pending = p;
                    asked = (v.owned k s e).waits p w;
                    confirm = msg;
                    verified = h;
                    keys = subst (SameKeys p.channel) (ground (arith, j)) (SameKeys-refl p.channel);
                  };
                })
                (known_fits crypto identity allow k _ s m e v) v)
            (λ _. v))

  pub answer-SameKeys :
      (ch : Channel) (pt : Bytes) → SameKeys ch (answer crypto aead json identity allow ch pt).1
  unfolding answer
  answer-SameKeys ch pt =
      Option-match (λ (r : (ℕ × Content) × Channel). SameKeys ch r.1) (agent_reply (json.read pt)) _
        _ (λ _. SameKeys-refl ch)
        (λ r _.
          Sent-match (λ (r : (ℕ × Content) × Channel). SameKeys ch r.1)
            (send aead ch (json.write r) 0 0) _ _
            (λ ch' f h. send-SameKeys aead ch (json.write r) 0 0 h) (SameKeys-refl ch))

  -- A session whose channel has moved on.
  moved :
      (m : Sessions) (k : Text) (s : Session) (ch ch' : Channel)
      → lookup k m ≡ some s
      → s.channel ≡ some ch
      → SameKeys ch ch'
      → IsSound crypto identity allow m
      → IsSound crypto identity allow (insert k (record s { channel = some ch' }) m)
  moved m k s ch ch' e c w v =
      let o = v.owned k s e in
      insert-IsSound crypto identity allow k _ m
        (record {
          waits = o.waits;
          live = λ d h.
              let l = o.live ch c in
              record {
                pending = l.pending;
                asked = l.asked;
                confirm = l.confirm;
                verified = l.verified;
                keys =
                    subst (SameKeys l.pending.channel) (ground (arith, h))
                      (SameKeys-trans l.keys w);
              };
        })
        (known_fits crypto identity allow k _ s m e v) v

  on_msg-IsSound :
      (m : Sessions) (k : Text) (s : Session) (frame : Option Frame)
      → lookup k m ≡ some s
      → IsSound crypto identity allow m
      → Sound (on_msg crypto aead json identity allow m k s frame)
  unfolding on_msg on_frame
  on_msg-IsSound m k s frame e v =
      Option-match Sound s.channel _ _ (λ _. v)
        (λ ch c.
          Option-match Sound frame _ _ (λ _. v)
            (λ f _.
              let w = recv_bytes-SameKeys aead ch f in
              Option-match Sound (recv_bytes aead ch f).0 _ _ (λ _. moved m k s ch _ e c w v)
                (λ pt _.
                  moved m k s ch _ e c
                    (SameKeys-trans w (answer-SameKeys (recv_bytes aead ch f).1 pt)) v)))

  with_session-IsSound :
      (m : Sessions) (id : Option Text) (k : Text → Session → Response)
      → ((t : Text) (s : Session) → lookup t m ≡ some s → Sound (k t s))
      → IsSound crypto identity allow m
      → Sound (with_session crypto aead json identity allow m id k)
  unfolding with_session
  with_session-IsSound m none k f v = v
  with_session-IsSound m (some t) k f v = Option-match Sound (lookup t m) _ _ (λ _. v) (f t)

  on_post-IsSound :
      (m : Sessions) (path : Route) (body : Parsed) (eph : KeyPair)
      → IsSound crypto identity allow m
      → Sound (on_post crypto aead json identity allow m path body eph)
  unfolding on_post on_null on_body
  on_post-IsSound m path unreadable eph v = v
  on_post-IsSound m hello_path null eph v = v
  on_post-IsSound m confirm_path null eph v = v
  on_post-IsSound m msg_path null eph v = v
  on_post-IsSound m pair_path null eph v = v
  on_post-IsSound m other_path null eph v = v
  on_post-IsSound m hello_path (parsed b) eph v = on_hello-IsSound m b.hello eph v
  on_post-IsSound m confirm_path (parsed b) eph v =
      with_session-IsSound m b.client_id _ (λ t s e. on_confirm-IsSound m t s b.confirm e v) v
  on_post-IsSound m msg_path (parsed b) eph v =
      with_session-IsSound m b.client_id _ (λ t s e. on_msg-IsSound m t s b.frame e v) v
  on_post-IsSound m pair_path (parsed b) eph v = v
  on_post-IsSound m other_path (parsed b) eph v = v

  on_request-IsSound :
      (m : Sessions) (req : Request) (eph : KeyPair)
      → IsSound crypto identity allow m
      → Sound (on_request crypto aead json identity allow m req eph)
  unfolding on_request
  on_request-IsSound m req eph v = go req.method req.path
    where
      go :
          (t : Method) (p : Route)
          → Sound (elim t [
            | post ↦ on_post crypto aead json identity allow m req.path req.body eph
            | get ↦ elim p [
              | pair_path ↦ (
                (200, Content.paired (identity_id crypto identity.public_key) identity.public_key),
                m,
              )
              | _ ↦ ((405, Content.method), m)
            ]
            | other_method ↦ ((405, Content.method), m)
          ])
      go post p = on_post-IsSound m req.path req.body eph v
      go get pair_path = v
      go get hello_path = v
      go get confirm_path = v
      go get msg_path = v
      go get other_path = v
      go other_method p = v

  run-IsSound :
      (reqs : List (Request × KeyPair)) (m : Sessions)
      → IsSound crypto identity allow m
      → IsSound crypto identity allow (run crypto aead json identity allow m reqs).1
  unfolding run
  run-IsSound [] m v = v
  run-IsSound ((req, eph) ∷ reqs) m v =
      run-IsSound reqs (on_request crypto aead json identity allow m req eph).1
        (on_request-IsSound m req eph v)

  -- After any requests: each client has one session and at most `MAX_SESSIONS` have one; what waits
  -- in a session is of a handshake that was accepted from the very client it is named by, and a channel
  -- in use is of such a handshake, was confirmed with the MAC that the handshake expects, and has
  -- the keys of that handshake.
  pub run-nil-IsSound :
      (reqs : List (Request × KeyPair))
      → IsSound crypto identity allow (run crypto aead json identity allow [] reqs).1
  run-nil-IsSound reqs =
      run-IsSound reqs []
        (record { map = tt; few = omega arith; owned = λ k s h. absurd (lookup-nil k h) })
