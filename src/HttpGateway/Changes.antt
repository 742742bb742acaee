-- ===== src/HttpGateway/Changes.antt =====
-- gateway.js: what one request may do to the sessions, as a relation.
use agent_mobile.Common.{
  ◌≡◌, refl, Bool, true, false, Option, none, some, if◌then◌else◌, lookup, insert, if-cases,
  Option-match,
}
use agent_mobile.Channel.{Bytes, Aead, Channel, Frame, recv_bytes}
use agent_mobile.Channel.Keys.{SameKeys, SameKeys-trans, recv_bytes-SameKeys}
use agent_mobile.Handshake.Base.{Text, KeyPair, Crypto, Result, ok, err, Accepted}
use agent_mobile.Handshake.{server_handshake, verify_confirm, identity_id}
use agent_mobile.HttpGateway.{
  text_eq, Pending, Session, Sessions, Method, get, post, other_method, Route, pair_path,
  hello_path, confirm_path, msg_path, other_path, Body, Parsed, unreadable, null, parsed, Request,
  Content, Response, Json, session_or_new, is_full, on_hello, on_confirm, on_frame, on_msg,
  with_session, on_body, on_null, on_post, on_request, handshake_error, too_many_sessions, replied,
}
use agent_mobile.HttpGateway.Sessions.{answer-SameKeys}

-- The sessions stay, a handshake waits under a name for which there is room and takes the place of no
-- channel, the handshake that waits is confirmed by name and takes over, or the channel in use
-- moves on under its keys.
pub data Changes (crypto : Crypto) (m : Sessions) (path : Route) (body : Parsed) (m' : Sessions)
    : Type 0 where
  stays : m' ≡ m → Changes crypto m path body m'
  greets :
      (k : Text) (p : Pending)
      → path ≡ hello_path
      → is_full k m ≡ false
      → m' ≡ insert k (record (session_or_new (lookup k m)) { pending = some p }) m
      → Changes crypto m path body m'
  confirms :
      (k : Text) (s : Session) (p : Pending) (b : Body)
      → path ≡ confirm_path
      → body ≡ parsed b
      → b.client_id ≡ some k
      → lookup k m ≡ some s
      → s.pending ≡ some p
      → verify_confirm crypto p.expected_confirm b.confirm ≡ true
      → m' ≡ insert k (record { pending = none; channel = some p.channel }) m
      → Changes crypto m path body m'
  moves :
      (k : Text) (s : Session) (ch ch' : Channel)
      → path ≡ msg_path
      → lookup k m ≡ some s
      → s.channel ≡ some ch
      → SameKeys ch ch'
      → m' ≡ insert k (record s { channel = some ch' }) m
      → Changes crypto m path body m'

module _ (crypto : Crypto) (aead : Aead) (json : Json) (identity : KeyPair)
    (allow : Option (Bytes → Text → Bool)) where
  on_hello-Changes :
      (m : Sessions) (b : Body) (eph : KeyPair)
      → Changes crypto m hello_path
          (parsed b)
          (on_hello crypto aead json identity allow m b.hello eph).1
  unfolding on_hello
  on_hello-Changes m b eph = go (server_handshake crypto identity b.hello allow eph)
    where
      Does : Response → Type 0
      Does r = Changes crypto m hello_path (parsed b) r.1

      go :
          (r : Result Accepted)
          → Does (elim r [
            | err e ↦ ((403, handshake_error e), m)
            | ok hs ↦ if is_full hs.client_id m then ((503, too_many_sessions), m) else (
              (200, replied hs.reply),
              insert hs.client_id
                  (record (session_or_new (lookup hs.client_id m)) {
                    pending =
                        some
                          (record { channel = hs.channel; expected_confirm = hs.expected_confirm });
                  })
                  m,
            )
          ])
      go (err e) = stays refl
      go (ok hs) =
          if-cases Does (is_full hs.client_id m) _ _ (λ _. stays refl)
            (λ room. greets hs.client_id _ refl room refl)

  on_confirm-Changes :
      (m : Sessions) (k : Text) (s : Session) (b : Body)
      → b.client_id ≡ some k
      → lookup k m ≡ some s
      → Changes crypto m confirm_path
          (parsed b)
          (on_confirm crypto aead json identity allow m k s b.confirm).1
  unfolding on_confirm
  on_confirm-Changes m k s b c e =
      Option-match (λ (r : Response). Changes crypto m confirm_path (parsed b) r.1) s.pending _ _
        (λ _. stays refl)
        (λ p w.
          if-cases (λ (r : Response). Changes crypto m confirm_path (parsed b) r.1)
            (verify_confirm crypto p.expected_confirm b.confirm) _ _
            (λ h. confirms k s p b refl refl c e w h refl) (λ _. stays refl))

  on_msg-Changes :
      (m : Sessions) (k : Text) (s : Session) (body : Parsed) (frame : Option Frame)
      → lookup k m ≡ some s
      → Changes crypto m msg_path body (on_msg crypto aead json identity allow m k s frame).1
  unfolding on_msg on_frame
  on_msg-Changes m k s body frame e =
      Option-match (λ (r : Response). Changes crypto m msg_path body r.1) s.channel _ _
        (λ _. stays refl)
        (λ ch c.
          Option-match (λ (r : Response). Changes crypto m msg_path body r.1) frame _ _
            (λ _. stays refl)
            (λ f _.
              let w = recv_bytes-SameKeys aead ch f in
              Option-match (λ (r : Response). Changes crypto m msg_path body r.1)
                (recv_bytes aead ch f).0 _ _ (λ _. moves k s ch _ refl e c w refl)
                (λ pt _.
                  moves k s ch _ refl e c
                    (SameKeys-trans w
                      (answer-SameKeys crypto aead json identity allow (recv_bytes aead ch f).1 pt))
                    refl)))

  with_session-Changes :
      (m : Sessions) (path : Route) (body : Parsed) (id : Option Text)
      (f : Text → Session → Response)
      → ((k : Text) (s : Session)
          → id ≡ some k
          → lookup k m ≡ some s
          → Changes crypto m path body (f k s).1)
      → Changes crypto m path body (with_session crypto aead json identity allow m id f).1
  unfolding with_session
  with_session-Changes m path body none f h = stays refl
  with_session-Changes m path body (some k) f h =
      Option-match (λ (r : Response). Changes crypto m path body r.1) (lookup k m) _ _
        (λ _. stays refl) (λ s e. h k s refl e)

  on_post-Changes :
      (m : Sessions) (path : Route) (body : Parsed) (eph : KeyPair)
      → Changes crypto m path body (on_post crypto aead json identity allow m path body eph).1
  unfolding on_post on_null on_body
  on_post-Changes m path unreadable eph = stays refl
  on_post-Changes m hello_path null eph = stays refl
  on_post-Changes m confirm_path null eph = stays refl
  on_post-Changes m msg_path null eph = stays refl
  on_post-Changes m pair_path null eph = stays refl
  on_post-Changes m other_path null eph = stays refl
  on_post-Changes m hello_path (parsed b) eph = on_hello-Changes m b eph
  on_post-Changes m confirm_path (parsed b) eph =
      with_session-Changes m confirm_path (parsed b) b.client_id _
        (λ k s c e. on_confirm-Changes m k s b c e)
  on_post-Changes m msg_path (parsed b) eph =
      with_session-Changes m msg_path (parsed b) b.client_id _
        (λ k s c e. on_msg-Changes m k s (parsed b) b.frame e)
  on_post-Changes m pair_path (parsed b) eph = stays refl
  on_post-Changes m other_path (parsed b) eph = stays refl

  -- Every request, whatever its method, path and body, does one of these to the sessions.
  pub on_request-Changes :
      (m : Sessions) (req : Request) (eph : KeyPair)
      → Changes crypto m req.path req.body (on_request crypto aead json identity allow m req eph).1
  unfolding on_request
  on_request-Changes m req eph = go req.method req.path
    where
      Does : Response → Type 0
      Does r = Changes crypto m req.path req.body r.1

      go :
          (t : Method) (p : Route)
          → Does (elim t [
            | post ↦ on_post crypto aead json identity allow m req.path req.body eph
            | get ↦ elim p [
              | pair_path ↦ (
                (200, Content.paired (identity_id crypto identity.public_key) identity.public_key),
                m,
              )
              | _ ↦ ((405, Content.method), m)
            ]
            | other_method ↦ ((405, Content.method), m)
          ])
      go post p = on_post-Changes m req.path req.body eph
      go get pair_path = stays refl
      go get hello_path = stays refl
      go get confirm_path = stays refl
      go get msg_path = stays refl
      go get other_path = stays refl
      go other_method p = stays refl
