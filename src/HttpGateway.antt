-- ===== src/HttpGateway.antt =====
-- gateway.js: the gateway over HTTP, with its table of sessions.
--
-- HTTP and JSON are outside: a request brings what its parts are read as, `Json` what the plaintexts
-- are, and a response is its status with what its body says. The key pair that `serverHandshake`
-- makes comes with the request. What a handler throws becomes a 500, with what it changed before.
pub mod Agent
pub mod Owned
pub mod Sessions
pub mod Changes
pub mod Takeover
pub mod Clients
pub mod Rounds
pub mod Served
pub mod Limit
mod Tests
use agent_mobile.Common.{
  Eq, ℕ, Bool, true, false, Option, none, some, List, [], ◌∷◌, leb, if◌then◌else◌, length, lookup,
  subst, ◌≡◌, insert,
}
use agent_mobile.Channel.{Bytes, Aead, Channel, Frame, sent, refused, send, recv_bytes}
use agent_mobile.Handshake.Base.{
  Text, KeyPair, Crypto, Failure, ok, err, equal_bytes, Hello, Reply, Confirm, Accepted,
}
use agent_mobile.Handshake.{server_handshake, verify_confirm, identity_id}
use agent_mobile.Handshake.Agreement.{equal_bytes_self, equal_bytes_sound}
use agent_mobile.HttpGateway.Agent.{AgentMessage, AgentReply, agent_reply}

abbrev pub max_sessions : ℕ
max_sessions = 64

instance abbrev pub text_eq : Eq Text
text_eq = record {
  beq = equal_bytes;
  beq_iff = λ a b.
      (equal_bytes_sound a b, λ h. subst (λ x. equal_bytes a x ≡ true) h (equal_bytes_self a));
}

-- The value of `sessions`: a handshake that waits for its confirmation, and the channel in use.
pub record Pending : Type 0 where
  pub channel : Channel
  pub expected_confirm : Bytes

pub record Session : Type 0 where
  pub pending : Option Pending
  pub channel : Option Channel

abbrev pub Sessions : Type 0
Sessions = List (Text × Session)

pub data Method : Type 0 where
  get post other_method : Method

pub data Route : Type 0 where
  pair_path hello_path confirm_path msg_path other_path : Route

-- A body that is no null, as each handler reads it; a frame that `db64` throws of is none.
pub record Body : Type 0 where
  pub client_id : Option Text
  pub hello : Hello
  pub confirm : Confirm
  pub frame : Option Frame

-- What `JSON.parse(await readBody(req))` makes of the body.
pub data Parsed : Type 0 where
  unreadable null : Parsed
  parsed : Body → Parsed

pub record Request : Type 0 where
  pub path : Route
  pub method : Method
  pub body : Parsed

pub data Content : Type 0 where
  paired : Text → Bytes → Content
  replied : Reply → Content
  confirmed : Content
  sealed : Frame → Content
  handshake_error : Failure → Content
  method too_many_sessions no_session bad_confirm auth_failed not_found thrown : Content

-- The status, the body, and the sessions afterwards.
abbrev pub Response : Type 0
Response = (ℕ × Content) × Sessions

-- `JSON.parse` of a plaintext, `JSON.stringify` of a reply, the chunks in which the JSON of a body
-- that a client posts arrives, and the text of a chunk
pub record Json : Type 0 where
  pub read : Bytes → AgentMessage
  pub write : AgentReply → Bytes
  pub chunks : Route → Body → List Bytes
  pub to_string : Bytes → Text

abbrev pub new_session : Session
new_session = record { pending = none; channel = none }

-- `sessions.get(id) || { pending: null, channel: null }`
abbrev pub session_or_new : Option Session → Session
session_or_new none = new_session
session_or_new (some s) = s

-- `!sessions.has(id) && sessions.size >= MAX_SESSIONS`
unfoldable pub is_full : Text → Sessions → Bool
is_full id m = elim (lookup id m) [ some _ ↦ false | none ↦ leb max_sessions (length m) ]

module _ (crypto : Crypto) (aead : Aead) (json : Json) (identity : KeyPair)
    (allow : Option (Bytes → Text → Bool)) where
  -- POST /hello
  unfoldable pub on_hello : Sessions → Hello → KeyPair → Response
  on_hello m hello eph = elim (server_handshake crypto identity hello allow eph) [
    | err e ↦ ((403, handshake_error e), m)
    | ok hs ↦ if is_full hs.client_id m then ((503, too_many_sessions), m) else (
      (200, replied hs.reply),
      insert hs.client_id
          (record (session_or_new (lookup hs.client_id m)) {
            pending =
                some (record { channel = hs.channel; expected_confirm = hs.expected_confirm });
          })
          m,
    )
  ]

  -- POST /confirm, for the client that the body names
  unfoldable pub on_confirm : Sessions → Text → Session → Confirm → Response
  on_confirm m id s msg = elim s.pending [
    | none ↦ ((401, no_session), m)
    | some p ↦
        if verify_confirm crypto p.expected_confirm msg
        then ((200, confirmed), insert id (record { pending = none; channel = some p.channel }) m)
        else ((403, bad_confirm), m)
  ]

  -- The answer to a plaintext, and the channel afterwards.
  unfoldable pub answer : Channel → Bytes → (ℕ × Content) × Channel
  answer ch pt = elim (agent_reply (json.read pt)) [
    | none ↦ ((500, thrown), ch)
    | some r ↦ elim (send aead ch (json.write r) 0 0) [
      | refused e ↦ ((500, thrown), ch)
      | sent ch' f ↦ ((200, sealed f), ch')
    ]
  ]

  -- POST /msg, for a session with a channel: the channel moves on whatever comes of it
  unfoldable pub on_frame : Sessions → Text → Session → Channel → Frame → Response
  on_frame m id s ch f =
      let (r, ch') = recv_bytes aead ch f in
      elim r [
        | none ↦ ((403, auth_failed), insert id (record s { channel = some ch' }) m)
        | some pt ↦
            let (out, ch'') = answer ch' pt in (out, insert id (record s { channel = some ch'' }) m)
      ]

  unfoldable pub on_msg : Sessions → Text → Session → Option Frame → Response
  on_msg m id s frame = elim s.channel [
    | none ↦ ((401, no_session), m)
    | some ch ↦ elim frame [ none ↦ ((500, thrown), m) | some f ↦ on_frame m id s ch f ]
  ]

  -- A handler that looks the session of the body up first
  unfoldable pub with_session : Sessions → Option Text → (Text → Session → Response) → Response
  with_session m none k = ((401, no_session), m)
  with_session m (some id) k = elim (lookup id m) [
    | none ↦ ((401, no_session), m)
    | some s ↦ k id s
  ]

  unfoldable pub on_body : Sessions → Route → Body → KeyPair → Response
  on_body m hello_path b eph = on_hello m b.hello eph
  on_body m confirm_path b eph = with_session m b.client_id (λ id s. on_confirm m id s b.confirm)
  on_body m msg_path b eph = with_session m b.client_id (λ id s. on_msg m id s b.frame)
  on_body m pair_path b eph = ((404, not_found), m)
  on_body m other_path b eph = ((404, not_found), m)

  -- A body that is null has no version, and no fields
  unfoldable pub on_null : Sessions → Route → Response
  on_null m hello_path = ((403, handshake_error Failure.bad_version), m)
  on_null m confirm_path = ((500, thrown), m)
  on_null m msg_path = ((500, thrown), m)
  on_null m pair_path = ((404, not_found), m)
  on_null m other_path = ((404, not_found), m)

  unfoldable pub on_post : Sessions → Route → Parsed → KeyPair → Response
  on_post m path unreadable eph = ((500, thrown), m)
  on_post m path null eph = on_null m path
  on_post m path (parsed b) eph = on_body m path b eph

  -- The handler of the server
  unfoldable pub on_request : Sessions → Request → KeyPair → Response
  on_request m req eph = elim req.method [
    | post ↦ on_post m req.path req.body eph
    | get ↦ elim req.path [
      | pair_path ↦ ((200, paired (identity_id crypto identity.public_key) identity.public_key), m)
      | _ ↦ ((405, method), m)
    ]
    | other_method ↦ ((405, method), m)
  ]

  unfoldable pub run : Sessions → List (Request × KeyPair) → List (ℕ × Content) × Sessions
  run m [] = ([], m)
  run m ((req, eph) ∷ reqs) =
      let (out, m') = on_request m req eph in let (outs, m'') = run m' reqs in (out ∷ outs, m'')
