-- ===== src/HttpGateway/Clients.antt =====
-- gateway.js, `httpClientSession`: a client over HTTP, and the rounds that it makes.
--
-- The requests go to the gateway of this table, over a network that is faithful; each brings the key
-- pair that the gateway makes for it. What a body lacks is read as missing. The refusal of a body that
-- is too large also ends its connection, so that the `fetch` fails; here it is the gateway's error.
use agent_mobile.Common.{
  ℕ, Bool, true, false, Option, none, some, List, [], ◌∷◌, if◌then◌else◌, ◌++◌, ◌+◌, ◌*◌, length,
  ltb,
}
use agent_mobile.Channel.{Bytes, Aead, Channel, Frame, sent, refused, send, recv_bytes}
use agent_mobile.Handshake.Base.{
  Text, KeyPair, Crypto, Failure, ok, err, Hello, Confirm, Finished, Pin, none_pinned, text,
}
use agent_mobile.Handshake.{client_hello, client_finish}
use agent_mobile.HttpGateway.{
  Sessions, get, post, Route, pair_path, hello_path, confirm_path, msg_path, Body, null, parsed,
  Parsed, unreadable, Request, Content, paired, replied, confirmed, sealed, Response, Json,
  on_request,
}

-- What is thrown: the gateway's error, that of the handshake, and those of the channel.
pub data ClientError : Type 0 where
  gateway_error : Content → ClientError
  finish_failed : Failure → ClientError
  not_sent not_opened : ClientError

pub data Reached (A : Type 0) : Type 0 where
  failed : ClientError → Reached A
  reached : A → Reached A

-- What `httpClientSession` returns.
pub record HttpClient : Type 0 where
  pub channel : Channel
  pub client_id : Text
  pub agent_id : Text

abbrev pub pair_request : Request
pair_request = record { path = pair_path; method = get; body = null }

abbrev pub no_confirm : Option ℕ → Confirm
no_confirm v = record { v = v; confirm = none }

abbrev pub no_hello : Option ℕ → Text → Hello
no_hello v id = record { v = v; client_id = id; client_identity = none; client_eph = none }

abbrev pub max_body : ℕ
max_body = 256 * 1024

-- `readBody(req)`: the chunks as they come, with what there is of the text and of the count; more
-- than MAX_BODY bytes are refused. `decode` is the text of one chunk.
unfoldable pub read_body : (Bytes → Text) → List Bytes → Text → ℕ → Option Text
read_body decode [] d n = some d
read_body decode (c ∷ cs) d n =
    let rest = read_body decode cs (d ++ decode c) (n + length c) in
    if ltb max_body (n + length c) then none else rest

-- The objects that the client posts
abbrev pub hello_body : Hello → Body
hello_body h = record {
  client_id = some h.client_id;
  hello = h;
  confirm = no_confirm h.v;
  frame = none;
}

abbrev pub confirm_body : Text → Confirm → Body
confirm_body id k = record {
  client_id = some id;
  hello = no_hello k.v id;
  confirm = k;
  frame = none;
}

abbrev pub msg_body : Text → Frame → Body
msg_body id f = record {
  client_id = some id;
  hello = no_hello none id;
  confirm = no_confirm none;
  frame = some f;
}

-- What `readBody` and `JSON.parse` make of the object that a client posts: an error where it is too
-- large, and otherwise the object again.
abbrev pub read_as : Option Text → Body → Parsed
read_as none b = unreadable
read_as (some _) b = parsed b

-- `post(path, obj)`
unfoldable pub posted : Json → Route → Body → Request
posted json path b = record {
  path = path;
  method = post;
  body = read_as (read_body json.to_string (json.chunks path b) [] 0) b;
}

abbrev pub hello_request : Json → Hello → Request
hello_request json h = posted json hello_path (hello_body h)

abbrev pub confirm_request : Json → Text → Confirm → Request
confirm_request json id k = posted json confirm_path (confirm_body id k)

abbrev pub msg_request : Json → Text → Frame → Request
msg_request json id f = posted json msg_path (msg_body id f)

module _ (crypto : Crypto) (aead : Aead) (json : Json) (identity : KeyPair)
    (allow : Option (Bytes → Text → Bool)) where
  abbrev pub ask : Sessions → Request → KeyPair → Response
  ask = on_request crypto aead json identity allow

  -- `pin ? pair.agent_public : null`
  unfoldable pub pin_of : Bool → Content → Pin
  pin_of false _ = none_pinned
  pin_of true (paired id key) = text (crypto.encode key)
  pin_of true _ = none_pinned

  -- The confirmation, and what the session is once the gateway has taken it.
  unfoldable pub confirm_session :
      Sessions → Text → Finished → KeyPair → Reached HttpClient × Sessions
  confirm_session m id fin eph =
      let ((status, content), m') = ask m (confirm_request json id fin.confirm) eph in
      elim content [
        | confirmed ↦ (
          reached (record { channel = fin.channel; client_id = id; agent_id = fin.agent_id }),
          m',
        )
        | other ↦ (failed (gateway_error other), m')
      ]

  unfoldable pub finish_session :
      KeyPair → KeyPair → Pin → Content → Sessions → KeyPair → Reached HttpClient × Sessions
  finish_session me eph pin content m other =
      let hello = client_hello crypto me eph in
      elim content [
        | replied reply ↦ elim (client_finish crypto me eph hello reply pin) [
          | err e ↦ (failed (finish_failed e), m)
          | ok fin ↦ confirm_session m hello.client_id fin other
        ]
        | other ↦ (failed (gateway_error other), m)
      ]

  -- `httpClientSession(baseUrl, { identity, pin })`; the last three are the gateway's key pairs.
  unfoldable pub http_client_session :
      KeyPair
      → KeyPair
      → Bool
      → Sessions
      → KeyPair
      → KeyPair
      → KeyPair
      → Reached HttpClient × Sessions
  http_client_session me eph pin m e1 e2 e3 =
      let ((_, pair), m1) = ask m pair_request e1 in
      let ((_, reply), m2) = ask m1 (hello_request json (client_hello crypto me eph)) e2 in
      finish_session me eph (pin_of pin pair) reply m2 e3

  -- What a reply to a frame is opened as.
  unfoldable pub open_reply : HttpClient → Content → Reached Bytes × HttpClient
  open_reply o content = elim content [
    | sealed f ↦
        let (r, ch) = recv_bytes aead o.channel f in
        (elim r [ none ↦ failed not_opened | some pt ↦ reached pt ], record o { channel = ch })
    | other ↦ (failed (gateway_error other), o)
  ]

  -- `roundtrip(payload)`
  unfoldable pub roundtrip :
      HttpClient → Bytes → Sessions → KeyPair → Reached Bytes × HttpClient × Sessions
  roundtrip o payload m eph = elim (send aead o.channel payload 0 0) [
    | refused e ↦ (failed not_sent, o, m)
    | sent ch f ↦
        let ((_, content), m') = ask m (msg_request json o.client_id f) eph in
        let (r, o') = open_reply (record o { channel = ch }) content in (r, o', m')
  ]

  -- Payloads one after the other; the gateway makes the same key pair for each request here, as a
  -- message has no use for it.
  unfoldable pub rounds : HttpClient → List Bytes → Sessions → KeyPair → List (Reached Bytes)
  rounds o [] m eph = []
  rounds o (p ∷ ps) m eph = let (r, o', m') = roundtrip o p m eph in r ∷ rounds o' ps m' eph
