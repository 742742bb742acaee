-- ===== src/Handshake.antt =====
-- proto.js: the keys of a session, and the three messages of the handshake.
--
-- A key pair that `genIdentity` makes is an argument. `Crypto` is what `node:crypto` does.
pub mod Base
pub mod Agreement
pub mod Pinned
pub mod Delivers
pub mod Plain
mod Tests
use agent_mobile.Common.{
  ℕ, ◌*◌, Bool, true, false, Option, none, some, List, [], ◌∷◌, ◌++◌, ◌==◌, if◌then◌else◌, take,
  drop,
}
use agent_mobile.Bytes.Order.{sort_bytes}
use agent_mobile.Channel.{Bytes, Channel, new_channel}
use agent_mobile.Transcript.{transcript}
use agent_mobile.Handshake.Base.{
  Text, KeyPair, Crypto, Field, client_identity, client_eph, server_identity, server_eph, mac,
  confirm, Failure, bad_version, bad_field, unknown_client, identity_mismatch, mac_mismatch,
  crypto_failed, out_of_range, Result, ok, err, ◌>>=◌, ◌>>◌, unless, or_throw, equal_bytes, Hello,
  Reply, Confirm, Accepted, Finished, Pin, none_pinned, buffer, text, Role, client, agent,
}

abbrev pub proto_version : ℕ
proto_version = 2

abbrev pub key_len : ℕ
key_len = 32

-- `Buffer.concat`
abbrev pub concat : List Bytes → Bytes
concat [] = []
concat (b ∷ bs) = b ++ concat bs

-- `v === PROTO_VERSION`
abbrev pub is_current : Option ℕ → Bool
is_current none = false
is_current (some v) = v == proto_version

abbrev pub is_empty : {A : Type 0} → List A → Bool
is_empty [] = true
is_empty (_ ∷ _) = false

-- The label of a transcript MAC, 'server' or 'client'.
abbrev pub server_label : Bytes
server_label = b's' ∷ b'e' ∷ b'r' ∷ b'v' ∷ b'e' ∷ b'r' ∷ []

abbrev pub client_label : Bytes
client_label = b'c' ∷ b'l' ∷ b'i' ∷ b'e' ∷ b'n' ∷ b't' ∷ []

-- `sessionFrom`, from the keys on
unfoldable pub channel_for : Role → Bytes → Channel
channel_for client k =
    new_channel (take key_len k) (take key_len (drop key_len k))
      (take key_len (drop (key_len * 2) k))
channel_for agent k =
    new_channel (take key_len (drop key_len k)) (take key_len k)
      (take key_len (drop (key_len * 2) k))

module _ (c : Crypto) where
  -- `identityId`
  unfoldable pub identity_id : Bytes → Text
  identity_id public_key = take 8 (c.sha256_hex public_key)

  -- `deriveSession(identity, theirId, myEph, theirEph)`
  unfoldable pub derive_session : KeyPair → Bytes → KeyPair → Bytes → Option Bytes
  derive_session identity their_id my_eph their_eph = elim (c.agree identity.private_key their_id) [
    | none ↦ none
    | some s1 ↦ elim (c.agree identity.private_key their_eph) [
      | none ↦ none
      | some s2 ↦ elim (c.agree my_eph.private_key their_id) [
        | none ↦ none
        | some s3 ↦ elim (c.agree my_eph.private_key their_eph) [
          | none ↦ none
          | some s4 ↦ some (c.hkdf (concat (sort_bytes (s1 ∷ s2 ∷ s3 ∷ s4 ∷ []))) (key_len * 4))
        ]
      ]
    ]
  ]

  -- `sessionFrom(role, identity, theirId, myEph, theirEphPub)`
  unfoldable pub session_from : Role → KeyPair → Bytes → KeyPair → Bytes → Result Channel
  session_from role identity their_id my_eph their_eph =
      elim (derive_session identity their_id my_eph their_eph) [
        | none ↦ err crypto_failed
        | some k ↦ ok (channel_for role k)
      ]

  -- `Channel.handshakeMac(label, transcript)`
  unfoldable pub handshake_mac : Channel → Bytes → Bytes → Bytes
  handshake_mac channel label tr = c.hmac channel.auth_key (label ++ (0 ∷ tr))

  -- `db64(s, what)`
  unfoldable pub decode_field : Option Text → Field → Result Bytes
  decode_field none f = err (bad_field f)
  decode_field (some s) f =
      if is_empty s
      then err (bad_field f)
      else if is_empty (c.decode s)
      then err (bad_field f)
      else ok (c.decode s)

  -- `clientHello(identity, eph)`
  unfoldable pub client_hello : KeyPair → KeyPair → Hello
  client_hello identity eph = record {
    v = some proto_version;
    client_id = identity_id identity.public_key;
    client_identity = some (c.encode identity.public_key);
    client_eph = some (c.encode eph.public_key);
  }

  -- `allow && !allow(clientIdentity, clientId)`
  abbrev pub is_allowed : Option (Bytes → Text → Bool) → Bytes → Bool
  is_allowed none key = true
  is_allowed (some allow) key = allow key (identity_id key)

  -- `serverHandshake(identity, hello, { allow })`, with the key pair that it makes
  unfoldable pub server_handshake :
      KeyPair → Hello → Option (Bytes → Text → Bool) → KeyPair → Result Accepted
  server_handshake identity hello allow eph = do
    unless (is_current hello.v) bad_version
    client_key ← decode_field hello.client_identity client_identity
    client_eph_key ← decode_field hello.client_eph client_eph
    unless (is_allowed allow client_key) unknown_client
    channel ← session_from agent identity client_key eph client_eph_key
    tr ←
        or_throw (transcript client_key client_eph_key identity.public_key eph.public_key)
          out_of_range
    ok (record {
      reply = record {
        v = some proto_version;
        server_identity = some (c.encode identity.public_key);
        server_eph = some (c.encode eph.public_key);
        mac = some (c.encode (handshake_mac channel server_label tr));
      };
      channel = channel;
      client_identity = client_key;
      client_id = identity_id client_key;
      expected_confirm = handshake_mac channel client_label tr;
    })

  -- The pinned key, where there is one; an empty text is none.
  abbrev pub pinned_key : Pin → Option Bytes
  pinned_key none_pinned = none
  pinned_key (buffer b) = some b
  pinned_key (text s) = if is_empty s then none else some (c.decode s)

  abbrev pub matches_pin : Pin → Bytes → Bool
  matches_pin pin key = elim (pinned_key pin) [ none ↦ true | some k ↦ equal_bytes k key ]

  -- `clientFinish(identity, eph, hello, reply, { expectServerIdentity })`
  unfoldable pub client_finish : KeyPair → KeyPair → Hello → Reply → Pin → Result Finished
  client_finish identity eph hello reply pin = do
    unless (is_current reply.v) bad_version
    server_key ← decode_field reply.server_identity server_identity
    server_eph_key ← decode_field reply.server_eph server_eph
    given ← decode_field reply.mac mac
    unless (matches_pin pin server_key) identity_mismatch
    channel ← session_from client identity server_key eph server_eph_key
    client_key ← decode_field hello.client_identity client_identity
    client_eph_key ← decode_field hello.client_eph client_eph
    tr ← or_throw (transcript client_key client_eph_key server_key server_eph_key) out_of_range
    unless (equal_bytes given (handshake_mac channel server_label tr)) mac_mismatch
    ok (record {
      channel = channel;
      server_identity = server_key;
      agent_id = identity_id server_key;
      confirm = record {
        v = some proto_version;
        confirm = some (c.encode (handshake_mac channel client_label tr));
      };
    })

  -- `verifyConfirm(expectedConfirm, msg)`
  unfoldable pub verify_confirm : Bytes → Confirm → Bool
  verify_confirm expected msg =
      if is_current msg.v
      then elim (decode_field msg.confirm confirm) [
        | err _ ↦ false
        | ok got ↦ equal_bytes got expected
      ]
      else false
