-- ===== src/Handshake/Agreement.antt =====
-- proto.js: two honest sides of a handshake end with the same keys.
use agent_mobile.Common.{
  ◌*◌, ◌^◌, ◌<◌, ◌≡◌, refl, sym, ap, ◌∙◌, Bool, true, false, Option, some, [], ◌∷◌, ◌++◌, length,
  arith,
}
use agent_mobile.Bytes.Order.{put_sorted, sort_bytes, put_sorted_comm}
use agent_mobile.Channel.{Bytes, Channel, new_channel}
use agent_mobile.Transcript.{transcript, transcript-total}
use agent_mobile.Handshake.Base.{
  Text, KeyPair, Crypto, Field, ok, equal_bytes, Accepted, Finished, Pin, Role, client, agent,
}
use agent_mobile.Handshake.{
  key_len, concat, is_empty, is_allowed, matches_pin, derive_session, channel_for, session_from,
  handshake_mac, decode_field, client_hello, server_handshake, client_finish, verify_confirm,
  server_label, client_label, identity_id,
}

pub equal_bytes_self : (b : Bytes) → equal_bytes b b ≡ true
unfolding equal_bytes
equal_bytes_self [] = refl
equal_bytes_self (x ∷ xs) = ground (arith, equal_bytes_self xs)

pub equal_bytes_sound : (a b : Bytes) → equal_bytes a b ≡ true → a ≡ b
unfolding equal_bytes
equal_bytes_sound [] [] h = refl
equal_bytes_sound [] (y ∷ ys) h = cc
equal_bytes_sound (x ∷ xs) [] h = cc
equal_bytes_sound (x ∷ xs) (y ∷ ys) h = ground (arith, h, equal_bytes_sound xs ys)

-- A key that `genIdentity` makes: a pair, whose public half is there and fits its length field.
pub record IsKey (c : Crypto) (p : KeyPair) : Type 0 where
  pub pair : c.is_pair p ≡ true
  pub there : is_empty p.public_key ≡ false
  pub short : length p.public_key < 2 ^ 16

-- Sorting forgets an exchange of the middle two of four.
exchanged : (a b d e : Bytes) → sort_bytes (a ∷ b ∷ d ∷ e ∷ []) ≡ sort_bytes (a ∷ d ∷ b ∷ e ∷ [])
unfolding sort_bytes
exchanged a b d e = ap (put_sorted a) (put_sorted_comm b d (put_sorted e []))

module _ (c : Crypto) where
  decode_field-encode :
      (b : Bytes) (f : Field) → is_empty b ≡ false → decode_field c (some (c.encode b)) f ≡ ok b
  unfolding decode_field
  decode_field-encode b f h = go (c.encode b) refl
    where
      go : (s : Text) → c.encode b ≡ s → decode_field c (some (c.encode b)) f ≡ ok b
      go [] e = absurd (ground (arith, h, c.decode-encode b, ap c.decode e, c.decode_nil))
      go (x ∷ xs) e = ground (arith, h, e, c.decode-encode b)

  -- The four secrets are the same for both, the middle two exchanged, and sorting forgets that.
  derive_session-agrees :
      (me my_eph peer peer_eph : KeyPair)
      → IsKey c me
      → IsKey c my_eph
      → IsKey c peer
      → IsKey c peer_eph
      → (k : Bytes) × (derive_session c me peer.public_key my_eph peer_eph.public_key ≡ some k)
        × (derive_session c peer me.public_key peer_eph my_eph.public_key ≡ some k)
  unfolding derive_session
  derive_session-agrees me my_eph peer peer_eph v ve p pe =
      let (s1, e1) = c.agrees me peer v.pair p.pair in
      let (s2, e2) = c.agrees me peer_eph v.pair pe.pair in
      let (s3, e3) = c.agrees my_eph peer ve.pair p.pair in
      let (s4, e4) = c.agrees my_eph peer_eph ve.pair pe.pair in
      let f1 = sym (c.agree_comm me peer v.pair p.pair) ∙ e1 in
      let f2 = sym (c.agree_comm me peer_eph v.pair pe.pair) ∙ e2 in
      let f3 = sym (c.agree_comm my_eph peer ve.pair p.pair) ∙ e3 in
      let f4 = sym (c.agree_comm my_eph peer_eph ve.pair pe.pair) ∙ e4 in
      (
        c.hkdf (concat (sort_bytes (s1 ∷ s2 ∷ s3 ∷ s4 ∷ []))) (key_len * 4),
        ground (arith, e1, e2, e3, e4),
        ground (
          arith,
          f1,
          f2,
          f3,
          f4,
          ap (λ l. some (c.hkdf (concat l) (key_len * 4))) (exchanged s1 s3 s2 s4),
        ),
      )

  session_from-derived :
      (role : Role) (me my_eph : KeyPair) (their_id their_eph k : Bytes)
      → derive_session c me their_id my_eph their_eph ≡ some k
      → session_from c role me their_id my_eph their_eph ≡ ok (channel_for role k)
  unfolding session_from
  session_from-derived role me my_eph their_id their_eph k e = rw (e, session_from) refl

  is_empty-hmac : (key msg : Bytes) → is_empty (c.hmac key msg) ≡ false
  is_empty-hmac key msg = go (c.hmac key msg) (c.length-hmac key msg)
    where
      go : (b : Bytes) → length b ≡ 32 → is_empty b ≡ false
      go [] e = absurd (omega (arith, e))
      go (x ∷ xs) e = refl

  is_empty-handshake_mac :
      (ch : Channel) (label tr : Bytes) → is_empty (handshake_mac c ch label tr) ≡ false
  unfolding handshake_mac
  is_empty-handshake_mac ch label tr = is_empty-hmac ch.auth_key (label ++ (0 ∷ tr))

  -- The two ends of a key block have the same key for the transcript.
  same_mac :
      (k label tr : Bytes)
      → handshake_mac c (channel_for agent k) label tr
        ≡ handshake_mac c (channel_for client k) label tr
  unfolding handshake_mac channel_for new_channel
  same_mac k label tr = refl

  confirm_verifies :
      (k tr : Bytes)
      → verify_confirm c (handshake_mac c (channel_for agent k) client_label tr) (record {
        v = some 2;
        confirm = some (c.encode (handshake_mac c (channel_for client k) client_label tr));
      })
        ≡ true
  unfolding verify_confirm
  confirm_verifies k tr = ground (
    arith,
    decode_field-encode (handshake_mac c (channel_for client k) client_label tr) Field.confirm
        (is_empty-handshake_mac (channel_for client k) client_label tr),
    same_mac k client_label tr,
    equal_bytes_self (handshake_mac c (channel_for client k) client_label tr),
  )

-- What a handshake leaves on the two sides: the channels of one derived key block, and each side's
-- knowledge of the other.
pub record Agreed (c : Crypto) (me peer : KeyPair) (done : Accepted) (fin : Finished) : Type 0 where
  pub keys : Bytes
  pub accepted : done.channel ≡ channel_for agent keys
  pub finished : fin.channel ≡ channel_for client keys
  pub server_known : fin.server_identity ≡ peer.public_key
  pub client_known : done.client_identity ≡ me.public_key
  pub named : done.client_id ≡ identity_id c me.public_key
  pub introduced : fin.agent_id ≡ identity_id c peer.public_key
  pub confirmed : verify_confirm c done.expected_confirm fin.confirm ≡ true

module _ (c : Crypto) (me my_eph peer peer_eph : KeyPair) where
  -- What the server makes of an honest hello, with the key block `k` and the transcript `tr`.
  abbrev accepted : Bytes → Bytes → Accepted
  accepted k tr = record {
    reply = record {
      v = some 2;
      server_identity = some (c.encode peer.public_key);
      server_eph = some (c.encode peer_eph.public_key);
      mac = some (c.encode (handshake_mac c (channel_for agent k) server_label tr));
    };
    channel = channel_for agent k;
    client_identity = me.public_key;
    client_id = identity_id c me.public_key;
    expected_confirm = handshake_mac c (channel_for agent k) client_label tr;
  }

  abbrev finished : Bytes → Bytes → Finished
  finished k tr = record {
    channel = channel_for client k;
    server_identity = peer.public_key;
    agent_id = identity_id c peer.public_key;
    confirm = record {
      v = some 2;
      confirm = some (c.encode (handshake_mac c (channel_for client k) client_label tr));
    };
  }

  server_accepts :
      (allow : Option (Bytes → Text → Bool)) (k tr : Bytes)
      → IsKey c me
      → IsKey c my_eph
      → is_allowed c allow me.public_key ≡ true
      → derive_session c peer me.public_key peer_eph my_eph.public_key ≡ some k
      → transcript me.public_key my_eph.public_key peer.public_key peer_eph.public_key ≡ some tr
      → server_handshake c peer (client_hello c me my_eph) allow peer_eph ≡ ok (accepted k tr)
  unfolding server_handshake client_hello
  server_accepts allow k tr v ve permitted e t = ground (
    arith,
    permitted,
    t,
    decode_field-encode c me.public_key Field.client_identity v.there,
    decode_field-encode c my_eph.public_key Field.client_eph ve.there,
    session_from-derived c agent peer peer_eph me.public_key my_eph.public_key k e,
  )

  client_finishes :
      (pin : Pin) (k tr : Bytes)
      → IsKey c me
      → IsKey c my_eph
      → IsKey c peer
      → IsKey c peer_eph
      → matches_pin c pin peer.public_key ≡ true
      → derive_session c me peer.public_key my_eph peer_eph.public_key ≡ some k
      → transcript me.public_key my_eph.public_key peer.public_key peer_eph.public_key ≡ some tr
      → client_finish c me my_eph (client_hello c me my_eph) (accepted k tr).reply pin
        ≡ ok (finished k tr)
  unfolding client_finish client_hello
  client_finishes pin k tr v ve p pe pinned e t = ground (
    arith,
    pinned,
    t,
    decode_field-encode c peer.public_key Field.server_identity p.there,
    decode_field-encode c peer_eph.public_key Field.server_eph pe.there,
    decode_field-encode c (handshake_mac c (channel_for agent k) server_label tr) Field.mac
        (is_empty-handshake_mac c (channel_for agent k) server_label tr),
    session_from-derived c client me my_eph peer.public_key peer_eph.public_key k e,
    decode_field-encode c me.public_key Field.client_identity v.there,
    decode_field-encode c my_eph.public_key Field.client_eph ve.there,
    same_mac c k server_label tr,
    equal_bytes_self (handshake_mac c (channel_for client k) server_label tr),
  )

  -- An honest handshake over a faithful connection succeeds on both sides, whether the client has
  -- pinned the server's key or has not: they end with the channels of the same keys, each knows the
  -- other's identity, and the server accepts the client's confirmation. The key pairs are of the kind
  -- that `genIdentity` makes, and the server's allowlist lets the client in.
  pub handshake_agrees :
      (allow : Option (Bytes → Text → Bool)) (pin : Pin)
      → IsKey c me
      → IsKey c my_eph
      → IsKey c peer
      → IsKey c peer_eph
      → is_allowed c allow me.public_key ≡ true
      → matches_pin c pin peer.public_key ≡ true
      → (done : Accepted) × (fin : Finished) × (server_handshake c peer
            (client_hello c me my_eph)
            allow
            peer_eph
          ≡ ok done)
        × (client_finish c me my_eph (client_hello c me my_eph) done.reply pin ≡ ok fin)
        × Agreed c me peer done fin
  handshake_agrees allow pin v ve p pe permitted pinned =
      let (k, e, e') = derive_session-agrees c me my_eph peer peer_eph v ve p pe in
      let (tr, t) =
        transcript-total me.public_key my_eph.public_key peer.public_key peer_eph.public_key v.short
          ve.short p.short pe.short in
      (
        accepted k tr,
        finished k tr,
        server_accepts allow k tr v ve permitted e' t,
        client_finishes pin k tr v ve p pe pinned e t,
        record {
          keys = k;
          accepted = refl;
          finished = refl;
          server_known = refl;
          client_known = refl;
          named = refl;
          introduced = refl;
          confirmed = confirm_verifies c k tr;
        },
      )
