-- ===== src/Handshake/Pinned.antt =====
-- proto.js: what a side knows once its step of the handshake has returned.
use agent_mobile.Common.{◌≡◌, subst, refl, sym, ap, ◌∙◌, Bool, true, Option, some, arith}
use agent_mobile.Channel.{Bytes}
use agent_mobile.Transcript.{transcript}
use agent_mobile.Handshake.Base.{
  Text, KeyPair, Crypto, Field, Result, ok, err, or_throw, equal_bytes, Hello, Reply, Confirm,
  Accepted, Finished, Pin, buffer, client, agent, ok_of_bind, unless-eq-ok, or_throw-eq-ok,
  out_of_range, unknown_client, mac_mismatch, identity_mismatch, bad_version,
}
use agent_mobile.Handshake.{
  is_current, is_allowed, matches_pin, session_from, handshake_mac, decode_field, server_handshake,
  client_finish, verify_confirm, server_label,
}
use agent_mobile.Handshake.Agreement.{equal_bytes_sound}

-- A client that is done has the MAC of the very transcript of its hello and the reply, under the
-- keys of its channel, for a server identity that its pin admits.
pub record Authentic (c : Crypto) (identity eph : KeyPair) (hello : Hello) (reply : Reply)
    (pin : Pin) (fin : Finished) : Type 0 where
  pub client_key : Bytes
  pub client_eph_key : Bytes
  pub server_eph_key : Bytes
  pub tr : Bytes
  pub hello_key : decode_field c hello.client_identity Field.client_identity ≡ ok client_key
  pub hello_eph : decode_field c hello.client_eph Field.client_eph ≡ ok client_eph_key
  pub reply_key :
      decode_field c reply.server_identity Field.server_identity ≡ ok fin.server_identity
  pub reply_eph : decode_field c reply.server_eph Field.server_eph ≡ ok server_eph_key
  pub admitted : matches_pin c pin fin.server_identity ≡ true
  pub session :
      session_from c client identity fin.server_identity eph server_eph_key ≡ ok fin.channel
  pub joined : transcript client_key client_eph_key fin.server_identity server_eph_key ≡ some tr
  pub authentic :
      decode_field c reply.mac Field.mac ≡ ok (handshake_mac c fin.channel server_label tr)

ok-injective : {A : Type 0} {a b : A} → ok a ≡ ok b → a ≡ b
ok-injective h = ground (arith, h)

module _ (c : Crypto) where
  -- `clientFinish` returns only for a reply of the current version whose identity the pin admits and
  -- whose MAC is that of the transcript of all four keys under the keys of the channel returned.
  pub client_finish-Authentic :
      (identity eph : KeyPair) (hello : Hello) (reply : Reply) (pin : Pin) (fin : Finished)
      → client_finish c identity eph hello reply pin ≡ ok fin
      → Authentic c identity eph hello reply pin fin
  unfolding client_finish
  client_finish-Authentic identity eph hello reply pin fin h =
      let (current, h1) = unless-eq-ok (is_current reply.v) bad_version _ h in
      let (server_key, e1, h2) =
        ok_of_bind (decode_field c reply.server_identity Field.server_identity) _ h1 in
      let (server_eph_key, e2, h3) =
        ok_of_bind (decode_field c reply.server_eph Field.server_eph) _ h2 in
      let (given, e3, h4) = ok_of_bind (decode_field c reply.mac Field.mac) _ h3 in
      let (admitted, h5) = unless-eq-ok (matches_pin c pin server_key) identity_mismatch _ h4 in
      let (channel, e4, h6) =
        ok_of_bind (session_from c client identity server_key eph server_eph_key) _ h5 in
      let (client_key, e5, h7) =
        ok_of_bind (decode_field c hello.client_identity Field.client_identity) _ h6 in
      let (client_eph_key, e6, h8) =
        ok_of_bind (decode_field c hello.client_eph Field.client_eph) _ h7 in
      let (tr, e7, h9) =
        ok_of_bind
          (or_throw (transcript client_key client_eph_key server_key server_eph_key) out_of_range) _
          h8 in
      let (same, h10) =
        unless-eq-ok (equal_bytes given (handshake_mac c channel server_label tr)) mac_mismatch _
          h9 in
      subst (Authentic c identity eph hello reply pin) (ok-injective h10) (record {
        client_key = client_key;
        client_eph_key = client_eph_key;
        server_eph_key = server_eph_key;
        tr = tr;
        hello_key = e5;
        hello_eph = e6;
        reply_key = e1;
        reply_eph = e2;
        admitted = admitted;
        session = e4;
        joined =
            or_throw-eq-ok (transcript client_key client_eph_key server_key server_eph_key)
              out_of_range e7;
        authentic =
            e3 ∙ ap ok (equal_bytes_sound given (handshake_mac c channel server_label tr) same);
      })

  -- With a pinned key, `clientFinish` returns that very identity and no other.
  pub client_finish-pinned :
      (identity eph : KeyPair) (hello : Hello) (reply : Reply) (key : Bytes) (fin : Finished)
      → client_finish c identity eph hello reply (buffer key) ≡ ok fin
      → fin.server_identity ≡ key
  client_finish-pinned identity eph hello reply key fin h = sym (
      equal_bytes_sound key fin.server_identity
        (client_finish-Authentic identity eph hello reply (buffer key) fin h).admitted)

  -- `serverHandshake` returns only for a client that the allowlist lets in.
  pub server_handshake-allowed :
      (identity : KeyPair) (hello : Hello) (allow : Option (Bytes → Text → Bool)) (eph : KeyPair)
      (done : Accepted)
      → server_handshake c identity hello allow eph ≡ ok done
      → is_allowed c allow done.client_identity ≡ true
  unfolding server_handshake
  server_handshake-allowed identity hello allow eph done h =
      let (current, h1) = unless-eq-ok (is_current hello.v) bad_version _ h in
      let (client_key, e1, h2) =
        ok_of_bind (decode_field c hello.client_identity Field.client_identity) _ h1 in
      let (client_eph_key, e2, h3) =
        ok_of_bind (decode_field c hello.client_eph Field.client_eph) _ h2 in
      let (allowed, h4) = unless-eq-ok (is_allowed c allow client_key) unknown_client _ h3 in
      let (channel, e3, h5) =
        ok_of_bind (session_from c agent identity client_key eph client_eph_key) _ h4 in
      let (tr, e4, h6) =
        ok_of_bind
          (or_throw (transcript client_key client_eph_key identity.public_key eph.public_key)
            out_of_range)
          _ h5 in
      subst (λ (d : Accepted). is_allowed c allow d.client_identity ≡ true) (ok-injective h6)
        allowed

  -- A confirmation that is accepted carries the expected MAC.
  pub verify_confirm_sound :
      (expected : Bytes) (msg : Confirm)
      → verify_confirm c expected msg ≡ true
      → decode_field c msg.confirm Field.confirm ≡ ok expected
  unfolding verify_confirm
  verify_confirm_sound expected msg h = go (decode_field c msg.confirm Field.confirm) refl
    where
      go :
          (r : Result Bytes)
          → decode_field c msg.confirm Field.confirm ≡ r
          → decode_field c msg.confirm Field.confirm ≡ ok expected
      go (err e) g = absurd (ground (arith, h, g))
      go (ok got) g = g ∙ ap ok (equal_bytes_sound got expected (ground (arith, h, g)))
