-- ===== src/HttpGateway/Served.antt =====
-- gateway.js: a client opens a session over HTTP and is served.
use agent_mobile.Common.{
  ℕ, ◌≡◌, ◌≤◌, refl, Bool, true, false, Option, none, some, List, [], ◌∷◌, lookup, insert, length,
  map, arith, lookup-insert_self, get_or-replicate, subst,
}
use agent_mobile.Channel.{Bytes, Aead, max_counter, max_streams}
use agent_mobile.Handshake.Base.{
  Text, KeyPair, Crypto, Accepted, Finished, text, ok, Hello, Reply, Confirm, Pin,
}
use agent_mobile.Handshake.{
  client_hello, is_allowed, matches_pin, identity_id, server_handshake, client_finish,
  verify_confirm,
}
use agent_mobile.Handshake.Agreement.{IsKey, Agreed, handshake_agrees, equal_bytes_self}
use agent_mobile.HttpGateway.{
  text_eq, Session, Sessions, Json, on_request, on_post, on_body, on_hello, on_confirm,
  with_session, is_full, session_or_new, paired, replied, confirmed, hello_path, confirm_path,
}
use agent_mobile.HttpGateway.Clients.{
  HttpClient, reached, http_client_session, finish_session, confirm_session, pin_of, rounds,
  hello_request, confirm_request, pair_request, hello_body, confirm_body,
}
use agent_mobile.HttpGateway.Limit.{Fits, whole_request, posted-Fits}
use agent_mobile.HttpGateway.Rounds.{AllFit, Linked, reply_to, rounds_lem}
use agent_mobile.Handshake.Delivers.{channel_for-Synced, tx-channel_for}

module _ (crypto : Crypto) (aead : Aead) (json : Json) (peer : KeyPair)
    (allow : Option (Bytes → Text → Bool)) where
  -- The key that the gateway gives out is the one that it is known by.
  pin_matches :
      (pin : Bool) (id : Text)
      → matches_pin crypto
          (pin_of crypto aead json peer allow pin (paired id peer.public_key))
          peer.public_key
        ≡ true
  unfolding pin_of
  pin_matches false id = refl
  pin_matches true id = given (crypto.encode peer.public_key) (crypto.decode-encode peer.public_key)
    where
      given :
          (s : Text)
          → crypto.decode s ≡ peer.public_key
          → matches_pin crypto (text s) peer.public_key ≡ true
      given [] e = refl
      given (x ∷ s) e = rw e (equal_bytes_self peer.public_key)

  -- The session while the confirmation is awaited, and once it has come.
  abbrev awaiting : Session → Accepted → Session
  awaiting s done = record s {
    pending = some (record { channel = done.channel; expected_confirm = done.expected_confirm });
  }

  abbrev served : Accepted → Session
  served done = record { pending = none; channel = some done.channel }

  says_hello :
      (m : Sessions) (hello : Hello) (eph : KeyPair) (done : Accepted) (id : Text)
      → server_handshake crypto peer hello allow eph ≡ ok done
      → done.client_id ≡ id
      → is_full id m ≡ false
      → on_request crypto aead json peer allow m (whole_request hello_path (hello_body hello)) eph
        ≡ ((200, replied done.reply), insert id (awaiting (session_or_new (lookup id m)) done) m)
  unfolding on_request on_post on_body on_hello
  says_hello m hello eph done id e n f =
      let f' : is_full done.client_id m ≡ false = rw n f in
      subst
        (λ x.
          on_request crypto aead json peer allow m (whole_request hello_path (hello_body hello)) eph
          ≡ ((200, replied done.reply), insert x (awaiting (session_or_new (lookup x m)) done) m))
        n (ground (arith, e, f'))

  confirms :
      (m : Sessions) (id : Text) (s : Session) (done : Accepted) (k : Confirm) (eph : KeyPair)
      → lookup id m ≡ some (awaiting s done)
      → verify_confirm crypto done.expected_confirm k ≡ true
      → on_request crypto aead json peer allow m
          (whole_request confirm_path (confirm_body id k))
          eph
        ≡ ((200, confirmed), insert id (served done) m)
  unfolding on_request on_post on_body on_confirm with_session
  confirms m id s done k eph e f = ground (arith, e, f)

  paired_with :
      (m : Sessions) (eph : KeyPair)
      → on_request crypto aead json peer allow m pair_request eph
        ≡ ((200, paired (identity_id crypto peer.public_key) peer.public_key), m)
  unfolding on_request
  paired_with m eph = refl

  session_opens :
      (me eph other e1 e2 : KeyPair) (pin : Bool) (m m2 m3 : Sessions) (r : Reply) (fin : Finished)
      → let hello = client_hello crypto me eph in
        on_request crypto aead json peer allow m (hello_request json hello) e2
          ≡ ((200, replied r), m2)
        → client_finish crypto me eph (client_hello crypto me eph) r (
            pin_of crypto aead json peer allow pin
              (paired (identity_id crypto peer.public_key) peer.public_key))
          ≡ ok fin
        → on_request crypto aead json peer allow m2
            (confirm_request json (client_hello crypto me eph).client_id fin.confirm)
            other
          ≡ ((200, confirmed), m3)
        → http_client_session crypto aead json peer allow me eph pin m e1 e2 other ≡ (
          reached (record {
            channel = fin.channel;
            client_id = (client_hello crypto me eph).client_id;
            agent_id = fin.agent_id;
          }),
          m3,
        )
  unfolding http_client_session finish_session confirm_session
  session_opens me eph other e1 e2 pin m m2 m3 r fin a b c =
      ground (arith, paired_with m e1, a, b, c)

  -- After the confirmation the two sides are in step.
  in_step :
      {me : KeyPair} (done : Accepted) (fin : Finished)
      → Agreed crypto me peer done fin
      → (id : Text) (m : Sessions) (n : ℕ) → lookup id m ≡ some (served done)
      → n ≤ max_counter
      → Linked crypto aead json peer allow
          (record { channel = fin.channel; client_id = id; agent_id = fin.agent_id })
          m
          n
  in_step done fin a id m n e few = record {
    session = served done;
    ch = done.channel;
    there = e;
    live = refl;
    up = rw (a.accepted, a.finished) (channel_for-Synced a.keys).0;
    down = rw (a.accepted, a.finished) (channel_for-Synced a.keys).1;
    room_up =
        rw (a.finished, tx-channel_for)
          (omega (arith, few, get_or-replicate {A = ℕ} max_streams 0 0));
    room_down =
        rw (a.accepted, tx-channel_for)
          (omega (arith, few, get_or-replicate {A = ℕ} max_streams 0 0));
  }

  -- A client whose identity is allowed opens a session with a gateway whose table has room for it, with
  -- key pairs of the kind that `genIdentity` makes, whether it pins the key that the gateway gives
  -- out or not, if its hello and its confirmation fit into a body of MAX_BODY bytes; it knows the
  -- gateway by its identity, and then every payload whose frame fits into such a body comes back as
  -- the agent's reply, or as the error of a payload that the agent throws on, for any number of
  -- payloads that a counter counts, all of which fit.
  pub http_client_is_served :
      (me eph e1 e2 other : KeyPair) (pin : Bool) (m : Sessions) (ps : List Bytes)
      → IsKey crypto me
      → IsKey crypto eph
      → IsKey crypto peer
      → IsKey crypto e2
      → is_allowed crypto allow me.public_key ≡ true
      → is_full (identity_id crypto me.public_key) m ≡ false
      → length ps ≤ max_counter
      → Fits json hello_path (hello_body (client_hello crypto me eph))
      → ((r : Reply) (p : Pin) (fin : Finished)
          → client_finish crypto me eph (client_hello crypto me eph) r p ≡ ok fin
          → Fits json confirm_path
              (confirm_body (client_hello crypto me eph).client_id fin.confirm))
      → AllFit crypto aead json peer allow (identity_id crypto me.public_key) ps
      → (o : HttpClient) × (m' : Sessions) × (http_client_session crypto aead json peer allow me eph
            pin m e1 e2 other
          ≡ (reached o, m'))
        × (o.agent_id ≡ identity_id crypto peer.public_key)
        × (rounds crypto aead json peer allow o ps m' other
            ≡ map (reply_to crypto aead json peer allow) ps)
  unfolding client_hello
  http_client_is_served me eph e1 e2 other pin m ps v ve p pe permitted room few fit1 fit2 fits =
      let pinned =
        pin_of crypto aead json peer allow pin
          (paired (identity_id crypto peer.public_key) peer.public_key) in
      let (done, fin, e, f, a) =
        handshake_agrees crypto me eph peer e2 allow pinned v ve p pe permitted
          (pin_matches pin (identity_id crypto peer.public_key)) in
      let id = identity_id crypto me.public_key in
      let hello = client_hello crypto me eph in
      let s = session_or_new (lookup id m) in
      let m2 = insert id (awaiting s done) m in
      let o : HttpClient = record {
        channel = fin.channel;
        client_id = id;
        agent_id = fin.agent_id;
      } in
      (
        o,
        insert id (served done) m2,
        session_opens me eph other e1 e2 pin m m2 _ done.reply fin
            (rw (posted-Fits json hello_path (hello_body hello) fit1)
              (says_hello m hello e2 done id e a.named room))
            f
            (rw
              (posted-Fits json confirm_path (confirm_body id fin.confirm)
                (fit2 done.reply pinned fin f))
              (confirms m2 id s done fin.confirm other (lookup-insert_self id _ m) a.confirmed)),
        a.introduced,
        rounds_lem crypto aead json peer allow ps o _ other
            (in_step done fin a id (insert id (served done) m2) (length ps)
              (lookup-insert_self id _ m2) few)
            fits,
      )
