-- ===== src/WsGateway/Runs.antt =====
-- transport/ws-gateway.js: who has a channel, and what is counted, over any run.
use agent_mobile.Common.{
  ℕ, zero, suc, ◌⊎◌, ◌+◌, ◌≡◌, refl, sym, ◌∙◌, subst, Bool, true, Option, none, some, List, [], ◌∷◌,
  ◌++◌, length, get_elem?, set, length-append, length-set, arith, Option-match, inl, inr,
}
use agent_mobile.Channel.{Bytes, Aead}
use agent_mobile.Handshake.Base.{Text, KeyPair, Crypto, Accepted}
use agent_mobile.Handshake.{is_allowed, identity_id}
use agent_mobile.WsGateway.{
  Json, Connection, Effect, Gateway, Event, has, with_client, allow_of, new_server, new_connection,
  on_message, step, run, connects, message, set_dead, set_loopback, allow_client_event,
}
use agent_mobile.WsGateway.Trusted.{Greeted, Trusted, opened}
use agent_mobile.WsGateway.Messages.{on_message-Fine}

-- The connections with a channel.
abbrev pub opened_all : List Connection → ℕ
opened_all [] = 0
opened_all (conn ∷ conns) = opened conn + opened_all conns

opened_all-append :
    (xs ys : List Connection) → opened_all (xs ++ ys) ≡ opened_all xs + opened_all ys
opened_all-append [] ys = omega arith
opened_all-append (x ∷ xs) ys = omega (arith, opened_all-append xs ys)

opened_all-set :
    (xs : List Connection) (i : ℕ) (x y : Connection)
    → get_elem? xs i ≡ some x
    → opened_all (set xs i y) + opened x ≡ opened_all xs + opened y
opened_all-set [] i x y h = absurd (cc)
opened_all-set (z ∷ xs) zero x y h = ground (arith, h)
opened_all-set (z ∷ xs) (suc i) x y h = omega (arith, opened_all-set xs i x y h)

get_elem?-append_one :
    (xs : List Connection) (x : Connection) (i : ℕ) {y : Connection}
    → get_elem? (xs ++ (x ∷ [])) i ≡ some y
    → (get_elem? xs i ≡ some y) ⊎ (x ≡ y)
get_elem?-append_one [] x zero h = inr (ground (arith, h))
get_elem?-append_one [] x (suc i) h = absurd (cc)
get_elem?-append_one (z ∷ xs) x zero h = inl h
get_elem?-append_one (z ∷ xs) x (suc i) h = get_elem?-append_one xs x i h

get_elem?-set_cases :
    (xs : List Connection) (i j : ℕ) (x : Connection) {y : Connection}
    → get_elem? (set xs i x) j ≡ some y
    → (get_elem? xs j ≡ some y) ⊎ (x ≡ y)
get_elem?-set_cases [] i j x h = absurd (cc)
get_elem?-set_cases (z ∷ xs) zero zero x h = inr (ground (arith, h))
get_elem?-set_cases (z ∷ xs) zero (suc j) x h = inl h
get_elem?-set_cases (z ∷ xs) (suc i) zero x h = inl h
get_elem?-set_cases (z ∷ xs) (suc i) (suc j) x h = get_elem?-set_cases xs i j x h

-- What the counters of the gateway count, and whom its connections serve.
pub record IsSound (crypto : Crypto) (identity : KeyPair) (g : Gateway) : Type 0 where
  pub connections : g.server.connections ≡ length g.sockets
  pub authenticated : g.server.authenticated ≡ opened_all g.sockets
  pub frames : g.server.audio_frames ≡ length g.server.audio_seqs
  pub trusted :
      (i : ℕ) (conn : Connection)
      → get_elem? g.sockets i ≡ some conn
      → Trusted crypto identity g.server.allowlist conn

-- A list that lets in whomever the other does.
abbrev LetsIn : Crypto → KeyPair → Option (List Text) → Option (List Text) → Type 0
LetsIn crypto identity al al' =
    (key : Bytes)
    → is_allowed crypto (allow_of crypto identity al) key ≡ true
    → is_allowed crypto (allow_of crypto identity al') key ≡ true

has-append : (xs ys : List Text) (t : Text) → has xs t ≡ true → has (xs ++ ys) t ≡ true
unfolding has
has-append [] ys t h = absurd (cc)
has-append (x ∷ xs) ys t h = ground (arith, h, has-append xs ys t)

module _ (crypto : Crypto) (identity : KeyPair) where
  with_client-LetsIn :
      (t : Text) (al : Option (List Text)) → LetsIn crypto identity al (with_client t al)
  unfolding with_client
  with_client-LetsIn t none key h = h
  with_client-LetsIn t (some ids) key h =
      let more = λ (u : Text). has-append ids (t ∷ []) u in
      ground (arith, h, more (identity_id crypto key), more (crypto.encode key))

  Trusted-LetsIn :
      (al al' : Option (List Text)) (conn : Connection)
      → LetsIn crypto identity al al'
      → Trusted crypto identity al conn
      → Trusted crypto identity al' conn
  Trusted-LetsIn al al' conn more v = record {
    waits = λ a h. greets a (v.waits a h);
    live = λ ch h.
        let l = v.live ch h in
        record {
          handshake = l.handshake;
          greeted = greets l.handshake l.greeted;
          confirm = l.confirm;
          confirmed = l.confirmed;
          keys = l.keys;
        };
  }
    where
      greets : (a : Accepted) → Greeted crypto identity al a → Greeted crypto identity al' a
      greets a g = record {
        hello = g.hello;
        eph = g.eph;
        earlier = g.earlier;
        accepted = g.accepted;
        allowed = more a.client_identity g.allowed;
      }

  new_connection-Trusted : (al : Option (List Text)) → Trusted crypto identity al new_connection
  new_connection-Trusted al = record { waits = λ a h. absurd (cc); live = λ ch h. absurd (cc) }

module _ {I D : Type 0} (crypto : Crypto) (aead : Aead) (json : Json I D) (identity : KeyPair) where
  message-IsSound :
      (g : Gateway) (i : ℕ) (raw : Bytes) (is_binary : Bool) (eph : KeyPair)
      → IsSound crypto identity g
      → IsSound crypto identity (step crypto aead json identity g (message i raw is_binary eph)).1
  unfolding step
  message-IsSound g i raw is_binary eph v =
      Option-match (λ (r : List Effect × Gateway). IsSound crypto identity r.1)
        (get_elem? g.sockets i) _ _ (λ _. v)
        (λ conn e.
          let f =
            on_message-Fine crypto aead json identity g.server conn raw is_binary eph
              (v.trusted i conn e) in
          record {
            connections = f.connections ∙ v.connections ∙ sym (length-set g.sockets i _);
            authenticated = omega (
              arith,
              f.authenticated,
              v.authenticated,
              opened_all-set g.sockets i conn
                  (on_message crypto aead json identity g.server conn raw is_binary eph).1.1 e,
            );
            frames = f.frames v.frames;
            trusted = λ j c h.
                subst (λ al. Trusted crypto identity al c) (sym f.allowlist)
                  (elim (get_elem?-set_cases g.sockets i j _ h) [
                    | inl k ↦ v.trusted j c k
                    | inr k ↦ subst (Trusted crypto identity g.server.allowlist) k f.trusted
                  ]);
          })

  step-IsSound :
      (g : Gateway) (e : Event)
      → IsSound crypto identity g
      → IsSound crypto identity (step crypto aead json identity g e).1
  unfolding step
  step-IsSound g connects v = record {
    connections = omega (arith, v.connections, length-append g.sockets (new_connection ∷ []));
    authenticated =
        omega (arith, v.authenticated, opened_all-append g.sockets (new_connection ∷ []));
    frames = v.frames;
    trusted = λ i c h. elim (get_elem?-append_one g.sockets new_connection i h) [
      | inl k ↦ v.trusted i c k
      | inr k ↦
          subst (Trusted crypto identity g.server.allowlist) k
            (new_connection-Trusted crypto identity g.server.allowlist)
    ];
  }
  step-IsSound g (message i raw is_binary eph) v = message-IsSound g i raw is_binary eph v
  step-IsSound g (set_dead b) v = record {
    connections = v.connections;
    authenticated = v.authenticated;
    frames = v.frames;
    trusted = v.trusted;
  }
  step-IsSound g (set_loopback b) v = record {
    connections = v.connections;
    authenticated = v.authenticated;
    frames = v.frames;
    trusted = v.trusted;
  }
  step-IsSound g (allow_client_event t) v = record {
    connections = v.connections;
    authenticated = v.authenticated;
    frames = v.frames;
    trusted = λ i c h.
        Trusted-LetsIn crypto identity g.server.allowlist _ c
          (with_client-LetsIn crypto identity t g.server.allowlist) (v.trusted i c h);
  }

  run-IsSound :
      (es : List Event) (g : Gateway)
      → IsSound crypto identity g
      → IsSound crypto identity (run crypto aead json identity g es).1
  unfolding run
  run-IsSound [] g v = v
  run-IsSound (e ∷ es) g v =
      run-IsSound es (step crypto aead json identity g e).1 (step-IsSound g e v)

  -- Whatever connections, messages and settings the gateway has seen: a connection has a channel only
  -- if its handshake was accepted from a client that is allowed (on the allowlist, or any in pairing
  -- mode) and then confirmed with the expected MAC, and the channel has the keys of that handshake;
  -- `connections` and `authenticated` count the connections and those with a channel, and
  -- `audioFrames` the numbers that were kept.
  pub run-new_server-IsSound :
      (allowlist : Option (List Text)) (es : List Event)
      → IsSound crypto identity
          (run crypto aead json identity
            (record { server = new_server allowlist; sockets = [] })
            es).1
  run-new_server-IsSound allowlist es = run-IsSound es _ (record {
    connections = refl;
    authenticated = refl;
    frames = refl;
    trusted = λ i c h. absurd (cc);
  })
