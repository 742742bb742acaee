-- ===== src/WsGateway/Trusted.antt =====
-- transport/ws-gateway.js: who has a channel, and what is counted, after one message.
use agent_mobile.Common.{
  ℕ, ◌+◌, ◌≡◌, refl, ◌∙◌, subst, true, Option, none, some, List, [], ◌∷◌, ◌++◌, length, arith,
  if-cases,
}
use agent_mobile.Channel.{Channel}
use agent_mobile.Channel.Keys.{SameKeys, SameKeys-refl, SameKeys-trans}
use agent_mobile.Handshake.Base.{Text, KeyPair, Crypto, Result, ok, err, Hello, Confirm, Accepted}
use agent_mobile.Handshake.{is_allowed, server_handshake, verify_confirm}
use agent_mobile.Handshake.Pinned.{server_handshake-allowed}
use agent_mobile.WsGateway.{
  Server, Connection, Handled, Effect, allow_of, rejection, on_hello, on_confirm, replied,
}

-- A handshake that the gateway has accepted, from a client that is on the list by now.
pub record Greeted (crypto : Crypto) (identity : KeyPair) (allowlist : Option (List Text))
    (a : Accepted) : Type 0 where
  pub hello : Hello
  pub eph : KeyPair
  pub earlier : Option (List Text)
  pub accepted :
      server_handshake crypto identity hello (allow_of crypto identity earlier) eph ≡ ok a
  pub allowed : is_allowed crypto (allow_of crypto identity allowlist) a.client_identity ≡ true

-- A channel whose client has confirmed such a handshake, under the keys of that handshake.
pub record Live (crypto : Crypto) (identity : KeyPair) (allowlist : Option (List Text))
    (ch : Channel) : Type 0 where
  pub handshake : Accepted
  pub greeted : Greeted crypto identity allowlist handshake
  pub confirm : Confirm
  pub confirmed : verify_confirm crypto handshake.expected_confirm confirm ≡ true
  pub keys : SameKeys handshake.channel ch

pub record Trusted (crypto : Crypto) (identity : KeyPair) (allowlist : Option (List Text))
    (conn : Connection) : Type 0 where
  pub waits : (a : Accepted) → conn.pending ≡ some a → Greeted crypto identity allowlist a
  pub live : (ch : Channel) → conn.channel ≡ some ch → Live crypto identity allowlist ch

-- A connection with a channel counts one.
abbrev pub opened : Connection → ℕ
opened conn = elim conn.channel [ none ↦ 0 | some _ ↦ 1 ]

-- What handling a message leaves as it should be.
pub record Fine (crypto : Crypto) (identity : KeyPair) (s : Server) (conn : Connection)
    (r : Handled) : Type 0 where
  pub allowlist : r.1.0.allowlist ≡ s.allowlist
  pub connections : r.1.0.connections ≡ s.connections
  pub authenticated : r.1.0.authenticated + opened conn ≡ s.authenticated + opened r.1.1
  pub frames : s.audio_frames ≡ length s.audio_seqs → r.1.0.audio_frames ≡ length r.1.0.audio_seqs
  pub trusted : Trusted crypto identity s.allowlist r.1.1

module _ (crypto : Crypto) (identity : KeyPair) where
  pub unmoved :
      (s : Server) (conn : Connection) (es : List Effect)
      → Trusted crypto identity s.allowlist conn
      → Fine crypto identity s conn (es, (s, conn))
  unmoved s conn es v = record {
    allowlist = refl;
    connections = refl;
    authenticated = refl;
    frames = λ h. h;
    trusted = v;
  }

  pub counted :
      (s : Server) (conn : Connection) (es : List Effect) (s' : Server)
      → Trusted crypto identity s.allowlist conn
      → s'.allowlist ≡ s.allowlist
      → s'.connections ≡ s.connections
      → s'.authenticated ≡ s.authenticated
      → s'.audio_frames ≡ s.audio_frames
      → s'.audio_seqs ≡ s.audio_seqs
      → Fine crypto identity s conn (es, (s', conn))
  counted s conn es s' v a b c d e = record {
    allowlist = a;
    connections = b;
    authenticated = omega (arith, c);
    frames = λ h. d ∙ rw e h;
    trusted = v;
  }

  pub on_hello-Fine :
      (s : Server) (conn : Connection) (hello : Hello) (eph : KeyPair)
      → Trusted crypto identity s.allowlist conn
      → Fine crypto identity s conn (on_hello crypto identity s conn hello eph)
  unfolding on_hello
  on_hello-Fine s conn hello eph v =
      go (server_handshake crypto identity hello (allow_of crypto identity s.allowlist) eph) refl
    where
      Handles : Result Accepted → Type 0
      Handles r = Fine crypto identity s conn (elim r [
        | err e ↦
            (rejection crypto identity hello e, (record s { rejected = s.rejected + 1 }, conn))
        | ok hs ↦ (replied hs.reply ∷ [], (s, record conn { pending = some hs }))
      ])

      go :
          (r : Result Accepted)
          → server_handshake crypto identity hello (allow_of crypto identity s.allowlist) eph ≡ r
          → Handles r
      go (err e) h = counted s conn _ _ v refl refl refl refl refl
      go (ok hs) h = record {
        allowlist = refl;
        connections = refl;
        authenticated = refl;
        frames = λ k. k;
        trusted = record {
          waits = λ a k. subst (Greeted crypto identity s.allowlist) (ground (arith, k)) (record {
            hello = hello;
            eph = eph;
            earlier = s.allowlist;
            accepted = h;
            allowed =
                server_handshake-allowed crypto identity hello
                  (allow_of crypto identity s.allowlist) eph hs h;
          });
          live = v.live;
        };
      }

  pub on_confirm-Fine :
      (s : Server) (conn : Connection) (p : Accepted) (msg : Confirm)
      → conn.channel ≡ none
      → conn.pending ≡ some p
      → Trusted crypto identity s.allowlist conn
      → Fine crypto identity s conn (on_confirm crypto identity s conn p msg)
  unfolding on_confirm
  on_confirm-Fine s conn p msg n w v =
      if-cases (Fine crypto identity s conn) (verify_confirm crypto p.expected_confirm msg) _ _
        (λ h. record {
          allowlist = refl;
          connections = refl;
          authenticated = rw n (omega arith);
          frames = λ k. k;
          trusted = record {
            waits = λ a k. absurd (cc);
            live = λ ch k. record {
              handshake = p;
              greeted = v.waits p w;
              confirm = msg;
              confirmed = h;
              keys = subst (SameKeys p.channel) (ground (arith, k)) (SameKeys-refl p.channel);
            };
          };
        })
        (λ _. counted s conn _ _ v refl refl refl refl refl)

  pub Fine-trans :
      (s : Server) (conn : Connection) (es : List Effect) (s' : Server) (conn' : Connection)
      (r : Handled)
      → Fine crypto identity s conn (es, (s', conn'))
      → Fine crypto identity s' conn' r
      → Fine crypto identity s conn (es ++ r.0, r.1)
  Fine-trans s conn es s' conn' r v w = record {
    allowlist = w.allowlist ∙ v.allowlist;
    connections = w.connections ∙ v.connections;
    authenticated = omega (arith, v.authenticated, w.authenticated);
    frames = λ h. w.frames (v.frames h);
    trusted = subst (λ al. Trusted crypto identity al r.1.1) v.allowlist w.trusted;
  }

  -- The channel moves on, under its keys.
  pub moved :
      (s : Server) (conn : Connection) (ch ch' : Channel)
      → conn.channel ≡ some ch
      → SameKeys ch ch'
      → Trusted crypto identity s.allowlist conn
      → Trusted crypto identity s.allowlist (record conn { channel = some ch' })
  moved s conn ch ch' e k v = record {
    waits = v.waits;
    live = λ d h.
        let l = v.live ch e in
        record {
          handshake = l.handshake;
          greeted = l.greeted;
          confirm = l.confirm;
          confirmed = l.confirmed;
          keys = subst (SameKeys l.handshake.channel) (ground (arith, h)) (SameKeys-trans l.keys k);
        };
  }
