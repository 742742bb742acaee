-- ===== src/WsGateway/Pairing.antt =====
-- transport/ws-gateway.js and transport/ws-client.mjs: a client pairs with the gateway.
use agent_mobile.Common.{◌+◌, ◌≡◌, refl, Bool, true, false, Option, some, [], ◌∷◌, ◌&&◌, arith}
use agent_mobile.Channel.{Bytes, Aead}
use agent_mobile.Handshake.Base.{KeyPair, Crypto, Hello, Reply, Confirm, Accepted, Finished, Pin}
use agent_mobile.Handshake.{is_allowed, matches_pin, client_hello}
use agent_mobile.Handshake.Agreement.{IsKey, Agreed, handshake_agrees}
use agent_mobile.Client.Connect.{
  Answer, answered, connecting, is_unpinned, said_hello, said_confirm, resolve, opens, arrives,
  on_reply, on_arrival, connect_step, establish,
}
use agent_mobile.WsGateway.{
  Json, Server, allow_of, new_connection, on_hello, on_confirm, on_greeting, on_message, replied,
}

-- Texts that the two sides read as what the other has said.
pub record Spoken {I D : Type 0} (json : Json I D) (parse : Bytes → Option Answer) : Type 0 where
  pub say_hello : Hello → Bytes
  pub say_reply : Reply → Bytes
  pub say_confirm : Confirm → Bytes
  pub hello_read : (h : Hello) → (k : Confirm) × (json.message (say_hello h) ≡ some (h, k))
  pub reply_read : (r : Reply) → parse (say_reply r) ≡ some (answered r)
  pub confirm_read : (k : Confirm) → (h : Hello) × (json.message (say_confirm k) ≡ some (h, k))

-- What the two sides have said and kept once they are paired.
pub record Paired {I D : Type 0} (c : Crypto) (aead : Aead) (json : Json I D)
    (parse : Bytes → Option Answer) (w : Spoken json parse)
    (me my_eph peer peer_eph other : KeyPair) (pin : Pin) (on_pair : Bool) (s : Server)
    : Type 0 where
  pub done : Accepted
  pub fin : Finished
  pub agreed : Agreed c me peer done fin
  pub speaks :
      connect_step c parse me my_eph pin on_pair connecting opens
      ≡ (said_hello (client_hello c me my_eph) ∷ [], connecting)
  pub replies :
      on_message c aead json peer s new_connection
        (w.say_hello (client_hello c me my_eph))
        false
        peer_eph
      ≡ (replied done.reply ∷ [], (s, record new_connection { pending = some done }))
  pub connects :
      connect_step c parse me my_eph pin on_pair connecting (arrives (w.say_reply done.reply)) ≡ (
        said_confirm fin.confirm ∷ resolve fin.agent_id fin.server_identity ∷ [],
        record connecting {
          channel = some fin.channel;
          agent_id = some fin.agent_id;
          server_identity = some fin.server_identity;
          settled = true;
        },
      )
  pub opens :
      on_message c aead json peer s
        (record new_connection { pending = some done })
        (w.say_confirm fin.confirm)
        false
        other
      ≡ (
        [],
        (
          record s { authenticated = s.authenticated + 1 },
          record new_connection { channel = some done.channel },
        ),
      )

-- Over a faithful socket a client whose identity is allowed and the gateway, with key pairs of the
-- kind that `genIdentity` makes, pair: the gateway replies to the hello, the client, whose pin admits
-- the gateway and which asks no hook, confirms and has a channel, the gateway counts it and has the
-- channel of the same keys, and each knows the other's identity.
pub client_pairs :
    {I D : Type 0} (c : Crypto) (aead : Aead) (json : Json I D) (parse : Bytes → Option Answer)
    (w : Spoken json parse) (me my_eph peer peer_eph other : KeyPair) (pin : Pin) (on_pair : Bool)
    (s : Server)
    → IsKey c me
    → IsKey c my_eph
    → IsKey c peer
    → IsKey c peer_eph
    → is_allowed c (allow_of c peer s.allowlist) me.public_key ≡ true
    → matches_pin c pin peer.public_key ≡ true
    → (is_unpinned pin && on_pair) ≡ false
    → Paired c aead json parse w me my_eph peer peer_eph other pin on_pair s
unfolding on_message on_greeting on_hello on_confirm connect_step on_arrival on_reply establish
    connecting
client_pairs c aead json parse w me my_eph peer peer_eph other pin on_pair s v ve p pe permitted
      pinned silent =
    let (done, fin, e, f, a) =
      handshake_agrees c me my_eph peer peer_eph (allow_of c peer s.allowlist) pin v ve p pe
        permitted pinned in
    let (k, hk) = w.hello_read (client_hello c me my_eph) in
    let (h, hh) = w.confirm_read fin.confirm in
    record {
      done = done;
      fin = fin;
      agreed = a;
      speaks = refl;
      replies = ground (arith, hk, e);
      connects = ground (arith, w.reply_read done.reply, f, silent);
      opens = ground (arith, hh, a.confirmed);
    }
