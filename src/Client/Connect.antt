-- ===== src/Client/Connect.antt =====
-- transport/ws-client.mjs: `connect`, from the opening of the socket to the channel.
--
-- The socket, the promise and the `onPair` hook are outside: an event brings what they do, and a step
-- gives what they are asked. While the hook is awaited other messages may come, so that several
-- may be awaited at once. Messages after the channel go to `_onFrame`, which Client.antt models.
use agent_mobile.Common.{
  ℕ, Bool, true, false, Option, none, some, List, [], ◌∷◌, ◌++◌, if◌then◌else◌, ◌&&◌, get_elem?,
}
use agent_mobile.Channel.{Bytes, Channel}
use agent_mobile.Handshake.Base.{
  Text, KeyPair, Crypto, Failure, ok, err, Hello, Reply, Confirm, Finished, Pin, none_pinned, text,
  buffer,
}
use agent_mobile.Handshake.{client_hello, client_finish}

-- What `JSON.parse` makes of a message: the error that it carries, or the reply.
pub data Answer : Type 0 where
  gateway_error : Text → Answer
  answered : Reply → Answer

pub data Rejection : Type 0 where
  gateway : Text → Rejection
  handshake : Failure → Rejection
  pairing_declined : Rejection
  socket_error : Rejection
  closed_before_handshake : Rejection

-- `asked` are the handshakes that were put to the hook, in order.
pub record Connecting : Type 0 where
  pub channel : Option Channel
  pub agent_id : Option Text
  pub server_identity : Option Bytes
  pub settled : Bool
  pub asked : List Finished

pub data ConnectEvent : Type 0 where
  opens : ConnectEvent
  arrives : Bytes → ConnectEvent
  -- which call of the hook returns, and what; a hook that throws gives false
  hook_returns : ℕ → Bool → ConnectEvent
  fails closes : ConnectEvent

pub data ConnectEffect : Type 0 where
  said_hello : Hello → ConnectEffect
  said_confirm : Confirm → ConnectEffect
  ask_hook : Bytes → Text → ConnectEffect
  resolve : Text → Bytes → ConnectEffect
  reject : Rejection → ConnectEffect
  close_socket : ConnectEffect
  -- `_onFrame` and `_onLivenessClosure`
  to_on_frame : Bytes → ConnectEffect
  to_on_liveness_closure : ConnectEffect

abbrev pub Connected : Type 0
Connected = List ConnectEffect × Connecting

unfoldable pub connecting : Connecting
connecting = record {
  channel = none;
  agent_id = none;
  server_identity = none;
  settled = false;
  asked = [];
}

-- `!this.expectServerIdentity`
abbrev pub is_unpinned : Pin → Bool
is_unpinned none_pinned = true
is_unpinned (buffer _) = false
is_unpinned (text []) = true
is_unpinned (text (_ ∷ _)) = false

-- `fail(err)`
unfoldable pub fail : Connecting → Rejection → Connected
fail s e =
    if s.settled then ([], s) else (close_socket ∷ reject e ∷ [], record s { settled = true })

-- The end of the handler, once the client is satisfied.
unfoldable pub establish : Connecting → Finished → Connected
establish s fin = (
  said_confirm fin.confirm ∷ resolve fin.agent_id fin.server_identity ∷ [],
  record s {
    channel = some fin.channel;
    agent_id = some fin.agent_id;
    server_identity = some fin.server_identity;
    settled = true;
  },
)

module _ (c : Crypto) (parse : Bytes → Option Answer) (identity eph : KeyPair) (pin : Pin)
    (on_pair : Bool) where
  -- A reply, from `clientFinish` to the call of the hook
  unfoldable pub on_reply : Connecting → Reply → Connected
  on_reply s reply = elim (client_finish c identity eph (client_hello c identity eph) reply pin) [
    | err e ↦ fail s (handshake e)
    | ok fin ↦
        if is_unpinned pin && on_pair
        then (
          ask_hook fin.server_identity fin.agent_id ∷ [],
          record s { asked = s.asked ++ (fin ∷ []) },
        )
        else establish s fin
  ]

  -- `ws.on('message')`
  unfoldable pub on_arrival : Connecting → Bytes → Connected
  on_arrival s raw = elim s.channel [
    | some _ ↦ (to_on_frame raw ∷ [], s)
    | none ↦ elim (parse raw) [
      | none ↦ ([], s)
      | some (gateway_error t) ↦ fail s (gateway t)
      | some (answered reply) ↦ on_reply s reply
    ]
  ]

  unfoldable pub connect_step : Connecting → ConnectEvent → Connected
  connect_step s opens = (said_hello (client_hello c identity eph) ∷ [], s)
  connect_step s (arrives raw) = on_arrival s raw
  connect_step s (hook_returns n okay) = elim (get_elem? s.asked n) [
    | none ↦ ([], s)
    | some fin ↦ if okay then establish s fin else fail s pairing_declined
  ]
  connect_step s fails = fail s socket_error
  connect_step s closes = elim s.channel [
    | some _ ↦ (to_on_liveness_closure ∷ [], s)
    | none ↦ fail s closed_before_handshake
  ]

  unfoldable pub connect_run : Connecting → List ConnectEvent → Connected
  connect_run s [] = ([], s)
  connect_run s (e ∷ es) =
      let (fx, s') = connect_step s e in let (fx', s'') = connect_run s' es in (fx ++ fx', s'')
