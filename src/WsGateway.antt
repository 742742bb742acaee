-- ===== src/WsGateway.antt =====
-- transport/ws-gateway.js: the WebSocket gateway of the agent.
--
-- The sockets and JSON are outside: `Json` is what `JSON.parse` and `JSON.stringify` make of the
-- messages, an event brings the bytes of one message, and a handler gives what it hands out. The
-- key pair that `serverHandshake` makes comes with the event. What a handler throws, `catch` drops, with
-- what it changed before. The log is not modelled but for the gaps in the audio numbers.
pub mod Trusted
pub mod Messages
pub mod Runs
pub mod Pairing
mod Tests
use agent_mobile.Common.{
  ℕ, ◌+◌, Bool, true, false, Option, none, some, List, [], ◌∷◌, ◌++◌, ◌==◌, if◌then◌else◌, ◌||◌,
  length, get_elem?, set, not,
}
use agent_mobile.Channel.{Bytes, Aead, Channel, sent, refused, send, recv_bytes}
use agent_mobile.Frames.{code, cmd, audio, gap, ping, pong, pack, unpack, unpack_audio}
use agent_mobile.Handshake.Base.{
  Text, KeyPair, Crypto, Failure, unknown_client, ok, err, equal_bytes, Hello, Reply, Confirm,
  Accepted,
}
use agent_mobile.Handshake.{server_handshake, verify_confirm}

-- A text message as the handshake reads it; a command's `i` and `d`, its answer, and `{ echo: d }`.
pub record Json (I D : Type 0) : Type 0 where
  pub message : Bytes → Option (Hello × Confirm)
  pub parse : Bytes → Option (I × D)
  pub stringify : I → D → Bytes
  pub echo : D → D

-- `state`, and the allowlist, which is none in pairing mode
pub record Server : Type 0 where
  pub allowlist : Option (List Text)
  pub dead : Bool
  pub loopback : Bool
  pub audio_seqs : List ℕ
  pub audio_frames : ℕ
  pub bytes : ℕ
  pub gaps : ℕ
  pub cmds : ℕ
  pub connections : ℕ
  pub authenticated : ℕ
  pub rejected : ℕ
  pub replay_dropped : ℕ
  pub auth_dropped : ℕ

-- What one connection keeps: the channel of a client that has confirmed, and the handshake of one
-- that has not yet.
pub record Connection : Type 0 where
  pub channel : Option Channel
  pub pending : Option Accepted
  pub last_audio_seq : Option ℕ

pub data Effect : Type 0 where
  replied : Reply → Effect
  -- the error message of a failed handshake, and that of a confirmation that fails
  failed : Failure → Effect
  bad_confirm : Effect
  unknown_seen : Hello → Effect
  closed : Effect
  wrote : Bytes → Effect
  seq_gap : ℕ → ℕ → Effect

abbrev pub Handled : Type 0
Handled = List Effect × (Server × Connection)

-- `allowlist.has(text)`
unfoldable pub has : List Text → Text → Bool
has [] t = false
has (id ∷ ids) t = equal_bytes id t || has ids t

-- The gap detector, before `lastAudioSeq` is set.
unfoldable pub gap_seen : Option ℕ → ℕ → List Effect
gap_seen none seq = []
gap_seen (some last) seq = if seq == last + 1 then [] else seq_gap last seq ∷ []

-- `startWsGateway`, and what a new connection starts with
abbrev pub new_server : Option (List Text) → Server
new_server allowlist = record {
  allowlist = allowlist;
  dead = false;
  loopback = false;
  audio_seqs = [];
  audio_frames = 0;
  bytes = 0;
  gaps = 0;
  cmds = 0;
  connections = 0;
  authenticated = 0;
  rejected = 0;
  replay_dropped = 0;
  auth_dropped = 0;
}

abbrev pub new_connection : Connection
new_connection = record { channel = none; pending = none; last_audio_seq = none }

-- `allowClient(idOrSpki)`: a set holds a text once, and in pairing mode there is none.
unfoldable pub with_client : Text → Option (List Text) → Option (List Text)
with_client t none = none
with_client t (some ids) = some (if has ids t then ids else ids ++ (t ∷ []))

abbrev pub allow_client : Text → Server → Server
allow_client t s = record s { allowlist = with_client t s.allowlist }

module _ (crypto : Crypto) (identity : KeyPair) where
  -- `allow`
  abbrev pub allow_of : Option (List Text) → Option (Bytes → Text → Bool)
  allow_of none = none
  allow_of (some ids) = some (λ key id. has ids id || has ids (crypto.encode key))

  -- `catch (e)` of the handshake
  unfoldable pub rejection : Hello → Failure → List Effect
  rejection hello unknown_client = unknown_seen hello ∷ failed unknown_client ∷ closed ∷ []
  rejection hello e = failed e ∷ closed ∷ []

  -- The first message of a connection, and the next while the handshake fails.
  unfoldable pub on_hello : Server → Connection → Hello → KeyPair → Handled
  on_hello s conn hello eph =
      elim (server_handshake crypto identity hello (allow_of s.allowlist) eph) [
        | err e ↦ (rejection hello e, (record s { rejected = s.rejected + 1 }, conn))
        | ok hs ↦ (replied hs.reply ∷ [], (s, record conn { pending = some hs }))
      ]

  unfoldable pub on_confirm : Server → Connection → Accepted → Confirm → Handled
  on_confirm s conn p msg =
      if verify_confirm crypto p.expected_confirm msg
      then (
        [],
        (
          record s { authenticated = s.authenticated + 1 },
          record conn { channel = some p.channel; pending = none },
        ),
      )
      else (bad_confirm ∷ closed ∷ [], (record s { rejected = s.rejected + 1 }, conn))

module _ {I D : Type 0} (crypto : Crypto) (aead : Aead) (json : Json I D) (identity : KeyPair) where
  -- `on('message')` until the client has confirmed
  unfoldable pub on_greeting : Server → Connection → Bytes → Bool → KeyPair → Handled
  on_greeting s conn raw is_binary eph =
      if is_binary then ([], (s, conn)) else elim (json.message raw) [
        | none ↦ ([], (s, conn))
        | some (hello, msg) ↦ elim conn.pending [
          | none ↦ on_hello crypto identity s conn hello eph
          | some p ↦ on_confirm crypto identity s conn p msg
        ]
      ]

  -- `ws.send(pack(type, channel.send(pt, type)))`; a channel that has run out throws
  unfoldable pub transmit : Server → Connection → Channel → Bytes → ℕ → Handled
  transmit s conn ch pt type = elim (send aead ch pt type 0) [
    | refused e ↦ ([], (s, conn))
    | sent ch' f ↦ (wrote (pack type f) ∷ [], (s, record conn { channel = some ch' }))
  ]

  unfoldable pub on_cmd : Server → Connection → Channel → Bytes → Handled
  on_cmd s conn ch pt =
      let counted = record s { cmds = s.cmds + 1 } in
      elim (json.parse pt) [
        | none ↦ ([], (counted, conn))
        | some (i, d) ↦ transmit counted conn ch (json.stringify i (json.echo d)) (code cmd)
      ]

  unfoldable pub on_audio : Server → Connection → Channel → Bytes → Handled
  on_audio s conn ch pt = elim (unpack_audio pt) [
    | none ↦ ([], (s, conn))
    | some (seq, (ts, opus)) ↦
        let heard = record s {
          audio_seqs = s.audio_seqs ++ (seq ∷ []);
          audio_frames = s.audio_frames + 1;
          bytes = s.bytes + length opus;
        } in
        let conn' = record conn { last_audio_seq = some seq } in
        let (es, r) =
          (if s.loopback then transmit heard conn' ch pt (code audio) else ([], (heard, conn'))) in
        (gap_seen conn.last_audio_seq seq ++ es, r)
  ]

  -- A plaintext, by the type of its frame
  unfoldable pub on_opened : Server → Connection → Channel → ℕ → Bytes → Handled
  on_opened s conn ch type pt =
      if type == code ping
      then transmit s conn ch [] (code pong)
      else if type == code cmd
      then on_cmd s conn ch pt
      else if type == code audio
      then on_audio s conn ch pt
      else if type == code gap
      then ([], (record s { gaps = s.gaps + 1 }, conn))
      else ([], (s, conn))

  -- `on('message')` for a client that has confirmed
  unfoldable pub on_frame : Server → Connection → Channel → Bytes → Handled
  on_frame s conn ch raw = if s.dead then ([], (s, conn)) else elim (unpack raw) [
    | none ↦ ([], (s, conn))
    | some f ↦
        let (r, ch') = recv_bytes aead ch f in
        elim r [
          | none ↦ (
            [],
            (
              record s { replay_dropped = ch'.rejected_replay; auth_dropped = ch'.rejected_auth },
              record conn { channel = some ch' },
            ),
          )
          | some pt ↦ on_opened s (record conn { channel = some ch' }) ch' f.type pt
        ]
  ]

  unfoldable pub on_message : Server → Connection → Bytes → Bool → KeyPair → Handled
  on_message s conn raw is_binary eph = elim conn.channel [
    | none ↦ on_greeting s conn raw is_binary eph
    | some ch ↦ on_frame s conn ch raw
  ]

-- The gateway with its connections, in the order in which they came.
pub record Gateway : Type 0 where
  pub server : Server
  pub sockets : List Connection

pub data Event : Type 0 where
  connects : Event
  -- a message on a connection, whether it is binary, and the key pair of a handshake
  message : ℕ → Bytes → Bool → KeyPair → Event
  set_dead set_loopback : Bool → Event
  allow_client_event : Text → Event

module _ {I D : Type 0} (crypto : Crypto) (aead : Aead) (json : Json I D) (identity : KeyPair) where
  unfoldable pub step : Gateway → Event → List Effect × Gateway
  step g connects = (
    [],
    record {
      server = record g.server { connections = g.server.connections + 1 };
      sockets = g.sockets ++ (new_connection ∷ []);
    },
  )
  step g (message i raw is_binary eph) = elim (get_elem? g.sockets i) [
    | none ↦ ([], g)
    | some conn ↦
        let (es, (s, conn')) =
          on_message crypto aead json identity g.server conn raw is_binary eph in
        (es, record { server = s; sockets = set g.sockets i conn' })
  ]
  step g (set_dead b) = ([], record g { server = record g.server { dead = b } })
  step g (set_loopback b) = ([], record g { server = record g.server { loopback = b } })
  step g (allow_client_event t) = ([], record g { server = allow_client t g.server })

  unfoldable pub run : Gateway → List Event → List Effect × Gateway
  run g [] = ([], g)
  run g (e ∷ es) = let (fx, g') = step g e in let (fx', g'') = run g' es in (fx ++ fx', g'')
