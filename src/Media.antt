-- ===== src/Media.antt =====
-- transport/udp-media.js: `UdpMedia`, the voice over UDP.
--
-- The socket and the clock are outside: a step takes the datagram and the time, and gives what it
-- emits and sends. An exception in the handler is the 'error' event that `start` makes of it; one in
-- `send` gives nothing.
-- `start` and `close` handle the socket only.
pub mod Received
mod Tests
use Prim.Native.String.{String}
use agent_mobile.Common.{
  Eq, string_eq, ℕ, zero, suc, ◌+◌, ◌*◌, ◌/◌, ◌%◌, ◌^◌, Bool, true, false, Option, none, some, List,
  [], ◌∷◌, ◌++◌, map, ltb, ◌==◌, if◌then◌else◌, length, take, drop, get_or,
}
use agent_mobile.Bytes.{to_be, of_be}
use agent_mobile.Channel.{Bytes, Aead, Channel, Frame, sent, refused, send, recv_bytes}
use agent_mobile.Frames.{code, audio, pack, unpack}
use agent_mobile.Jitter.{Estimator, Config, Buffer, Out, play, conceal, new_buffer, push, tick}
use agent_mobile.Jitter.Pump.{drain}

-- `rinfo`
pub record Peer : Type 0 where
  pub address : String
  pub port : ℕ

-- A frame in the jitter buffer: its kind and its bytes.
abbrev pub Voice : Type 0
Voice = ℕ × Bytes

pub record Media (N : Type 0) : Type 0 where
  pub channel : Channel
  pub allow : Peer → Bool
  pub respond_to_probes : Bool
  pub jb : Option (Buffer N Voice)
  pub first_req : Option Peer
  pub last_kind : ℕ
  pub last_ts_ms : ℕ

-- The events, and a datagram for the socket.
pub data Event : Type 0 where
  authfail : Peer → Event
  peer : Peer → Event
  -- seq and sender
  probe : ℕ → Peer → Event
  -- kind, seq, tsMs, frame, concealed
  media : ℕ → ℕ → Option ℕ → Option Bytes → Bool → Event
  -- kind, seq, tsMs, sender
  rcv : ℕ → ℕ → ℕ → Peer → Event
  datagram : Bytes → Peer → Event
  threw : Event

abbrev pub Step : Type 0 → Type 0
Step N = List Event × Media N

-- `new AdaptiveJitterBuffer({ frameMs: 20 })`
abbrev pub defaults : Config
defaults = record {
  baseline = 6;
  max_frames = 60;
  frame_ms = 20;
  max_hold_ms = 80;
  rehold_ms = 100;
}

abbrev pub stream_udp : ℕ
stream_udp = 1

-- `new UdpMedia({ channel, allow, respondToProbes })`
unfoldable pub new_media : {N : Type 0} → Channel → (Peer → Bool) → Bool → Media N
new_media channel allow respond = record {
  channel = channel;
  allow = allow;
  respond_to_probes = respond;
  jb = none;
  first_req = none;
  last_kind = 0;
  last_ts_ms = 0;
}

-- `Number(n)`: the double next to an integer, and of two the one whose last bit is 0. A double has 53
-- bits, so below 2^53 it is the integer, and with more bits it is a multiple of `m`.
abbrev pub half_even : ℕ → ℕ → ℕ
half_even n m =
    let q = n / m in
    let r = n % m in
    if ltb (2 * r) m then q else if ltb m (2 * r) then q + 1 else if q % 2 == 0 then q else q + 1

unfoldable pub double_from : ℕ → ℕ → ℕ → ℕ
double_from zero m n = m * half_even n m
double_from (suc k) m n =
    let more = double_from k (2 * m) n in if ltb n (2 ^ 53 * m) then m * half_even n m else more

-- For 64 bits, eleven doublings.
unfoldable pub to_number : ℕ → ℕ
to_number n = double_from 11 1 n

-- The plaintext of a datagram: kind, seq and tsMs in thirteen bytes, then the voice bytes. A number
-- that does not fit is a RangeError; `body[0] = kind` keeps the low byte.
unfoldable pub body : ℕ → ℕ → ℕ → Bytes → Option Bytes
body kind seq ts opus =
    if ltb seq (2 ^ 32)
    then if ltb ts (2 ^ 64)
      then some ((kind % 256 ∷ []) ++ (to_be 4 seq ++ (to_be 8 ts ++ opus)))
      else none
    else none

abbrev pub media_of : ℕ → Out Voice → Event
media_of last_kind (play seq (kind, opus) ts) = media kind seq (some ts) (some opus) false
media_of last_kind (conceal seq) = media last_kind seq none none true

abbrev pub same_peer : Peer → Peer → Bool
same_peer a b = if string_eq.beq a.address b.address then a.port == b.port else false

module _ {N : Type 0} where
  -- `pump(nowMs)`, with fuel for every buffered frame and two more pulls
  unfoldable pub pump : Media N → ℕ → Step N
  pump m now = elim m.jb [
    | none ↦ ([], m)
    | some b ↦
        let (os, b') = drain (length b.buf + 2) b now in
        (map (media_of m.last_kind) os, record m { jb = some b' })
  ]

  -- The interval that `start` sets.
  unfoldable pub tick_media : Media N → Media N
  tick_media m = record m { jb = elim m.jb [ none ↦ none | some b ↦ some (tick b) ] }

  -- `_onDatagram`, the reply peer
  unfoldable pub learn : Media N → Peer → Step N
  learn m from = elim m.first_req [
    | none ↦ (peer from ∷ [], record m { first_req = some from })
    | some prev ↦
        if same_peer prev from
        then ([], m)
        else (peer from ∷ [], record m { first_req = some from })
  ]

module _ {N : Type 0} (aead : Aead) where
  -- `ack` and `send`: the body is sealed on the stream of UDP and sent, unless something throws.
  unfoldable pub send_body : Media N → Option Bytes → Peer → Option (Step N)
  send_body m none to = none
  send_body m (some pt) to = elim (send aead m.channel pt (code audio) stream_udp) [
    | refused _ ↦ none
    | sent ch f ↦ some (datagram (pack (code audio) f) to ∷ [], record m { channel = ch })
  ]

  -- `send({ kind, seq, tsMs, opus, addr, port })`, with an address
  unfoldable pub send_media : Media N → ℕ → ℕ → ℕ → Bytes → Peer → Option (Step N)
  send_media m kind seq ts opus to = send_body m (body kind seq ts opus) to

  -- `ack({ to, seq })` at the time `now`
  unfoldable pub ack : Media N → Peer → ℕ → ℕ → Option (Step N)
  ack m to seq now = send_body m (body 2 seq now []) to

  -- `_onDatagram`, a probe: an exception of `ack` leaves the handler
  unfoldable pub on_probe : Media N → ℕ → Peer → ℕ → Step N
  on_probe m seq from now =
      if m.respond_to_probes
      then elim (ack m from seq now) [
        | none ↦ (threw ∷ [], m)
        | some (es, m') ↦ (es ++ (probe seq from ∷ []), m')
      ]
      else (probe seq from ∷ [], m)

module _ {N : Type 0} (est : Estimator N) where
  -- `_onDatagram`, a frame of voice
  unfoldable pub on_voice : Media N → ℕ → ℕ → ℕ → Bytes → Peer → ℕ → Step N
  on_voice m kind seq ts opus from now =
      let b : Buffer N Voice = elim m.jb [ none ↦ new_buffer est defaults | some b ↦ b ] in
      let pumped =
        pump
          (record m {
            jb = some (push est b seq ts (kind, opus));
            last_kind = kind;
            last_ts_ms = ts;
          })
          now in
      (pumped.0 ++ (rcv kind seq ts from ∷ []), pumped.1)

module _ {N : Type 0} (aead : Aead) (est : Estimator N) where
  -- `_onDatagram`, an authentic plaintext of at least thirteen bytes
  unfoldable pub on_plain : Media N → Bytes → Peer → ℕ → Step N
  on_plain m pt from now =
      let kind = get_or pt 0 0 in
      let seq = of_be (take 4 (drop 1 pt)) in
      let (es, m') = learn m from in
      let (es', m'') =
        (if kind == 2
          then on_probe aead m' seq from now
          else on_voice est m' kind seq (to_number (of_be (take 8 (drop 5 pt)))) (drop 13 pt) from
              now) in
      (es ++ es', m'')

  -- `_onDatagram(msg, rinfo)`
  unfoldable pub on_datagram : Media N → Bytes → Peer → ℕ → Step N
  on_datagram m msg from now =
      if m.allow from
      then elim (unpack msg) [
        | none ↦ (authfail from ∷ [], m)
        | some f ↦
            let (r, ch) = recv_bytes aead m.channel f in
            let m' = record m { channel = ch } in
            elim r [
              | none ↦ (authfail from ∷ [], m')
              | some pt ↦ if ltb (length pt) 13 then ([], m') else on_plain m' pt from now
            ]
      ]
      else ([], m)
