-- ===== src/Client.antt =====
-- transport/ws-client.mjs: `AgentStream` once it is connected, with its keepalive.
--
-- The socket, the timers and the callbacks are outside: a step takes what happens to the client,
-- and gives what it hands to them. JSON is the parameter `Codec`. A timer is present or not:
-- `_probe` runs when the timer of the next probe fires, and that timer is set only where the timer
-- of an answer has fired or is cleared. The client starts with the channel that `connect` made, which
-- is the module Connect.
pub mod Connect
pub mod Vetted
pub mod Steady
pub mod Liveness
mod Tests
use agent_mobile.Common.{
  Eq, nat_eq, ℕ, suc, ◌+◌, ◌-◌, ◌*◌, ◌%◌, ◌^◌, min, Bool, true, false, Option, none, some, List, [],
  ◌∷◌, ◌++◌, map, ltb, leb, ◌==◌, if◌then◌else◌, length, take, drop, lookup, insert, erase,
}
use agent_mobile.Bytes.{of_be}
use agent_mobile.Channel.{Bytes, Aead, Channel, Frame, sent, refused, send, recv_bytes}
use agent_mobile.Frames.{code, cmd, audio, gap, ping, pong, pack, unpack, pack_audio}

-- The `i` of a message: a number of a command, the -1 of a push, or anything else.
pub data MessageId : Type 0 where
  number : ℕ → MessageId
  minus_one other : MessageId

-- `JSON.stringify({ i, d })` and `JSON.parse`, over payloads `D`.
pub record Codec (D : Type 0) : Type 0 where
  pub stringify : ℕ → D → Bytes
  pub parse : Bytes → Option (MessageId × D)

pub record Client : Type 0 where
  -- the options
  pub base : ℕ
  pub max : ℕ
  pub limit : ℕ
  pub channel : Channel
  pub failures : ℕ
  pub partitioned : Bool
  pub buffer : List Bytes
  pub pending : List (ℕ × Unit {0})
  pub mid : ℕ
  -- the interval of the timer of the next probe, and whether an answer to a probe is waited for
  pub next_timer : Option ℕ
  pub probe_timer : Bool
  -- stats
  pub buffered : ℕ
  pub live : ℕ
  pub flushed : ℕ
  pub probes : ℕ

-- What the client hands out: a frame for the socket, a change of the partition, the answer to a
-- command or its failure, a push, audio, or an exception to the caller.
pub data Effect (D : Type 0) : Type 0 where
  wrote : Bytes → Effect D
  partition_change : Bool → Effect D
  resolved : ℕ → D → Effect D
  timed_out : ℕ → Effect D
  pushed : D → Effect D
  remote_audio : ℕ → Bytes → Effect D
  threw : Effect D

-- `new AgentStream({ base, max, P })`, connected, and `startKeepalive()`
unfoldable pub start : ℕ → ℕ → ℕ → Channel → Client
start base max limit channel = record {
  base = base;
  max = max;
  limit = limit;
  channel = channel;
  failures = 0;
  partitioned = false;
  buffer = [];
  pending = [];
  mid = 0;
  next_timer = some base;
  probe_timer = false;
  buffered = 0;
  live = 0;
  flushed = 0;
  probes = 0;
}

abbrev pub Step : Type 0 → Type 0
Step D = List (Effect D) × Client

module _ {D : Type 0} where
  -- `_emit(frame)`
  unfoldable pub emit : Client → Bytes → Step D
  emit c frame =
      if ltb 0 c.failures
      then ([], record c { buffer = c.buffer ++ (frame ∷ []); buffered = c.buffered + 1 })
      else (wrote frame ∷ [], record c { live = c.live + 1 })

  -- `_flush()`
  unfoldable pub flush : Client → Step D
  flush c = (map wrote c.buffer, record c { buffer = []; flushed = c.flushed + length c.buffer })

  -- `_onLiveness()`; the timers come last, where they do not depend on the order
  unfoldable pub on_liveness : Client → Step D
  on_liveness c =
      let alive = record c { failures = 0; next_timer = some c.base; probe_timer = false } in
      let (es, c') = flush (record alive { partitioned = false }) in
      if c.partitioned then (es ++ (partition_change false ∷ []), c') else ([], alive)

  -- The timeout of `_probe`
  unfoldable pub probe_expires : Client → Step D
  probe_expires c =
      let failures = c.failures + 1 in
      let c' = record c {
        failures = failures;
        next_timer = some (min (c.base * 2 ^ failures) c.max);
        probe_timer = false;
      } in
      if c.partitioned
      then ([], c')
      else if leb c.limit failures
      then (partition_change true ∷ [], record c' { partitioned = true })
      else ([], c')

  -- `_onLivenessClosure()`, when the socket has closed
  unfoldable pub on_liveness_closure : Client → Step D
  on_liveness_closure c = (partition_change true ∷ [], c)

  -- `close()`
  unfoldable pub close : Client → Step D
  close c = ([], record c { next_timer = none; probe_timer = false })

module _ {D : Type 0} (aead : Aead) (codec : Codec D) where
  -- Sealing, and the `pack` around it.
  unfoldable pub seal : Client → Bytes → ℕ → Option (Bytes × Client)
  seal c pt type = elim (send aead c.channel pt type 0) [
    | refused e ↦ none
    | sent ch f ↦ some (pack type f, record c { channel = ch })
  ]

  -- `sendAudio`, `sendGap` and the rest of `cmd`: the frame is sealed and emitted
  unfoldable pub send_data : Client → Bytes → ℕ → Step D
  send_data c pt type = elim (seal c pt type) [
    | none ↦ (threw ∷ [], c)
    | some (frame, c') ↦ emit c' frame
  ]

  unfoldable pub send_audio : Client → ℕ → ℕ → Bytes → Step D
  send_audio c seq ts opus = elim (pack_audio seq ts opus) [
    | none ↦ (threw ∷ [], c)
    | some pt ↦ send_data c pt (code audio)
  ]

  unfoldable pub send_gap : Client → Step D
  send_gap c = send_data c (b'g' ∷ []) (code gap)

  -- `cmd(payload)`: the number is taken also where sealing throws, and is then not waited for
  unfoldable pub command : Client → D → Step D
  command c d =
      let i = c.mid + 1 in
      let counted = record c { mid = i } in
      elim (seal counted (codec.stringify i d) (code cmd)) [
        | none ↦ (threw ∷ [], counted)
        | some (frame, c') ↦ emit (record c' { pending = insert i tt c'.pending }) frame
      ]

  -- The timeout of `cmd`
  unfoldable pub command_expires : Client → ℕ → Step D
  command_expires c i = elim (lookup i c.pending) [
    | none ↦ ([], c)
    | some _ ↦ (timed_out i ∷ [], record c { pending = erase i c.pending })
  ]

  -- `_onFrame`, a command message
  unfoldable pub answer : Client → MessageId → D → Step D
  answer c (number i) d = elim (lookup i c.pending) [
    | none ↦ ([], c)
    | some _ ↦ (resolved i d ∷ [], record c { pending = erase i c.pending })
  ]
  answer c minus_one d = (pushed d ∷ [], c)
  answer c other d = ([], c)

  -- `_onFrame`, the plaintext of an authenticated frame by its type
  unfoldable pub dispatch : Client → ℕ → Bytes → Step D
  dispatch c type pt =
      if type == code pong
      then ([], c)
      else if type == code cmd
      then elim (codec.parse pt) [ none ↦ (threw ∷ [], c) | some (i, d) ↦ answer c i d ]
      else if type == code audio
      then if ltb (length pt) 4
        then (threw ∷ [], c)
        else (remote_audio (of_be (take 4 pt)) (drop 4 pt) ∷ [], c)
      else ([], c)

  -- `_onFrame`, from an authenticated frame on
  unfoldable pub on_opened : Client → ℕ → Bytes → Step D
  on_opened c type pt =
      let (es, c') = (if ltb 0 c.failures then on_liveness c else ([], c)) in
      let (es', c'') = dispatch c' type pt in (es ++ es', c'')

  -- `_onFrame(raw)`
  unfoldable pub on_frame : Client → Bytes → Step D
  on_frame c raw = elim (unpack raw) [
    | none ↦ ([], c)
    | some f ↦
        let (r, ch) = recv_bytes aead c.channel f in
        elim r [
          | none ↦ ([], record c { channel = ch })
          | some pt ↦ on_opened (record c { channel = ch }) f.type pt
        ]
  ]

  -- `_probe()`, when the timer of the next probe fires: a probe that cannot be sealed is the last
  unfoldable pub probe : Client → Step D
  probe c =
      let counted = record c { probes = c.probes + 1; next_timer = none } in
      elim (seal counted [] (code ping)) [
        | none ↦ ([], counted)
        | some (frame, c') ↦ (wrote frame ∷ [], record c' { probe_timer = true })
      ]
