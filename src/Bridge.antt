-- ===== src/Bridge.antt =====
-- www/bridge.js: `__agent` and the listeners of the native plugin.
--
-- The plugin and the page are outside: an event is a tap, a call of the page or what a promise of the
-- plugin gives, and a step says what is asked of the plugin and the page. `_busy` stands beside the
-- promise chain of a toggle. A text is its code units; what throws in a listener of messages is
-- dropped there, so that each listener gets each message. A
-- session comes of a plugin that is there.
pub mod Mic
pub mod Controls
pub mod Ring
mod Tests
use agent_mobile.Common.{
  ℕ, ◌+◌, ◌-◌, Bool, true, false, Option, none, some, List, [], ◌∷◌, ◌++◌, if◌then◌else◌, not, ltb,
}
use agent_mobile.Handshake.Base.{Text}

pub data Mode : Type 0 where
  resume new : Mode

-- Where the chain of a toggle is: it waits for `isAudioRunning`, or for the switch to on or off.
pub data Chain : Type 0 where
  asking : Chain
  switching : Bool → Chain

-- `ensuring` counts the calls of `__ensureMicOn` that wait for `isAudioRunning`.
pub record Bridge : Type 0 where
  pub busy : Bool
  pub chain : Option Chain
  pub ensuring : ℕ
  pub mode : Mode
  pub agent_id : Option Text

pub data Call : Type 0 where
  is_audio_running start_audio stop_audio flush_playback connect : Call
  send : Text → Call

-- A message for the page: what the agent sent, or what the bridge says.
pub data Note : Type 0 where
  payload : Text → Note
  send_failed audio_failed : Note
  partition_note : Bool → Note

pub data Effect : Type 0 where
  calls : Call → Effect
  tells_page : Note → Effect
  -- `__syncAudioCtl` and `__syncLiveCtl`
  sync_audio : Bool → Effect
  sync_live : Effect

pub data Event : Type 0 where
  -- `audioToggle`, where the plugin is there or is not
  tap : Bool → Event
  -- the answer to the chain's `isAudioRunning`, none if it rejects, and that to its switch
  running_is : Option Bool → Event
  switched : Bool → Event
  -- the answer to a call of `__ensureMicOn`
  ensure_hears : Option Bool → Event
  stop_tap : Bool → Event
  bootstrap : Mode → Event
  -- the listeners: a session with its agent, a partition, a message
  session : Option Text → Event
  partition : Bool → Event
  message : Option Text → Event
  -- what comes of a `send`: a reply, no reply, or a failure
  sent_reply : Option Text → Event
  sent_failure : Event

abbrev pub Outcome : Type 0
Outcome = List Effect × Bridge

abbrev pub new_bridge : Bridge
new_bridge = record { busy = false; chain = none; ensuring = 0; mode = resume; agent_id = none }

abbrev pub new_session_command : Text
new_session_command = b'/' ∷ b'n' ∷ b'e' ∷ b'w' ∷ []

abbrev pub greeting : Text
greeting =
    b'h' ∷ b'e' ∷ b'l' ∷ b'l' ∷ b'o' ∷ b' ' ∷ b'f' ∷ b'r' ∷ b'o' ∷ b'm' ∷ b' ' ∷ b'P' ∷ b'i' ∷ b'x'
    ∷ b'e' ∷ b'l' ∷ []

-- `{"cmd":"interrupt"}`
abbrev pub interrupt : Text
interrupt =
    b'{' ∷ b'"' ∷ b'c' ∷ b'm' ∷ b'd' ∷ b'"' ∷ b':' ∷ b'"' ∷ b'i' ∷ b'n' ∷ b't' ∷ b'e' ∷ b'r' ∷ b'r'
    ∷ b'u' ∷ b'p' ∷ b't' ∷ b'"' ∷ b'}' ∷ []

-- `audioToggle()`: where there is no plugin, the call of its method throws with `_busy` set
unfoldable pub audio_toggle : Bridge → Bool → Outcome
audio_toggle b has_plugin =
    if b.busy
    then ([], b)
    else if has_plugin
    then (calls is_audio_running ∷ [], record b { busy = true; chain = some asking })
    else ([], record b { busy = true })

abbrev pub ended : Bridge → Bridge
ended b = record b { busy = false; chain = none }

-- The chain of a toggle, once the plugin says whether the microphone runs
unfoldable pub on_running : Bridge → Option Bool → Outcome
on_running b none = (tells_page audio_failed ∷ [], ended b)
on_running b (some on) = (
  calls (if on then stop_audio else start_audio) ∷ [],
  record b { chain = some (switching (not on)) },
)

unfoldable pub on_switched : Bridge → Bool → Bool → Outcome
on_switched b target okay =
    if okay then (sync_audio target ∷ [], ended b) else (tells_page audio_failed ∷ [], ended b)

-- `__ensureMicOn()`, once the plugin has answered
unfoldable pub on_ensured : Bridge → Option Bool → Outcome
on_ensured b answer =
    if ltb 0 b.ensuring
    then (
      (elim answer [ none ↦ [] | some on ↦ if on then [] else calls start_audio ∷ [] ]),
      record b { ensuring = b.ensuring - 1 },
    )
    else ([], b)

-- `stop()`: the local flush first, where the plugin has it, then the interrupt
unfoldable pub stop : Bool → List Effect
stop has_flush =
    if has_flush
    then calls flush_playback ∷ calls (send interrupt) ∷ []
    else calls (send interrupt) ∷ []

-- The listener of 'session'
unfoldable pub on_session : Bridge → Option Text → Outcome
on_session b none = ([], b)
on_session b (some []) = ([], b)
on_session b (some (x ∷ xs)) = (
  (elim b.mode [ new ↦ calls (send new_session_command) ∷ [] | resume ↦ [] ])
      ++ (calls (send greeting) ∷ calls is_audio_running ∷ sync_live ∷ []),
  record b { agent_id = some (x ∷ xs); ensuring = b.ensuring + 1 },
)

-- A message that is there and not empty goes to the page.
unfoldable pub to_page : Option Text → List Effect
to_page none = []
to_page (some []) = []
to_page (some (x ∷ xs)) = tells_page (payload (x ∷ xs)) ∷ []

unfoldable pub step : Bridge → Event → Outcome
step b (tap has_plugin) = audio_toggle b has_plugin
step b (running_is answer) = elim b.chain [ some asking ↦ on_running b answer | _ ↦ ([], b) ]
step b (switched okay) = elim b.chain [
  | some (switching target) ↦ on_switched b target okay
  | _ ↦ ([], b)
]
step b (ensure_hears answer) = on_ensured b answer
step b (stop_tap has_flush) = (stop has_flush, b)
step b (bootstrap mode) = (calls connect ∷ [], record b { mode = mode })
step b (session id) = on_session b id
step b (partition p) = (tells_page (partition_note p) ∷ [], b)
step b (message m) = (to_page m, b)
step b (sent_reply m) = (to_page m, b)
step b sent_failure = (tells_page send_failed ∷ [], b)

unfoldable pub run : Bridge → List Event → Outcome
run b [] = ([], b)
run b (e ∷ es) = let (fx, b') = step b e in let (fx', b'') = run b' es in (fx ++ fx', b'')
