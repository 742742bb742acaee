-- ===== src/Sidecar.antt =====
-- vendor/hermes-plugin/sidecar/index.mjs: the control socket of the adapter.
--
-- A socket is a number, and a chunk a list of bytes; `to_string` is the decoding of a Buffer, of each
-- chunk by itself. JSON is outside: `parse` reads a line, and a line that goes to the adapter is a text. What `handleBridgeMessage` does of a message
-- is outside too: the message is an effect, and the lines that it sends are events of their own.
pub mod Framing
pub mod Chunks
pub mod Order
mod Tests
use agent_mobile.Common.{
  ℕ, zero, suc, ◌+◌, Bool, true, false, Option, none, some, List, [], ◌∷◌, ◌++◌, map, ◌==◌, ◌||◌,
  if◌then◌else◌, lookup, insert, erase, nat_eq, length,
}
use agent_mobile.Channel.{Bytes}
use agent_mobile.Handshake.Base.{Text}
use agent_mobile.HttpGateway.{text_eq}
use agent_mobile.Renderer.{trim}

-- `authed` and `buf` of a connection
pub record AdapterSocket : Type 0 where
  pub authed : Bool
  pub buf : Text

-- `bridge` and `queued`; `destroyed` are the sockets that are destroyed.
pub record Control : Type 0 where
  pub bridge : Option ℕ
  pub queued : List Text
  pub peers : List (ℕ × AdapterSocket)
  pub next_socket : ℕ
  pub destroyed : List ℕ

-- `bridge.write`, `handleBridgeMessage` and `sock.destroy`
pub data Effect (M : Type 0) : Type 0 where
  wrote : ℕ → Text → Effect M
  handled : M → Effect M
  closed : ℕ → Effect M

abbrev pub Controlled : Type 0 → Type 0
Controlled M = List (Effect M) × Control

abbrev pub new_control : Control
new_control = record { bridge = none; queued = []; peers = []; next_socket = 0; destroyed = [] }

abbrev pub new_peer : AdapterSocket
new_peer = record { authed = false; buf = [] }

unfoldable pub is_in : ℕ → List ℕ → Bool
is_in i [] = false
is_in i (j ∷ js) = (j == i) || is_in i js

-- `buf.indexOf('\n')`, with the two slices around it
unfoldable pub cut : Text → Option (Text × Text)
cut [] = none
cut (c ∷ s) =
    let rest = cut s in
    if c == 10
    then some ([], s)
    else (elim rest [ none ↦ none | some (line, t) ↦ some (c ∷ line, t) ])

-- The loop over the lines of `buf`, on fuel: the lines, and what stays in `buf`.
unfoldable pub lines_of : ℕ → Text → List Text × Text
lines_of zero buf = ([], buf)
lines_of (suc fuel) buf = elim (cut buf) [
  | none ↦ ([], buf)
  | some (line, rest) ↦ let (ls, r) = lines_of fuel rest in (line ∷ ls, r)
]

-- `bridge && !bridge.destroyed`
unfoldable pub live : Control → Option ℕ
live c = elim c.bridge [ none ↦ none | some i ↦ if is_in i c.destroyed then none else some i ]

abbrev pub put_peer : ℕ → AdapterSocket → Control → Control
put_peer i p c = record c { peers = insert i p c.peers }

-- A connection is made.
unfoldable pub on_connection : Control → Control
on_connection c = record c {
  peers = insert c.next_socket new_peer c.peers;
  next_socket = c.next_socket + 1;
}

-- `sock.destroy()`, and a socket that the runtime destroys: no more of its data is heard.
unfoldable pub destroy_socket : ℕ → Control → Control
destroy_socket i c = record c { peers = erase i c.peers; destroyed = i ∷ c.destroyed }

-- The listener of 'close'
unfoldable pub on_close : ℕ → Control → Control
on_close i c =
    let c' = destroy_socket i c in
    elim c.bridge [ none ↦ c' | some j ↦ if j == i then record c' { bridge = none } else c' ]

module _ {M : Type 0} where
  -- `toBridge(evt)`
  unfoldable pub to_bridge : Text → Control → Controlled M
  to_bridge line c = elim (live c) [
    | none ↦ ([], record c { queued = c.queued ++ line ∷ [] })
    | some i ↦ (wrote i line ∷ [], c)
  ]

  -- `flushQueued()`
  unfoldable pub flush_queued : Control → Controlled M
  flush_queued c = elim (live c) [
    | none ↦ ([], c)
    | some i ↦ (map (wrote i) c.queued, record c { queued = [] })
  ]

module _ {M : Type 0} (parse : Text → Option M) where
  -- The messages of the lines that parse.
  unfoldable pub handle_lines : List Text → List (Effect M)
  handle_lines [] = []
  handle_lines (l ∷ ls) =
      let rest = handle_lines ls in elim (parse l) [ none ↦ rest | some m ↦ handled m ∷ rest ]

  -- The lines of an accepted connection
  unfoldable pub on_lines : ℕ → Text → Control → Controlled M
  on_lines i buf c =
      let (ls, rest) = lines_of (length buf) buf in
      (handle_lines ls, put_peer i (record { authed = true; buf = rest }) c)

  -- The first line, which has to be the token
  unfoldable pub on_token : Text → ℕ → Text → Control → Controlled M
  on_token token i buf c = elim (cut buf) [
    | none ↦ ([], put_peer i (record { authed = false; buf = buf }) c)
    | some (line, rest) ↦
        if text_eq.beq (trim line) token
        then (let (es, c') = flush_queued (record c { bridge = some i }) in
            let (es', c'') = on_lines i rest c' in (es ++ es', c''))
        else (closed i ∷ [], destroy_socket i c)
  ]

  -- The listener of 'data'
  unfoldable pub on_data : (Bytes → Text) → Text → ℕ → Bytes → Control → Controlled M
  on_data to_string token i chunk c = elim (lookup i c.peers) [
    | none ↦ ([], c)
    | some p ↦
        if p.authed
        then on_lines i (p.buf ++ to_string chunk) c
        else on_token token i (p.buf ++ to_string chunk) c
  ]
