-- ===== src/Wire.antt =====
-- vendor/hermes-plugin/sidecar/wire.mjs: `sendFrame`, the one place where the sidecar writes to a
-- phone's socket.
--
-- The socket is outside: its state, and whether `ws.send` throws, are arguments. Of the connection
-- the count `__drops` is kept; the texts of the log are given by what they are built from.
pub mod Reports
mod Tests
use Prim.Native.String.{String}
use agent_mobile.Common.{
  ℕ, suc, ◌+◌, ◌%◌, Bool, true, false, List, [], ◌∷◌, ◌++◌, ◌==◌, if◌then◌else◌,
}

-- `wsState(ws)`
pub data WsState : Type 0 where
  missing connecting opened closing closed : WsState
  ready_state : ℕ → WsState

abbrev pub is_open : WsState → Bool
is_open missing = false
is_open connecting = false
is_open opened = true
is_open closing = false
is_open closed = false
is_open (ready_state n) = false

pub data Log : Type 0 where
  -- what, the state, and how many frames were not delivered
  not_sent : String → WsState → ℕ → Log
  failed : String → Log

-- `everyNth || 50`, and `quietWhenClosed`
pub record Options : Type 0 where
  pub every_nth : ℕ
  pub quiet_when_closed : Bool

abbrev pub nth_of : Options → ℕ
nth_of o = if o.every_nth == 0 then 50 else o.every_nth

-- Whether the frame reached the socket, what is logged, and `__drops`.
pub record Result : Type 0 where
  pub ok : Bool
  pub logs : List Log
  pub drops : ℕ

unfoldable pub send_frame : WsState → Bool → String → Options → ℕ → Result
send_frame state throws what o drops =
    let n = drops + 1 in
    let said = not_sent what state n ∷ [] in
    let logs =
      (if o.quiet_when_closed
        then if n == 1 then said else if n % nth_of o == 0 then said else []
        else said) in
    if is_open state
    then if throws
      then record { ok = false; logs = failed what ∷ []; drops = drops }
      else record { ok = true; logs = []; drops = drops }
    else record { ok = false; logs = logs; drops = n }
