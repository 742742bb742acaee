-- ===== src/HttpGateway/Agent.antt =====
-- gateway.js: the replies of the mock agent, by the message that the client has sent.
use agent_mobile.Common.{
  Bool, true, false, Option, none, some, List, [], ◌∷◌, ◌==◌, if◌then◌else◌, ◌||◌, ◌&&◌,
}
use agent_mobile.Handshake.Base.{Text}

-- What `JSON.parse` makes of a plaintext, as far as `agentReply` looks; a plaintext that is no JSON is
-- a text message, and `args.filter` is a text where it is there.
pub data AgentMessage : Type 0 where
  script : AgentMessage
  render : Option Text → AgentMessage
  -- `type: 'action'` with its `rpc`
  action : Text → AgentMessage
  text_message other_message : AgentMessage
  null_message : AgentMessage

pub record Transaction : Type 0 where
  pub title : Text
  pub subtitle : Text

-- The script is the malicious bundle; the others are renders.
pub data AgentReply : Type 0 where
  malicious_bundle : AgentReply
  transactions_ui : List Transaction → AgentReply
  channel_works : AgentReply

-- `agentModel.transactions`
abbrev pub transactions : List Transaction
transactions =
    record {
      title = b'R' ∷ b'o' ∷ b'g' ∷ b'e' ∷ b'r' ∷ b's' ∷ [];
      subtitle = b'-' ∷ b'$' ∷ b'8' ∷ b'4' ∷ b'.' ∷ b'2' ∷ b'0' ∷ [];
    }
    ∷ record {
      title = b'F' ∷ b'r' ∷ b'e' ∷ b's' ∷ b'h' ∷ b'C' ∷ b'o' ∷ [];
      subtitle = b'-' ∷ b'$' ∷ b'3' ∷ b'2' ∷ b'.' ∷ b'1' ∷ b'0' ∷ [];
    }
    ∷ record {
      title = b'N' ∷ b'e' ∷ b't' ∷ b'f' ∷ b'l' ∷ b'i' ∷ b'x' ∷ [];
      subtitle = b'-' ∷ b'$' ∷ b'1' ∷ b'6' ∷ b'.' ∷ b'4' ∷ b'9' ∷ [];
    }
    ∷ []

unfoldable pub is_prefix : Text → Text → Bool
is_prefix [] ys = true
is_prefix (x ∷ xs) [] = false
is_prefix (x ∷ xs) (y ∷ ys) = if x == y then is_prefix xs ys else false

-- `text.includes(part)`
unfoldable pub includes : Text → Text → Bool
includes [] part = is_prefix part []
includes (x ∷ xs) part = is_prefix part (x ∷ xs) || includes xs part

unfoldable pub filtered : Text → List Transaction → List Transaction
filtered part [] = []
filtered part (t ∷ ts) = if includes t.subtitle part then t ∷ filtered part ts else filtered part ts

-- `transactionsUI(filter)`: a filter that is missing or empty keeps all.
unfoldable pub transactions_of : Option Text → AgentReply
transactions_of none = transactions_ui transactions
transactions_of (some []) = transactions_ui transactions
transactions_of (some (x ∷ xs)) = transactions_ui (filtered (x ∷ xs) transactions)

abbrev pub probe_rpc : Text
probe_rpc = b'p' ∷ b'r' ∷ b'o' ∷ b'b' ∷ b'e' ∷ []

unfoldable pub is_probe : Text → Bool
is_probe rpc = is_prefix rpc probe_rpc && is_prefix probe_rpc rpc

-- `agentReply(msg)`, which throws of null
unfoldable pub agent_reply : AgentMessage → Option AgentReply
agent_reply null_message = none
agent_reply script = some malicious_bundle
agent_reply (render filter) = some (transactions_of filter)
agent_reply (action rpc) = if is_probe rpc then some channel_works else some (transactions_of none)
agent_reply text_message = some (transactions_of none)
agent_reply other_message = some (transactions_of none)
