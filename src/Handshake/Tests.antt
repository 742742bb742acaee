-- ===== src/Handshake/Tests.antt =====
-- proto.js: the handshake at concrete keys.
use agent_mobile.Common.{ℕ, ◌≡◌, refl, Bool, true, false, Option, some, List, [], ◌∷◌, arith}
use agent_mobile.Channel.{Bytes}
use agent_mobile.Channel.Fresh.{Message}
use agent_mobile.Channel.Delivery.{deliver, arrived}
use agent_mobile.Handshake.Plain.{plain_crypto, plain_aead, pair, pair-IsKey}
use agent_mobile.Handshake.Base.{ok, equal_bytes, Accepted, Finished, buffer}
use agent_mobile.Handshake.{client_hello, server_handshake, client_finish}
use agent_mobile.Handshake.Agreement.{Agreed, handshake_agrees}
use agent_mobile.Handshake.Pinned.{Authentic, client_finish-Authentic}
use agent_mobile.Handshake.Delivers.{both_channels_deliver}

-- Phone 1 with ephemeral key 3, agent 2 with 4, which knows the phone; the phone has pinned the agent.
abbrev allow : Option (Bytes → List ℕ → Bool)
allow = some (λ key id. equal_bytes key (1 ∷ []))

handshake_agrees_example :
    (done : Accepted) × (fin : Finished) × (server_handshake plain_crypto
        (pair 2)
        (client_hello plain_crypto (pair 1) (pair 3))
        allow
        (pair 4)
      ≡ ok done)
    × (client_finish plain_crypto
          (pair 1)
          (pair 3)
          (client_hello plain_crypto (pair 1) (pair 3))
          done.reply
          (buffer (2 ∷ []))
        ≡ ok fin)
    × Agreed plain_crypto (pair 1) (pair 2) done fin
handshake_agrees_example =
    handshake_agrees plain_crypto (pair 1) (pair 3) (pair 2) (pair 4) allow (buffer (2 ∷ []))
      (pair-IsKey 1) (pair-IsKey 3) (pair-IsKey 2) (pair-IsKey 4) (unfold equal_bytes in refl)
      (unfold equal_bytes in refl)

abbrev done : Accepted
done = handshake_agrees_example.0

abbrev fin : Finished
fin = handshake_agrees_example.1

client_finish-Authentic_example :
    Authentic plain_crypto
      (pair 1)
      (pair 3)
      (client_hello plain_crypto (pair 1) (pair 3))
      done.reply
      (buffer (2 ∷ []))
      fin
client_finish-Authentic_example =
    client_finish-Authentic plain_crypto (pair 1) (pair 3)
      (client_hello plain_crypto (pair 1) (pair 3)) done.reply (buffer (2 ∷ [])) fin
      handshake_agrees_example.3

-- A lost message and one that arrives.
abbrev lost_then_kept : List (Bool × Message)
lost_then_kept = (false, (5 ∷ [], 1, 0)) ∷ (true, (6 ∷ 7 ∷ [], 1, 0)) ∷ []

both_channels_deliver_example :
    (deliver plain_aead fin.channel done.channel lost_then_kept ≡ arrived lost_then_kept)
    × (deliver plain_aead done.channel fin.channel lost_then_kept ≡ arrived lost_then_kept)
both_channels_deliver_example =
    both_channels_deliver plain_aead plain_crypto (pair 1) (pair 2) done fin lost_then_kept
      handshake_agrees_example.4 (omega arith, (omega arith, tt)) (omega arith)
