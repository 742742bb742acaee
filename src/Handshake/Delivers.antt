-- ===== src/Handshake/Delivers.antt =====
-- proto.js: the channels that a handshake leaves carry messages both ways.
use agent_mobile.Common.{
  ℕ, ◌+◌, ◌≤◌, ◌<◌, ◌≡◌, refl, subst, Bool, List, length, get_or, replicate, arith,
  length-replicate, get_or-replicate, get_elem?-replicate,
}
use agent_mobile.Replay.{Window, new_window}
use agent_mobile.Channel.{Bytes, Aead, new_channel, max_streams, max_counter, replay_window}
use agent_mobile.Channel.Fresh.{Message}
use agent_mobile.Channel.Delivery.{Synced, deliver, deliver-arrived, arrived, OnStreams}
use agent_mobile.Handshake.Base.{KeyPair, Crypto, Accepted, Finished, Role, client, agent}
use agent_mobile.Handshake.{channel_for}
use agent_mobile.Handshake.Agreement.{Agreed}

-- New channels of which one receives with the other's sending key.
new_channel-Synced : (k x a y a' : Bytes) → Synced (new_channel k x a) (new_channel y k a')
unfolding new_channel
new_channel-Synced k x a y a' = record {
  keys = refl;
  counters = length-replicate {A = ℕ} max_streams 0;
  windows = length-replicate max_streams (new_window replay_window);
  behind = λ i w h.
      subst (λ (u : Window). u.top ≤ get_or (replicate max_streams 0) i 0)
        (get_elem?-replicate max_streams i (new_window replay_window) h)
        (unfold new_window in omega arith);
}

pub channel_for-Synced :
    (k : Bytes)
    → Synced (channel_for client k) (channel_for agent k)
      × Synced (channel_for agent k) (channel_for client k)
unfolding channel_for
channel_for-Synced k = (new_channel-Synced _ _ _ _ _, new_channel-Synced _ _ _ _ _)

pub tx-channel_for : (r : Role) (k : Bytes) → (channel_for r k).tx ≡ replicate max_streams 0
unfolding channel_for new_channel
tx-channel_for client k = refl
tx-channel_for agent k = refl

-- After a handshake on which the two sides agree, in either direction: whatever frames are lost, the
-- other side opens exactly those that arrive, in the order of sending; for messages on valid
-- streams, and fewer of them than a counter holds.
pub both_channels_deliver :
    (aead : Aead) (c : Crypto) (me peer : KeyPair) (done : Accepted) (fin : Finished)
    (ms : List (Bool × Message))
    → Agreed c me peer done fin
    → OnStreams ms
    → length ms ≤ max_counter
    → (deliver aead fin.channel done.channel ms ≡ arrived ms)
      × (deliver aead done.channel fin.channel ms ≡ arrived ms)
both_channels_deliver aead c me peer done fin ms v valid few =
    rw (v.accepted, v.finished)
      (
        deliver-arrived aead ms (channel_for client v.keys) (channel_for agent v.keys)
            (channel_for-Synced v.keys).0 valid (room client),
        deliver-arrived aead ms (channel_for agent v.keys) (channel_for client v.keys)
            (channel_for-Synced v.keys).1 valid (room agent),
      )
  where
    room :
        (r : Role) (i : ℕ)
        → i < max_streams
        → get_or (channel_for r v.keys).tx i 0 + length ms ≤ max_counter
    room r i small =
        rw (tx-channel_for r v.keys) (omega (arith, few, get_or-replicate {A = ℕ} max_streams i 0))
