-- ===== src/Channel/Keys.antt =====
-- proto.js, `Channel`: using a channel leaves its keys alone.
use agent_mobile.Common.{ℕ, ◌≡◌, refl, ◌∙◌, arith}
use agent_mobile.Channel.{Bytes, Aead, Channel, Frame, sent, send, encrypt, recv_in, recv_bytes}

pub record SameKeys (c d : Channel) : Type 0 where
  pub tx_key : d.tx_key ≡ c.tx_key
  pub rx_key : d.rx_key ≡ c.rx_key
  pub auth_key : d.auth_key ≡ c.auth_key

pub SameKeys-refl : (c : Channel) → SameKeys c c
SameKeys-refl c = record { tx_key = refl; rx_key = refl; auth_key = refl }

pub SameKeys-trans : {a b c : Channel} → SameKeys a b → SameKeys b c → SameKeys a c
SameKeys-trans v w = record {
  tx_key = w.tx_key ∙ v.tx_key;
  rx_key = w.rx_key ∙ v.rx_key;
  auth_key = w.auth_key ∙ v.auth_key;
}

module _ (aead : Aead) where
  pub send-SameKeys :
      (c : Channel) (pt : Bytes) (type stream : ℕ) {c' : Channel} {f : Frame}
      → send aead c pt type stream ≡ sent c' f
      → SameKeys c c'
  unfolding send encrypt
  send-SameKeys c pt type stream h = record {
    tx_key = ground (arith, h);
    rx_key = ground (arith, h);
    auth_key = ground (arith, h);
  }

  pub recv_bytes-SameKeys : (c : Channel) (f : Frame) → SameKeys c (recv_bytes aead c f).1
  unfolding recv_bytes recv_in
  recv_bytes-SameKeys c f = record {
    tx_key = ground arith;
    rx_key = ground arith;
    auth_key = ground arith;
  }
