-- ===== src/Channel/Refused.antt =====
-- proto.js, `Channel.recvBytes`: frames that are not opened.
use agent_mobile.Common.{◌≡◌, refl, none, List, [], ◌∷◌, arith}
use agent_mobile.Channel.{Aead, Channel, Frame, recv_in, recv_bytes, recv_all}

-- The channels agree but for what they count of refused frames.
pub record Alike (c d : Channel) : Type 0 where
  pub rx_key : c.rx_key ≡ d.rx_key
  pub rx : c.rx ≡ d.rx
  pub tx : c.tx ≡ d.tx

module _ (aead : Aead) where
  -- What is read off a frame depends on what the channels agree on.
  recv_bytes-Alike :
      (c d : Channel) (f : Frame)
      → Alike c d
      → ((recv_bytes aead c f).0 ≡ (recv_bytes aead d f).0)
        × Alike (recv_bytes aead c f).1 (recv_bytes aead d f).1
  unfolding recv_bytes recv_in
  recv_bytes-Alike c d f v = (
    ground (arith, v.rx_key, v.rx),
    record {
      rx_key = ground (arith, v.rx_key, v.rx);
      rx = ground (arith, v.rx_key, v.rx);
      tx = ground (arith, v.rx_key, v.rx, v.tx);
    },
  )

  recv_all-Alike :
      (c d : Channel) (fs : List Frame)
      → Alike c d
      → (recv_all aead c fs).0 ≡ (recv_all aead d fs).0
  unfolding recv_all
  recv_all-Alike c d [] v = refl
  recv_all-Alike c d (f ∷ fs) v =
      let (e, w) = recv_bytes-Alike c d f v in
      rw (e, recv_all-Alike (recv_bytes aead c f).1 (recv_bytes aead d f).1 fs w) refl

  refused-Alike :
      (c : Channel) (f : Frame) → (recv_bytes aead c f).0 ≡ none → Alike (recv_bytes aead c f).1 c
  unfolding recv_bytes recv_in
  refused-Alike c f h = record {
    rx_key = ground (arith, h);
    rx = ground (arith, h);
    tx = ground (arith, h);
  }

  -- A frame that gives no plaintext, whether forged, malformed, replayed or too old, does not change
  -- what is made of any frames that follow it.
  pub refused_is_harmless :
      (c : Channel) (f : Frame) (fs : List Frame)
      → (recv_bytes aead c f).0 ≡ none
      → (recv_all aead (recv_bytes aead c f).1 fs).0 ≡ (recv_all aead c fs).0
  refused_is_harmless c f fs h = recv_all-Alike (recv_bytes aead c f).1 c fs (refused-Alike c f h)
