-- ===== src/Frames/Sealed.antt =====
-- transport/wsframes.js with proto.js: what a channel seals goes over the WebSocket.
use agent_mobile.Common.{ℕ, ◌%◌, ◌<◌, ◌≡◌, ap, ◌∙◌, some, [], ◌∷◌, length, get_or, arith}
use agent_mobile.Channel.{Bytes, Aead, Channel, Frame, sent, send, encrypt, nonce_for}
use agent_mobile.Channel.Nonce.{length-nonce_for}
use agent_mobile.Channel.Fresh.{send-Sends}
use agent_mobile.Frames.{pack, unpack}
use agent_mobile.Frames.Roundtrip.{unpack-pack}

module _ (aead : Aead) where
  type-send :
      (c : Channel) (pt : Bytes) (type stream : ℕ) {c' : Channel} {f : Frame}
      → send aead c pt type stream ≡ sent c' f
      → f.type < 256
  unfolding send encrypt
  type-send c pt type stream h = ground (arith, h)

  tag-send :
      (c : Channel) (pt : Bytes) (type stream : ℕ) {c' : Channel} {f : Frame}
      → send aead c pt type stream ≡ sent c' f
      → length f.tag ≡ 16
  unfolding send encrypt
  tag-send c pt type stream h = ground (
    arith,
    h,
    aead.tag_length c.tx_key (nonce_for stream (get_or c.tx stream 0)) (type % 256 ∷ []) pt,
  )

  -- Every frame that a channel sends is read off the wire as it was sealed, type, nonce, tag and
  -- ciphertext.
  pub unpack-pack-send :
      (c : Channel) (pt : Bytes) (type stream : ℕ) (c' : Channel) (f : Frame)
      → send aead c pt type stream ≡ sent c' f
      → unpack (pack f.type f) ≡ some f
  unpack-pack-send c pt type stream c' f h =
      let sd = send-Sends aead c pt type stream h in
      unpack-pack f (type-send c pt type stream h)
        (ap length sd.nonce ∙ length-nonce_for stream (get_or c.tx stream 0))
        (tag-send c pt type stream h)
