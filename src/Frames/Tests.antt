-- ===== src/Frames/Tests.antt =====
-- transport/wsframes.js: the theorems at concrete inputs.
use agent_mobile.Common.{◌≤◌, ◌<◌, ◌≡◌, ◌⊎◌, refl, none, some, [], ◌∷◌, replicate, arith}
use agent_mobile.Channel.{Bytes, Aead, Channel, Frame, sent, new_channel, encrypt, send, nonce_for}
use agent_mobile.Frames.{header_len, pack, unpack, pack_audio, unpack_audio, code, ping}
use agent_mobile.Frames.Roundtrip.{unpack-pack, pack-unpack, unpack_audio-pack_audio}
use agent_mobile.Frames.Sealed.{unpack-pack-send}

abbrev box : Frame
box = record { type = 3; nonce = replicate 12 1; tag = replicate 16 2; ct = b'h' ∷ b'i' ∷ [] }

unpack-pack_example : unpack (pack (code ping) box) ≡ some box
unpack-pack_example = unpack-pack box (omega arith) refl refl

pack-unpack_example :
    ((31 < header_len) × (unpack (replicate 31 0) ≡ none))
    ⊎ ((header_len ≤ 31)
        × ((f : Frame) × (unpack (replicate 31 0) ≡ some f) × (pack f.type f ≡ replicate 31 0)))
pack-unpack_example = pack-unpack (replicate 31 0) (omega arith)

unpack_audio-pack_audio_example :
    (buf : Bytes) × (pack_audio 7 160 (b'o' ∷ []) ≡ some buf)
    × (unpack_audio buf ≡ some (7, (160, b'o' ∷ [])))
unpack_audio-pack_audio_example =
    unpack_audio-pack_audio 7 160 (b'o' ∷ []) (omega arith) (omega arith)

-- A cipher that hides nothing.
abbrev plain : Aead
plain = record {
  seal = λ key nonce aad pt. (pt, replicate 16 0);
  unseal = λ key nonce aad ct tag. some ct;
  unseal-seal = λ key nonce aad pt. refl;
  tag_length = λ key nonce aad pt. refl;
}

abbrev phone : Channel
phone = new_channel (replicate 32 1) (replicate 32 2) (replicate 32 3)

abbrev hello : Frame
hello = encrypt plain (replicate 32 1) (nonce_for 0 0) 1 (b'x' ∷ [])

unpack-pack-send_example : unpack (pack hello.type hello) ≡ some hello
unpack-pack-send_example =
    unpack-pack-send plain phone (b'x' ∷ []) 1 0 (record phone { tx = 1 ∷ 0 ∷ 0 ∷ 0 ∷ [] }) hello
      made
  where
    made : send plain phone (b'x' ∷ []) 1 0 ≡ sent (record phone { tx = 1 ∷ 0 ∷ 0 ∷ 0 ∷ [] }) hello
    made = unfold send new_channel encrypt in refl
