-- ===== src/Frames.antt =====
-- transport/wsframes.js: the frames on the WebSocket and the audio plaintext.
--
-- A frame is `[type u8][nonce 12][tag 16][ciphertext]`. What throws gives nothing; `unpack`'s test
-- for a Buffer is the type here. `T` and `RT` are the routing codes.
pub mod Roundtrip
pub mod Sealed
mod Tests
use agent_mobile.Common.{
  ℕ, ◌+◌, ◌%◌, ◌^◌, Bool, Option, none, some, List, [], ◌∷◌, ◌++◌, ltb, if◌then◌else◌, length, take,
  drop, get_or,
}
use agent_mobile.Bytes.{to_be, of_be}
use agent_mobile.Channel.{Bytes, Frame}

-- `T`, as the codes go on the wire.
pub data FrameType : Type 0 where
  cmd audio gap ping pong : FrameType

abbrev pub code : FrameType → ℕ
code cmd = 0
code audio = 1
code gap = 2
code ping = 3
code pong = 4

abbrev pub header_len : ℕ
header_len = 29

-- `pack(type, box)`; `Buffer.from([type])` keeps the low byte.
unfoldable pub pack : ℕ → Frame → Bytes
pack type box = (type % 256 ∷ []) ++ (box.nonce ++ (box.tag ++ box.ct))

unfoldable pub unpack : Bytes → Option Frame
unpack buf =
    if ltb (length buf) header_len
    then none
    else some (record {
      type = get_or buf 0 0;
      nonce = take 12 (drop 1 buf);
      tag = take 16 (drop 13 buf);
      ct = drop 29 buf;
    })

-- `packAudio(seq, tsMs, opusBytes)`: a number that does not fit is a RangeError.
unfoldable pub pack_audio : ℕ → ℕ → Bytes → Option Bytes
pack_audio seq ts opus =
    if ltb seq (2 ^ 32)
    then if ltb ts (2 ^ 64) then some (to_be 4 seq ++ (to_be 8 ts ++ opus)) else none
    else none

-- `unpackAudio(buf)`: a buffer without the twelve bytes of the numbers is a RangeError.
unfoldable pub unpack_audio : Bytes → Option (ℕ × (ℕ × Bytes))
unpack_audio buf =
    if ltb (length buf) 12
    then none
    else some (of_be (take 4 buf), (of_be (take 8 (drop 4 buf)), drop 12 buf))
