-- ===== src/Channel.antt =====
-- proto.js: the nonces, the AEAD frames and `Channel`.
--
-- ChaCha20-Poly1305 is `node:crypto`'s: a parameter, with what the code relies on. A Buffer is a
-- list of bytes. `recv` only decodes the bytes of `recvBytes` as UTF-8, and is not modelled.
pub mod Keys
pub mod Nonce
pub mod Once
pub mod Fresh
pub mod Delivery
pub mod Refused
mod Tests
use agent_mobile.Common.{
  ℕ, ◌+◌, ◌-◌, ◌%◌, ◌^◌, ◌≡◌, Bool, true, false, Option, none, some, List, [], ◌∷◌, ◌++◌, ltb, leb,
  ◌==◌, if◌then◌else◌, length, take, drop, get_elem?, get_or, set, replicate,
}
use agent_mobile.Bytes.{to_be, of_be}
use agent_mobile.Replay.{Window, new_window, accepts, mark}

abbrev pub Bytes : Type 0
Bytes = List ℕ

-- `createCipheriv` and `createDecipheriv` with a 16-byte tag.
pub record Aead : Type 0 where
  -- key, nonce, aad, plaintext; the ciphertext and the tag
  pub seal : Bytes → Bytes → Bytes → Bytes → Bytes × Bytes
  -- key, nonce, aad, ciphertext, tag
  pub unseal : Bytes → Bytes → Bytes → Bytes → Bytes → Option Bytes
  pub unseal-seal :
      (key nonce aad pt : Bytes)
      → unseal key nonce aad (seal key nonce aad pt).0 (seal key nonce aad pt).1 ≡ some pt
  pub tag_length : (key nonce aad pt : Bytes) → length (seal key nonce aad pt).1 ≡ 16

abbrev pub nonce_len : ℕ
nonce_len = 12

abbrev pub tag_len : ℕ
tag_len = 16

abbrev pub max_streams : ℕ
max_streams = 4

abbrev pub replay_window : ℕ
replay_window = 1024

abbrev pub max_counter : ℕ
max_counter = 2 ^ 53 - 1

unfoldable pub nonce_for : ℕ → ℕ → Bytes
nonce_for stream counter = to_be 4 stream ++ to_be 8 counter

-- `parseNonce`: the stream and the counter.
unfoldable pub parse_nonce : Bytes → Option (ℕ × ℕ)
parse_nonce nonce =
    let c = of_be (drop 4 nonce) in
    if ltb max_counter c then none else some (of_be (take 4 nonce), c)

pub record Frame : Type 0 where
  pub type : ℕ
  pub nonce : Bytes
  pub tag : Bytes
  pub ct : Bytes

pub record Channel : Type 0 where
  pub tx_key : Bytes
  pub rx_key : Bytes
  pub auth_key : Bytes
  -- the send counter of each stream, and the window of each stream
  pub tx : List ℕ
  pub rx : List Window
  pub rejected_replay : ℕ
  pub rejected_auth : ℕ

-- `new Channel(txKey, rxKey, authKey)`
unfoldable pub new_channel : Bytes → Bytes → Bytes → Channel
new_channel tx_key rx_key auth_key = record {
  tx_key = tx_key;
  rx_key = rx_key;
  auth_key = auth_key;
  tx = replicate max_streams 0;
  rx = replicate max_streams (new_window replay_window);
  rejected_replay = 0;
  rejected_auth = 0;
}

-- The RangeErrors of `send`.
pub data SendError : Type 0 where
  bad_stream counter_exhausted : SendError

pub data Sent : Type 0 where
  sent : Channel → Frame → Sent
  refused : SendError → Sent

module _ (aead : Aead) where
  -- `encrypt`, with the type byte as the associated data
  unfoldable pub encrypt : Bytes → Bytes → ℕ → Bytes → Frame
  encrypt key nonce type pt =
      let box = aead.seal key nonce (type % 256 ∷ []) pt in
      record { type = type % 256; nonce = nonce; tag = box.1; ct = box.0 }

  -- `decrypt`: nothing for a frame whose nonce or tag has a wrong length, or that does not open
  unfoldable pub decrypt : Bytes → Frame → Option Bytes
  decrypt key f =
      if length f.nonce == nonce_len
      then if length f.tag == tag_len
        then aead.unseal key f.nonce (f.type % 256 ∷ []) f.ct f.tag
        else none
      else none

  -- `send(plaintext, type, stream)`
  unfoldable pub send : Channel → Bytes → ℕ → ℕ → Sent
  send c pt type stream =
      let counter = get_or c.tx stream 0 in
      if ltb stream max_streams
      then if leb max_counter counter
        then refused counter_exhausted
        else sent (record c { tx = set c.tx stream (counter + 1) })
            (encrypt c.tx_key (nonce_for stream counter) type pt)
      else refused bad_stream

  -- `recvBytes` once the stream's window is at hand: the window moves for a genuine frame only
  unfoldable pub recv_in : Channel → Frame → ℕ → ℕ → Window → Option Bytes × Channel
  recv_in c f stream counter w =
      if accepts w counter
      then elim (decrypt c.rx_key f) [
        | none ↦ (none, record c { rejected_auth = c.rejected_auth + 1 })
        | some pt ↦ (some pt, record c { rx = set c.rx stream (mark w counter) })
      ]
      else (none, record c { rejected_replay = c.rejected_replay + 1 })

  -- `recvBytes(frame)`: the plaintext or nothing, and the channel afterwards
  unfoldable pub recv_bytes : Channel → Frame → Option Bytes × Channel
  recv_bytes c f =
      if length f.nonce == nonce_len
      then elim (parse_nonce f.nonce) [
        | none ↦ (none, c)
        | some (stream, counter) ↦
            if ltb stream max_streams
            then elim (get_elem? c.rx stream) [
              | none ↦ (none, c)
              | some w ↦ recv_in c f stream counter w
            ]
            else (none, c)
      ]
      else (none, c)

  -- Frames that arrive one after the other.
  unfoldable pub recv_all : Channel → List Frame → List (Option Bytes) × Channel
  recv_all c [] = ([], c)
  recv_all c (f ∷ fs) =
      let (r, c') = recv_bytes c f in let (rs, c'') = recv_all c' fs in (r ∷ rs, c'')
