-- ===== src/Channel/Nonce.antt =====
-- proto.js: `parseNonce` reads what `nonceFor` writes.
use agent_mobile.Common.{
  ℕ, ◌≤◌, ◌<◌, ◌^◌, ◌≡◌, some, ◌++◌, length, take, drop, take_append_left, drop_append_left,
  length-append, le→ltb, arith,
}
use agent_mobile.Bytes.{to_be, length-to_be, of_be-to_be}
use agent_mobile.Channel.{nonce_for, parse_nonce, max_counter, nonce_len}

pub length-nonce_for : (s k : ℕ) → length (nonce_for s k) ≡ nonce_len
unfolding nonce_for
length-nonce_for s k =
    omega (arith, length-append (to_be 4 s) (to_be 8 k), length-to_be 4 s, length-to_be 8 k)

-- The stream and the counter come back from the nonce, for every stream number of four bytes and every counter that
-- the sender may use.
pub parse_nonce-nonce_for :
    (s k : ℕ) → s < 2 ^ 32 → k ≤ max_counter → parse_nonce (nonce_for s k) ≡ some (s, k)
unfolding parse_nonce nonce_for
parse_nonce-nonce_for s k hs hk = rw (
  first,
  rest,
  of_be-to_be 4 s (omega arith),
  of_be-to_be 8 k (omega arith),
  le→ltb max_counter k hk,
)
  where
    first : take 4 (to_be 4 s ++ to_be 8 k) ≡ to_be 4 s
    first = rw (length-to_be 4 s) at (take_append_left (to_be 4 s) (to_be 8 k))

    rest : drop 4 (to_be 4 s ++ to_be 8 k) ≡ to_be 8 k
    rest = rw (length-to_be 4 s) at (drop_append_left (to_be 4 s) (to_be 8 k))
