-- ===== src/Handshake/Plain.antt =====
-- proto.js: a cryptography that hides nothing, for the tests.
use agent_mobile.Common.{
  ℕ, ◌≡◌, refl, ap, Bool, true, Option, some, [], ◌∷◌, ◌++◌, length, replicate, length-replicate,
  arith,
}
use agent_mobile.Bytes.Order.{sort_bytes, put_sorted_comm}
use agent_mobile.Channel.{Bytes, Aead}
use agent_mobile.Handshake.Base.{KeyPair, Crypto, equal_bytes}
use agent_mobile.Handshake.{concat}
use agent_mobile.Handshake.Agreement.{IsKey, equal_bytes_sound}

-- A pair has equal halves, two keys agree on both of them in order, and nothing is hidden.
abbrev pub same_halves : KeyPair → Bool
same_halves p = equal_bytes p.private_key p.public_key

abbrev pub agree_on : Bytes → Bytes → Option Bytes
agree_on a b = some (concat (sort_bytes (a ∷ b ∷ [])))

pub agree_on_comm :
    (a b : KeyPair)
    → same_halves a ≡ true
    → same_halves b ≡ true
    → agree_on a.private_key b.public_key ≡ agree_on b.private_key a.public_key
unfolding sort_bytes
agree_on_comm a b h k =
    rw
      (
        equal_bytes_sound a.private_key a.public_key h,
        equal_bytes_sound b.private_key b.public_key k,
      )
      (ap (λ l. some (concat l)) (put_sorted_comm a.public_key b.public_key []))

abbrev pub plain_crypto : Crypto
plain_crypto = record {
  is_pair = same_halves;
  agree = agree_on;
  hkdf = λ b n. b ++ replicate n 0;
  hmac = λ key msg. replicate 32 (length msg);
  sha256_hex = λ b. b;
  encode = λ b. b;
  decode = λ s. s;
  decode-encode = λ b. refl;
  decode_nil = refl;
  length-hmac = λ key msg. length-replicate 32 (length msg);
  agree_comm = agree_on_comm;
  agrees = λ a b h k. (concat (sort_bytes (a.private_key ∷ b.public_key ∷ [])), refl);
}

abbrev pub pair : ℕ → KeyPair
pair n = record { public_key = n ∷ []; private_key = n ∷ [] }

pub pair-IsKey : (n : ℕ) → IsKey plain_crypto (pair n)
unfolding equal_bytes
pair-IsKey n = record { pair = ground arith; there = refl; short = omega arith }

-- A cipher that hides nothing.
abbrev pub plain_aead : Aead
plain_aead = record {
  seal = λ key nonce aad pt. (pt, replicate 16 0);
  unseal = λ key nonce aad ct tag. some ct;
  unseal-seal = λ key nonce aad pt. refl;
  tag_length = λ key nonce aad pt. refl;
}
