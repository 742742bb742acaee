-- ===== src/Handshake/Base.antt =====
-- proto.js: what the handshake takes from `node:crypto`, its messages and its errors.
use agent_mobile.Common.{
  arith, refl, length, ℕ, ◌≡◌, Bool, true, false, Option, none, some, List, [], ◌∷◌, ◌==◌,
  if◌then◌else◌,
}
use agent_mobile.Channel.{Bytes, Channel}

-- The code units of a text.
abbrev pub Text : Type 0
Text = List ℕ

-- An X25519 key pair, SPKI and PKCS8.
pub record KeyPair : Type 0 where
  pub public_key : Bytes
  pub private_key : Bytes

-- `node:crypto` and base64. `agree` is `_dh`, which throws for what is no key; `hkdf` is given the
-- input and the length, with an empty salt and `HKDF_INFO`; `is_pair` holds of what `genIdentity` makes.
pub record Crypto : Type 0 where
  pub is_pair : KeyPair → Bool
  -- a private and a public key
  pub agree : Bytes → Bytes → Option Bytes
  pub hkdf : Bytes → ℕ → Bytes
  -- key and message
  pub hmac : Bytes → Bytes → Bytes
  pub sha256_hex : Bytes → Text
  pub encode : Bytes → Text
  pub decode : Text → Bytes
  pub decode-encode : (b : Bytes) → decode (encode b) ≡ b
  pub decode_nil : decode [] ≡ []
  pub length-hmac : (key msg : Bytes) → length (hmac key msg) ≡ 32
  pub agree_comm :
      (a b : KeyPair)
      → is_pair a ≡ true
      → is_pair b ≡ true
      → agree a.private_key b.public_key ≡ agree b.private_key a.public_key
  pub agrees :
      (a b : KeyPair)
      → is_pair a ≡ true
      → is_pair b ≡ true
      → (s : Bytes) × (agree a.private_key b.public_key ≡ some s)

pub data Field : Type 0 where
  client_identity client_eph server_identity server_eph mac confirm : Field

-- What is thrown. `crypto_failed` stands for what `node:crypto` throws of a malformed key,
-- `out_of_range` for a key too long for its two bytes of length.
pub data Failure : Type 0 where
  bad_version : Failure
  bad_field : Field → Failure
  unknown_client : Failure
  identity_mismatch mac_mismatch : Failure
  crypto_failed out_of_range : Failure

pub data Result (A : Type 0) : Type 0 where
  err : Failure → Result A
  ok : A → Result A

abbrev pub or_throw : {A : Type 0} → Option A → Failure → Result A
or_throw none e = err e
or_throw (some a) e = ok a

-- The rest of a function after a call that may throw, and after a check that may.
infixl 5 ◌>>=◌
abbrev pub ◌>>=◌ : {A B : Type 0} → Result A → (A → Result B) → Result B
err t >>= rest = err t
ok x >>= rest = rest x

abbrev pub unless : Bool → Failure → Result (Unit {0})
unless holds e = if holds then ok tt else err e

infixl 5 ◌>>◌
abbrev pub ◌>>◌ : {A : Type 0} → Result (Unit {0}) → Result A → Result A
check >> rest = check >>= λ _. rest

-- `a.length === b.length && timingSafeEqual(a, b)`
unfoldable pub equal_bytes : Bytes → Bytes → Bool
equal_bytes [] [] = true
equal_bytes [] (y ∷ ys) = false
equal_bytes (x ∷ xs) [] = false
equal_bytes (x ∷ xs) (y ∷ ys) = if x == y then equal_bytes xs ys else false

-- The messages as they come: a field that is missing or no text is `none`, and a message that is
-- none has no version. What `extra` adds to a reply is left out, and the `client_id` of a hello, which
-- nothing here reads, is left to what looks a session up by it.
pub record Hello : Type 0 where
  pub v : Option ℕ
  pub client_id : Text
  pub client_identity : Option Text
  pub client_eph : Option Text

pub record Reply : Type 0 where
  pub v : Option ℕ
  pub server_identity : Option Text
  pub server_eph : Option Text
  pub mac : Option Text

pub record Confirm : Type 0 where
  pub v : Option ℕ
  pub confirm : Option Text

-- What `serverHandshake` and `clientFinish` return.
pub record Accepted : Type 0 where
  pub reply : Reply
  pub channel : Channel
  pub client_identity : Bytes
  pub client_id : Text
  pub expected_confirm : Bytes

pub record Finished : Type 0 where
  pub channel : Channel
  pub server_identity : Bytes
  pub agent_id : Text
  pub confirm : Confirm

-- `expectServerIdentity`: nothing, a Buffer, or a text in base64.
pub data Pin : Type 0 where
  none_pinned : Pin
  buffer : Bytes → Pin
  text : Text → Pin

pub data Role : Type 0 where
  client agent : Role

-- A chain that returns, taken apart.
pub ok_of_bind :
    {A B : Type 0} (m : Result A) (rest : A → Result B) {z : B}
    → (m >>= rest) ≡ ok z
    → (x : A) × (m ≡ ok x) × (rest x ≡ ok z)
ok_of_bind (err t) rest h = cc
ok_of_bind (ok x) rest h = (x, refl, h)

pub unless-eq-ok :
    {B : Type 0} (t : Bool) (e : Failure) (k : Result B) {b : B}
    → (unless t e >> k) ≡ ok b
    → (t ≡ true) × (k ≡ ok b)
unless-eq-ok true e k h = (refl, h)
unless-eq-ok false e k h = cc

pub or_throw-eq-ok :
    {A : Type 0} (o : Option A) (e : Failure) {a : A} → or_throw o e ≡ ok a → o ≡ some a
or_throw-eq-ok none e h = cc
or_throw-eq-ok (some x) e h = ground (arith, h)
