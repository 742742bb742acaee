-- ===== src/HttpGateway/Tests.antt =====
-- gateway.js: the theorems on the sessions at concrete inputs.
use agent_mobile.Common.{
  ℕ, zero, suc, ◌≡◌, ◌⊎◌, refl, replicate, length, none, some, [], ◌∷◌, lookup, arith, map, true,
}
use agent_mobile.Channel.{Bytes, Frame, Channel, new_channel, send, sent, encrypt}
use agent_mobile.Handshake.Base.{KeyPair, equal_bytes}
use agent_mobile.Handshake.{client_hello, identity_id}
use agent_mobile.Handshake.Plain.{plain_crypto, plain_aead, pair, pair-IsKey}
use agent_mobile.HttpGateway.Agent.{
  text_message, transactions_of, transactions_ui, filtered, includes, is_prefix,
}
use agent_mobile.HttpGateway.{
  text_eq, Session, Sessions, post, hello_path, confirm_path, parsed, Body, Request, Json,
  on_request, run, is_full,
}
use agent_mobile.HttpGateway.Sessions.{run-nil-IsSound}
use agent_mobile.HttpGateway.Owned.{IsSound}
use agent_mobile.HttpGateway.Takeover.{Keeps, IsConfirmed, on_request-Keeps, run-shut}
use agent_mobile.HttpGateway.Clients.{HttpClient, reached, http_client_session, rounds}
use agent_mobile.HttpGateway.Rounds.{reply_to, FrameFits}
use agent_mobile.HttpGateway.Served.{http_client_is_served}

abbrev plain_json : Json
plain_json = record {
  read = λ b. text_message;
  write = λ r. [];
  chunks = λ path b. replicate 300 0 ∷ (elim b.frame [ none ↦ [] | some f ↦ f.ct ∷ [] ]);
  to_string = λ b. b;
}

-- A frame of `plain_aead` is as long as its payload.
frame_length :
    (ch ch' : Channel) (p : Bytes) (f : Frame)
    → send plain_aead ch p 0 0 ≡ sent ch' f
    → length f.ct ≡ length p
unfolding send encrypt
frame_length ch ch' p f e = ground (arith, e)

seven_fits : FrameFits plain_crypto plain_aead plain_json (pair 2) none (1 ∷ []) (7 ∷ [])
seven_fits ch ch' f e = omega (arith, frame_length ch ch' (7 ∷ []) f e)

nothing_fits : FrameFits plain_crypto plain_aead plain_json (pair 2) none (1 ∷ []) []
nothing_fits ch ch' f e = omega (arith, frame_length ch ch' [] f e)

abbrev body_of : KeyPair → Body
body_of p = record {
  client_id = some p.public_key;
  hello = client_hello plain_crypto p (pair 3);
  confirm = record { v = some 2; confirm = none };
  frame = none;
}

abbrev hello_of : KeyPair → Request
hello_of p = record { path = hello_path; method = post; body = parsed (body_of p) }

abbrev confirm_of : KeyPair → Request
confirm_of p = record { path = confirm_path; method = post; body = parsed (body_of p) }

run-nil-IsSound_example :
    IsSound plain_crypto
      (pair 2)
      none
      (run plain_crypto plain_aead plain_json
        (pair 2)
        none
        []
        ((hello_of (pair 1), pair 4) ∷ (confirm_of (pair 1), pair 4) ∷ [])).1
run-nil-IsSound_example =
    run-nil-IsSound plain_crypto plain_aead plain_json (pair 2) none
      ((hello_of (pair 1), pair 4) ∷ (confirm_of (pair 1), pair 4) ∷ [])

-- Client 1 has a channel, and another says hello by its key.
abbrev channel : Channel
channel = new_channel (7 ∷ []) (8 ∷ []) (9 ∷ [])

abbrev session : Session
session = record { pending = none; channel = some channel }

abbrev one_session : Sessions
one_session = ((1 ∷ []), session) ∷ []

on_request-Keeps_example :
    Keeps
      (1 ∷ [])
      channel
      (on_request plain_crypto plain_aead plain_json
        (pair 2)
        none
        one_session
        (hello_of (pair 1))
        (pair 4)).1
    ⊎ IsConfirmed plain_crypto (1 ∷ []) session (hello_of (pair 1))
on_request-Keeps_example =
    on_request-Keeps plain_crypto plain_aead plain_json (pair 2) none one_session
      (hello_of (pair 1)) (pair 4) (1 ∷ []) session channel (unfold lookup equal_bytes in refl) refl

-- A table of so many clients.
abbrev clients : ℕ → Sessions
clients zero = []
clients (suc n) = ((n ∷ []), session) ∷ clients n

run-shut_example :
    lookup
      (99 ∷ [])
      (run plain_crypto plain_aead plain_json
        (pair 2)
        none
        (clients 64)
        ((hello_of (pair 99), pair 4) ∷ [])).1
    ≡ none
run-shut_example =
    run-shut plain_crypto plain_aead plain_json (pair 2) none ((hello_of (pair 99), pair 4) ∷ [])
      (clients 64) (99 ∷ []) (unfold lookup equal_bytes in refl) (omega arith)

-- The filter finds the one transaction of 16.49.
filter_test :
    transactions_of (some (b'1' ∷ b'6' ∷ []))
    ≡ transactions_ui (
        (record {
          title = b'N' ∷ b'e' ∷ b't' ∷ b'f' ∷ b'l' ∷ b'i' ∷ b'x' ∷ [];
          subtitle = b'-' ∷ b'$' ∷ b'1' ∷ b'6' ∷ b'.' ∷ b'4' ∷ b'9' ∷ [];
        })
        ∷ [])
unfolding transactions_of filtered includes is_prefix
filter_test = refl

http_client_is_served_example :
    (o : HttpClient) × (m' : Sessions) × (http_client_session plain_crypto plain_aead plain_json
        (pair 2)
        none
        (pair 1)
        (pair 3)
        true
        []
        (pair 6)
        (pair 4)
        (pair 5)
      ≡ (reached o, m'))
    × (o.agent_id ≡ identity_id plain_crypto (pair 2).public_key)
    × (rounds plain_crypto plain_aead plain_json (pair 2) none o ((7 ∷ []) ∷ [] ∷ []) m' (pair 5)
        ≡ map (reply_to plain_crypto plain_aead plain_json (pair 2) none) ((7 ∷ []) ∷ [] ∷ []))
http_client_is_served_example =
    http_client_is_served plain_crypto plain_aead plain_json (pair 2) none (pair 1) (pair 3)
      (pair 6) (pair 4) (pair 5) true [] ((7 ∷ []) ∷ [] ∷ []) (pair-IsKey 1) (pair-IsKey 3)
      (pair-IsKey 2) (pair-IsKey 4) refl (unfold is_full lookup in refl) (omega arith) (omega arith)
      (λ r p fin e. omega arith) (seven_fits, (nothing_fits, tt))
