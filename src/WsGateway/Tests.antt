-- ===== src/WsGateway/Tests.antt =====
-- transport/ws-gateway.js: the theorems on the gateway at concrete inputs.
use agent_mobile.Common.{
  ℕ, ◌+◌, ◌-◌, ◌≡◌, refl, ap, true, false, Option, none, some, List, [], ◌∷◌, ◌++◌, ◌==◌,
  if◌then◌else◌, length, take, drop, arith, take_append_left, drop_append_left,
}
use agent_mobile.Channel.{Bytes}
use agent_mobile.Handshake.Base.{Text, Hello, Reply, Confirm, buffer, equal_bytes}
use agent_mobile.Handshake.{identity_id}
use agent_mobile.Handshake.Plain.{plain_crypto, plain_aead, pair, pair-IsKey}
use agent_mobile.Client.Connect.{Answer, answered}
use agent_mobile.WsGateway.{
  Json, has, new_server, connects, message, set_dead, allow_client_event, run,
}
use agent_mobile.WsGateway.Runs.{IsSound, run-new_server-IsSound}
use agent_mobile.WsGateway.Pairing.{Spoken, Paired, client_pairs}

-- Messages as sequences of fields, each with its length before it, one more where it is there.
abbrev number : Option ℕ → Bytes
number none = 0 ∷ []
number (some v) = (v + 1) ∷ []

abbrev field : Option Text → Bytes
field none = 0 ∷ []
field (some t) = (length t + 1) ∷ t

abbrev read_number : Bytes → Option ℕ × Bytes
read_number [] = (none, [])
read_number (n ∷ r) = if n == 0 then (none, r) else (some (n - 1), r)

abbrev read_field : Bytes → Option Text × Bytes
read_field [] = (none, [])
read_field (n ∷ r) = if n == 0 then (none, r) else (some (take (n - 1) r), drop (n - 1) r)

abbrev or_empty : Option Text → Text
or_empty none = []
or_empty (some t) = t

read_number-number : (v : Option ℕ) (r : Bytes) → read_number (number v ++ r) ≡ (v, r)
read_number-number none r = refl
read_number-number (some v) r = ground arith

read_field-field : (o : Option Text) (r : Bytes) → read_field (field o ++ r) ≡ (o, r)
read_field-field none r = refl
read_field-field (some t) r = ground (arith, take_append_left t r, drop_append_left t r)

abbrev say_hello : Hello → Bytes
say_hello h =
    number h.v
    ++ (field h.client_identity ++ (field h.client_eph ++ (field (some h.client_id) ++ [])))

abbrev say_reply : Reply → Bytes
say_reply r = number r.v ++ (field r.server_identity ++ (field r.server_eph ++ (field r.mac ++ [])))

abbrev say_confirm : Confirm → Bytes
say_confirm k = number k.v ++ (field k.confirm ++ [])

abbrev read_either : Bytes → Hello × Confirm
read_either raw =
    let (v, r) = read_number raw in
    let (a, r') = read_field r in
    let (b, r'') = read_field r' in
    let (d, _) = read_field r'' in
    (
      record { v = v; client_id = or_empty d; client_identity = a; client_eph = b },
      record { v = v; confirm = a },
    )

abbrev read_reply : Bytes → Option Answer
read_reply raw =
    let (v, r) = read_number raw in
    let (a, r') = read_field r in
    let (b, r'') = read_field r' in
    let (d, _) = read_field r'' in
    some (answered (record { v = v; server_identity = a; server_eph = b; mac = d }))

abbrev plain_json : Json ℕ ℕ
plain_json = record {
  message = λ raw. some (read_either raw);
  parse = λ b. some (0, length b);
  stringify = λ i d. i ∷ d ∷ [];
  echo = λ d. d;
}

abbrev spoken : Spoken plain_json read_reply
spoken = record {
  say_hello = say_hello;
  say_reply = say_reply;
  say_confirm = say_confirm;
  hello_read = λ h. (
    record { v = h.v; confirm = h.client_identity },
    rw
        (
          read_number-number h.v
              (field h.client_identity ++ (field h.client_eph ++ (field (some h.client_id) ++ []))),
          read_field-field h.client_identity
              (field h.client_eph ++ (field (some h.client_id) ++ [])),
          read_field-field h.client_eph (field (some h.client_id) ++ []),
          read_field-field (some h.client_id) [],
        )
        refl,
  );
  reply_read = λ r.
      rw
        (
          read_number-number r.v
              (field r.server_identity ++ (field r.server_eph ++ (field r.mac ++ []))),
          read_field-field r.server_identity (field r.server_eph ++ (field r.mac ++ [])),
          read_field-field r.server_eph (field r.mac ++ []),
          read_field-field r.mac [],
        )
        refl;
  confirm_read = λ k. (
    (read_either (say_confirm k)).0,
    ap (λ x. some ((read_either (say_confirm k)).0, x))
        (rw (read_number-number k.v (field k.confirm ++ []), read_field-field k.confirm []) refl),
  );
}

-- Phone 1 with ephemeral key 3, agent 2 with 4; the phone has pinned the agent, which lists its id.
abbrev allowlist : Option (List Text)
allowlist = some ((1 ∷ []) ∷ [])

client_pairs_example :
    Paired plain_crypto plain_aead plain_json read_reply spoken
      (pair 1)
      (pair 3)
      (pair 2)
      (pair 4)
      (pair 5)
      (buffer (2 ∷ []))
      true
      (new_server allowlist)
client_pairs_example =
    client_pairs plain_crypto plain_aead plain_json read_reply spoken (pair 1) (pair 3) (pair 2)
      (pair 4) (pair 5) (buffer (2 ∷ [])) true (new_server allowlist) (pair-IsKey 1) (pair-IsKey 3)
      (pair-IsKey 2) (pair-IsKey 4) (unfold identity_id has equal_bytes in refl)
      (unfold equal_bytes in refl) refl

run-new_server-IsSound_example :
    IsSound plain_crypto
      (pair 2)
      (run plain_crypto plain_aead plain_json
        (pair 2)
        (record { server = new_server allowlist; sockets = [] })
        (connects
          ∷ message 0 (3 ∷ 2 ∷ 1 ∷ 2 ∷ 3 ∷ []) false (pair 4)
          ∷ set_dead true
          ∷ allow_client_event (9 ∷ [])
          ∷ [])).1
run-new_server-IsSound_example =
    run-new_server-IsSound plain_crypto plain_aead plain_json (pair 2) allowlist (
      connects
      ∷ message 0 (3 ∷ 2 ∷ 1 ∷ 2 ∷ 3 ∷ []) false (pair 4)
      ∷ set_dead true
      ∷ allow_client_event (9 ∷ [])
      ∷ [])
