-- ===== src/Client/Vetted.antt =====
-- transport/ws-client.mjs, `connect`: whom a client ends up with, over any run.
use agent_mobile.Common.{
  ℕ, ◌+◌, ◌≤◌, ◌≡◌, refl, subst, Bool, true, Option, none, some, List, [], ◌∷◌, ◌++◌, if◌then◌else◌,
  ◌&&◌, ◌⊎◌, inl, inr, zero, suc, get_elem?, arith, if-cases, Option-match,
}
use agent_mobile.Channel.{Bytes, Channel}
use agent_mobile.Handshake.Base.{KeyPair, Crypto, Result, ok, err, Reply, Finished, Pin}
use agent_mobile.Handshake.{client_hello, client_finish}
use agent_mobile.Handshake.Pinned.{Authentic, client_finish-Authentic}
use agent_mobile.Client.Connect.{
  Answer, gateway_error, answered, Rejection, gateway, handshake, pairing_declined, socket_error,
  closed_before_handshake, Connecting, ConnectEvent, opens, arrives, hook_returns, fails, closes,
  ConnectEffect, reject, ask_hook, Connected, connecting, is_unpinned, fail, establish, on_reply,
  on_arrival, connect_step, connect_run,
}

-- The rejections of the promise among what was asked of the outside.
abbrev pub rejections : List ConnectEffect → ℕ
rejections [] = 0
rejections (reject _ ∷ es) = 1 + rejections es
rejections (_ ∷ es) = rejections es

rejections-append :
    (xs ys : List ConnectEffect) → rejections (xs ++ ys) ≡ rejections xs + rejections ys
rejections-append [] ys = omega arith
rejections-append (x ∷ xs) ys = ground (arith, rejections-append xs ys)

-- The approvals of the hook, and whether there is a channel.
abbrev pub approvals : List ConnectEvent → ℕ
approvals [] = 0
approvals (hook_returns _ true ∷ es) = 1 + approvals es
approvals (_ ∷ es) = approvals es

abbrev pub channels : Connecting → ℕ
channels s = elim s.channel [ none ↦ 0 | some _ ↦ 1 ]

abbrev pub once : Bool → ℕ
once b = if b then 0 else 1

module _ (c : Crypto) (identity eph : KeyPair) (pin : Pin) where
  abbrev pub Vouched : Finished → Type 0
  Vouched fin =
      (reply : Reply) × Authentic c identity eph (client_hello c identity eph) reply pin fin

-- The channel is that of an authentic handshake, whose identity the client keeps; and so are the
-- handshakes that wait for the hook.
pub record IsVetted (c : Crypto) (identity eph : KeyPair) (pin : Pin) (s : Connecting)
    : Type 0 where
  pub channel :
      (ch : Channel)
      → s.channel ≡ some ch
      → (fin : Finished) × Vouched c identity eph pin fin
        × (fin.channel ≡ ch)
        × (s.server_identity ≡ some fin.server_identity)
        × (s.agent_id ≡ some fin.agent_id)
  pub asked :
      (n : ℕ) (fin : Finished) → get_elem? s.asked n ≡ some fin → Vouched c identity eph pin fin

-- A step rejects the promise only if it settles it.
pub record Steps (c : Crypto) (identity eph : KeyPair) (pin : Pin) (s : Connecting) (r : Connected)
    : Type 0 where
  pub vetted : IsVetted c identity eph pin r.1
  pub rejects : rejections r.0 + once r.1.settled ≤ once s.settled

get_elem?-append_one :
    (xs : List Finished) (x : Finished) (i : ℕ) {y : Finished}
    → get_elem? (xs ++ (x ∷ [])) i ≡ some y
    → (get_elem? xs i ≡ some y) ⊎ (x ≡ y)
get_elem?-append_one [] x zero h = inr (ground (arith, h))
get_elem?-append_one [] x (suc i) h = absurd (cc)
get_elem?-append_one (z ∷ xs) x zero h = inl h
get_elem?-append_one (z ∷ xs) x (suc i) h = get_elem?-append_one xs x i h

module _ (c : Crypto) (parse : Bytes → Option Answer) (identity eph : KeyPair) (pin : Pin)
    (on_pair : Bool) where
  idle :
      (s : Connecting) (e : List ConnectEffect)
      → rejections e ≡ 0
      → IsVetted c identity eph pin s
      → Steps c identity eph pin s (e, s)
  idle s e h v = record { vetted = v; rejects = omega (arith, h) }

  fail-Steps :
      (s : Connecting) (e : Rejection)
      → IsVetted c identity eph pin s
      → Steps c identity eph pin s (fail s e)
  unfolding fail
  fail-Steps s e v =
      if-cases (Steps c identity eph pin s) s.settled _ _ (λ _. idle s [] refl v)
        (λ h. record {
          vetted = record { channel = v.channel; asked = v.asked };
          rejects = rw h (omega arith);
        })

  establish-Steps :
      (s : Connecting) (fin : Finished)
      → Vouched c identity eph pin fin
      → IsVetted c identity eph pin s
      → Steps c identity eph pin s (establish s fin)
  unfolding establish
  establish-Steps s fin w v = record {
    vetted = record { channel = λ ch h. (fin, w, ground (arith, h), refl, refl); asked = v.asked };
    rejects = omega arith;
  }

  on_reply-Steps :
      (s : Connecting) (reply : Reply)
      → IsVetted c identity eph pin s
      → Steps c identity eph pin s (on_reply c parse identity eph pin on_pair s reply)
  unfolding on_reply
  on_reply-Steps s reply v =
      go (client_finish c identity eph (client_hello c identity eph) reply pin) refl
    where
      go :
          (r : Result Finished)
          → client_finish c identity eph (client_hello c identity eph) reply pin ≡ r
          → Steps c identity eph pin s (elim r [
            | err e ↦ fail s (handshake e)
            | ok fin ↦
                if is_unpinned pin && on_pair
                then (
                  ask_hook fin.server_identity fin.agent_id ∷ [],
                  record s { asked = s.asked ++ (fin ∷ []) },
                )
                else establish s fin
          ])
      go (err e) h = fail-Steps s (handshake e) v
      go (ok fin) h =
          let w : Vouched c identity eph pin fin = (
            reply,
            client_finish-Authentic c identity eph (client_hello c identity eph) reply pin fin h,
          ) in
          if-cases (Steps c identity eph pin s) (is_unpinned pin && on_pair) _ _
            (λ _. record {
              vetted = record {
                channel = v.channel;
                asked = λ n f k. elim (get_elem?-append_one s.asked fin n k) [
                  | inl j ↦ v.asked n f j
                  | inr j ↦ subst (Vouched c identity eph pin) j w
                ];
              };
              rejects = omega arith;
            })
            (λ _. establish-Steps s fin w v)

  connect_step-Steps :
      (s : Connecting) (e : ConnectEvent)
      → IsVetted c identity eph pin s
      → Steps c identity eph pin s (connect_step c parse identity eph pin on_pair s e)
  unfolding connect_step on_arrival
  connect_step-Steps s opens v = idle s _ refl v
  connect_step-Steps s (arrives raw) v =
      Option-match (Steps c identity eph pin s) s.channel _ _ (λ _. message (parse raw))
        (λ _ _. idle s _ refl v)
    where
      message :
          (o : Option Answer)
          → Steps c identity eph pin s (elim o [
            | none ↦ ([], s)
            | some (gateway_error t) ↦ fail s (gateway t)
            | some (answered reply) ↦ on_reply c parse identity eph pin on_pair s reply
          ])
      message none = idle s [] refl v
      message (some (gateway_error t)) = fail-Steps s (gateway t) v
      message (some (answered reply)) = on_reply-Steps s reply v
  connect_step-Steps s (hook_returns n okay) v =
      Option-match (Steps c identity eph pin s) (get_elem? s.asked n) _ _ (λ _. idle s [] refl v)
        (λ fin h.
          if-cases (Steps c identity eph pin s) okay _ _
            (λ _. establish-Steps s fin (v.asked n fin h) v) (λ _. fail-Steps s pairing_declined v))
  connect_step-Steps s fails v = fail-Steps s socket_error v
  connect_step-Steps s closes v =
      Option-match (Steps c identity eph pin s) s.channel _ _
        (λ _. fail-Steps s closed_before_handshake v) (λ _ _. idle s _ refl v)

  connect_run-Steps :
      (es : List ConnectEvent) (s : Connecting)
      → IsVetted c identity eph pin s
      → Steps c identity eph pin s (connect_run c parse identity eph pin on_pair s es)
  unfolding connect_run
  connect_run-Steps [] s v = idle s [] refl v
  connect_run-Steps (e ∷ es) s v =
      let (fx, s') = connect_step c parse identity eph pin on_pair s e in
      let w = connect_step-Steps s e v in
      let rest = connect_run-Steps es s' w.vetted in
      record {
        vetted = rest.vetted;
        rejects = omega (
          arith,
          w.rejects,
          rest.rejects,
          rejections-append fx (connect_run c parse identity eph pin on_pair s' es).0,
        );
      }

  -- Where the hook is asked, a step makes a channel only if the hook approves.
  step_approved :
      (s : Connecting) (e : ConnectEvent)
      → (is_unpinned pin && on_pair) ≡ true
      → channels (connect_step c parse identity eph pin on_pair s e).1
        ≤ channels s + approvals (e ∷ [])
  unfolding connect_step on_arrival on_reply establish fail
  step_approved s e h = ground (arith, h)

  run_approved :
      (es : List ConnectEvent) (s : Connecting)
      → (is_unpinned pin && on_pair) ≡ true
      → channels (connect_run c parse identity eph pin on_pair s es).1 ≤ channels s + approvals es
  unfolding connect_run
  run_approved [] s h = omega arith
  run_approved (e ∷ es) s h = ground (
    arith,
    step_approved s e h,
    run_approved es (connect_step c parse identity eph pin on_pair s e).1 h,
  )

  -- Whatever arrives while a client connects, in any order, and whatever the hook says: a channel is
  -- that of a reply which `clientFinish` found authentic for the hello that was sent and the pin, the
  -- identities kept are those of that reply, the promise is rejected at most once, and without a pin
  -- but with a hook there is a channel only if the hook has approved.
  pub connect_run-IsVetted :
      (es : List ConnectEvent)
      → let r = connect_run c parse identity eph pin on_pair connecting es in
        IsVetted c identity eph pin r.1
        × (rejections r.0 ≤ 1)
        × ((if is_unpinned pin && on_pair then channels r.1 else 0) ≤ approvals es)
  unfolding connecting
  connect_run-IsVetted es =
      let v =
        connect_run-Steps es connecting
          (record { channel = λ ch h. absurd (cc); asked = λ n fin h. absurd (cc) }) in
      (
        v.vetted,
        omega (arith, v.rejects),
        if-cases (λ n. n ≤ approvals es) (is_unpinned pin && on_pair) _ _
            (λ h. omega (arith, run_approved es connecting h)) (λ _. omega arith),
      )
