-- ===== src/HttpGateway/Takeover.antt =====
-- gateway.js: what happens to a client's session under the requests of others.
use agent_mobile.Common.{
  ◌≤◌, ◌≡◌, ◌⊎◌, inl, inr, refl, sym, ap, ◌∙◌, subst, Bool, true, Option, none, some, List, [], ◌∷◌,
  length, lookup, insert, lookup-insert, arith, Bool-cases, Option-cases,
}
use agent_mobile.Channel.{Bytes, Aead, Channel}
use agent_mobile.Channel.Keys.{SameKeys, SameKeys-refl}
use agent_mobile.Handshake.Base.{Text, KeyPair, Crypto, equal_bytes}
use agent_mobile.Handshake.{verify_confirm}
use agent_mobile.HttpGateway.{
  text_eq, max_sessions, Pending, Session, Sessions, confirm_path, Body, parsed, Request, Json,
  is_full, on_request, run,
}
use agent_mobile.HttpGateway.Owned.{length-insert_known}
use agent_mobile.HttpGateway.Changes.{Changes, stays, greets, confirms, moves, on_request-Changes}

-- The session of `k` has a channel with the keys of `ch`.
pub record Keeps (k : Text) (ch : Channel) (m : Sessions) : Type 0 where
  pub session : Session
  pub channel : Channel
  pub there : lookup k m ≡ some session
  pub in_use : session.channel ≡ some channel
  pub keys : SameKeys ch channel

-- A confirmation by the name of `k`, with the MAC that its pending handshake expects.
pub record IsConfirmed (crypto : Crypto) (k : Text) (s : Session) (req : Request) : Type 0 where
  pub pending : Pending
  pub body : Body
  pub path : req.path ≡ confirm_path
  pub sent : req.body ≡ parsed body
  pub name : body.client_id ≡ some k
  pub waits : s.pending ≡ some pending
  pub verified : verify_confirm crypto pending.expected_confirm body.confirm ≡ true

module _ (k : Text) (s : Session) (ch : Channel) (m : Sessions) where
  -- A session that is put under any name keeps the channel of `k` if it does so under that of `k`.
  insert-Keeps :
      (j : Text) (t : Session)
      → lookup k m ≡ some s
      → s.channel ≡ some ch
      → (j ≡ k → (ch' : Channel) × (t.channel ≡ some ch') × SameKeys ch ch')
      → Keeps k ch (insert j t m)
  insert-Keeps j t e c f = elim (Bool-cases (equal_bytes j k)) [
    | inl h ↦
        let (ch', c', w) = f ((text_eq.beq_iff j k).0 h) in
        record {
          session = t;
          channel = ch';
          there = rw (lookup-insert j k t m, h) refl;
          in_use = c';
          keys = w;
        }
    | inr h ↦ record {
      session = s;
      channel = ch;
      there = rw (lookup-insert j k t m, h) e;
      in_use = c;
      keys = SameKeys-refl ch;
    }
  ]

  same_session :
      (j : Text) (t : Session) → lookup k m ≡ some s → lookup j m ≡ some t → j ≡ k → t ≡ s
  same_session j t e e' h = ground (arith, e, subst (λ i. lookup i m ≡ some t) h e')

module _ (crypto : Crypto) (aead : Aead) (json : Json) (identity : KeyPair)
    (allow : Option (Bytes → Text → Bool)) where
  -- A client's channel outlives every request, a hello under its own name among them, with its keys,
  -- but for a confirmation by its name that has the MAC which its pending handshake expects.
  pub on_request-Keeps :
      (m : Sessions) (req : Request) (eph : KeyPair) (k : Text) (s : Session) (ch : Channel)
      → lookup k m ≡ some s
      → s.channel ≡ some ch
      → Keeps k ch (on_request crypto aead json identity allow m req eph).1
        ⊎ IsConfirmed crypto k s req
  on_request-Keeps m req eph k s ch e c =
      go (on_request crypto aead json identity allow m req eph).1
        (on_request-Changes crypto aead json identity allow m req eph)
    where
      kept : Keeps k ch m
      kept = record { session = s; channel = ch; there = e; in_use = c; keys = SameKeys-refl ch }

      go :
          (m' : Sessions)
          → Changes crypto m req.path req.body m'
          → Keeps k ch m' ⊎ IsConfirmed crypto k s req
      go m' (stays h) = inl (subst (Keeps k ch) (sym h) kept)
      go m' (greets j p q room h) = inl (
          subst (Keeps k ch) (sym h)
            (insert-Keeps k s ch m j _ e c (λ i. (ch, rw (i, e) c, SameKeys-refl ch))))
      go m' (confirms j t p b q body name there w verified h) =
          elim (Bool-cases (equal_bytes j k)) [
            | inl i ↦ inr (record {
              pending = p;
              body = b;
              path = q;
              sent = body;
              name = name ∙ ap some ((text_eq.beq_iff j k).0 i);
              waits =
                  subst (λ (x : Session). x.pending ≡ some p)
                    (same_session k s ch m j t e there ((text_eq.beq_iff j k).0 i)) w;
              verified = verified;
            })
            | inr i ↦ inl (
                subst (Keeps k ch) (sym h) (
                  insert-Keeps k s ch m j _ e c
                    (λ x. absurd (ground (arith, i, (text_eq.beq_iff j k).1 x)))))
          ]
      go m' (moves j t d d' q there used w h) = inl (
          subst (Keeps k ch) (sym h) (
            insert-Keeps k s ch m j _ e c (λ i. (
              d',
              refl,
              subst (λ z. SameKeys z d')
                  (ground (arith, used, c, same_session k s ch m j t e there i)) w,
            ))))

  -- A client without a session in a full table.
  abbrev IsShut : Text → Sessions → Type 0
  IsShut k m = (lookup k m ≡ none) × (max_sessions ≤ length m)

  insert_known-IsShut :
      (k j : Text) (s t : Session) (m : Sessions)
      → lookup j m ≡ some s
      → IsShut k m
      → IsShut k (insert j t m)
  insert_known-IsShut k j s t m e v = (
    elim (Bool-cases (equal_bytes j k)) [
      | inl h ↦ absurd (cc (e, rw (← (text_eq.beq_iff j k).0 h) at v.0))
      | inr h ↦ rw (lookup-insert j k t m, h) v.0
    ],
    omega (arith, v.1, length-insert_known j s t m e),
  )

  on_request-IsShut :
      (m : Sessions) (req : Request) (eph : KeyPair) (k : Text)
      → IsShut k m
      → IsShut k (on_request crypto aead json identity allow m req eph).1
  unfolding is_full
  on_request-IsShut m req eph k v =
      go (on_request crypto aead json identity allow m req eph).1
        (on_request-Changes crypto aead json identity allow m req eph)
    where
      go : (m' : Sessions) → Changes crypto m req.path req.body m' → IsShut k m'
      go m' (stays h) = subst (IsShut k) (sym h) v
      go m' (greets j p q room h) = subst (IsShut k) (sym h) (elim (Option-cases (lookup j m)) [
        | inl e ↦ absurd (ground (arith, e, room, v.1))
        | inr (s, e) ↦ insert_known-IsShut k j s _ m e v
      ])
      go m' (confirms j t p b q body name there w verified h) =
          subst (IsShut k) (sym h) (insert_known-IsShut k j t _ m there v)
      go m' (moves j t d d' q there used w h) =
          subst (IsShut k) (sym h) (insert_known-IsShut k j t _ m there v)

  -- Once `MAX_SESSIONS` clients have a session, confirmed or not, no other client gets one, whatever
  -- requests follow: no request takes a session away.
  pub run-shut :
      (reqs : List (Request × KeyPair)) (m : Sessions) (k : Text)
      → lookup k m ≡ none
      → max_sessions ≤ length m
      → lookup k (run crypto aead json identity allow m reqs).1 ≡ none
  unfolding run
  run-shut [] m k e full = e
  run-shut ((req, eph) ∷ reqs) m k e full =
      let (e', full') = on_request-IsShut m req eph k (e, full) in
      run-shut reqs (on_request crypto aead json identity allow m req eph).1 k e' full'
