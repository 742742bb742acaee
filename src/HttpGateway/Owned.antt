-- ===== src/HttpGateway/Owned.antt =====
-- gateway.js: whose a session is, and what a new one does to the table.
use agent_mobile.Common.{
  ◌≤◌, ◌≡◌, subst, Bool, true, false, Option, some, [], ◌∷◌, length, lookup, insert, IsMap,
  insert-IsMap, lookup-insert, length-insert_le, arith, Bool-cases, Option-cases, inl, inr,
}
use agent_mobile.Channel.{Bytes, Channel}
use agent_mobile.Channel.Keys.{SameKeys}
use agent_mobile.Handshake.Base.{Text, KeyPair, Crypto, ok, Hello, Confirm, Accepted, equal_bytes}
use agent_mobile.Handshake.{server_handshake, verify_confirm}
use agent_mobile.HttpGateway.{
  text_eq, max_sessions, Pending, Session, Sessions, session_or_new, is_full,
}

pub length-insert_known :
    (k : Text) (v w : Session) (m : Sessions)
    → lookup k m ≡ some v
    → length (insert k w m) ≡ length m
unfolding lookup insert
length-insert_known k v w [] h = absurd (cc)
length-insert_known k v w ((j, u) ∷ m) h = ground (arith, h, length-insert_known k v w m)

module _ (crypto : Crypto) (identity : KeyPair) (allow : Option (Bytes → Text → Bool)) where
  -- What waits under a name is of an accepted handshake of that client.
  pub record Asked (k : Text) (p : Pending) : Type 0 where
    pub hello : Hello
    pub eph : KeyPair
    pub done : Accepted
    pub accepted : server_handshake crypto identity hello allow eph ≡ ok done
    pub client : done.client_id ≡ k
    pub channel : done.channel ≡ p.channel
    pub expected : done.expected_confirm ≡ p.expected_confirm

  -- A channel in use under a name is of such a handshake, which was confirmed.
  pub record Live (k : Text) (ch : Channel) : Type 0 where
    pub pending : Pending
    pub asked : Asked k pending
    pub confirm : Confirm
    pub verified : verify_confirm crypto pending.expected_confirm confirm ≡ true
    pub keys : SameKeys pending.channel ch

  pub record Owned (k : Text) (s : Session) : Type 0 where
    pub waits : (p : Pending) → s.pending ≡ some p → Asked k p
    pub live : (ch : Channel) → s.channel ≡ some ch → Live k ch

  pub record IsSound (m : Sessions) : Type 0 where
    pub map : IsMap m
    pub few : length m ≤ max_sessions
    pub owned : (k : Text) (s : Session) → lookup k m ≡ some s → Owned k s

  pub insert-IsSound :
      (k : Text) (s : Session) (m : Sessions)
      → Owned k s
      → length (insert k s m) ≤ max_sessions
      → IsSound m
      → IsSound (insert k s m)
  insert-IsSound k s m o few v = record {
    map = insert-IsMap k s m v.map;
    few = few;
    owned = λ j t h. elim (Bool-cases (equal_bytes k j)) [
      | inl e ↦
          let j' = (text_eq.beq_iff k j).0 e in
          let t' : some s ≡ some t = rw (lookup-insert k j s m, e) at h in
          subst (Owned j) (ground (arith, t')) (subst (λ i. Owned i s) j' o)
      | inr e ↦ v.owned j t (rw (lookup-insert k j s m, e) at h)
    ];
  }

  pub or_new-Owned : (k : Text) (m : Sessions) → IsSound m → Owned k (session_or_new (lookup k m))
  or_new-Owned k m v = elim (Option-cases (lookup k m)) [
    | inl e ↦ rw e (record { waits = λ p h. absurd (cc); live = λ ch h. absurd (cc) })
    | inr (s, e) ↦ rw e (v.owned k s e)
  ]

  -- Where the table is not full for a name, a session for it fits.
  pub fits :
      (k : Text) (s : Session) (m : Sessions)
      → is_full k m ≡ false
      → length m ≤ max_sessions
      → length (insert k s m) ≤ max_sessions
  unfolding is_full
  fits k s m room few = elim (Option-cases (lookup k m)) [
    | inl e ↦ ground (arith, e, room, length-insert_le k s m)
    | inr (t, e) ↦ omega (arith, few, length-insert_known k t s m e)
  ]

  pub known_fits :
      (k : Text) (s t : Session) (m : Sessions)
      → lookup k m ≡ some t
      → IsSound m
      → length (insert k s m) ≤ max_sessions
  known_fits k s t m e v = omega (arith, v.few, length-insert_known k t s m e)
