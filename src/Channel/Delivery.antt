-- ===== src/Channel/Delivery.antt =====
-- proto.js: what one channel seals, the paired channel opens.
use native.Mathlib.Decide.{ℕ_discrete}
use agent_mobile.Common.{
  ℕ, suc, ◌+◌, ◌%◌, ◌≤◌, ◌<◌, ◌≡◌, refl, sym, ◌∙◌, Bool, true, false, Option, some, List, [], ◌∷◌,
  length, get_elem?, get_or, set, length-set, get_elem?-set_self, get_elem?-set_ne, get_or-set_self,
  get_or-set_ne, arith, get_elem?-lt, lt_of_get_elem?, lt→ltb,
}
use agent_mobile.Replay.{Window, accepts, advance, mark}
use agent_mobile.Channel.{
  Bytes, Aead, Channel, sent, refused, encrypt, decrypt, send, recv_in, recv_bytes, nonce_for,
  max_streams, max_counter,
}
use agent_mobile.Channel.Nonce.{length-nonce_for, parse_nonce-nonce_for}
use agent_mobile.Channel.Fresh.{Message, raised}

-- The receiver `b` has the sender's key, and is not ahead of its counters.
pub record Synced (a b : Channel) : Type 0 where
  pub keys : b.rx_key ≡ a.tx_key
  pub counters : length a.tx ≡ max_streams
  pub windows : length b.rx ≡ max_streams
  pub behind : (i : ℕ) (w : Window) → get_elem? b.rx i ≡ some w → w.top ≤ get_or a.tx i 0

top_of_mark : (w : Window) (k : ℕ) → w.top ≤ k → (mark w k).top ≡ k + 1
unfolding mark advance
top_of_mark w k h = ground (arith, h)

accepts_ahead : (w : Window) (k : ℕ) → w.top ≤ k → accepts w k ≡ true
unfolding accepts
accepts_ahead w k h = ground (arith, h)

module _ (aead : Aead) where
  decrypt-encrypt :
      (key : Bytes) (s k type : ℕ) (pt : Bytes)
      → decrypt aead key (encrypt aead key (nonce_for s k) type pt) ≡ some pt
  unfolding decrypt encrypt
  decrypt-encrypt key s k type pt =
      rw (length-nonce_for s k, aead.tag_length key (nonce_for s k) (type % 256 ∷ []) pt, twice)
        (aead.unseal-seal key (nonce_for s k) (type % 256 ∷ []) pt)
    where
      twice : type % 256 % 256 ≡ type % 256
      twice = omega arith

  nonce-encrypt :
      (key nonce : Bytes) (type : ℕ) (pt : Bytes) → (encrypt aead key nonce type pt).nonce ≡ nonce
  unfolding encrypt
  nonce-encrypt key nonce type pt = refl

  abbrev pub after_send : Channel → ℕ → Channel
  after_send a s = record a { tx = set a.tx s (get_or a.tx s 0 + 1) }

  pub send_lem :
      (a : Channel) (pt : Bytes) (type s : ℕ)
      → s < max_streams
      → get_or a.tx s 0 < max_counter
      → send aead a pt type s
        ≡ sent (after_send a s) (encrypt aead a.tx_key (nonce_for s (get_or a.tx s 0)) type pt)
  unfolding send
  send_lem a pt type s small room = ground (arith, small, room)

  -- The frame that a synchronised sender makes is opened, and moves the window of its stream.
  pub recv_sent :
      (a b : Channel) (pt : Bytes) (type s : ℕ) (w : Window)
      → Synced a b
      → s < max_streams
      → get_or a.tx s 0 < max_counter
      → get_elem? b.rx s ≡ some w
      → recv_bytes aead b (encrypt aead a.tx_key (nonce_for s (get_or a.tx s 0)) type pt)
        ≡ (some pt, record b { rx = set b.rx s (mark w (get_or a.tx s 0)) })
  unfolding recv_bytes recv_in
  recv_sent a b pt type s w v small room g = rw (
    nonce-encrypt a.tx_key (nonce_for s (get_or a.tx s 0)) type pt,
    length-nonce_for s (get_or a.tx s 0),
    parse_nonce-nonce_for s (get_or a.tx s 0) (omega (arith, small)) (omega (arith, room)),
    lt→ltb s max_streams small,
    g,
    accepts_ahead w (get_or a.tx s 0) (v.behind s w g),
    opened,
  )
    where
      opened :
          decrypt aead b.rx_key (encrypt aead a.tx_key (nonce_for s (get_or a.tx s 0)) type pt)
          ≡ some pt
      opened = rw v.keys (decrypt-encrypt a.tx_key s (get_or a.tx s 0) type pt)

  pub Synced-next :
      (a b : Channel) (s : ℕ) (w : Window)
      → Synced a b
      → s < max_streams
      → get_elem? b.rx s ≡ some w
      → Synced (after_send a s) (record b { rx = set b.rx s (mark w (get_or a.tx s 0)) })
  Synced-next a b s w v small g = record {
    keys = v.keys;
    counters = length-set a.tx s _ ∙ v.counters;
    windows = length-set b.rx s _ ∙ v.windows;
    behind = grown;
  }
    where
      grown :
          (i : ℕ) (u : Window)
          → get_elem? (set b.rx s (mark w (get_or a.tx s 0))) i ≡ some u
          → u.top ≤ get_or (set a.tx s (get_or a.tx s 0 + 1)) i 0
      grown i u h = elim (ℕ_discrete s i) [
        | yes e ↦
            let h' = rw (← e) at h in
            rw (← e, ← get_elem?-set_self b.rx s (mark w (get_or a.tx s 0)) h')
              (omega (
                arith,
                top_of_mark w (get_or a.tx s 0) (v.behind s w g),
                get_or-set_self a.tx s (get_or a.tx s 0 + 1) 0 (rw v.counters small),
              ))
        | no ne ↦ omega (
          arith,
          v.behind i u (sym (get_elem?-set_ne b.rx s i (mark w (get_or a.tx s 0)) ne) ∙ h),
          get_or-set_ne a.tx {i = s} {j = i} (get_or a.tx s 0 + 1) 0 ne,
        )
      ]

  -- A frame that is lost leaves them synchronised, too.
  Synced-lost : (a b : Channel) (s : ℕ) → Synced a b → s < max_streams → Synced (after_send a s) b
  Synced-lost a b s v small = record {
    keys = v.keys;
    counters = length-set a.tx s _ ∙ v.counters;
    windows = v.windows;
    behind = λ i u h. omega (
      arith,
      v.behind i u h,
      raised a.tx s i v.counters (rw v.windows at (lt_of_get_elem? b.rx i h)),
    );
  }

  -- A run in which `a` sends and `b` receives; the flag says whether the frame arrives.
  pub deliver : Channel → Channel → List (Bool × Message) → List (Option Bytes)
  deliver a b [] = []
  deliver a b ((arrives, (pt, type, s)) ∷ ms) = elim (send aead a pt type s) [
    | sent a' f ↦ elim arrives [
      | true ↦ let (r, b') = recv_bytes aead b f in r ∷ deliver a' b' ms
      | false ↦ deliver a' b ms
    ]
    | refused _ ↦ deliver a b ms
  ]

-- The plaintexts of the messages that arrive, in the order of sending.
abbrev pub arrived : List (Bool × Message) → List (Option Bytes)
arrived [] = []
arrived ((true, (pt, _, _)) ∷ ms) = some pt ∷ arrived ms
arrived ((false, _) ∷ ms) = arrived ms

abbrev pub OnStreams : List (Bool × Message) → Type 0
OnStreams [] = Unit
OnStreams ((_, (_, _, s)) ∷ ms) = (s < max_streams) × OnStreams ms

-- No stream's counter runs out within so many messages.
abbrev pub HasRoom : Channel → ℕ → Type 0
HasRoom a n = (i : ℕ) → i < max_streams → get_or a.tx i 0 + n ≤ max_counter

module _ (aead : Aead) where
  HasRoom-next :
      (a : Channel) (s n : ℕ)
      → length a.tx ≡ max_streams
      → HasRoom a (suc n)
      → HasRoom (after_send aead a s) n
  HasRoom-next a s n len room i small = elim (ℕ_discrete s i) [
    | yes e ↦ rw (← e) (
        omega (
          arith,
          room s (rw e small),
          get_or-set_self a.tx s (get_or a.tx s 0 + 1) 0 (rw (e, len) small),
        ))
    | no ne ↦
        omega (arith, room i small, get_or-set_ne a.tx {i = s} {j = i} (get_or a.tx s 0 + 1) 0 ne)
  ]

  -- Between synchronised channels, whatever frames are lost, the receiver opens exactly the frames
  -- that arrive, and gets their plaintexts in the order of sending; provided that the messages name
  -- valid streams, and that no counter runs out.
  pub deliver-arrived :
      (ms : List (Bool × Message)) (a b : Channel)
      → Synced a b
      → OnStreams ms
      → HasRoom a (length ms)
      → deliver aead a b ms ≡ arrived ms
  unfolding deliver
  deliver-arrived [] a b v valid room = refl
  deliver-arrived ((true, (pt, type, s)) ∷ ms) a b v valid room =
      let (w, g) = get_elem?-lt b.rx s (rw v.windows valid.0) in
      rw (
        deliver,
        send_lem aead a pt type s valid.0 (omega (arith, room s valid.0)),
        recv_sent aead a b pt type s w v valid.0 (omega (arith, room s valid.0)) g,
        deliver-arrived ms (after_send aead a s)
            (record b { rx = set b.rx s (mark w (get_or a.tx s 0)) })
            (Synced-next aead a b s w v valid.0 g) valid.1
            (HasRoom-next a s (length ms) v.counters room),
      )
  deliver-arrived ((false, (pt, type, s)) ∷ ms) a b v valid room = rw (
    send_lem aead a pt type s valid.0 (omega (arith, room s valid.0)),
    deliver,
    deliver-arrived ms (after_send aead a s) b (Synced-lost aead a b s v valid.0) valid.1
        (HasRoom-next a s (length ms) v.counters room),
  )
