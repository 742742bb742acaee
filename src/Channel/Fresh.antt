-- ===== src/Channel/Fresh.antt =====
-- proto.js, `Channel.send`: no nonce is used twice under one key.
use native.Mathlib.Decide.{ℕ_discrete}
use agent_mobile.Common.{
  ℕ, ◌+◌, ◌≤◌, ◌<◌, ◌≡◌, ◌≢◌, refl, sym, ap, ◌∙◌, subst, Option, some, List, [], ◌∷◌, length,
  get_or, set, length-set, length-replicate, get_or-set_self, get_or-set_ne, arith,
}
use agent_mobile.Channel.{
  Bytes, Aead, Channel, Frame, Sent, sent, refused, new_channel, encrypt, send, nonce_for,
  parse_nonce, max_streams, max_counter,
}
use agent_mobile.Channel.Nonce.{parse_nonce-nonce_for}

-- A message to send: the plaintext, the type and the stream.
abbrev pub Message : Type 0
Message = Bytes × ℕ × ℕ

-- No nonce stands twice in a list of frames.
abbrev pub NoneHas : Bytes → List Frame → Type 0
NoneHas n [] = Unit
NoneHas n (f ∷ fs) = (f.nonce ≢ n) × NoneHas n fs

abbrev pub NoncesDiffer : List Frame → Type 0
NoncesDiffer [] = Unit
NoncesDiffer (f ∷ fs) = NoneHas f.nonce fs × NoncesDiffer fs

-- A nonce that counters `tx` may still yield.
record Ahead (tx : List ℕ) (n : Bytes) : Type 0 where
  stream : ℕ
  counter : ℕ
  made : n ≡ nonce_for stream counter
  small : stream < max_streams
  ahead : get_or tx stream 0 ≤ counter
  room : counter < max_counter

AllAhead : List ℕ → List Frame → Type 0
AllAhead tx [] = Unit
AllAhead tx (f ∷ fs) = Ahead tx f.nonce × AllAhead tx fs

-- Counting one stream up lowers no counter.
pub raised :
    (tx : List ℕ) (s j : ℕ)
    → length tx ≡ max_streams
    → j < max_streams
    → get_or tx j 0 ≤ get_or (set tx s (get_or tx s 0 + 1)) j 0
raised tx s j len small = elim (ℕ_discrete s j) [
  | yes e ↦
      subst (λ i. get_or tx i 0 ≤ get_or (set tx s (get_or tx s 0 + 1)) i 0) e
        (omega (arith, get_or-set_self tx s (get_or tx s 0 + 1) 0 (rw (e, len) small)))
  | no ne ↦ omega (arith, get_or-set_ne tx {i = s} {j = j} (get_or tx s 0 + 1) 0 ne)
]

later :
    (tx : List ℕ) (s : ℕ) (n : Bytes)
    → length tx ≡ max_streams
    → Ahead (set tx s (get_or tx s 0 + 1)) n
    → Ahead tx n
later tx s n len a = record {
  stream = a.stream;
  counter = a.counter;
  made = a.made;
  small = a.small;
  ahead = omega (arith, raised tx s a.stream len a.small, a.ahead);
  room = a.room;
}

all_later :
    (tx : List ℕ) (s : ℕ) (fs : List Frame)
    → length tx ≡ max_streams
    → AllAhead (set tx s (get_or tx s 0 + 1)) fs
    → AllAhead tx fs
unfolding AllAhead
all_later tx s [] len a = tt
all_later tx s (f ∷ fs) len a = (later tx s f.nonce len a.0, all_later tx s fs len a.1)

-- A nonce that was used is not ahead any more.
used_not_ahead :
    (tx : List ℕ) (s : ℕ)
    → length tx ≡ max_streams
    → s < max_streams
    → get_or tx s 0 < max_counter
    → ¬ Ahead (set tx s (get_or tx s 0 + 1)) (nonce_for s (get_or tx s 0))
used_not_ahead tx s len small room a =
    grind (arith, a.ahead, same, get_or-set_self tx s (get_or tx s 0 + 1) 0 (rw len small))
  where
    same : ◌≡◌ {A = Option (ℕ × ℕ)} (some (s, get_or tx s 0)) (some (a.stream, a.counter))
    same =
        sym (parse_nonce-nonce_for s (get_or tx s 0) (omega (arith, small)) (omega (arith, room)))
        ∙ ap parse_nonce a.made
        ∙ parse_nonce-nonce_for a.stream a.counter (omega (arith, a.small)) (omega (arith, a.room))

NoneHas-used :
    (tx : List ℕ) (s : ℕ) (fs : List Frame)
    → length tx ≡ max_streams
    → s < max_streams
    → get_or tx s 0 < max_counter
    → AllAhead (set tx s (get_or tx s 0 + 1)) fs
    → NoneHas (nonce_for s (get_or tx s 0)) fs
unfolding AllAhead
NoneHas-used tx s [] len small room a = tt
NoneHas-used tx s (f ∷ fs) len small room a = (
  λ e. used_not_ahead tx s len small room (subst (Ahead (set tx s (get_or tx s 0 + 1))) e a.0),
  NoneHas-used tx s fs len small room a.1,
)

-- To prove a statement of what follows a `send`, prove it of both results.
pub Sent-match {ℓ κ} :
    {B : Type ℓ} (P : B → Type κ) (r : Sent) (f : Channel → Frame → B) (x : B)
    → ((c : Channel) (g : Frame) → r ≡ sent c g → P (f c g))
    → P x
    → P (elim r [ sent c g ↦ f c g | refused _ ↦ x ])
Sent-match P (sent c g) f x h k = h c g refl
Sent-match P (refused e) f x h k = k

module _ (aead : Aead) where
  -- Frames sent one after the other; a message that `send` refuses yields none.
  unfoldable pub send_all : Channel → List Message → List Frame × Channel
  send_all c [] = ([], c)
  send_all c ((pt, type, stream) ∷ ms) = elim (send aead c pt type stream) [
    | sent c' f ↦ let (fs, c'') = send_all c' ms in (f ∷ fs, c'')
    | refused _ ↦ send_all c ms
  ]

  -- What a successful `send` has done.
  pub record Sends (c : Channel) (stream : ℕ) (c' : Channel) (f : Frame) : Type 0 where
    pub small : stream < max_streams
    pub room : get_or c.tx stream 0 < max_counter
    pub nonce : f.nonce ≡ nonce_for stream (get_or c.tx stream 0)
    pub counted : c'.tx ≡ set c.tx stream (get_or c.tx stream 0 + 1)

  pub send-Sends :
      (c : Channel) (pt : Bytes) (type stream : ℕ) {c' : Channel} {f : Frame}
      → send aead c pt type stream ≡ sent c' f
      → Sends c stream c' f
  unfolding send encrypt
  send-Sends c pt type stream h = ground (arith, h)

  abbrev Fine : List ℕ → List Frame × Channel → Type 0
  Fine tx r = AllAhead tx r.0 × NoncesDiffer r.0

  -- One more frame in front.
  Fine-cons :
      (c : Channel) (s : ℕ) (c' : Channel) (f : Frame) (fs : List Frame)
      → length c.tx ≡ max_streams
      → Sends c s c' f
      → AllAhead c'.tx fs × NoncesDiffer fs
      → AllAhead c.tx (f ∷ fs) × NoncesDiffer (f ∷ fs)
  unfolding AllAhead
  Fine-cons c s c' f fs len sd ih =
      let a : AllAhead (set c.tx s (get_or c.tx s 0 + 1)) fs = rw sd.counted at ih.0 in
      (
        (
          record {
            stream = s;
            counter = get_or c.tx s 0;
            made = sd.nonce;
            small = sd.small;
            ahead = omega arith;
            room = sd.room;
          },
          all_later c.tx s fs len a,
        ),
        (rw sd.nonce (NoneHas-used c.tx s fs len sd.small sd.room a), ih.1),
      )

  send_all-Fine :
      (ms : List Message) (c : Channel) → length c.tx ≡ max_streams → Fine c.tx (send_all c ms)
  unfolding send_all AllAhead
  send_all-Fine [] c len = (tt, tt)
  send_all-Fine ((pt, type, stream) ∷ ms) c len =
      Sent-match (Fine c.tx) (send aead c pt type stream) _ _
        (λ c' f e.
          let sd = send-Sends c pt type stream e in
          Fine-cons c stream c' f (send_all c' ms).0 len sd
            (send_all-Fine ms c' (rw sd.counted (length-set c.tx stream _ ∙ len))))
        (send_all-Fine ms c len)

  -- However many messages a new channel sends, on whatever streams, no two frames have the same
  -- nonce.
  pub nonces_never_repeat :
      (tx rx auth : Bytes) (ms : List Message)
      → NoncesDiffer (send_all (new_channel tx rx auth) ms).0
  unfolding new_channel
  nonces_never_repeat tx rx auth ms =
      (send_all-Fine ms (new_channel tx rx auth) (length-replicate {A = ℕ} max_streams 0)).1
