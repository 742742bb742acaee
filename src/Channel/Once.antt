-- ===== src/Channel/Once.antt =====
-- proto.js, `Channel.recvBytes`: no nonce is accepted twice.
use native.Mathlib.Decide.{ℕ_discrete}
use agent_mobile.Common.{
  ℕ, ◌≡◌, ◌≢◌, refl, sym, ap, ◌∙◌, subst, true, false, Option, none, some, List, [], ◌∷◌, ltb, ◌==◌,
  if◌then◌else◌, length, get_elem?, set, get_elem?-set_self, get_elem?-set_ne, get_elem?-replicate,
  arith, if-cases, Option-match,
}
use agent_mobile.Replay.{Window, new_window, accepts, mark}
use agent_mobile.Replay.Marks.{
  Marked, with_mark, Stands, new_window-Stands, mark-Stands, accepts_marked, accepts_recent,
}
use agent_mobile.Channel.{
  Bytes, Aead, Channel, Frame, new_channel, decrypt, recv_in, recv_bytes, recv_all, parse_nonce,
  nonce_len, max_streams, replay_window,
}

-- The counters of each stream that a receiver has accepted.
abbrev pub Spent : Type 0
Spent = ℕ → Marked

abbrev pub with_spent : ℕ → ℕ → Spent → Spent
with_spent i k m j = if i == j then with_mark k (m j) else m j

-- The windows of a channel stand for the counters that it has accepted.
abbrev pub Knows : Channel → Spent → Type 0
Knows c m = (i : ℕ) (w : Window) → get_elem? c.rx i ≡ some w → Stands w (m i)

abbrev pub KnowsMore : Spent → Spent → Type 0
KnowsMore m m' = (i k : ℕ) → m i k ≡ true → m' i k ≡ true

pub new_channel-Knows : (tx rx auth : Bytes) → Knows (new_channel tx rx auth) (λ i k. false)
unfolding new_channel
new_channel-Knows tx rx auth i w h =
    subst (λ v. Stands v (λ k. false))
      (get_elem?-replicate max_streams i (new_window replay_window) h)
      (new_window-Stands replay_window (omega arith))

==_refl : (i : ℕ) → i == i ≡ true
==_refl i = ground arith

==_of_ne : (i j : ℕ) → i ≢ j → i == j ≡ false
==_of_ne i j h = ground (arith, h)

-- The windows once one counter of one stream is marked.
mark-Knows :
    (c : Channel) (m : Spent) (s k : ℕ) (w : Window)
    → get_elem? c.rx s ≡ some w
    → accepts w k ≡ true
    → Knows c m
    → Knows (record c { rx = set c.rx s (mark w k) }) (with_spent s k m)
mark-Knows c m s k w g a v i u h = elim (ℕ_discrete s i) [
  | yes e ↦
      let h' = subst (λ j. get_elem? (set c.rx s (mark w k)) j ≡ some u) (sym e) h in
      subst (λ j. Stands u (with_spent s k m j)) e
        (rw ==_refl (
          subst (λ x. Stands x (with_mark k (m s))) (get_elem?-set_self c.rx s (mark w k) h')
            (mark-Stands (v s w g) k (accepts_recent k (v s w g) a))))
  | no ne ↦ rw (==_of_ne s i ne) (v i u (sym (get_elem?-set_ne c.rx s i (mark w k) ne) ∙ h))
]

spent_more : (m : Spent) (s k : ℕ) → KnowsMore m (with_spent s k m)
spent_more m s k i d h = ground (arith, h)

module _ (aead : Aead) where
  -- What receiving a frame adds to the accepted counters.
  pub record Step (m : Spent) (f : Frame) (r : Option Bytes × Channel) : Type 0 where
    pub now : Spent
    pub knows : Knows r.1 now
    pub more : KnowsMore m now
    pub accepted :
        (pt : Bytes)
        → r.0 ≡ some pt
        → (s : ℕ) × (k : ℕ) × (parse_nonce f.nonce ≡ some (s, k)) × (now s k ≡ true)

  nothing : (c : Channel) (m : Spent) (f : Frame) → Knows c m → Step m f (none, c)
  nothing c m f v = record { now = m; knows = v; more = λ i k h. h; accepted = λ pt h. absurd (cc) }

  recv_in-Step :
      (c : Channel) (m : Spent) (f : Frame) (s k : ℕ) (w : Window)
      → parse_nonce f.nonce ≡ some (s, k)
      → get_elem? c.rx s ≡ some w
      → Knows c m
      → Step m f (recv_in aead c f s k w)
  unfolding recv_in
  recv_in-Step c m f s k w e g v =
      if-cases (Step m f) (accepts w k) _ _
        (λ a.
          Option-match (Step m f) (decrypt aead c.rx_key f) _ _ (λ _. nothing _ m f v)
            (λ pt d. record {
              now = with_spent s k m;
              knows = mark-Knows c m s k w g a v;
              more = spent_more m s k;
              accepted = λ _ _. (s, k, e, ground arith);
            }))
        (λ _. nothing _ m f v)

  pub recv_bytes-Step :
      (c : Channel) (m : Spent) (f : Frame) → Knows c m → Step m f (recv_bytes aead c f)
  unfolding recv_bytes
  recv_bytes-Step c m f v =
      if-cases (Step m f) (length f.nonce == nonce_len) _ _
        (λ _.
          Option-match (Step m f) (parse_nonce f.nonce) _ _ (λ _. nothing c m f v)
            (λ p e.
              if-cases (Step m f) (ltb p.0 max_streams) _ _
                (λ _.
                  Option-match (Step m f) (get_elem? c.rx p.0) _ _ (λ _. nothing c m f v)
                    (λ w g. recv_in-Step c m f p.0 p.1 w e g v))
                (λ _. nothing c m f v)))
        (λ _. nothing c m f v)

  spent_refused :
      (c : Channel) (m : Spent) (f : Frame) (s k : ℕ)
      → parse_nonce f.nonce ≡ some (s, k)
      → Knows c m
      → m s k ≡ true
      → (recv_bytes aead c f).0 ≡ none
  unfolding recv_bytes
  spent_refused c m f s k e v h =
      if-cases Refuses (length f.nonce == nonce_len) _ _
        (λ _. rw e (
          if-cases Refuses (ltb s max_streams) _ _
            (λ _. Option-match Refuses (get_elem? c.rx s) _ _ (λ _. refl) (λ w g. window w g))
            (λ _. refl)))
        (λ _. refl)
    where
      Refuses : Option Bytes × Channel → Type 0
      Refuses r = r.0 ≡ none

      window : (w : Window) → get_elem? c.rx s ≡ some w → (recv_in aead c f s k w).0 ≡ none
      window w g = unfold recv_in in rw (accepts_marked k (v s w g) h) refl

  pub recv_all-Knows :
      (c : Channel) (m : Spent) (fs : List Frame)
      → Knows c m
      → (m' : Spent) × Knows (recv_all aead c fs).1 m' × KnowsMore m m'
  unfolding recv_all
  recv_all-Knows c m [] v = (m, v, λ i k h. h)
  recv_all-Knows c m (f ∷ fs) v =
      let st = recv_bytes-Step c m f v in
      let (m', v', more) = recv_all-Knows (recv_bytes aead c f).1 st.now fs st.knows in
      (m', v', λ i k h. more i k (st.more i k h))

  -- Whatever a channel has received before, and whatever it receives in between: once a frame has
  -- been opened, no later frame with the same nonce gives a plaintext.
  pub recv_bytes-once :
      (tx rx auth : Bytes) (before between : List Frame) (f f' : Frame) (pt : Bytes)
      → let c = (recv_all aead (new_channel tx rx auth) before).1 in
        (recv_bytes aead c f).0 ≡ some pt
        → f'.nonce ≡ f.nonce
        → (recv_bytes aead (recv_all aead (recv_bytes aead c f).1 between).1 f').0 ≡ none
  recv_bytes-once tx rx auth before between f f' pt got same =
      let (m, v, _) =
        recv_all-Knows (new_channel tx rx auth) (λ i k. false) before
          (new_channel-Knows tx rx auth) in
      let c = (recv_all aead (new_channel tx rx auth) before).1 in
      let st = recv_bytes-Step c m f v in
      let (s, k, e, spent) = st.accepted pt got in
      let (m', v', more) = recv_all-Knows (recv_bytes aead c f).1 st.now between st.knows in
      spent_refused (recv_all aead (recv_bytes aead c f).1 between).1 m' f' s k
        (ap parse_nonce same ∙ e) v' (more s k spent)
