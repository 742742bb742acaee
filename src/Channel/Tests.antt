-- ===== src/Channel/Tests.antt =====
-- proto.js: the theorems on channels at concrete inputs.
use agent_mobile.Common.{
  ℕ, ◌≤◌, ◌≡◌, refl, true, false, none, some, [], ◌∷◌, replicate, get_or, arith, get_elem?,
  get_elem?-replicate, subst, get_or-replicate,
}
use agent_mobile.Bytes.{to_be, of_be}
use agent_mobile.Replay.{Window, new_window, accepts, advance, mark}
use agent_mobile.Replay.Marks.{
  Stands, with_mark, is_fresh, new_window-Stands, accepts_lem, mark-Stands,
}
use agent_mobile.Channel.{
  Bytes, Aead, Channel, Frame, new_channel, encrypt, decrypt, recv_in, recv_bytes, recv_all,
  nonce_for, parse_nonce,
}
use agent_mobile.Channel.Nonce.{parse_nonce-nonce_for}
use agent_mobile.Channel.Once.{recv_bytes-once}
use agent_mobile.Channel.Fresh.{send_all, NoncesDiffer, nonces_never_repeat}
use agent_mobile.Channel.Refused.{refused_is_harmless}
use agent_mobile.Channel.Delivery.{Synced, deliver, deliver-arrived}

-- A cipher that hides nothing, for the tests: the ciphertext is the plaintext.
abbrev plain : Aead
plain = record {
  seal = λ key nonce aad pt. (pt, replicate 16 0);
  unseal = λ key nonce aad ct tag. some ct;
  unseal-seal = λ key nonce aad pt. refl;
  tag_length = λ key nonce aad pt. refl;
}

abbrev key : Bytes
key = replicate 32 7

abbrev sender : Channel
sender = new_channel key key key

abbrev first_frame : Frame
first_frame = encrypt plain key (nonce_for 1 0) 1 (b'h' ∷ b'i' ∷ [])

window_after :
    mark (mark (new_window 4) 2) 5 ≡ record { size = 4; top = 6; seen = 0 ∷ 1 ∷ 1 ∷ 0 ∷ [] }
unfolding new_window mark advance
window_after = refl

accepts_lem_example : accepts (new_window 4) 9 ≡ is_fresh 4 0 (λ c. false) 9
unfolding new_window
accepts_lem_example = accepts_lem 9 (new_window-Stands 4 (omega arith))

mark-Stands_example : Stands (mark (new_window 4) 9) (with_mark 9 (λ c. false))
mark-Stands_example =
    mark-Stands (new_window-Stands 4 (omega arith)) 9 (unfold new_window in omega arith)

parse_nonce-nonce_for_example : parse_nonce (nonce_for 1 300) ≡ some (1, 300)
parse_nonce-nonce_for_example = parse_nonce-nonce_for 1 300 (omega arith) (omega arith)

nonce_bytes : nonce_for 1 300 ≡ 0 ∷ 0 ∷ 0 ∷ 1 ∷ 0 ∷ 0 ∷ 0 ∷ 0 ∷ 0 ∷ 0 ∷ 1 ∷ 44 ∷ []
unfolding nonce_for to_be
nonce_bytes = refl

recv_bytes-once_example :
    (recv_bytes plain
      (recv_all plain
        (recv_bytes plain (recv_all plain (new_channel key key key) []).1 first_frame).1
        []).1
      first_frame).0
    ≡ none
recv_bytes-once_example =
    recv_bytes-once plain key key key [] [] first_frame first_frame (b'h' ∷ b'i' ∷ []) opened refl
  where
    opened :
        (recv_bytes plain (recv_all plain (new_channel key key key) []).1 first_frame).0
        ≡ some (b'h' ∷ b'i' ∷ [])
    opened =
        unfold recv_all recv_bytes recv_in decrypt encrypt new_channel nonce_for parse_nonce to_be
          of_be accepts new_window in
        refl

nonces_never_repeat_example :
    NoncesDiffer
      (send_all plain (new_channel key key key) ((b'a' ∷ [], 0, 0) ∷ (b'b' ∷ [], 1, 0) ∷ [])).0
nonces_never_repeat_example =
    nonces_never_repeat plain key key key ((b'a' ∷ [], 0, 0) ∷ (b'b' ∷ [], 1, 0) ∷ [])

fresh-Synced : Synced sender sender
unfolding new_channel
fresh-Synced = record {
  keys = refl;
  counters = refl;
  windows = refl;
  behind = λ i w h. behind i w h;
}
  where
    behind :
        (i : ℕ) (w : Window)
        → get_elem? (replicate 4 (new_window 1024)) i ≡ some w
        → w.top ≤ get_or (replicate 4 0) i 0
    behind i w h =
        subst (λ u. u.top ≤ get_or (replicate 4 0) i 0)
          (get_elem?-replicate 4 i (new_window 1024) h) (unfold new_window in omega arith)

deliver-arrived_example :
    deliver plain sender sender
      ((true, (b'a' ∷ [], 1, 0)) ∷ (false, (b'b' ∷ [], 1, 1)) ∷ (true, (b'c' ∷ [], 0, 0)) ∷ [])
    ≡ some (b'a' ∷ []) ∷ some (b'c' ∷ []) ∷ []
unfolding new_channel
deliver-arrived_example =
    deliver-arrived plain
      ((true, (b'a' ∷ [], 1, 0)) ∷ (false, (b'b' ∷ [], 1, 1)) ∷ (true, (b'c' ∷ [], 0, 0)) ∷ [])
      sender sender fresh-Synced (omega arith)
      (λ i small. omega (arith, get_or-replicate {A = ℕ} 4 i 0))

-- A frame with a short tag.
abbrev cut_frame : Frame
cut_frame = record first_frame { tag = 0 ∷ [] }

refused_is_harmless_example :
    (recv_all plain (recv_bytes plain sender cut_frame).1 (first_frame ∷ [])).0
    ≡ (recv_all plain sender (first_frame ∷ [])).0
refused_is_harmless_example = refused_is_harmless plain sender cut_frame (first_frame ∷ []) shut
  where
    shut : (recv_bytes plain sender cut_frame).0 ≡ none
    shut =
        unfold recv_bytes recv_in decrypt encrypt new_channel nonce_for parse_nonce to_be of_be
          accepts new_window in
        refl
