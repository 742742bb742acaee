-- ===== src/Jitter/Progress.antt =====
-- transport/adaptive-jitter.js: a frame that is missing does not hold up the others for ever, and
-- neither does the hold before the start.
use agent_mobile.Common.{
  ◌⊎◌, inl, inr, nat_eq, ℕ, suc, ◌+◌, ◌*◌, ◌≤◌, ◌<◌, ◌≡◌, ◌≢◌, ◌∙◌, false, none, some, List, [],
  ◌∷◌, ◌++◌, length, lookup, insert, arith, lookup-insert_self,
}
use agent_mobile.Jitter.{
  Estimator, Buffer, Out, play, conceal, or_else, pull, pull_missing, pull_ready, hand_out,
}
use agent_mobile.Jitter.Step.{Event, poll, step, run}

unfoldable pub polls : {F : Type 0} → List ℕ → List (Event F)
polls [] = []
polls (now ∷ nows) = poll now ∷ polls nows

module _ {N F : Type 0} where
  -- The buffer after one more frame's time of waiting for `n`.
  abbrev waited_on : Buffer N F → ℕ → Buffer N F
  waited_on b n = record b {
    waiting_for_late =
        insert n (or_else (lookup n b.waiting_for_late) 0 + b.frame_ms) b.waiting_for_late;
  }

  pull_waits :
      (b : Buffer N F) (n now : ℕ)
      → b.next ≡ some n
      → lookup n b.buf ≡ none
      → or_else (lookup n b.waiting_for_late) 0 + b.frame_ms ≤ b.max_hold_ms
      → pull b now ≡ (none, waited_on b n)
  unfolding pull pull_missing
  pull_waits b n now e g h = ground (arith, e, g, h)

  pull_conceals :
      (b : Buffer N F) (n now : ℕ)
      → b.next ≡ some n
      → lookup n b.buf ≡ none
      → b.max_hold_ms < or_else (lookup n b.waiting_for_late) 0 + b.frame_ms
      → (pull b now).0 ≡ some (conceal n)
  unfolding pull pull_missing
  pull_conceals b n now e g h = ground (arith, e, g, h)

  pull_held :
      (b : Buffer N F) (n now : ℕ) (frame : F) (ts : ℕ)
      → b.next ≡ some n
      → lookup n b.buf ≡ some (frame, ts)
      → b.started ≡ false
      → b.waiting_since ≡ 0
      → ((pull b now).0 ≡ some (play n frame ts))
        ⊎ (pull b now ≡ (none, record b { waiting_since = now }))
  unfolding pull pull_ready hand_out
  pull_held b n now frame ts e g s w = ground (arith, e, g, s, w)

  pull_released :
      (b : Buffer N F) (n later : ℕ) (frame : F) (ts : ℕ)
      → b.next ≡ some n
      → lookup n b.buf ≡ some (frame, ts)
      → b.waiting_since ≢ 0
      → b.waiting_since + b.rehold_ms ≤ later
      → (pull b later).0 ≡ some (play n frame ts)
  unfolding pull pull_ready hand_out
  pull_released b n later frame ts e g w h = ground (arith, e, g, w, h)

module _ {N F : Type 0} (est : Estimator N) where
  run-quiet :
      (b c : Buffer N F) (now : ℕ) (es : List (Event F))
      → pull b now ≡ (none, c)
      → (run est b (poll now ∷ es)).0 ≡ (run est c es).0
  unfolding run step
  run-quiet b c now es e = ground (arith, e)

  run-last :
      (b : Buffer N F) (now : ℕ) (o : Out F)
      → (pull b now).0 ≡ some o
      → (run est b (poll now ∷ [])).0 ≡ o ∷ []
  unfolding run step
  run-last b now o e = ground (arith, e)

  run-first :
      (b : Buffer N F) (now : ℕ) (es : List (Event F)) (o : Out F)
      → (pull b now).0 ≡ some o
      → (os : List (Out F)) × ((run est b (poll now ∷ es)).0 ≡ o ∷ os)
  unfolding run step
  run-first b now es o e = ((run est (pull b now).1 es).0, ground (arith, e))

  -- A frame that is not there, with `n` the next number, is waited for while the frames' time that
  -- has gone by is within `maxHoldMs`, and is concealed by the first pull past it, with no other
  -- outcome on the way.
  pub conceals_at_deadline :
      (b : Buffer N F) (n : ℕ) (nows : List ℕ) (last : ℕ)
      → b.next ≡ some n
      → lookup n b.buf ≡ none
      → or_else (lookup n b.waiting_for_late) 0 + length nows * b.frame_ms ≤ b.max_hold_ms
      → b.max_hold_ms < or_else (lookup n b.waiting_for_late) 0 + suc (length nows) * b.frame_ms
      → (run est b (polls nows ++ (poll last ∷ []))).0 ≡ conceal n ∷ []
  unfolding polls
  conceals_at_deadline b n [] last e g h k =
      run-last b last (conceal n) (pull_conceals b n last e g (omega (arith, k)))
  conceals_at_deadline b n (now ∷ nows) last e g h k =
      let same =
        lookup-insert_self n (or_else (lookup n b.waiting_for_late) 0 + b.frame_ms)
          b.waiting_for_late in
      run-quiet b (waited_on b n) now (polls nows ++ (poll last ∷ []))
        (pull_waits b n now e g (omega (arith, h)))
      ∙ conceals_at_deadline (waited_on b n) n nows last e g (rw same (omega (arith, h)))
          (rw same (omega (arith, k)))

  -- Before the start, with the next frame there and nothing held yet, the first pull hands the
  -- frame out or starts the hold, and any pull `reholdMs` later hands it out: two such pulls hand it
  -- out first, whether or not enough frames follow it.
  pub starts_by_rehold :
      (b : Buffer N F) (n now later : ℕ) (frame : F) (ts : ℕ)
      → b.next ≡ some n
      → lookup n b.buf ≡ some (frame, ts)
      → b.started ≡ false
      → b.waiting_since ≡ 0
      → now ≢ 0
      → now + b.rehold_ms ≤ later
      → (os : List (Out F)) × ((run est b (poll now ∷ poll later ∷ [])).0 ≡ play n frame ts ∷ os)
  starts_by_rehold b n now later frame ts e g s w z h = elim (pull_held b n now frame ts e g s w) [
    | inl out ↦ run-first b now (poll later ∷ []) (play n frame ts) out
    | inr held ↦
        let c = record b { waiting_since = now } in
        let (os, f) =
          run-first c later [] (play n frame ts) (pull_released c n later frame ts e g z h) in
        (os, run-quiet b c now (poll later ∷ []) held ∙ f)
  ]
