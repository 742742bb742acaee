-- ===== src/Jitter/Pump.antt =====
-- transport/udp-media.js, the loop of `pump`, over transport/adaptive-jitter.js.
use agent_mobile.Common.{
  nat_eq, ℕ, zero, suc, ◌+◌, ◌≤◌, ◌<◌, ◌≡◌, ◌⊎◌, inl, inr, refl, sym, subst, ap, Option, none, some,
  List, [], ◌∷◌, ltb, leb, ◌==◌, if◌then◌else◌, length, lookup, erase, arith, if-cases,
  Option-match,
}
use agent_mobile.Jitter.{
  Config, Buffer, Out, or_else, run_ahead, hand_out, pull_ready, pull_missing, pull,
}
use agent_mobile.Jitter.Bounds.{Inv}
use agent_mobile.Jitter.Step.{no_waits, pull-Pulled}

length-erase-le : {A : Type 0} (k : ℕ) (m : List (ℕ × A)) → length (erase k m) ≤ length m
unfolding erase
length-erase-le k [] = omega arith
length-erase-le k ((i, w) ∷ m) = ground (arith, length-erase-le k m)

length-erase-lt :
    {A : Type 0} (k : ℕ) (m : List (ℕ × A)) {v : A}
    → lookup k m ≡ some v
    → length (erase k m) < length m
unfolding lookup erase
length-erase-lt k [] h = absurd (cc)
length-erase-lt k ((i, w) ∷ m) {v} h =
    ground (arith, h, length-erase-le k m, length-erase-lt k m {v = v})

none_of : (o : Option ℕ) → ((u : ℕ) → ¬ (o ≡ some u)) → o ≡ none
none_of none h = refl
none_of (some u) h = absurd (h u refl)

module _ {N F : Type 0} where
  -- `while ((out = jb.pull(nowMs)))`, with fuel.
  unfoldable pub drain : ℕ → Buffer N F → ℕ → List (Out F) × Buffer N F
  drain zero b now = ([], b)
  drain (suc fuel) b now =
      let (o, b') = pull b now in
      let (os, b'') = drain fuel b' now in elim o [ none ↦ ([], b') | some x ↦ (x ∷ os, b'') ]

  -- The next number has not been waited for.
  abbrev Calm : Buffer N F → Type 0
  Calm b = (k u : ℕ) → ¬ (lookup k b.waiting_for_late ≡ some u)

  -- A result that ends the loop, or takes a frame and leaves the buffer calm.
  abbrev Shrinks : ℕ → Option (Out F) × Buffer N F → Type 0
  Shrinks size r = (r.0 ≡ none) ⊎ ((length r.1.buf < size) × Calm r.1)

  ready-Shrinks :
      (b : Buffer N F) (n : ℕ) (cur : F × ℕ) (now : ℕ)
      → Inv b
      → b.next ≡ some n
      → lookup n b.buf ≡ some cur
      → Shrinks (length b.buf) (pull_ready b n cur now)
  unfolding pull_ready hand_out
  ready-Shrinks b n cur now v e g =
      let less = length-erase-lt n b.buf g in
      let calm = no_waits b n v.within e in
      if-cases (Shrinks (length b.buf)) b.started _ _ (λ _. inr (less, calm))
        (λ _.
          if-cases (Shrinks (length b.buf)) (ltb (run_ahead b n) b.target) _ _
            (λ _.
              if-cases (Shrinks (length b.buf))
                (ltb now ((if b.waiting_since == 0 then now else b.waiting_since) + b.rehold_ms)) _
                _ (λ _. inl refl) (λ _. inr (less, calm)))
            (λ _. inr (less, calm)))

  missing-Shrinks :
      (b : Buffer N F) (n : ℕ) → b.frame_ms ≤ b.max_hold_ms → Calm b → (pull_missing b n).0 ≡ none
  unfolding pull_missing
  missing-Shrinks b n h calm =
      rw (none_of (lookup n b.waiting_for_late) (calm n)) (ground (arith, h))

  pull-Shrinks :
      (b : Buffer N F) (now : ℕ)
      → Inv b
      → b.frame_ms ≤ b.max_hold_ms
      → Calm b
      → Shrinks (length b.buf) (pull b now)
  unfolding pull
  pull-Shrinks b now v h calm =
      Option-match (Shrinks (length b.buf)) b.next _ _ (λ _. inl refl)
        (λ n e.
          Option-match (Shrinks (length b.buf)) (lookup n b.buf) _ _
            (λ _. inl (missing-Shrinks b n h calm)) (λ cur g. ready-Shrinks b n cur now v e g))

  -- The first pull may conceal a frame that was waited for; the buffer is calm then.
  missing-Calms :
      (b : Buffer N F) (n : ℕ)
      → Inv b
      → b.next ≡ some n
      → Shrinks (suc (length b.buf)) (pull_missing b n)
  unfolding pull_missing
  missing-Calms b n v e =
      if-cases (Shrinks (suc (length b.buf)))
        (leb (or_else (lookup n b.waiting_for_late) 0 + b.frame_ms) b.max_hold_ms) _ _
        (λ _. inl refl) (λ _. inr (omega arith, no_waits b n v.within e))

  weaken : (size : ℕ) (r : Option (Out F) × Buffer N F) → Shrinks size r → Shrinks (suc size) r
  weaken size r (inl e) = inl e
  weaken size r (inr h) = inr (omega (arith, h.0), h.1)

  pull-Calms : (b : Buffer N F) (now : ℕ) → Inv b → Shrinks (suc (length b.buf)) (pull b now)
  unfolding pull
  pull-Calms b now v =
      Option-match (Shrinks (suc (length b.buf))) b.next _ _ (λ _. inl refl)
        (λ n e.
          Option-match (Shrinks (suc (length b.buf))) (lookup n b.buf) _ _
            (λ _. missing-Calms b n v e)
            (λ cur g.
              weaken (length b.buf) (pull_ready b n cur now) (ready-Shrinks b n cur now v e g)))

  -- Two fuels give the same, if the first pull ends the loop or they do from there.
  drain-agree :
      (b : Buffer N F) (now k j : ℕ)
      → ((pull b now).0 ≡ none) ⊎ (drain k (pull b now).1 now ≡ drain j (pull b now).1 now)
      → drain (suc k) b now ≡ drain (suc j) b now
  unfolding drain
  drain-agree b now k j (inl e) = rw (drain, e) refl
  drain-agree b now k j (inr e) =
      ap {B = List (Out F) × Buffer N F}
        (λ (r : List (Out F) × Buffer N F). elim (pull b now).0 [
          | none ↦ ([], (pull b now).1)
          | some x ↦ (x ∷ r.0, r.1)
        ])
        e

  hold-pull :
      (b : Buffer N F) (now : ℕ)
      → Inv b
      → b.frame_ms ≤ b.max_hold_ms
      → (pull b now).1.frame_ms ≤ (pull b now).1.max_hold_ms
  hold-pull b now v h =
      subst (λ (c : Config). c.frame_ms ≤ c.max_hold_ms) (sym (pull-Pulled b now v).same_config) h

  drain-Calm :
      (k j : ℕ) (b : Buffer N F) (now : ℕ)
      → Inv b
      → b.frame_ms ≤ b.max_hold_ms
      → Calm b
      → length b.buf < k
      → length b.buf < j
      → drain k b now ≡ drain j b now
  drain-Calm zero j b now v h calm lk lj = absurd (omega (arith, lk))
  drain-Calm (suc k) zero b now v h calm lk lj = absurd (omega (arith, lj))
  drain-Calm (suc k) (suc j) b now v h calm lk lj =
      drain-agree b now k j (elim (pull-Shrinks b now v h calm) [
        | inl e ↦ inl e
        | inr s ↦ inr (
            drain-Calm k j (pull b now).1 now (pull-Pulled b now v).inv (hold-pull b now v h) s.1
              (omega (arith, s.0, lk)) (omega (arith, s.0, lj)))
      ])

  -- The loop of `pump` ends: for a buffer within its bounds, where a frame's time does not exceed `maxHoldMs`, two pulls more than
  -- there are buffered frames are enough, and any larger fuel gives the same outcomes and buffer.
  pub drain-enough :
      (extra : ℕ) (b : Buffer N F) (now : ℕ)
      → Inv b
      → b.frame_ms ≤ b.max_hold_ms
      → drain (length b.buf + 2 + extra) b now ≡ drain (length b.buf + 2) b now
  drain-enough extra b now v h =
      let fuel : length b.buf + 2 + extra ≡ suc (length b.buf + 1 + extra) = omega arith in
      let less : length b.buf + 2 ≡ suc (length b.buf + 1) = omega arith in
      rw (fuel, less)
        (drain-agree b now (length b.buf + 1 + extra) (length b.buf + 1)
          (elim (pull-Calms b now v) [
            | inl e ↦ inl e
            | inr s ↦ inr (
                drain-Calm (length b.buf + 1 + extra) (length b.buf + 1) (pull b now).1 now
                  (pull-Pulled b now v).inv (hold-pull b now v h) s.1 (omega (arith, s.0))
                  (omega (arith, s.0)))
          ]))
