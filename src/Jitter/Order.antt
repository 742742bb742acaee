-- ===== src/Jitter/Order.antt =====
-- transport/adaptive-jitter.js: the order in which a run hands numbers out.
use agent_mobile.Common.{
  nat_eq, ◌-◌, ℕ, ◌+◌, ◌*◌, ◌≤◌, ◌≡◌, refl, ap, Option, none, some, List, [], ◌∷◌, ltb, length,
  insert, arith, if-cases, ltb→le,
}
use agent_mobile.Jitter.{
  Estimator, Config, Buffer, Out, or_else, note_loss, bound_buffer, pull, note_jitter, set_target,
  admit, new_buffer, push,
}
use agent_mobile.Jitter.Keys.{lowest-ge}
use agent_mobile.Jitter.Bounds.{Inv, Stored, put_in-Stored}
use agent_mobile.Jitter.Step.{
  Event, packet, poll, second, seq_of, step, run, step-Inv, new_buffer-Inv, pull-Pulled, next-tick,
}

-- Each number is at least `lo` and greater than all before it.
abbrev pub Rising : {F : Type 0} → ℕ → List (Out F) → Type 0
Rising lo [] = Unit
Rising lo (o ∷ os) = (lo ≤ seq_of o) × Rising (seq_of o + 1) os

Rising-mono : {F : Type 0} (lo hi : ℕ) (os : List (Out F)) → lo ≤ hi → Rising hi os → Rising lo os
Rising-mono lo hi [] h r = r
Rising-mono lo hi (o ∷ os) h r = (omega (arith, h, r.0), r.1)

or_else-le : (o : Option ℕ) (d : ℕ) → or_else o 0 ≤ or_else o d
or_else-le none d = omega arith
or_else-le (some n) d = omega arith

module _ {N F : Type 0} where
  -- Bounding the buffer only moves the next number up.
  next-bound_buffer :
      (b : Buffer N F) (n seq : ℕ) → Stored b n seq → n ≤ or_else (bound_buffer b n seq).next 0
  unfolding bound_buffer
  next-bound_buffer b n seq v =
      if-cases (λ (x : Buffer N F). n ≤ or_else x.next 0) (ltb (b.max_frames * 4) (seq - n)) _ _
        (λ _. v.order)
        (λ _.
          if-cases (λ (x : Buffer N F). n ≤ or_else x.next 0) (ltb b.max_frames (length b.buf)) _ _
            (λ _. lowest-ge seq n b.buf v.order v.is_map (λ k u h. (v.keys k u h).0))
            (λ _. omega arith))

  -- What a step hands out is not below the next number, and the next number after it is above it.
  abbrev Advanced : Buffer N F → Option (Out F) → Buffer N F → Type 0
  Advanced b none c = or_else b.next 0 ≤ or_else c.next 0
  Advanced b (some o) c = (or_else b.next 0 ≤ seq_of o) × (seq_of o + 1 ≤ or_else c.next 0)

  Rising-put :
      (b : Buffer N F) (x : Option (Out F)) (c : Buffer N F) (os : List (Out F))
      → Advanced b x c
      → Rising (or_else c.next 0) os
      → Rising (or_else b.next 0) (elim x [ none ↦ os | some o ↦ o ∷ os ])
  Rising-put b none c os h r = Rising-mono (or_else b.next 0) (or_else c.next 0) os h r
  Rising-put b (some o) c os h r = (h.0, Rising-mono (seq_of o + 1) (or_else c.next 0) os h.1 r)

module _ {N F : Type 0} (est : Estimator N) where
  next-push :
      (b : Buffer N F) (seq ts : ℕ) (frame : F)
      → Inv b
      → or_else b.next 0 ≤ or_else (push est b seq ts frame).next 0
  unfolding push admit set_target
  next-push b seq ts frame v =
      if-cases (λ (x : Buffer N F). or_else b.next 0 ≤ or_else x.next 0)
        (ltb seq (or_else b.next 0)) _ _ (λ _. omega arith)
        (λ early.
          let up =
            next-bound_buffer
              (record (note_loss (note_jitter est b seq ts) seq) {
                prev_ts_ms = some ts;
                prev_seq = some seq;
                buf = insert seq (frame, ts) (note_loss (note_jitter est b seq ts) seq).buf;
              })
              (or_else b.next seq) seq (put_in-Stored est b seq ts frame v (ltb→le _ _ early)) in
          omega (arith, up, or_else-le b.next seq))

  pull-Advanced : (b : Buffer N F) (now : ℕ) → Inv b → Advanced b (pull b now).0 (pull b now).1
  pull-Advanced b now v = go (pull b now).0 refl
    where
      go : (x : Option (Out F)) → (pull b now).0 ≡ x → Advanced b x (pull b now).1
      go none e = rw ((pull-Pulled b now v).quiet e) (omega arith)
      go (some o) e =
          let (eb, ea) = (pull-Pulled b now v).out o e in
          (omega (arith, ap (λ x. or_else x 0) eb), omega (arith, ap (λ x. or_else x 0) ea))

  step-Advanced :
      (b : Buffer N F) (e : Event F) → Inv b → Advanced b (step est b e).0 (step est b e).1
  unfolding step
  step-Advanced b (packet seq ts frame) v = next-push b seq ts frame v
  step-Advanced b (poll now) v = pull-Advanced b now v
  step-Advanced b second v = omega (arith, ap (λ x. or_else x 0) (next-tick b))

  run-Rising :
      (b : Buffer N F) (es : List (Event F)) → Inv b → Rising (or_else b.next 0) (run est b es).0
  unfolding run
  run-Rising b [] v = tt
  run-Rising b (e ∷ es) v =
      Rising-put b (step est b e).0 (step est b e).1 (run est (step est b e).1 es).0
        (step-Advanced b e v) (run-Rising (step est b e).1 es (step-Inv est b e v))

  -- Whatever packets arrive, in any order and however often, and whenever the buffer is polled, the
  -- numbers that are played or concealed rise strictly, if the baseline of the configuration does
  -- not exceed `maxFrames`: no frame is played twice, out of order, or after it has been concealed.
  pub run-plays_in_order :
      (c : Config) (es : List (Event F))
      → c.baseline ≤ c.max_frames
      → Rising 0 (run est (new_buffer est c) es).0
  run-plays_in_order c es h =
      Rising-mono 0 (or_else (new_buffer {F = F} est c).next 0) (run est (new_buffer est c) es).0
        (omega arith) (run-Rising (new_buffer est c) es (new_buffer-Inv est c h))
