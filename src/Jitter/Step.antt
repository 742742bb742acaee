-- ===== src/Jitter/Step.antt =====
-- transport/adaptive-jitter.js: what a `pull` does, and a run of packets, pulls and ticks.
use agent_mobile.Common.{
  ℕ, ◌+◌, ◌*◌, ◌≤◌, ◌≡◌, refl, subst, ◌∙◌, Option, none, some, List, [], ◌∷◌, ltb, leb, ◌==◌,
  if◌then◌else◌, length, lookup, insert, erase, nat_eq, erase-IsMap, lookup-erase, lookup-insert,
  lookup-nil, arith, if-cases, Option-match,
}
use agent_mobile.Jitter.{
  Estimator, Config, Buffer, Out, play, conceal, or_else, run_ahead, hand_out, pull_ready,
  pull_missing, pull, tick, new_buffer, push,
}
use agent_mobile.Jitter.Keys.{length-le-range}
use agent_mobile.Jitter.Bounds.{InWindow, Inv, push-Inv, config-push}

abbrev pub seq_of : {F : Type 0} → Out F → ℕ
seq_of (play n _ _) = n
seq_of (conceal n) = n

-- What happens to a buffer: a packet arrives, the player polls it, or a second passes.
pub data Event (F : Type 0) : Type 0 where
  packet : ℕ → ℕ → F → Event F
  poll : ℕ → Event F
  second : Event F

module _ {N F : Type 0} where
  -- A `pull` keeps the invariant, and hands out the next number or nothing.
  pub record Pulled (b : Buffer N F) (r : Option (Out F) × Buffer N F) : Type 0 where
    pub inv : Inv r.1
    pub same_config : r.1.config ≡ b.config
    pub quiet : r.0 ≡ none → r.1.next ≡ b.next
    pub out :
        (o : Out F) → r.0 ≡ some o → (b.next ≡ some (seq_of o)) × (r.1.next ≡ some (seq_of o + 1))

  -- The map of waits once the number `n` is played: nothing is waited for.
  pub no_waits :
      (b : Buffer N F) (n : ℕ)
      → InWindow b
      → b.next ≡ some n
      → (k v : ℕ) → ¬ (lookup k (erase n b.waiting_for_late) ≡ some v)
  no_waits b n v e k u h =
      absurd (ground (arith, e, h, v.waits k u, lookup-erase n k b.waiting_for_late))

  -- `x` is the number `n`, which is next in `b`.
  abbrev Handed : Buffer N F → ℕ → Option (Out F) → Type 0
  Handed b n none = Unit
  Handed b n (some x) = (b.next ≡ some (seq_of x)) × (some (n + 1) ≡ some (seq_of x + 1))

  hand_out-Pulled :
      (b c : Buffer N F) (n : ℕ) (cur : F × ℕ)
      → c.buf ≡ b.buf
      → c.waiting_for_late ≡ b.waiting_for_late
      → c.config ≡ b.config
      → c.target ≡ b.target
      → Inv b
      → b.next ≡ some n
      → Pulled b (hand_out c n cur)
  unfolding hand_out
  hand_out-Pulled b c n cur eb ew ec et v e = record {
    inv = record {
      within = record {
        is_map = erase-IsMap n c.buf (rw eb v.within.is_map);
        before = λ h. absurd (cc);
        window = λ m h k u g.
            rw ec (ground (arith, h, rw eb at g, v.within.window n e k u, lookup-erase n k b.buf));
        waits = λ k u h. absurd (no_waits b n v.within e k u (rw ew at h));
      };
      capped = rw (et, ec) v.capped;
    };
    same_config = ec;
    quiet = λ h. absurd (cc);
    out = λ o h.
        subst (λ (x : Option (Out F)). Handed b n x) {x = some (play n cur.0 cur.1)} {y = some o} h
          (e, refl);
  }

  pull_ready-Pulled :
      (b : Buffer N F) (n : ℕ) (cur : F × ℕ) (now : ℕ)
      → Inv b
      → b.next ≡ some n
      → Pulled b (pull_ready b n cur now)
  unfolding pull_ready
  pull_ready-Pulled b n cur now v e =
      if-cases (Pulled b) b.started _ _ (λ _. hand_out-Pulled b b n cur refl refl refl refl v e)
        (λ _.
          if-cases (Pulled b) (ltb (run_ahead b n) b.target) _ _
            (λ _.
              if-cases (Pulled b)
                (ltb now ((if b.waiting_since == 0 then now else b.waiting_since) + b.rehold_ms)) _
                _
                (λ _. record {
                  inv = record {
                    within = record {
                      is_map = v.within.is_map;
                      before = v.within.before;
                      window = v.within.window;
                      waits = v.within.waits;
                    };
                    capped = v.capped;
                  };
                  same_config = refl;
                  quiet = λ _. refl;
                  out = λ o h. absurd (cc);
                })
                (λ _. hand_out-Pulled b _ n cur refl refl refl refl v e))
            (λ _. hand_out-Pulled b _ n cur refl refl refl refl v e))

  pull_missing-Pulled :
      (b : Buffer N F) (n : ℕ)
      → Inv b
      → b.next ≡ some n
      → lookup n b.buf ≡ none
      → Pulled b (pull_missing b n)
  unfolding pull_missing
  pull_missing-Pulled b n v e g =
      if-cases (Pulled b) (leb (or_else (lookup n b.waiting_for_late) 0 + b.frame_ms) b.max_hold_ms)
        _ _
        (λ _. record {
          inv = record {
            within = record {
              is_map = v.within.is_map;
              before = v.within.before;
              window = v.within.window;
              waits = λ k u h. waits k u h;
            };
            capped = v.capped;
          };
          same_config = refl;
          quiet = λ _. refl;
          out = λ o h. absurd (cc);
        })
        (λ _. record {
          inv = record {
            within = record {
              is_map = v.within.is_map;
              before = λ h. absurd (cc);
              window = λ m h k u i. ground (arith, h, i, g, v.within.window n e k u);
              waits = λ k u h. absurd (no_waits b n v.within e k u h);
            };
            capped = v.capped;
          };
          same_config = refl;
          quiet = λ h. absurd (cc);
          out = λ o h.
              subst (λ (x : Option (Out F)). Handed b n x) {x = some (conceal n)} {y = some o} h
                (e, refl);
        })
    where
      waits :
          (k u : ℕ)
          → lookup k
              (insert n (or_else (lookup n b.waiting_for_late) 0 + b.frame_ms) b.waiting_for_late)
            ≡ some u
          → b.next ≡ some k
      waits k u h = ground (
        arith,
        h,
        e,
        v.within.waits k u,
        lookup-insert n k (or_else (lookup n b.waiting_for_late) 0 + b.frame_ms) b.waiting_for_late,
      )

  pub pull-Pulled : (b : Buffer N F) (now : ℕ) → Inv b → Pulled b (pull b now)
  unfolding pull
  pull-Pulled b now v =
      Option-match (Pulled b) b.next _ _
        (λ _. record { inv = v; same_config = refl; quiet = λ _. refl; out = λ o h. absurd (cc) })
        (λ n e.
          Option-match (Pulled b) (lookup n b.buf) _ _ (pull_missing-Pulled b n v e)
            (λ cur _. pull_ready-Pulled b n cur now v e))

  tick-Inv : (b : Buffer N F) → Inv b → Inv (tick b)
  unfolding tick
  tick-Inv b v =
      if-cases Inv (ltb 0 b.loss_timer) _ _
        (λ _. record {
          within = record {
            is_map = v.within.is_map;
            before = v.within.before;
            window = v.within.window;
            waits = v.within.waits;
          };
          capped = v.capped;
        })
        (λ _. v)

  pub next-tick : (b : Buffer N F) → (tick b).next ≡ b.next
  unfolding tick
  next-tick b = ground arith

  size-le : {b : Buffer N F} → InWindow b → length b.buf ≤ b.max_frames * 4 + 1
  size-le {b} w = go b.next refl
    where
      go : (o : Option ℕ) → b.next ≡ o → length b.buf ≤ b.max_frames * 4 + 1
      go none e = rw (w.before e) (omega arith)
      go (some n) e =
          length-le-range (b.max_frames * 4 + 1) n b.buf w.is_map
            (λ k v h. ground (arith, w.window n e k v h))

module _ {N F : Type 0} (est : Estimator N) where
  unfoldable pub step : Buffer N F → Event F → Option (Out F) × Buffer N F
  step b (packet seq ts frame) = (none, push est b seq ts frame)
  step b (poll now) = pull b now
  step b second = (none, tick b)

  -- The numbers Handed out in a run, and the buffer afterwards.
  unfoldable pub run : Buffer N F → List (Event F) → List (Out F) × Buffer N F
  run b [] = ([], b)
  run b (e ∷ es) =
      let (o, b') = step b e in
      let (os, b'') = run b' es in (elim o [ none ↦ os | some x ↦ x ∷ os ], b'')

  pub step-Inv : (b : Buffer N F) (e : Event F) → Inv b → Inv (step b e).1
  unfolding step
  step-Inv b (packet seq ts frame) v = push-Inv est b seq ts frame v
  step-Inv b (poll now) v = (pull-Pulled b now v).inv
  step-Inv b second v = tick-Inv b v

  run-Inv : (b : Buffer N F) (es : List (Event F)) → Inv b → Inv (run b es).1
  unfolding run
  run-Inv b [] v = v
  run-Inv b (e ∷ es) v = run-Inv (step b e).1 es (step-Inv b e v)

  pub new_buffer-Inv : (c : Config) → c.baseline ≤ c.max_frames → Inv {F = F} (new_buffer est c)
  unfolding new_buffer
  new_buffer-Inv c h = record {
    within = record {
      is_map = tt;
      before = λ _. refl;
      window = λ n e k v g. absurd (cc);
      waits = λ k v g. absurd (lookup-nil k g);
    };
    capped = h;
  }

  config-step : (b : Buffer N F) (e : Event F) → Inv b → (step b e).1.config ≡ b.config
  unfolding step tick
  config-step b (packet seq ts frame) v = config-push est b seq ts frame
  config-step b (poll now) v = (pull-Pulled b now v).same_config
  config-step b second v = ground arith

  config-run : (b : Buffer N F) (es : List (Event F)) → Inv b → (run b es).1.config ≡ b.config
  unfolding run
  config-run b [] v = refl
  config-run b (e ∷ es) v = config-run (step b e).1 es (step-Inv b e v) ∙ config-step b e v

  -- Whatever packets, pulls and ticks a buffer has seen since it was made, in any order, it holds
  -- at most `4 * maxFrames + 1` frames, and its target does not exceed `maxFrames`, if the baseline
  -- does not.
  pub run-bounded :
      (c : Config) (es : List (Event F))
      → c.baseline ≤ c.max_frames
      → let b = (run (new_buffer est c) es).1 in
        (length b.buf ≤ c.max_frames * 4 + 1) × (b.target ≤ c.max_frames)
  run-bounded c es h =
      let v = run-Inv (new_buffer est c) es (new_buffer-Inv c h) in
      subst
        (λ (k : Config).
          let b = (run (new_buffer est c) es).1 in
          (length b.buf ≤ k.max_frames * 4 + 1) × (b.target ≤ k.max_frames))
        same (size-le v.within, v.capped)
    where
      same : (run (new_buffer est c) es).1.config ≡ c
      same = unfold new_buffer in config-run (new_buffer est c) es (new_buffer-Inv c h)
