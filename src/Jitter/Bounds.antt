-- ===== src/Jitter/Bounds.antt =====
-- transport/adaptive-jitter.js: the invariant of the buffer, and that every operation keeps it.
use agent_mobile.Common.{
  ℕ, ◌+◌, ◌-◌, ◌*◌, ◌≤◌, ◌≡◌, refl, sym, ap, ◌∙◌, ◌⊎◌, inr, Option, none, some, [], ltb, length,
  lookup, insert, nat_eq, IsMap, insert-IsMap, lookup-insert, lookup-insert_self, lookup-nil, arith,
  if-cases, ltb→le,
}
use native.Mathlib.Decide.{ℕ_discrete}
use agent_mobile.Jitter.{
  Estimator, Buffer, or_else, note_loss, bound_buffer, note_jitter, set_target, admit, push,
}
use agent_mobile.Jitter.Keys.{lowest-le, lowest-ge, lookup-drop_below, drop_below-IsMap}

module _ {N F : Type 0} where
  -- The buffer without its target: the keys are distinct and lie between the next number to be
  -- played and `4 * maxFrames` beyond it; nothing is buffered before the first packet; and only the next
  -- number is waited for.
  pub record InWindow (b : Buffer N F) : Type 0 where
    pub is_map : IsMap b.buf
    pub before : b.next ≡ none → b.buf ≡ []
    pub window :
        (n : ℕ)
        → b.next ≡ some n
        → (k : ℕ) (v : F × ℕ) → lookup k b.buf ≡ some v
        → (n ≤ k) × (k ≤ n + b.max_frames * 4)
    pub waits : (k v : ℕ) → lookup k b.waiting_for_late ≡ some v → b.next ≡ some k

  pub record Inv (b : Buffer N F) : Type 0 where
    pub within : InWindow b
    pub capped : b.target ≤ b.max_frames

  -- A buffer into which `seq` has been put, with `n` the next number.
  pub record Stored (b : Buffer N F) (n seq : ℕ) : Type 0 where
    pub is_map : IsMap b.buf
    pub order : n ≤ seq
    pub there : (v : F × ℕ) × (lookup seq b.buf ≡ some v)
    pub keys :
        (k : ℕ) (v : F × ℕ)
        → lookup k b.buf ≡ some v
        → (n ≤ k) × ((k ≤ n + b.max_frames * 4) ⊎ (k ≡ seq))
    pub waits : (k v : ℕ) → lookup k b.waiting_for_late ≡ some v → k ≡ n

  bound_buffer-InWindow :
      (b : Buffer N F) (n seq : ℕ) → Stored b n seq → InWindow (bound_buffer b n seq)
  unfolding bound_buffer
  bound_buffer-InWindow b n seq v =
      if-cases InWindow (ltb (b.max_frames * 4) (seq - n)) _ _
        (λ far. record {
          is_map = drop_below-IsMap seq b.buf v.is_map;
          before = λ e. absurd (cc);
          window =
              λ m e k u h. ground (arith, e, h, far, v.keys k u, lookup-drop_below seq k b.buf);
          waits = λ k u h. absurd (lookup-nil k h);
        })
        (λ near.
          if-cases InWindow (ltb b.max_frames (length b.buf)) _ _
            (λ full. record {
              is_map = v.is_map;
              before = λ e. absurd (cc);
              window = λ m e k u h. ground (
                arith,
                e,
                near,
                v.keys k u h,
                lowest-le seq b.buf k u h,
                lowest-ge seq n b.buf v.order v.is_map (λ j w i. (v.keys j w i).0),
              );
              waits = λ k u h. absurd (lookup-nil k h);
            })
            (λ fits. record {
              is_map = v.is_map;
              before = λ e. absurd (cc);
              window = λ m e k u h. ground (arith, e, near, v.keys k u h, v.order);
              waits = λ k u h. ap some (sym (v.waits k u h));
            }))

  -- A packet that is not late is put in.
  put_in :
      (b c : Buffer N F) (seq ts : ℕ) (frame : F)
      → c.buf ≡ b.buf
      → c.waiting_for_late ≡ b.waiting_for_late
      → c.config ≡ b.config
      → InWindow b
      → or_else b.next 0 ≤ seq
      → Stored
          (record c {
            prev_ts_ms = some ts;
            prev_seq = some seq;
            buf = insert seq (frame, ts) c.buf;
          })
          (or_else b.next seq)
          seq
  put_in b c seq ts frame eb ew ec v le = record {
    is_map = insert-IsMap seq (frame, ts) c.buf (rw eb v.is_map);
    order = order b.next le;
    there = ((frame, ts), lookup-insert_self seq (frame, ts) c.buf);
    keys = λ k u h. elim (ℕ_discrete seq k) [
      | yes e ↦ (rw (← e) (order b.next le), inr (sym e))
      | no ne ↦
          old k u (ground (arith, h, ne, ap (lookup k) eb, lookup-insert seq k (frame, ts) c.buf))
            b.next refl
    ];
    waits = λ k u h. ground (arith, v.waits k u (rw ew at h));
  }
    where
      order : (o : Option ℕ) → or_else o 0 ≤ seq → or_else o seq ≤ seq
      order none h = omega arith
      order (some n) h = h

      old :
          (k : ℕ) (u : F × ℕ)
          → lookup k b.buf ≡ some u
          → (o : Option ℕ) → b.next ≡ o
          → (or_else b.next seq ≤ k) × ((k ≤ or_else b.next seq + c.max_frames * 4) ⊎ (k ≡ seq))
      old k u h none e = absurd (lookup-nil k (rw (v.before e) at h))
      old k u h (some n) e = rw (e, ec) (ground (arith, v.window n e k u h))

module _ {N F : Type 0} (est : Estimator N) where
  -- The accounting of jitter and loss leaves the buffer alone.
  noted_same :
      (b : Buffer N F) (seq ts : ℕ)
      → let c = note_loss (note_jitter est b seq ts) seq in
        (c.buf ≡ b.buf) × (c.waiting_for_late ≡ b.waiting_for_late) × (c.config ≡ b.config)
  unfolding note_loss note_jitter
  noted_same b seq ts = ground arith

  set_target-Inv : (b : Buffer N F) → InWindow b → Inv (set_target est b)
  unfolding set_target
  set_target-Inv b v = record {
    within = record { is_map = v.is_map; before = v.before; window = v.window; waits = v.waits };
    capped = omega arith;
  }

  pub put_in-Stored :
      (b : Buffer N F) (seq ts : ℕ) (frame : F)
      → Inv b
      → or_else b.next 0 ≤ seq
      → Stored
          (record (note_loss (note_jitter est b seq ts) seq) {
            prev_ts_ms = some ts;
            prev_seq = some seq;
            buf = insert seq (frame, ts) (note_loss (note_jitter est b seq ts) seq).buf;
          })
          (or_else b.next seq)
          seq
  put_in-Stored b seq ts frame v le =
      let (eb, ew, ec) = noted_same b seq ts in
      put_in b (note_loss (note_jitter est b seq ts) seq) seq ts frame eb ew ec v.within le

  pub push-Inv : (b : Buffer N F) (seq ts : ℕ) (frame : F) → Inv b → Inv (push est b seq ts frame)
  unfolding push admit
  push-Inv b seq ts frame v =
      if-cases Inv (ltb seq (or_else b.next 0)) _ _
        (λ late. record {
          within = record {
            is_map = v.within.is_map;
            before = v.within.before;
            window = v.within.window;
            waits = v.within.waits;
          };
          capped = v.capped;
        })
        (λ early. set_target-Inv _ (
          bound_buffer-InWindow _ (or_else b.next seq) seq
            (put_in-Stored b seq ts frame v (ltb→le _ _ early))))

  config-bound_buffer : (b : Buffer N F) (n seq : ℕ) → (bound_buffer b n seq).config ≡ b.config
  unfolding bound_buffer
  config-bound_buffer b n seq = ground arith

  pub config-push :
      (b : Buffer N F) (seq ts : ℕ) (frame : F) → (push est b seq ts frame).config ≡ b.config
  unfolding push admit set_target
  config-push b seq ts frame =
      if-cases (λ (x : Buffer N F). x.config ≡ b.config) (ltb seq (or_else b.next 0)) _ _
        (λ _. refl) (λ _. config-bound_buffer _ (or_else b.next seq) seq ∙ (noted_same b seq ts).2)
