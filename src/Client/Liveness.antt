-- ===== src/Client/Liveness.antt =====
-- transport/ws-client.mjs: what counts as liveness, and what it does with the frames held back.
use mathlib.Core.List.{append-nil, append_assoc}
use agent_mobile.Common.{
  ℕ, suc, ◌+◌, ◌<◌, ◌≡◌, refl, sym, ap, ◌∙◌, true, false, none, some, List, [], ◌∷◌, ◌++◌, map,
  length, arith, Option-match,
}
use agent_mobile.Channel.{Bytes, Aead, Channel, Frame, recv_bytes}
use agent_mobile.Frames.{code, pong, unpack}
use agent_mobile.Client.{
  Client, Codec, wrote, partition_change, Step, emit, flush, on_liveness, probe_expires, dispatch,
  on_opened, on_frame,
}
use agent_mobile.Client.Steady.{inbound, probe_fires, step, run}

module _ {D : Type 0} where
  -- Frames emitted one after the other.
  unfoldable pub emit_all : Client → List Bytes → Step D
  emit_all c [] = ([], c)
  emit_all c (frame ∷ frames) =
      let (es, c') = emit c frame in let (es', c'') = emit_all c' frames in (es ++ es', c'')

  emit-held :
      (c : Client) (frame : Bytes)
      → 0 < c.failures
      → emit {D = D} c frame
        ≡ ([], record c { buffer = c.buffer ++ (frame ∷ []); buffered = c.buffered + 1 })
  unfolding emit
  emit-held c frame h = ground (arith, h)

  -- In trouble, frames are held back behind those that are.
  emit_all-held :
      (c : Client) (frames : List Bytes)
      → 0 < c.failures
      → ((emit_all c frames).0 ≡ [])
        × ((emit_all c frames).1
            ≡ record c { buffer = c.buffer ++ frames; buffered = c.buffered + length frames })
  unfolding emit_all
  emit_all-held c [] h = (
    refl,
    ap (λ (bs : List Bytes). record c { buffer = bs }) (sym (append-nil c.buffer))
        ∙ ap (λ (n : ℕ). record c { buffer = c.buffer ++ []; buffered = n }) {x = c.buffered}
            {y = c.buffered + 0} (omega arith),
  )
  emit_all-held c (frame ∷ frames) h =
      let d = record c { buffer = c.buffer ++ (frame ∷ []); buffered = c.buffered + 1 } in
      let later = emit_all-held d frames h in
      rw (emit-held c frame h, later.0, later.1)
        (
          refl,
          ap
                (λ (bs : List Bytes). record d {
                  buffer = bs;
                  buffered = c.buffered + 1 + length frames;
                })
                (append_assoc c.buffer (frame ∷ []) frames)
              ∙ ap (λ (n : ℕ). record d { buffer = c.buffer ++ (frame ∷ frames); buffered = n })
                  {x = c.buffered + 1 + length frames} {y = c.buffered + suc (length frames)}
                  (omega arith),
        )

module _ {D : Type 0} (aead : Aead) (codec : Codec D) where
  -- An authentic pong.
  pub record Pong (c : Client) (raw : Bytes) : Type 0 where
    pub frame : Frame
    pub shape : unpack raw ≡ some frame
    pub is_pong : frame.type ≡ code pong
    pub plain : Bytes
    pub opened : (recv_bytes aead c.channel frame).0 ≡ some plain

  on_frame-pong :
      (c : Client) (raw : Bytes) (p : Pong c raw)
      → on_frame aead codec c raw
        ≡ on_opened aead codec
            (record c { channel = (recv_bytes aead c.channel p.frame).1 })
            (code pong)
            p.plain
  unfolding on_frame
  on_frame-pong c raw p = ground (arith, p.shape, p.is_pong, p.opened)

  -- A message that is no frame, or whose frame does not open (forged, replayed), is not liveness:
  -- nothing is handed out, and nothing of the client changes but what its channel counts.
  pub unopened_is_not_liveness :
      (c : Client) (raw : Bytes)
      → ((f : Frame) → unpack raw ≡ some f → (recv_bytes aead c.channel f).0 ≡ none)
      → ((on_frame aead codec c raw).0 ≡ [])
        × ((ch : Channel) × ((on_frame aead codec c raw).1 ≡ record c { channel = ch }))
  unfolding on_frame
  unopened_is_not_liveness c raw h =
      Option-match
        (λ (r : Step D). (r.0 ≡ []) × ((ch : Channel) × (r.1 ≡ record c { channel = ch })))
        (unpack raw) _ _ (λ _. (refl, (c.channel, refl)))
        (λ f e. rw (h f e) (refl, ((recv_bytes aead c.channel f).1, refl)))

  -- What an authentic pong does: the client was in trouble, the partition declared or not, or was
  -- in none.
  pong-declared :
      (c : Client) (pt : Bytes)
      → 0 < c.failures
      → c.partitioned ≡ true
      → on_opened aead codec c (code pong) pt ≡ (
        (map wrote c.buffer ++ (partition_change false ∷ [])) ++ [],
        record c {
          failures = 0;
          next_timer = some c.base;
          probe_timer = false;
          partitioned = false;
          buffer = [];
          flushed = c.flushed + length c.buffer;
        },
      )
  unfolding on_opened dispatch on_liveness flush
  pong-declared c pt h t = ground (arith, h, t)

  pong-undeclared :
      (c : Client) (pt : Bytes)
      → 0 < c.failures
      → c.partitioned ≡ false
      → on_opened aead codec c (code pong) pt
        ≡ ([], record c { failures = 0; next_timer = some c.base; probe_timer = false })
  unfolding on_opened dispatch on_liveness
  pong-undeclared c pt h t = ground (arith, h, t)

  pong-untroubled :
      (c : Client) (pt : Bytes) → c.failures ≡ 0 → on_opened aead codec c (code pong) pt ≡ ([], c)
  unfolding on_opened dispatch
  pong-untroubled c pt h = ground (arith, h)

  -- A pong that comes after the partition was declared flushes everything that was held back, in the
  -- order in which it was emitted, also what is emitted last, and ends the partition.
  pub partition_flushes_in_order :
      (c : Client) (frames : List Bytes) (raw : Bytes)
      → 0 < c.failures
      → c.partitioned ≡ true
      → Pong c raw
      → let held : Step D = emit_all c frames in
        let r = on_frame aead codec held.1 raw in
        (held.0 ≡ [])
        × (r.0 ≡ map wrote (c.buffer ++ frames) ++ (partition_change false ∷ []))
        × (r.1.buffer ≡ [])
        × (r.1.failures ≡ 0)
        × (r.1.partitioned ≡ false)
  partition_flushes_in_order c frames raw h t p =
      let (quiet, after) = emit_all-held {D = D} c frames h in
      let d = record c { buffer = c.buffer ++ frames; buffered = c.buffered + length frames } in
      let q : Pong d raw = record {
        frame = p.frame;
        shape = p.shape;
        is_pong = p.is_pong;
        plain = p.plain;
        opened = p.opened;
      } in
      rw
        (
          quiet,
          after,
          on_frame-pong d raw q,
          pong-declared (record d { channel = (recv_bytes aead c.channel p.frame).1 }) p.plain h t,
        )
        (refl, append-nil _, refl, refl, refl)

  -- A pong that comes before the partition is declared, though the client has been holding frames
  -- back, flushes nothing: they stay held, and the next frame overtakes them.
  pub undeclared_is_not_flushed :
      (c : Client) (frame raw : Bytes)
      → 0 < c.failures
      → c.partitioned ≡ false
      → Pong c raw
      → let r = on_frame aead codec c raw in
        (r.0 ≡ [])
        × (r.1.buffer ≡ c.buffer)
        × ((emit {D = D} r.1 frame).0 ≡ wrote frame ∷ [])
        × ((emit {D = D} r.1 frame).1.buffer ≡ c.buffer)
  unfolding emit
  undeclared_is_not_flushed c frame raw h t p =
      let d = record c { channel = (recv_bytes aead c.channel p.frame).1 } in
      rw (on_frame-pong c raw p, pong-undeclared d p.plain h t) (refl, refl, refl, refl)

  -- The answer to a probe that is sent while nothing has failed does not stop its timer: the probe
  -- still counts as failed.
  pub answered_probe_fails :
      (c : Client) (raw : Bytes)
      → c.failures ≡ 0
      → c.probe_timer ≡ true
      → Pong c raw
      → (run aead codec c (inbound raw ∷ probe_fires ∷ [])).1.failures ≡ 1
  unfolding probe_expires run step
  answered_probe_fails c raw h t p =
      let d = record c { channel = (recv_bytes aead c.channel p.frame).1 } in
      rw (on_frame-pong c raw p, pong-untroubled d p.plain h) (ground (arith, t, h))
