-- ===== src/Sidecar/Chunks.antt =====
-- vendor/hermes-plugin/sidecar/index.mjs, the listener of 'data': what comes in several chunks.
use mathlib.Core.List.{append_assoc, append-nil}
use agent_mobile.Common.{
  ℕ, ◌≡◌, refl, true, false, Option, none, some, List, [], ◌∷◌, ◌++◌, map, ◌∙◌, lookup, nat_eq,
  insert_twice, erase-insert, lookup-insert_self, lookup-erase_self, Option-cases, inl, inr,
  Bool-cases, sym, ap,
}
use agent_mobile.Channel.{Bytes}
use agent_mobile.Handshake.Base.{Text}
use agent_mobile.HttpGateway.{text_eq}
use agent_mobile.Renderer.{trim}
use agent_mobile.Sidecar.{
  Control, Controlled, AdapterSocket, closed, cut, live, put_peer, flush_queued, handle_lines,
  on_lines, on_token, on_data, destroy_socket, is_in,
}
use agent_mobile.Sidecar.Framing.{all_lines, cut-append, all_lines-append}

-- The text of some chunks.
unfoldable pub whole : List Text → Text
whole [] = []
whole (t ∷ ts) = t ++ whole ts

-- The bytes of each text decode to it.
abbrev pub AllDecode : (Bytes → Text) → (Text → Bytes) → List Text → Type 0
AllDecode to_string encode [] = Unit {0}
AllDecode to_string encode (t ∷ ts) = (to_string (encode t) ≡ t) × AllDecode to_string encode ts

module _ {M : Type 0} where
  -- One step, and another from where it leads.
  abbrev pub and_then : Controlled M → (Control → Controlled M) → Controlled M
  and_then (es, c) next = let (es', c') = next c in (es ++ es', c')

module _ {M : Type 0} (parse : Text → Option M) where
  -- What the text of a chunk does.
  abbrev pub on_text : Text → ℕ → Text → Control → Controlled M
  on_text token i t c = on_data parse (λ (b : Bytes). b) token i t c

  handle_lines-append :
      (ls ms : List Text)
      → handle_lines parse (ls ++ ms) ≡ handle_lines parse ls ++ handle_lines parse ms
  unfolding handle_lines
  handle_lines-append [] ms = refl
  handle_lines-append (l ∷ ls) ms = elim (Option-cases (parse l)) [
    | inl e ↦ rw (handle_lines, e) (handle_lines-append ls ms)
    | inr (m, e) ↦ rw (handle_lines, e, handle_lines-append ls ms) refl
  ]

  -- What a chunk does, by what is known of its connection.
  pub on_data-unheard :
      (token : Text) (i : ℕ) (t : Text) (c : Control)
      → lookup i c.peers ≡ none
      → on_text token i t c ≡ ([], c)
  unfolding on_data
  on_data-unheard token i t c e = rw (on_text, on_data, e) refl

  pub on_data-accepted :
      (token : Text) (i : ℕ) (p : AdapterSocket) (t : Text) (c : Control)
      → lookup i c.peers ≡ some p
      → p.authed ≡ true
      → on_text token i t c ≡ on_lines parse i (p.buf ++ t) c
  unfolding on_data
  on_data-accepted token i p t c e h = rw (on_text, on_data, e, h) refl

  pub on_data-waiting :
      (token : Text) (i : ℕ) (p : AdapterSocket) (t : Text) (c : Control)
      → lookup i c.peers ≡ some p
      → p.authed ≡ false
      → on_text token i t c ≡ on_token parse token i (p.buf ++ t) c
  unfolding on_data
  on_data-waiting token i p t c e h = rw (on_text, on_data, e, h) refl

  on_lines-append :
      (token : Text) (i : ℕ) (buf t : Text) (c : Control)
      → on_lines parse i (buf ++ t) c ≡ and_then (on_lines parse i buf c) (on_text token i t)
  unfolding on_lines
  on_lines-append token i buf t c =
      let (ls, r) = all_lines buf in
      let c' = put_peer i (record { authed = true; buf = r }) c in
      let next = on_data-accepted token i _ t c' (lookup-insert_self i _ c.peers) refl in
      rw (all_lines-append buf t, handle_lines-append, next, insert_twice) refl

  -- The first line: not there yet, the token, or another text.
  pub on_token-waits :
      (token : Text) (i : ℕ) (buf : Text) (c : Control)
      → cut buf ≡ none
      → on_token parse token i buf c ≡ ([], put_peer i (record { authed = false; buf = buf }) c)
  unfolding on_token
  on_token-waits token i buf c e = rw (on_token, e) refl

  pub on_token-accepts :
      (token : Text) (i : ℕ) (buf l r : Text) (c : Control)
      → cut buf ≡ some (l, r)
      → text_eq.beq (trim l) token ≡ true
      → on_token parse token i buf c
        ≡ and_then (flush_queued (record c { bridge = some i })) (on_lines parse i r)
  unfolding on_token
  on_token-accepts token i buf l r c e h = rw (on_token, e, h) refl

  pub on_token-refuses :
      (token : Text) (i : ℕ) (buf l r : Text) (c : Control)
      → cut buf ≡ some (l, r)
      → text_eq.beq (trim l) token ≡ false
      → on_token parse token i buf c ≡ (closed i ∷ [], destroy_socket i c)
  unfolding on_token
  on_token-refuses token i buf l r c e h = rw (on_token, e, h) refl

  -- What the connection had kept is written over.
  flushed-put :
      (i j : ℕ) (p : AdapterSocket) (r : Text) (c : Control)
      → and_then (flush_queued (record (put_peer i p c) { bridge = some j })) (on_lines parse i r)
        ≡ and_then (flush_queued (record c { bridge = some j })) (on_lines parse i r)
  unfolding flush_queued live on_lines
  flushed-put i j p r c = elim (Bool-cases (is_in j c.destroyed)) [
    | inl g ↦ rw (flush_queued, live, g, insert_twice) refl
    | inr g ↦ rw (flush_queued, live, g, insert_twice) refl
  ]

  on_token-put :
      (token : Text) (i : ℕ) (buf : Text) (p : AdapterSocket) (c : Control)
      → on_token parse token i buf (put_peer i p c) ≡ on_token parse token i buf c
  unfolding destroy_socket
  on_token-put token i buf p c =
      let c' = put_peer i p c in
      elim (Option-cases (cut buf)) [
        | inl e ↦
            rw (on_token-waits token i buf c' e, on_token-waits token i buf c e, insert_twice) refl
        | inr ((l, r), e) ↦ elim (Bool-cases (text_eq.beq (trim l) token)) [
          | inl h ↦
              on_token-accepts token i buf l r c' e h
              ∙ flushed-put i i p r c
              ∙ sym (on_token-accepts token i buf l r c e h)
          | inr h ↦
              rw
                (
                  on_token-refuses token i buf l r c' e h,
                  on_token-refuses token i buf l r c e h,
                  erase-insert,
                )
                refl
        ]
      ]

  -- The first line, and what follows it.
  on_token-append :
      (token : Text) (i : ℕ) (buf t : Text) (c : Control)
      → on_token parse token i (buf ++ t) c
        ≡ and_then (on_token parse token i buf c) (on_text token i t)
  unfolding destroy_socket
  on_token-append token i buf t c = elim (Option-cases (cut buf)) [
    | inl e ↦
        let c' = put_peer i (record { authed = false; buf = buf }) c in
        let next = on_data-waiting token i _ t c' (lookup-insert_self i _ c.peers) refl in
        rw (on_token-waits token i buf c e) (sym (on_token-put token i (buf ++ t) _ c) ∙ sym next)
    | inr ((l, r), e) ↦
        let e' = cut-append buf t l r e in
        let (es, d) = flush_queued {M = M} (record c { bridge = some i }) in
        elim (Bool-cases (text_eq.beq (trim l) token)) [
          | inl h ↦
              rw
                (
                  on_token-accepts token i (buf ++ t) l (r ++ t) c e' h,
                  on_token-accepts token i buf l r c e h,
                  append_assoc,
                )
                (ap (λ x. (es ++ x.0, x.1)) (on_lines-append token i r t d))
          | inr h ↦
              rw
                (
                  on_token-refuses token i (buf ++ t) l (r ++ t) c e' h,
                  on_token-refuses token i buf l r c e h,
                )
                (ap (λ x. (closed i ∷ x.0, x.1))
                  (sym
                    (on_data-unheard token i t (destroy_socket i c) (lookup-erase_self i c.peers))))
        ]
  ]

  -- Whatever a connection has received and whether it has sent the token: two chunks do what they do as
  -- one, wherever the text is cut between them; the messages that are handled, the lines that are
  -- written and what is kept are the same.
  pub on_data-append :
      (token : Text) (i : ℕ) (s t : Text) (c : Control)
      → on_text token i (s ++ t) c ≡ and_then (on_text token i s c) (on_text token i t)
  unfolding on_data
  on_data-append token i s t c = elim (Option-cases (lookup i c.peers)) [
    | inl e ↦
        rw
          (
            on_data-unheard token i (s ++ t) c e,
            on_data-unheard token i s c e,
            on_data-unheard token i t c e,
          )
          refl
    | inr (p, e) ↦ elim (Bool-cases p.authed) [
      | inl h ↦
          rw
            (
              on_data-accepted token i p (s ++ t) c e h,
              on_data-accepted token i p s c e h,
              sym (append_assoc p.buf s t),
            )
            (on_lines-append token i (p.buf ++ s) t c)
      | inr h ↦
          rw
            (
              on_data-waiting token i p (s ++ t) c e h,
              on_data-waiting token i p s c e h,
              sym (append_assoc p.buf s t),
            )
            (on_token-append token i (p.buf ++ s) t c)
    ]
  ]

  on_texts : Text → ℕ → List Text → Control → Controlled M
  on_texts token i [] c = ([], c)
  on_texts token i (t ∷ ts) c = and_then (on_text token i t c) (on_texts token i ts)

  on_texts-whole :
      (token : Text) (i : ℕ) (t : Text) (ts : List Text) (c : Control)
      → on_texts token i (t ∷ ts) c ≡ on_text token i (t ++ whole ts) c
  unfolding on_texts whole
  on_texts-whole token i t [] c = rw (append-nil, append-nil) refl
  on_texts-whole token i t (u ∷ us) c = sym (
      on_data-append token i t (u ++ whole us) c
      ∙ ap (λ x. ((on_text token i t c).0 ++ x.0, x.1))
          (sym (on_texts-whole token i u us (on_text token i t c).1)))

module _ {M : Type 0} (parse : Text → Option M) (to_string : Bytes → Text) (token : Text) where
  -- What comes in these chunks.
  unfoldable pub on_chunks : ℕ → List Bytes → Control → Controlled M
  on_chunks i [] c = ([], c)
  on_chunks i (b ∷ bs) c = and_then (on_data parse to_string token i b c) (on_chunks i bs)

  -- The chunks that `encode` makes of some texts do what the texts do.
  on_chunks-texts :
      (encode : Text → Bytes) (i : ℕ) (ts : List Text) (c : Control)
      → AllDecode to_string encode ts
      → on_chunks i (map encode ts) c ≡ on_texts parse token i ts c
  unfolding on_chunks on_texts on_data
  on_chunks-texts encode i [] c h = refl
  on_chunks-texts encode i (t ∷ ts) c h =
      let (h0, rest) = h in
      let d = on_text parse token i t c in
      ap (λ x. and_then (on_text parse token i x c) (on_chunks i (map encode ts))) h0
      ∙ ap (λ y. (d.0 ++ y.0, y.1)) (on_chunks-texts encode i ts d.1 rest)

  -- However a text is cut into pieces of whole characters, so that the bytes of a piece decode to it,
  -- and whatever the connection has received before: the messages that are handled, the lines that
  -- are written, in their order, and what is kept are the same.
  pub chunks_do_not_matter :
      (encode : Text → Bytes) (i : ℕ) (t u : Text) (ts us : List Text) (c : Control)
      → AllDecode to_string encode (t ∷ ts)
      → AllDecode to_string encode (u ∷ us)
      → whole (t ∷ ts) ≡ whole (u ∷ us)
      → on_chunks i (map encode (t ∷ ts)) c ≡ on_chunks i (map encode (u ∷ us)) c
  unfolding whole
  chunks_do_not_matter encode i t u ts us c g h e =
      on_chunks-texts encode i (t ∷ ts) c g
      ∙ on_texts-whole parse token i t ts c
      ∙ ap (λ s. on_text parse token i s c) e
      ∙ sym (on_texts-whole parse token i u us c)
      ∙ sym (on_chunks-texts encode i (u ∷ us) c h)
