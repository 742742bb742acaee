-- ===== src/Sidecar/Order.antt =====
-- vendor/hermes-plugin/sidecar/index.mjs: the lines to the adapter, over whatever happens to its
-- connections.
use mathlib.Core.List.{append_assoc, append-nil}
use agent_mobile.Common.{
  ℕ, ◌≡◌, refl, true, false, Option, some, List, [], ◌∷◌, ◌++◌, ◌∙◌, map, arith, Option-cases, inl,
  inr, Bool-cases, sym, ap, length, lookup, nat_eq,
}
use agent_mobile.Channel.{Bytes}
use agent_mobile.Handshake.Base.{Text}
use agent_mobile.HttpGateway.{text_eq}
use agent_mobile.Renderer.{trim}
use agent_mobile.Sidecar.{
  Control, Controlled, Effect, wrote, handled, closed, cut, live, is_in, to_bridge, lines_of,
  put_peer, flush_queued, handle_lines, on_lines, on_token, on_data, on_connection, on_close,
  destroy_socket, new_control,
}
use agent_mobile.Sidecar.Chunks.{
  and_then, on_text, on_token-waits, on_token-accepts, on_token-refuses, on_data-unheard,
  on_data-accepted, on_data-waiting,
}

-- A connection, its data, its end by the runtime, the listener of 'close', and a line of the sidecar.
pub data SocketEvent : Type 0 where
  connection : SocketEvent
  received : ℕ → Bytes → SocketEvent
  lost : ℕ → SocketEvent
  close : ℕ → SocketEvent
  says : Text → SocketEvent

module _ {M : Type 0} (parse : Text → Option M) (to_string : Bytes → Text) (token : Text) where
  unfoldable pub control_step : SocketEvent → Control → Controlled M
  control_step connection c = ([], on_connection c)
  control_step (received i t) c = on_data parse to_string token i t c
  control_step (lost i) c = ([], destroy_socket i c)
  control_step (close i) c = ([], on_close i c)
  control_step (says line) c = to_bridge line c

  unfoldable pub control_run : List SocketEvent → Control → Controlled M
  control_run [] c = ([], c)
  control_run (e ∷ es) c = and_then (control_step e c) (control_run es)

-- The lines that are written, and those that the sidecar says.
unfoldable pub written : {M : Type 0} → List (Effect M) → List Text
written [] = []
written (wrote i t ∷ es) = t ∷ written es
written (handled m ∷ es) = written es
written (closed i ∷ es) = written es

unfoldable pub said_by : SocketEvent → List Text
said_by connection = []
said_by (received i t) = []
said_by (lost i) = []
said_by (close i) = []
said_by (says t) = t ∷ []

unfoldable pub said : List SocketEvent → List Text
said [] = []
said (e ∷ es) = said_by e ++ said es

-- Nothing waits while there is a live bridge.
abbrev IsFlushed : Control → Type 0
IsFlushed c = (i : ℕ) → live c ≡ some i → c.queued ≡ []

module _ {M : Type 0} where
  written-append : (es fs : List (Effect M)) → written (es ++ fs) ≡ written es ++ written fs
  unfolding written
  written-append [] fs = refl
  written-append (wrote i t ∷ es) fs = ap (λ w. t ∷ w) (written-append es fs)
  written-append (handled m ∷ es) fs = written-append es fs
  written-append (closed i ∷ es) fs = written-append es fs

  written-handle_lines :
      (parse : Text → Option M) (ls : List Text) → written (handle_lines parse ls) ≡ []
  unfolding written handle_lines
  written-handle_lines parse [] = refl
  written-handle_lines parse (l ∷ ls) = elim (Option-cases (parse l)) [
    | inl e ↦ rw (handle_lines, e) (written-handle_lines parse ls)
    | inr (m, e) ↦ rw (handle_lines, e) (written-handle_lines parse ls)
  ]

  -- A step from `c` that says these lines, and leads here.
  abbrev Passes : Control → List Text → Controlled M → Type 0
  Passes c ls (es, c') = (written es ++ c'.queued ≡ c.queued ++ ls) × IsFlushed c'

  Passes-silent :
      (es : List (Effect M)) (c c' : Control)
      → written es ≡ []
      → c'.queued ≡ c.queued
      → IsFlushed c'
      → Passes c [] (es, c')
  Passes-silent es c c' w q f = (rw (w, q, append-nil) refl, f)

  Passes-then :
      (c : Control) (ls ms : List Text) (r : Controlled M) (f : Control → Controlled M)
      → Passes c ls r
      → ((d : Control) → IsFlushed d → Passes d ms (f d))
      → Passes c (ls ++ ms) (and_then r f)
  Passes-then c ls ms (es, d) f p q =
      let (es', d') = f d in
      let (e, g) = q d p.1 in
      (
        rw
            (
              written-append,
              append_assoc (written es) (written es') d'.queued,
              e,
              sym (append_assoc (written es) d.queued ms),
              p.0,
            )
            (append_assoc c.queued ls ms),
        g,
      )

module _ (M : Type 0) where
  written-wrote : (i : ℕ) (ls : List Text) → written {M = M} (map (wrote i) ls) ≡ ls
  unfolding written
  written-wrote i [] = refl
  written-wrote i (l ∷ ls) = ap (λ w. l ∷ w) (written-wrote i ls)

  to_bridge-Passes :
      (line : Text) (c : Control) → IsFlushed c → Passes {M = M} c (line ∷ []) (to_bridge line c)
  unfolding to_bridge written live
  to_bridge-Passes line c f = elim (Option-cases (live c)) [
    | inl e ↦ rw (to_bridge, e) (refl, λ i q. ground (arith, e, q))
    | inr (i, e) ↦ rw (to_bridge, e) (rw (f i e) refl, f)
  ]

  flush_queued-Passes : (c : Control) → Passes {M = M} c [] (flush_queued c)
  unfolding flush_queued written live
  flush_queued-Passes c = elim (Option-cases (live c)) [
    | inl e ↦ rw (flush_queued, e) (sym (append-nil c.queued), λ i q. ground (arith, e, q))
    | inr (i, e) ↦ rw (flush_queued, e, written-wrote i) (refl, λ _ _. refl)
  ]

-- A bridge that is live after a socket is gone was live before.
live-destroy_socket : (i j : ℕ) (c : Control) → live (destroy_socket i c) ≡ some j → live c ≡ some j
unfolding destroy_socket live is_in
live-destroy_socket i j c e = elim (Option-cases c.bridge) [
  | inl h ↦ ground (arith, e, h)
  | inr (b, h) ↦ ground (arith, e, h)
]

live-on_close : (i j : ℕ) (c : Control) → live (on_close i c) ≡ some j → live c ≡ some j
unfolding on_close destroy_socket live is_in
live-on_close i j c e = elim (Option-cases c.bridge) [
  | inl h ↦ ground (arith, e, h)
  | inr (b, h) ↦ ground (arith, e, h)
]

queued-on_close : (i : ℕ) (c : Control) → (on_close i c).queued ≡ c.queued
unfolding on_close destroy_socket
queued-on_close i c = elim (Option-cases c.bridge) [
  | inl h ↦ ground (arith, h)
  | inr (b, h) ↦ ground (arith, h)
]

module _ {M : Type 0} (parse : Text → Option M) (to_string : Bytes → Text) (token : Text) where
  on_lines-Passes :
      (i : ℕ) (buf : Text) (c : Control) → IsFlushed c → Passes c [] (on_lines parse i buf c)
  unfolding on_lines live
  on_lines-Passes i buf c f =
      let (ls, r) = lines_of (length buf) buf in
      Passes-silent (handle_lines parse ls) c (put_peer i (record { authed = true; buf = r }) c)
        (written-handle_lines parse ls) refl f

  on_token-Passes :
      (i : ℕ) (buf : Text) (c : Control) → IsFlushed c → Passes c [] (on_token parse token i buf c)
  unfolding live destroy_socket written
  on_token-Passes i buf c f = elim (Option-cases (cut buf)) [
    | inl e ↦ rw (on_token-waits parse token i buf c e) (
        Passes-silent {M = M} [] c (put_peer i (record { authed = false; buf = buf }) c) refl refl
          f)
    | inr ((l, r), e) ↦ elim (Bool-cases (text_eq.beq (trim l) token)) [
      | inl h ↦ rw (on_token-accepts parse token i buf l r c e h) (
          Passes-then c [] [] (flush_queued (record c { bridge = some i })) (on_lines parse i r)
            (flush_queued-Passes M (record c { bridge = some i })) (λ d. on_lines-Passes i r d))
      | inr h ↦ rw (on_token-refuses parse token i buf l r c e h) (
          Passes-silent {M = M} (closed i ∷ []) c (destroy_socket i c) refl refl
            (λ j q. f j (live-destroy_socket i j c q)))
    ]
  ]

  on_text-Passes :
      (i : ℕ) (t : Text) (c : Control) → IsFlushed c → Passes c [] (on_text parse token i t c)
  unfolding written
  on_text-Passes i t c f = elim (Option-cases (lookup i c.peers)) [
    | inl e ↦ rw (on_data-unheard parse token i t c e) (Passes-silent {M = M} [] c c refl refl f)
    | inr (p, e) ↦ elim (Bool-cases p.authed) [
      | inl h ↦ rw (on_data-accepted parse token i p t c e h) (on_lines-Passes i (p.buf ++ t) c f)
      | inr h ↦ rw (on_data-waiting parse token i p t c e h) (on_token-Passes i (p.buf ++ t) c f)
    ]
  ]

  on_data-Passes :
      (i : ℕ) (b : Bytes) (c : Control)
      → IsFlushed c
      → Passes c [] (on_data parse to_string token i b c)
  unfolding on_data
  on_data-Passes i b c f = on_text-Passes i (to_string b) c f

  control_step-Passes :
      (e : SocketEvent) (c : Control)
      → IsFlushed c
      → Passes c (said_by e) (control_step parse to_string token e c)
  unfolding control_step said_by on_connection live destroy_socket written
  control_step-Passes connection c f = Passes-silent {M = M} [] c (on_connection c) refl refl f
  control_step-Passes (received i t) c f = on_data-Passes i t c f
  control_step-Passes (lost i) c f =
      Passes-silent {M = M} [] c (destroy_socket i c) refl refl
        (λ j q. f j (live-destroy_socket i j c q))
  control_step-Passes (close i) c f =
      Passes-silent {M = M} [] c (on_close i c) refl (queued-on_close i c)
        (λ j q. queued-on_close i c ∙ f j (live-on_close i j c q))
  control_step-Passes (says line) c f = to_bridge-Passes M line c f

  control_run-Passes :
      (es : List SocketEvent) (c : Control)
      → IsFlushed c
      → Passes c (said es) (control_run parse to_string token es c)
  unfolding control_run said written
  control_run-Passes [] c f = Passes-silent {M = M} [] c c refl refl f
  control_run-Passes (e ∷ es) c f =
      Passes-then c (said_by e) (said es) (control_step parse to_string token e c)
        (control_run parse to_string token es) (control_step-Passes e c f)
        (λ d. control_run-Passes es d)

  -- Whatever connections, data, tokens and ends of connections there are, in any order: the lines
  -- that are written to the adapter, followed by those that wait, are all the lines that the
  -- sidecar said, in their order; none is lost, doubled or overtaken on its way out, and while a
  -- bridge is live none waits.
  pub run-new_control-in_order :
      (es : List SocketEvent)
      → let (fx, c) = control_run parse to_string token es new_control in
        (written fx ++ c.queued ≡ said es) × ((i : ℕ) → live c ≡ some i → c.queued ≡ [])
  unfolding live
  run-new_control-in_order es = control_run-Passes es new_control (λ i e. refl)
