-- ===== src/SurfaceHost/Runs.antt =====
-- www/surface-host.js: the tiles stay in order, over any run of batches, loads and messages.
use Prim.Native.String.{String}
use agent_mobile.Common.{ℕ, refl, Bool, List, [], ◌∷◌, ◌++◌, string_eq, lookup-nil, if-cases}
use agent_mobile.Surface.{Event, Op, create_surface}
use agent_mobile.Surface.Apply.{apply}
use agent_mobile.SurfaceHost.{Page, Host, Hosted, new_host, on_load, on_message, threw}
use agent_mobile.SurfaceHost.Handlers.{
  handle_event, handle_events, apply_op, apply_each, apply_ops, torn_down,
}
use agent_mobile.SurfaceHost.Views.{IsSound, teardown_view-IsSound}
use agent_mobile.SurfaceHost.Steps.{
  on_load-IsSound, on_message-IsSound, handle_event-IsSound, unless_threw-keeps,
}

-- What reaches the host besides batches: a frame that has loaded, and what a frame says.
pub data HostEvent (V : Type 0) : Type 0 where
  batch : List (Op V) → HostEvent V
  loaded : String → ℕ → HostEvent V
  says : ℕ → Bool → String → HostEvent V

module _ {V : Type 0} (page : Page V) where
  handle_events-IsSound :
      (evs : List (Event V)) (h : Host V) → IsSound h → IsSound (handle_events page h evs).1
  unfolding handle_events
  handle_events-IsSound [] h w = w
  handle_events-IsSound (ev ∷ evs) h w =
      let w' = handle_event-IsSound page h ev w in
      unless_threw-keeps IsSound _ _ w' (handle_events-IsSound evs (handle_event page h ev).1 w')

  applied :
      (h : Host V) (op : Op V)
      → IsSound h
      → IsSound
          (handle_events page
            (record h { surface = (apply h.surface op).0 })
            (apply h.surface op).1).1
  applied h op w =
      handle_events-IsSound (apply h.surface op).1 (record h { surface = (apply h.surface op).0 })
        (record { tidy = w.tidy; occupied = w.occupied })

  torn_down-IsSound : (op : Op V) (h : Host V) → IsSound h → IsSound (torn_down page op h)
  torn_down-IsSound (Op.remove_widget key) h w = teardown_view-IsSound key h w
  torn_down-IsSound _ h w = w

  apply_op-IsSound : (h : Host V) (op : Op V) → IsSound h → IsSound (apply_op page h op).1
  unfolding apply_op
  apply_op-IsSound h op w =
      let w' = applied h op w in
      if-cases IsSound (threw _) _ _ (λ _. w') (λ _. torn_down-IsSound op _ w')

  apply_each-IsSound :
      (ops : List (Op V)) (h : Host V) → IsSound h → IsSound (apply_each page h ops).1
  unfolding apply_each
  apply_each-IsSound [] h w = w
  apply_each-IsSound (op ∷ ops) h w =
      let w' = apply_op-IsSound h op w in
      unless_threw-keeps IsSound _ _ w' (apply_each-IsSound ops (apply_op page h op).1 w')

  unfoldable pub host_step : Host V → HostEvent V → Hosted V
  host_step h (batch ops) = apply_ops page h ops
  host_step h (loaded key f) = on_load h key f
  host_step h (says source failed t) = on_message h source failed t

  unfoldable pub host_run : Host V → List (HostEvent V) → Hosted V
  host_run h [] = ([], h)
  host_run h (e ∷ es) =
      let (fx, h') = host_step h e in let (fx', h'') = host_run h' es in (fx ++ fx', h'')

  host_step-IsSound : (h : Host V) (e : HostEvent V) → IsSound h → IsSound (host_step h e).1
  unfolding host_step apply_ops
  host_step-IsSound h (batch ops) w =
      let w' = apply_each-IsSound ops h w in unless_threw-keeps IsSound _ _ w' w'
  host_step-IsSound h (loaded key f) w = on_load-IsSound h key f w
  host_step-IsSound h (says source failed t) w = on_message-IsSound h source failed t w

  host_run-IsSound : (es : List (HostEvent V)) (h : Host V) → IsSound h → IsSound (host_run h es).1
  unfolding host_run
  host_run-IsSound [] h w = w
  host_run-IsSound (e ∷ es) h w = host_run-IsSound es (host_step h e).1 (host_step-IsSound h e w)

  -- Whatever batches, loads and messages a new host has seen: each key has one tile, no frame is that of
  -- two tiles, nothing waits for a frame that has loaded, and the class of the body says whether
  -- there is a tile.
  pub host_run-new_host-IsSound :
      (capacity : ℕ) (es : List (HostEvent V))
      → IsSound (host_run (new_host (create_surface V capacity)) es).1
  host_run-new_host-IsSound capacity es = host_run-IsSound es _ (record {
    tidy = record {
      map = tt;
      made = λ k v f h. absurd (lookup-nil k h);
      distinct = λ j k u v f h. absurd (lookup-nil j h);
      idle = λ k v h. absurd (lookup-nil k h);
    };
    occupied = refl;
  })
