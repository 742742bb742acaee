-- ===== src/SurfaceHost/Mirror.antt =====
-- www/surface-host.js, `applyOps`: the page shows every widget of the core.
use Prim.Native.String.{String}
use text.Mathlib.Text.{◌==◌ as str_eq}
use agent_mobile.Common.{
  ℕ, refl, Bool, true, false, none, some, List, [], ◌∷◌, ◌==◌, lookup, ◌&&◌, ◌≡◌, arith, string_eq,
  lookup-nil, if-cases, Option-match,
}
use agent_mobile.Surface.{Op, create_surface}
use agent_mobile.Surface.Names.{are_own}
use agent_mobile.Surface.Assets.{failed}
use agent_mobile.SurfaceHost.{
  Page, Host, Hosted, new_host, on_load, on_message, on_rendered, key_of_source,
}
use agent_mobile.SurfaceHost.Handlers.{apply_op, apply_each, apply_ops}
use agent_mobile.SurfaceHost.Runs.{HostEvent, batch, loaded, says, host_step, host_run}
use agent_mobile.SurfaceHost.Tiles.{
  KeepsTiles, put-KeepsTiles, report-KeepsTiles, KeepsTiles-refl, KeepsTiles-trans,
}
use agent_mobile.SurfaceHost.Steps.{unless_threw-keeps}
use agent_mobile.SurfaceHost.Mirrored.{Mirrors, apply_op-Mirrors, keeps-Mirrors}

-- The operations of the batches look no inherited name up.
unfoldable pub own_names : {V : Type 0} → List (HostEvent V) → Bool
own_names [] = true
own_names (batch ops ∷ es) = are_own ops && own_names es
own_names (loaded key f ∷ es) = own_names es
own_names (says source failed t ∷ es) = own_names es

module _ {V : Type 0} (page : Page V) where
  apply_each-Mirrors :
      (ops : List (Op V)) (h : Host V)
      → are_own ops ≡ true
      → Mirrors h
      → Mirrors (apply_each page h ops).1
  unfolding apply_each are_own
  apply_each-Mirrors [] h own m = m
  apply_each-Mirrors (op ∷ ops) h own m =
      let m' = apply_op-Mirrors page h op (ground (arith, own)) m in
      unless_threw-keeps Mirrors _ _ m'
        (apply_each-Mirrors ops (apply_op page h op).1 (ground (arith, own)) m')

  on_load-KeepsTiles : (h : Host V) (key : String) (f : ℕ) → KeepsTiles h (on_load h key f).1
  unfolding on_load
  on_load-KeepsTiles h key f =
      Option-match (λ (r : Hosted V). KeepsTiles h r.1) (lookup key h.views) _ _
        (λ _. KeepsTiles-refl h)
        (λ v _.
          Option-match (λ (r : Hosted V). KeepsTiles h r.1) v.iframe _ _ (λ _. KeepsTiles-refl h)
            (λ g _.
              if-cases (λ (r : Hosted V). KeepsTiles h r.1) (f == g) _ _
                (λ _. put-KeepsTiles h key _ h.surface h.next_frame refl) (λ _. KeepsTiles-refl h)))

  on_message-KeepsTiles :
      (h : Host V) (source : ℕ) (failed : Bool) (t : String)
      → KeepsTiles h (on_message h source failed t).1
  unfolding on_message on_rendered
  on_message-KeepsTiles h source failed t =
      Option-match (λ (r : Hosted V). KeepsTiles h r.1) (key_of_source h.views source) _ _
        (λ _. KeepsTiles-refl h)
        (λ key _.
          if-cases (λ (r : Hosted V). KeepsTiles h r.1) (str_eq key "") _ _ (λ _. KeepsTiles-refl h)
            (λ _.
              Option-match (λ (r : Hosted V). KeepsTiles h r.1) (lookup key h.views) _ _
                (λ _. KeepsTiles-refl h)
                (λ v _.
                  if-cases (λ (r : Hosted V). KeepsTiles h r.1) failed _ _
                    (λ _. report-KeepsTiles h key false (some t))
                    (λ _.
                      if-cases (λ (r : Hosted V). KeepsTiles h r.1) v.pending_feedback _ _
                        (λ _.
                          KeepsTiles-trans h _ _
                            (put-KeepsTiles h key _ h.surface h.next_frame refl)
                            (report-KeepsTiles _ key true none))
                        (λ _. put-KeepsTiles h key _ h.surface h.next_frame refl)))))

  host_run-Mirrors :
      (es : List (HostEvent V)) (h : Host V)
      → own_names es ≡ true
      → Mirrors h
      → Mirrors (host_run page h es).1
  unfolding host_run host_step apply_ops own_names
  host_run-Mirrors [] h own m = m
  host_run-Mirrors (batch ops ∷ es) h own m =
      let m' = apply_each-Mirrors ops h (ground (arith, own)) m in
      host_run-Mirrors es (apply_ops page h ops).1 (ground (arith, own))
        (unless_threw-keeps Mirrors _ _ m' m')
  host_run-Mirrors (loaded key f ∷ es) h own m =
      host_run-Mirrors es (on_load h key f).1 own
        (keeps-Mirrors page h _ (on_load-KeepsTiles h key f) m)
  host_run-Mirrors (says source failed t ∷ es) h own m =
      host_run-Mirrors es (on_message h source failed t).1 own
        (keeps-Mirrors page h _ (on_message-KeepsTiles h source failed t) m)

  -- Whatever batches, loads and messages a new host has seen, if the operations look up no name that
  -- objects inherit: every widget that the core has is on the page, as its key has a tile.
  pub host_run-new_host-Mirrors :
      (capacity : ℕ) (es : List (HostEvent V))
      → own_names es ≡ true
      → Mirrors (host_run page (new_host (create_surface V capacity)) es).1
  unfolding create_surface
  host_run-new_host-Mirrors capacity es own =
      host_run-Mirrors es (new_host (create_surface V capacity)) own
        (λ k w h. absurd (lookup-nil k h))
