-- ===== src/SurfaceHost/Handlers.antt =====
-- www/surface-host.js: the handlers of the events of the core, and `applyOps`.
use Prim.Native.String.{String}
use agent_mobile.Common.{
  ℕ, ◌+◌, Bool, true, false, Option, none, some, List, [], ◌∷◌, ◌++◌, ◌&&◌, if◌then◌else◌, lookup,
  string_eq,
}
use agent_mobile.Handshake.Base.{Text}
use agent_mobile.Surface.{
  WidgetType, Props, Surface, Event, asset_ready, asset_removed, type_ready, render, update, feed,
  destroy, render_result, Op,
}
use agent_mobile.Surface.Names.{is_inherited}
use agent_mobile.Surface.Assets.{get_asset_source}
use agent_mobile.Surface.Apply.{apply}
use agent_mobile.SurfaceHost.Markup.{has_external, is_css, script_tag, style_tag}
use agent_mobile.SurfaceHost.{
  Effect, Reason, Host, Hosted, Page, View, blocked, html, is_some, markup, messages, mount_sandbox,
  no_view_to_publish, no_view_to_update, post, post_all, posted, put_view, reason_of, report,
  report_state, sandbox, sent_result, teardown_view, vm_data, vm_render, with_view, thrown,
  uncaught, threw, unless_threw,
}

module _ {V : Type 0} (page : Page V) where
  -- `feed(v, props, data)`, with the number of the next frame
  unfoldable pub feed_view :
      ℕ → Surface V → View V → Option (Props V) → Option V → (List (Effect V) × View V) × ℕ
  feed_view n s v props data' =
      if is_some (lookup v.type s.types) && is_some v.iframe
      then (post_all v (messages page.or_empty props data'), n)
      else elim (page.draw v.type v.label props data') [
        | thrown ↦ ((uncaught ∷ [], v), n)
        | html t ↦ (([], record v { shown = markup t }), n)
        | sandbox body d label ↦
            (([], mount_sandbox n v body label (vm_data (page.or_empty d) ∷ [])), n + 1)
      ]

  -- The tags of the assets of a type; the core keeps a source that it has decoded.
  unfoldable pub asset_tags : Surface V → List String → Text × Surface V
  asset_tags s [] = ([], s)
  asset_tags s (a ∷ deps) = elim (lookup a s.assets) [
    | none ↦ asset_tags s deps
    | some asset ↦
        let (source, s') = get_asset_source page.decode s a in
        let (tags, s'') = asset_tags s' deps in
        (
          (elim source [
            | none ↦ []
            | some t ↦ if is_css (page.units asset.mime) then style_tag t else script_tag t
          ])
              ++ tags,
          s'',
        )
  ]

  -- `mountRegistered(v, props, undefined)`
  unfoldable pub mount_registered : Host V → String → View V → WidgetType → Props V → Hosted V
  mount_registered h key v def props =
      let (tags, s) = asset_tags h.surface def.assets in
      let body = tags ++ script_tag (page.units def.code) in
      if has_external body
      then ([], put_view key (record v { shown = blocked }) (record h { surface = s }))
      else (let (es, v') = post (mount_sandbox h.next_frame v body v.label []) (vm_render props) in
          (es, put_view key v' (record h { surface = s; next_frame = h.next_frame + 1 })))

  -- `handleRenderEvent(ev)`, for the view of the key
  unfoldable pub render_view : Host V → String → View V → String → Props V → Bool → Hosted V
  render_view h key old type props is_test =
      let v = record old { type = type; label = page.label_of props } in
      elim (lookup type h.surface.types) [
        | some def ↦ mount_registered h key (record v { pending_feedback = is_test }) def props
        | none ↦
            let ((es, v'), n) = feed_view h.next_frame h.surface v (some props) none in
            let h' = put_view key v' (record h { next_frame = n }) in
            let caught = put_view key (record v { pending_feedback = false }) h in
            let (es', h'') = (if is_test then report h' key true none else ([], h')) in
            if threw es then report caught key false (some page.error) else (es ++ es', h'')
      ]

  -- What stands under an inherited name has no node: to draw on it throws, which is caught here.
  unfoldable pub handle_render : Host V → String → String → Props V → Bool → Hosted V
  handle_render h key type props is_test =
      let h' = with_view key h in
      elim (lookup key h'.views) [
        | none ↦ report h' key false (some page.error)
        | some v ↦ render_view h' key v type props is_test
      ]

  -- What an event of update or data does where the key has no tile.
  abbrev pub no_tile : String → Reason → Host V → Hosted V
  no_tile key e h =
      if is_inherited key
      then (uncaught ∷ [], h)
      else (sent_result (some key) false (some e) ∷ [], h)

  -- `case 'update'`: a registered tile with a frame is posted to past the queue
  unfoldable pub handle_update : Host V → String → Props V → Hosted V
  handle_update h key props = elim (lookup key h.views) [
    | none ↦ no_tile key (no_view_to_update key) h
    | some v ↦ elim v.iframe [
      | none ↦
          let ((es, v'), n) = feed_view h.next_frame h.surface v (some props) none in
          (es, put_view key v' (record h { next_frame = n }))
      | some f ↦
          if is_some (lookup v.type h.surface.types)
          then (posted f (vm_render props) ∷ [], h)
          else (let ((es, v'), n) = feed_view h.next_frame h.surface v (some props) none in
              (es, put_view key v' (record h { next_frame = n })))
    ]
  ]

  -- `case 'data'`
  unfoldable pub handle_data : Host V → String → V → Hosted V
  handle_data h key d = elim (lookup key h.views) [
    | none ↦ no_tile key (no_view_to_publish key) h
    | some v ↦
        let ((es, v'), n) = feed_view h.next_frame h.surface v none (some (page.or_empty d)) in
        (es, put_view key v' (record h { next_frame = n }))
  ]

  abbrev pub or_no_props : Option (Props V) → Props V
  or_no_props none = []
  or_no_props (some p) = p

  -- `handleEvent(ev)`
  unfoldable pub handle_event : Host V → Event V → Hosted V
  handle_event h (asset_ready _ _) = ([], h)
  handle_event h (asset_removed _ _ _) = ([], h)
  handle_event h (type_ready _) = ([], h)
  handle_event h (render key type props is_test) = handle_render h key type props is_test
  handle_event h (update key props) = handle_update h key (or_no_props props)
  handle_event h (feed key d) = handle_data h key d
  handle_event h (destroy key) = ([], teardown_view key h)
  handle_event h (render_result key ok e) =
      if ok then ([], h) else (sent_result key false (reason_of e) ∷ [], h)

  -- `events.forEach(handleEvent)`, which an exception ends
  unfoldable pub handle_events : Host V → List (Event V) → Hosted V
  handle_events h [] = ([], h)
  handle_events h (ev ∷ evs) = unless_threw (handle_event h ev) (λ h'. handle_events h' evs)

  -- The tile of a removed widget is torn down, whether the core had the widget or not.
  abbrev pub torn_down : Op V → Host V → Host V
  torn_down (Op.remove_widget key) h = teardown_view key h
  torn_down _ h = h

  -- One operation of `applyOps`
  unfoldable pub apply_op : Host V → Op V → Hosted V
  apply_op h op =
      let (s, evs) = apply h.surface op in
      let (es, h') = handle_events (record h { surface = s }) evs in
      (es, if threw es then h' else torn_down op h')

  unfoldable pub apply_each : Host V → List (Op V) → Hosted V
  apply_each h [] = ([], h)
  apply_each h (op ∷ ops) = unless_threw (apply_op h op) (λ h'. apply_each h' ops)

  -- `applyOps(ops)`; the listener that calls it catches what it throws
  unfoldable pub apply_ops : Host V → List (Op V) → Hosted V
  apply_ops h ops = unless_threw (apply_each h ops) (λ h'. (report_state h', h'))
