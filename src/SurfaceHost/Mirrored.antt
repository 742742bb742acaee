-- ===== src/SurfaceHost/Mirrored.antt =====
-- www/surface-host.js, `applyOps`: an operation keeps a tile for every widget of the core.
use Prim.Native.String.{String}
use text.Mathlib.Text.{◌==◌ as str_eq}
use agent_mobile.Common.{
  ℕ, ◌≡◌, refl, sym, ap, ◌∙◌, subst, Bool, true, false, Option, none, some, List, [], ◌∷◌, lookup,
  insert, erase, string_eq, lookup-insert, lookup-erase, lookup-erase_self, if-cases, Option-match,
  Bool-cases, inl, inr, if◌then◌else◌, arith,
}
use agent_mobile.Surface.{Widget, Surface, Op, Outcome, Event, render, update, feed}
use agent_mobile.Surface.Assets.{
  register_asset, unregister_asset, check_chunk, abort, store_chunk, finish_asset, with_default,
}
use agent_mobile.Surface.Cases.{check_chunk_cases, register_asset_cases}
use agent_mobile.Surface.Widgets.{
  register_widget_type, add_widget, update_widget, publish, remove_widget, test_widget,
  first_missing, refused, merge_props,
}
use agent_mobile.Surface.Apply.{apply}
use agent_mobile.Surface.Names.{none_inherited, names_of}
use agent_mobile.SurfaceHost.{Page, Host, teardown_view, threw, unless_threw}
use agent_mobile.SurfaceHost.Handlers.{
  handle_event, handle_events, handle_render, handle_update, apply_op, or_no_props,
}
use agent_mobile.SurfaceHost.Tiles.{
  HasTile, KeepsTiles, teardown_view-others, handle_render-KeepsTiles, handle_update-KeepsTiles,
  handle_data-KeepsTiles, surface-teardown_view,
}
use agent_mobile.SurfaceHost.Steps.{unless_threw-keeps}

-- Every widget of the core has a tile.
abbrev pub Mirrors : {V : Type 0} → Host V → Type 0
Mirrors {V} h = (k : String) (w : Widget V) → lookup k h.surface.widgets ≡ some w → HasTile h k

module _ {V : Type 0} (page : Page V) where
  -- The host once the events of an outcome are handled.
  abbrev after_events : Host V → Outcome V → Host V
  after_events h o = (handle_events page (record h { surface = o.0 }) o.1).1

  pub keeps-Mirrors : (h h' : Host V) → KeepsTiles h h' → Mirrors h → Mirrors h'
  keeps-Mirrors h h' k m key w e = k.tiles key (m key w (sym (ap (lookup key) k.widgets) ∙ e))

  -- Outcomes whose events change no tile, with the widgets as they were.
  asset_outcome-Mirrors :
      (h : Host V) (name : String) (mime : Option String) (b64 : List ℕ) (append : Bool)
      (seq : Option ℕ)
      → Mirrors h
      → Mirrors (after_events h (register_asset h.surface name mime b64 append seq))
  unfolding handle_events handle_event abort store_chunk finish_asset unless_threw threw
  asset_outcome-Mirrors h name mime b64 append seq m =
      register_asset_cases (λ (o : Outcome V). Mirrors (after_events h o)) h.surface name mime b64
        append seq m (λ _. chunk h.surface refl) (λ _. chunk _ refl)
    where
      chunk :
          (s : Surface V)
          → s.widgets ≡ h.surface.widgets
          → Mirrors (after_events h (check_chunk s name mime b64 append seq))
      chunk s e =
          check_chunk_cases (λ (o : Outcome V). Mirrors (after_events h o)) s name mime b64 append
            seq (λ _ k w i. m k w (sym (ap (lookup k) e) ∙ i))
            (λ _ _ _.
              if-cases (λ (o : Outcome V). Mirrors (after_events h o)) append _ _
                (λ _ k w i. m k w (sym (ap (lookup k) e) ∙ i))
                (λ _ k w i. m k w (sym (ap (lookup k) e) ∙ i)))

  -- An outcome with the widgets of the host, and its keys once more.
  grown :
      (h : Host V) (key : String) (wd : Widget V) (h' : Host V)
      → h'.surface.widgets ≡ insert key wd h.surface.widgets
      → ((k : String) → HasTile h k → HasTile h' k)
      → HasTile h' key
      → Mirrors h
      → Mirrors h'
  grown h key wd h' e keeps has m k w i = elim (Bool-cases (str_eq key k)) [
    | inl j ↦ subst (HasTile h') ((string_eq.beq_iff key k).0 j) has
    | inr j ↦
        let i' : lookup k (insert key wd h.surface.widgets) ≡ some w = sym (ap (lookup k) e) ∙ i in
        keeps k (m k w (rw (lookup-insert key k wd h.surface.widgets, j) at i'))
  ]

  -- Without the widget of a key, its tile may go.
  torn_down :
      (h : Host V) (key : String)
      → lookup key h.surface.widgets ≡ none
      → ((k : String) (w : Widget V)
          → str_eq key k ≡ false
          → lookup k h.surface.widgets ≡ some w
          → HasTile h k)
      → Mirrors (teardown_view key h)
  torn_down h key gone others k w e =
      let e' : lookup k h.surface.widgets ≡ some w =
        sym (ap (λ (s : Surface V). lookup k s.widgets) (surface-teardown_view h key)) ∙ e in
      elim (Bool-cases (str_eq key k)) [
        | inl i ↦ absurd (cc (gone, e', (string_eq.beq_iff key k).0 i))
        | inr i ↦ teardown_view-others h key k i (others k w i e')
      ]

  one_event :
      (h : Host V) (ev : Event V)
      → Mirrors (handle_event page h ev).1
      → Mirrors (handle_events page h (ev ∷ [])).1
  unfolding handle_events
  one_event h ev m = unless_threw-keeps Mirrors (handle_event page h ev) (λ h'. ([], h')) m m

  -- With no tile to tear down, it does not matter whether the events threw.
  settled :
      (h : Host V) (op : Op V)
      → let o = apply h.surface op in
        Mirrors (after_events h o)
        → Mirrors (
            if threw (handle_events page (record h { surface = o.0 }) o.1).0
            then after_events h o
            else after_events h o)
  settled h op m = if-cases Mirrors (threw _) _ _ (λ _. m) (λ _. m)

  pub apply_op-Mirrors :
      (h : Host V) (op : Op V)
      → none_inherited (names_of op) ≡ true
      → Mirrors h
      → Mirrors (apply_op page h op).1
  unfolding apply_op apply handle_events handle_event unregister_asset register_widget_type
      add_widget update_widget publish remove_widget test_widget unless_threw threw none_inherited
      names_of
  apply_op-Mirrors h (Op.register_asset name mime b64 append seq) own m =
      settled h (Op.register_asset name mime b64 append seq)
        (asset_outcome-Mirrors h name mime b64 append seq m)
  apply_op-Mirrors h (Op.unregister_asset name) own m = settled h (Op.unregister_asset name) m
  apply_op-Mirrors h (Op.register_widget_type name code deps key) own m =
      settled h (Op.register_widget_type name code deps key) (
        if-cases (λ (o : Outcome V). Mirrors (after_events h o))
          (refused (first_missing h.surface deps)) _ _ (λ _. m) (λ _. m))
  apply_op-Mirrors h (Op.add_widget key type props) own m =
      settled h (Op.add_widget key type props) (
        Option-match (λ (o : Outcome V). Mirrors (after_events h o)) (lookup type h.surface.types) _
          _ (λ _. m)
          (λ wt _.
            let wd : Widget V = record { type = type; props = with_default props [] } in
            let s = record h.surface { widgets = insert key wd h.surface.widgets } in
            let (keeps, has) =
              handle_render-KeepsTiles page (record h { surface = s }) key type
                (with_default props []) false in
            one_event _ (render key type (with_default props []) false) (
              grown h key wd
                (handle_render page (record h { surface = s }) key type (with_default props [])
                  false).1
                keeps.widgets keeps.tiles (has (ground (arith, own))) m)))
  apply_op-Mirrors h (Op.update_widget key props) own m = settled h (Op.update_widget key props) (
      Option-match (λ (o : Outcome V). Mirrors (after_events h o)) (lookup key h.surface.widgets) _
        _ (λ _. m)
        (λ wd e.
          let wd' : Widget V = record wd { props = merge_props wd.props (with_default props []) } in
          let s = record h.surface { widgets = insert key wd' h.surface.widgets } in
          let keeps =
            handle_update-KeepsTiles page (record h { surface = s }) key (or_no_props page props) in
          one_event _ (update key props) (
            grown h key wd'
              (handle_update page (record h { surface = s }) key (or_no_props page props)).1
              keeps.widgets keeps.tiles (keeps.tiles key (m key wd e)) m)))
  apply_op-Mirrors h (Op.publish key payload) own m = settled h (Op.publish key payload) (
      Option-match (λ (o : Outcome V). Mirrors (after_events h o)) (lookup key h.surface.widgets) _
        _ (λ _. m)
        (λ wd e.
          one_event _ (feed key payload)
            (keeps-Mirrors h _ (handle_data-KeepsTiles page h key payload) m)))
  apply_op-Mirrors h (Op.remove_widget key) own m =
      Option-match
        (λ (o : Outcome V). Mirrors (
          if threw (handle_events page (record h { surface = o.0 }) o.1).0
          then after_events h o
          else teardown_view key (after_events h o)))
        (lookup key h.surface.widgets) _ _ (λ e. torn_down h key e (λ k w _ i. m k w i))
        (λ wd _.
          let s = record h.surface { widgets = erase key h.surface.widgets } in
          let h' : Host V = record h { surface = s } in
          torn_down (teardown_view key h') key
            (ap (λ (s : Surface V). lookup key s.widgets) (surface-teardown_view h' key)
              ∙ lookup-erase_self key h.surface.widgets)
            (λ k w ne i. teardown_view-others h' key k ne (
              m k w (
                let i' : lookup k (erase key h.surface.widgets) ≡ some w =
                  sym (ap (λ (s : Surface V). lookup k s.widgets) (surface-teardown_view h' key))
                  ∙ i in
                rw (lookup-erase key k h.surface.widgets, ne) at i'))))
  apply_op-Mirrors h (Op.test_widget key type props) own m =
      settled h (Op.test_widget key type props) (
        Option-match (λ (o : Outcome V). Mirrors (after_events h o)) (lookup type h.surface.types) _
          _ (λ _. m)
          (λ wt _. one_event _ (render key type (with_default props []) true) (
            keeps-Mirrors h _
              (handle_render-KeepsTiles page h key type (with_default props []) true).0 m)))
  apply_op-Mirrors h (Op.other op key) own m = settled h (Op.other op key) m
