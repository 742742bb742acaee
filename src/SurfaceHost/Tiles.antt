-- ===== src/SurfaceHost/Tiles.antt =====
-- www/surface-host.js: which tiles the handlers keep, and that they leave the widgets of the core alone.
use Prim.Native.String.{String}
use text.Mathlib.Text.{◌==◌ as str_eq}
use agent_mobile.Common.{
  ℕ, ◌+◌, ◌≡◌, refl, ◌∙◌, Bool, true, false, Option, none, some, List, [], ◌∷◌, ◌++◌, lookup,
  string_eq, lookup-insert, lookup-insert_self, lookup-erase, if-cases, Option-match, Bool-cases,
  inl, inr,
}
use agent_mobile.Surface.{WidgetType, Asset, Props, Surface}
use agent_mobile.Surface.Assets.{get_asset_source}
use agent_mobile.Surface.Apply.{report_render}
use agent_mobile.SurfaceHost.Markup.{has_external, script_tag}
use agent_mobile.Surface.Names.{is_inherited}
use agent_mobile.SurfaceHost.{
  Page, View, Host, Hosted, is_some, new_view, sync, put_view, with_view, teardown_view, report,
  threw,
}
use agent_mobile.SurfaceHost.Handlers.{
  asset_tags, mount_registered, render_view, handle_render, handle_update, handle_data, feed_view,
}

abbrev pub HasTile : {V : Type 0} → Host V → String → Type 0
HasTile {V} h k = (v : View V) × (lookup k h.views ≡ some v)

-- A handler that takes no tile away and no widget of the core, and adds none to the core.
pub record KeepsTiles {V : Type 0} (h h' : Host V) : Type 0 where
  pub widgets : h'.surface.widgets ≡ h.surface.widgets
  pub tiles : (k : String) → HasTile h k → HasTile h' k

module _ {V : Type 0} where
  pub KeepsTiles-refl : (h : Host V) → KeepsTiles h h
  KeepsTiles-refl h = record { widgets = refl; tiles = λ k t. t }

  pub KeepsTiles-trans : (a b c : Host V) → KeepsTiles a b → KeepsTiles b c → KeepsTiles a c
  KeepsTiles-trans a b c v w = record {
    widgets = w.widgets ∙ v.widgets;
    tiles = λ k t. w.tiles k (v.tiles k t);
  }

  pub put-KeepsTiles :
      (h : Host V) (key : String) (v : View V) (s : Surface V) (n : ℕ)
      → s.widgets ≡ h.surface.widgets
      → KeepsTiles h (put_view key v (record h { surface = s; next_frame = n }))
  put-KeepsTiles h key v s n e = record {
    widgets = e;
    tiles = λ k t. elim (Bool-cases (str_eq key k)) [
      | inl i ↦ (v, rw (lookup-insert key k v h.views, i) refl)
      | inr i ↦ (t.0, rw (lookup-insert key k v h.views, i) t.1)
    ];
  }

  with_view-KeepsTiles : (key : String) (h : Host V) → KeepsTiles h (with_view key h)
  unfolding with_view sync
  with_view-KeepsTiles key h =
      Option-match (KeepsTiles h) (lookup key h.views) _ _
        (λ _.
          if-cases (KeepsTiles h) (is_inherited key) _ _ (λ _. KeepsTiles-refl h)
            (λ _.
              let p = put-KeepsTiles h key new_view h.surface h.next_frame refl in
              record { widgets = refl; tiles = p.tiles }))
        (λ _ _. KeepsTiles-refl h)

  with_view-HasTile :
      (key : String) (h : Host V) → is_inherited key ≡ false → HasTile (with_view key h) key
  unfolding with_view sync
  with_view-HasTile key h own =
      Option-match (λ (r : Host V). HasTile r key) (lookup key h.views) _ _
        (λ _. rw own (new_view, lookup-insert_self key new_view h.views)) (λ v e. (v, e))

  pub surface-teardown_view :
      (h : Host V) (key : String) → (teardown_view key h).surface ≡ h.surface
  unfolding teardown_view sync
  surface-teardown_view h key =
      Option-match (λ (r : Host V). r.surface ≡ h.surface) (lookup key h.views) _ _ (λ _. refl)
        (λ _ _. refl)

  -- A tile that is torn down takes no other with it.
  pub teardown_view-others :
      (h : Host V) (key k : String)
      → str_eq key k ≡ false
      → HasTile h k
      → HasTile (teardown_view key h) k
  unfolding teardown_view sync
  teardown_view-others h key k ne t =
      Option-match (λ (r : Host V). HasTile r k) (lookup key h.views) _ _ (λ _. t)
        (λ _ _. (t.0, rw (lookup-erase key k h.views, ne) t.1))

  pub report-KeepsTiles :
      (h : Host V) (key : String) (ok : Bool) (t : Option String)
      → KeepsTiles h (report h key ok t).1
  unfolding report report_render
  report-KeepsTiles h key ok t = record { widgets = refl; tiles = λ k u. u }

module _ {V : Type 0} (page : Page V) where
  get_asset_source-widgets :
      (s : Surface V) (name : String) → (get_asset_source page.decode s name).1.widgets ≡ s.widgets
  unfolding get_asset_source
  get_asset_source-widgets s name =
      Option-match (λ (r : Option (List ℕ) × Surface V). r.1.widgets ≡ s.widgets)
        (lookup name s.assets) _ _ (λ _. refl)
        (λ (a : Asset) _.
          Option-match (λ (r : Option (List ℕ) × Surface V). r.1.widgets ≡ s.widgets) a.source _ _
            (λ _. refl) (λ _ _. refl))

  asset_tags-widgets :
      (s : Surface V) (deps : List String) → (asset_tags page s deps).1.widgets ≡ s.widgets
  unfolding asset_tags
  asset_tags-widgets s [] = refl
  asset_tags-widgets s (a ∷ deps) =
      Option-match (λ (r : List ℕ × Surface V). r.1.widgets ≡ s.widgets) (lookup a s.assets) _ _
        (λ _. asset_tags-widgets s deps)
        (λ _ _.
          asset_tags-widgets (get_asset_source page.decode s a).1 deps
          ∙ get_asset_source-widgets s a)

  mount_registered-KeepsTiles :
      (h : Host V) (key : String) (v : View V) (def : WidgetType) (props : Props V)
      → KeepsTiles h (mount_registered page h key v def props).1
  unfolding mount_registered
  mount_registered-KeepsTiles h key v def props =
      if-cases (λ (r : Hosted V). KeepsTiles h r.1)
        (has_external
          ((asset_tags page h.surface def.assets).0 ++ script_tag (page.units def.code)))
        _ _ (λ _. put-KeepsTiles h key _ _ h.next_frame (asset_tags-widgets h.surface def.assets))
        (λ _. put-KeepsTiles h key _ _ (h.next_frame + 1) (asset_tags-widgets h.surface def.assets))

  render_view-KeepsTiles :
      (h : Host V) (key : String) (old : View V) (type : String) (props : Props V) (t : Bool)
      → KeepsTiles h (render_view page h key old type props t).1
  unfolding render_view
  render_view-KeepsTiles h key old type props t =
      Option-match (λ (r : Hosted V). KeepsTiles h r.1) (lookup type h.surface.types) _ _
        (λ _.
          let put = put-KeepsTiles h key _ h.surface _ refl in
          let v : View V = record old { type = type; label = page.label_of props } in
          let caught : View V = record v { pending_feedback = false } in
          if-cases (λ (r : Hosted V). KeepsTiles h r.1)
            (threw (feed_view page h.next_frame h.surface v (some props) none).0.0) _ _
            (λ _.
              KeepsTiles-trans h _ _ (put-KeepsTiles h key caught h.surface h.next_frame refl)
                (report-KeepsTiles _ key false (some page.error)))
            (λ _.
              if-cases (λ (r : Hosted V). KeepsTiles h r.1) t _ _
                (λ _. KeepsTiles-trans h _ _ put (report-KeepsTiles _ key true none)) (λ _. put)))
        (λ def _. mount_registered-KeepsTiles h key _ def props)

  -- Adding or testing a widget gives its key a tile, if it is no inherited name.
  pub handle_render-KeepsTiles :
      (h : Host V) (key type : String) (props : Props V) (t : Bool)
      → KeepsTiles h (handle_render page h key type props t).1
        × (is_inherited key ≡ false → HasTile (handle_render page h key type props t).1 key)
  unfolding handle_render
  handle_render-KeepsTiles h key type props t =
      let keeps = with_view-KeepsTiles key h in
      let has = with_view-HasTile key h in
      Option-match
        (λ (r : Hosted V). KeepsTiles h r.1 × (is_inherited key ≡ false → HasTile r.1 key))
        (lookup key (with_view key h).views) _ _
        (λ _.
          let w = report-KeepsTiles (with_view key h) key false (some page.error) in
          (KeepsTiles-trans h (with_view key h) _ keeps w, λ own. w.tiles key (has own)))
        (λ v _.
          let w = render_view-KeepsTiles (with_view key h) key v type props t in
          (KeepsTiles-trans h (with_view key h) _ keeps w, λ own. w.tiles key (has own)))

  pub handle_update-KeepsTiles :
      (h : Host V) (key : String) (props : Props V)
      → KeepsTiles h (handle_update page h key props).1
  unfolding handle_update
  handle_update-KeepsTiles h key props =
      Option-match (λ (r : Hosted V). KeepsTiles h r.1) (lookup key h.views) _ _
        (λ _.
          if-cases (λ (r : Hosted V). KeepsTiles h r.1) (is_inherited key) _ _
            (λ _. KeepsTiles-refl h) (λ _. KeepsTiles-refl h))
        (λ v _.
          Option-match (λ (r : Hosted V). KeepsTiles h r.1) v.iframe _ _
            (λ _. put-KeepsTiles h key _ h.surface _ refl)
            (λ f _.
              if-cases (λ (r : Hosted V). KeepsTiles h r.1)
                (is_some (lookup v.type h.surface.types)) _ _ (λ _. KeepsTiles-refl h)
                (λ _. put-KeepsTiles h key _ h.surface _ refl)))

  pub handle_data-KeepsTiles :
      (h : Host V) (key : String) (d : V) → KeepsTiles h (handle_data page h key d).1
  unfolding handle_data
  handle_data-KeepsTiles h key d =
      Option-match (λ (r : Hosted V). KeepsTiles h r.1) (lookup key h.views) _ _
        (λ _.
          if-cases (λ (r : Hosted V). KeepsTiles h r.1) (is_inherited key) _ _
            (λ _. KeepsTiles-refl h) (λ _. KeepsTiles-refl h))
        (λ v _. put-KeepsTiles h key _ h.surface _ refl)
