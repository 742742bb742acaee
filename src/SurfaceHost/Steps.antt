-- ===== src/SurfaceHost/Steps.antt =====
-- www/surface-host.js: the tiles stay in order, in each handler.
use Prim.Native.String.{String}
use text.Mathlib.Text.{◌==◌ as str_eq}
use agent_mobile.Common.{
  ℕ, ◌+◌, ◌≡◌, inl, inr, refl, ◌∙◌, Bool, true, false, Option, none, some, List, [], ◌∷◌, ◌++◌,
  ◌==◌, ◌&&◌, lookup, insert, string_eq, lookup-insert_self, if-cases, Option-match,
}
use agent_mobile.Surface.{
  WidgetType, Props, Surface, Event, asset_ready, asset_removed, type_ready, render, update, feed,
  destroy, render_result,
}
use agent_mobile.SurfaceHost.Markup.{has_external, script_tag}
use agent_mobile.Surface.Names.{is_inherited}
use agent_mobile.SurfaceHost.{
  Message, vm_data, blocked, markup, Drawing, html, sandbox, Page, View, Host, Effect, Hosted,
  is_some, put_view, with_view, post, post_all, messages, mount_sandbox, on_load, report,
  on_rendered, on_message, key_of_source, thrown, uncaught, threw, unless_threw,
}
use agent_mobile.SurfaceHost.Handlers.{
  feed_view, asset_tags, mount_registered, render_view, handle_render, handle_update, handle_data,
  or_no_props, handle_event,
}
use agent_mobile.SurfaceHost.Views.{
  IsIdle, IsSound, Places, put-IsSound, with_view-IsSound, teardown_view-IsSound,
}

module _ {V : Type 0} where
  -- Posting keeps the frame of a tile.
  record Posts (v v' : View V) : Type 0 where
    pub idle : IsIdle v'
    pub frame : v'.iframe ≡ v.iframe

  post-Posts : (v : View V) (m : Message V) → IsIdle v → Posts v (post v m).1
  unfolding post
  post-Posts v m i =
      Option-match (λ (r : List (Effect V) × View V). Posts v r.1) v.iframe _ _
        (λ _. record { idle = i; frame = refl })
        (λ f e.
          if-cases (λ (r : List (Effect V) × View V). Posts v r.1) v.ready _ _
            (λ _. record { idle = i; frame = refl })
            (λ n. record { idle = λ r. absurd (cc (n, r)); frame = refl }))

  post_all-Posts : (ms : List (Message V)) (v : View V) → IsIdle v → Posts v (post_all v ms).1
  unfolding post_all
  post_all-Posts [] v i = record { idle = i; frame = refl }
  post_all-Posts (m ∷ ms) v i =
      let p = post-Posts v m i in
      let q = post_all-Posts ms (post v m).1 p.idle in
      record { idle = q.idle; frame = q.frame ∙ p.frame }

  stays_put : (n : ℕ) (old v : View V) → Posts old v → Places n old v n
  stays_put n old v p = record { idle = p.idle; frame = inl (p.frame, refl) }

  known : (key : String) (v : View V) (h : Host V) → lookup key (insert key v h.views) ≡ some v
  known key v h = lookup-insert_self key v h.views

  pub on_load-IsSound :
      (h : Host V) (key : String) (f : ℕ) → IsSound h → IsSound (on_load h key f).1
  unfolding on_load
  on_load-IsSound h key f w =
      Option-match (λ (r : Hosted V). IsSound r.1) (lookup key h.views) _ _ (λ _. w)
        (λ v e.
          Option-match (λ (r : Hosted V). IsSound r.1) v.iframe _ _ (λ _. w)
            (λ g _.
              if-cases (λ (r : Hosted V). IsSound r.1) (f == g) _ _
                (λ _.
                  put-IsSound h key v _ h.surface h.next_frame e
                    (record { idle = λ _. refl; frame = inl (refl, refl) }) w)
                (λ _. w)))

  report-IsSound :
      (h : Host V) (key : String) (ok : Bool) (t : Option String)
      → IsSound h
      → IsSound (report h key ok t).1
  unfolding report
  report-IsSound h key ok t w = record { tidy = w.tidy; occupied = w.occupied }

  on_rendered-IsSound :
      (h : Host V) (key : String) (v : View V) (t : String)
      → lookup key h.views ≡ some v
      → IsSound h
      → IsSound (on_rendered h key v t).1
  unfolding on_rendered
  on_rendered-IsSound h key v t e w =
      if-cases (λ (r : Hosted V). IsSound r.1) v.pending_feedback _ _
        (λ _. report-IsSound _ key true none (
          put-IsSound h key v (record v { rendered = t; pending_feedback = false }) h.surface
            h.next_frame e (record { idle = w.tidy.idle key v e; frame = inl (refl, refl) }) w))
        (λ _.
          put-IsSound h key v (record v { rendered = t }) h.surface h.next_frame e
            (record { idle = w.tidy.idle key v e; frame = inl (refl, refl) }) w)

  pub on_message-IsSound :
      (h : Host V) (source : ℕ) (failed : Bool) (t : String)
      → IsSound h
      → IsSound (on_message h source failed t).1
  unfolding on_message
  on_message-IsSound h source failed t w =
      Option-match (λ (r : Hosted V). IsSound r.1) (key_of_source h.views source) _ _ (λ _. w)
        (λ key _.
          if-cases (λ (r : Hosted V). IsSound r.1) (str_eq key "") _ _ (λ _. w)
            (λ _.
              Option-match (λ (r : Hosted V). IsSound r.1) (lookup key h.views) _ _ (λ _. w)
                (λ v e.
                  if-cases (λ (r : Hosted V). IsSound r.1) failed _ _
                    (λ _. report-IsSound h key false (some t) w)
                    (λ _. on_rendered-IsSound h key v t e w))))

-- What holds after a step, and after what follows it, holds after both.
pub unless_threw-keeps :
    {V : Type 0} (P : Host V → Type 0) (r : Hosted V) (next : Host V → Hosted V)
    → P r.1
    → P (next r.1).1
    → P (unless_threw r next).1
unfolding unless_threw
unless_threw-keeps {V} P r next p q =
    if-cases (λ (x : Hosted V). P x.1) (threw r.0) _ _ (λ _. p) (λ _. q)

module _ {V : Type 0} (page : Page V) where
  feed_view-Places :
      (n : ℕ) (s : Surface V) (v : View V) (props : Option (Props V)) (d : Option V)
      → IsIdle v
      → Places n v (feed_view page n s v props d).0.1 (feed_view page n s v props d).1
  unfolding feed_view mount_sandbox
  feed_view-Places n s v props d i =
      if-cases (λ (r : (List (Effect V) × View V) × ℕ). Places n v r.0.1 r.1)
        (is_some (lookup v.type s.types) && is_some v.iframe) _ _
        (λ _. stays_put n v _ (post_all-Posts (messages page.or_empty props d) v i))
        (λ _. drawn (page.draw v.type v.label props d))
    where
      drawn :
          (p : Drawing V)
          → (λ (r : (List (Effect V) × View V) × ℕ). Places n v r.0.1 r.1)
              (elim p [
                | thrown ↦ ((uncaught ∷ [], v), n)
                | html t ↦ (([], record v { shown = markup t }), n)
                | sandbox body e label ↦
                    (([], mount_sandbox n v body label (vm_data (page.or_empty e) ∷ [])), n + 1)
              ])
      drawn thrown = record { idle = i; frame = inl (refl, refl) }
      drawn (html t) = record { idle = i; frame = inl (refl, refl) }
      drawn (sandbox body e label) = record { idle = λ r. absurd (cc); frame = inr (refl, refl) }

  -- A tile whose type and label are set, in the place of the old one.
  typed_Places :
      (n n' : ℕ) (old v w : View V) → v.iframe ≡ old.iframe → Places n v w n' → Places n old w n'
  typed_Places n n' old v w e p = record {
    idle = p.idle;
    frame = elim p.frame [ inl (a, b) ↦ inl (a ∙ e, b) | inr q ↦ inr q ];
  }

  mount_registered-IsSound :
      (h : Host V) (key : String) (old v : View V) (def : WidgetType) (props : Props V)
      → lookup key h.views ≡ some old
      → v.iframe ≡ old.iframe
      → IsIdle v
      → IsSound h
      → IsSound (mount_registered page h key v def props).1
  unfolding mount_registered mount_sandbox post
  mount_registered-IsSound h key old v def props e f i w =
      if-cases (λ (r : Hosted V). IsSound r.1)
        (has_external
          ((asset_tags page h.surface def.assets).0 ++ script_tag (page.units def.code)))
        _ _
        (λ _.
          put-IsSound h key old (record v { shown = blocked }) _ h.next_frame e
            (record { idle = i; frame = inl (f, refl) }) w)
        (λ _.
          put-IsSound h key old _ _ (h.next_frame + 1) e
            (record { idle = λ r. absurd (cc); frame = inr (refl, refl) }) w)

  render_view-IsSound :
      (h : Host V) (key : String) (old : View V) (type : String) (props : Props V) (t : Bool)
      → lookup key h.views ≡ some old
      → IsSound h
      → IsSound (render_view page h key old type props t).1
  unfolding render_view
  render_view-IsSound h key old type props t e w =
      Option-match (λ (r : Hosted V). IsSound r.1) (lookup type h.surface.types) _ _
        (λ _.
          let v : View V = record old { type = type; label = page.label_of props } in
          let put =
            put-IsSound h key old _ h.surface _ e
              (typed_Places h.next_frame _ old v _ refl (
                feed_view-Places h.next_frame h.surface v (some props) none
                  (w.tidy.idle key old e)))
              w in
          let caught : View V = record v { pending_feedback = false } in
          let idle = w.tidy.idle key old e in
          if-cases (λ (r : Hosted V). IsSound r.1)
            (threw (feed_view page h.next_frame h.surface v (some props) none).0.0) _ _
            (λ _. report-IsSound _ key false (some page.error) (
              put-IsSound h key old caught h.surface h.next_frame e
                (record { idle = idle; frame = inl (refl, refl) }) w))
            (λ _.
              if-cases (λ (r : Hosted V). IsSound r.1) t _ _
                (λ _. report-IsSound _ key true none put) (λ _. put)))
        (λ def _. mount_registered-IsSound h key old _ def props e refl (w.tidy.idle key old e) w)

  feeds-IsSound :
      (h : Host V) (key : String) (v : View V) (props : Option (Props V)) (d : Option V)
      → lookup key h.views ≡ some v
      → IsSound h
      → IsSound (
          put_view key
            (feed_view page h.next_frame h.surface v props d).0.1
            (record h { next_frame = (feed_view page h.next_frame h.surface v props d).1 }))
  feeds-IsSound h key v props d e w =
      put-IsSound h key v _ h.surface _ e
        (feed_view-Places h.next_frame h.surface v props d (w.tidy.idle key v e)) w

  pub handle_event-IsSound :
      (h : Host V) (ev : Event V) → IsSound h → IsSound (handle_event page h ev).1
  unfolding handle_event handle_render handle_update handle_data
  handle_event-IsSound h (asset_ready _ _) w = w
  handle_event-IsSound h (asset_removed _ _ _) w = w
  handle_event-IsSound h (type_ready _) w = w
  handle_event-IsSound h (render key type props t) w =
      let w' = with_view-IsSound key h w in
      Option-match (λ (r : Hosted V). IsSound r.1) (lookup key (with_view key h).views) _ _
        (λ _. report-IsSound _ key false (some page.error) w')
        (λ v e. render_view-IsSound (with_view key h) key v type props t e w')
  handle_event-IsSound h (update key props) w =
      Option-match (λ (r : Hosted V). IsSound r.1) (lookup key h.views) _ _
        (λ _. if-cases (λ (r : Hosted V). IsSound r.1) (is_inherited key) _ _ (λ _. w) (λ _. w))
        (λ v e.
          Option-match (λ (r : Hosted V). IsSound r.1) v.iframe _ _
            (λ _. feeds-IsSound h key v (some (or_no_props page props)) none e w)
            (λ f _.
              if-cases (λ (r : Hosted V). IsSound r.1) (is_some (lookup v.type h.surface.types)) _ _
                (λ _. w) (λ _. feeds-IsSound h key v (some (or_no_props page props)) none e w)))
  handle_event-IsSound h (feed key d) w =
      Option-match (λ (r : Hosted V). IsSound r.1) (lookup key h.views) _ _
        (λ _. if-cases (λ (r : Hosted V). IsSound r.1) (is_inherited key) _ _ (λ _. w) (λ _. w))
        (λ v e. feeds-IsSound h key v none (some (page.or_empty d)) e w)
  handle_event-IsSound h (destroy key) w = teardown_view-IsSound key h w
  handle_event-IsSound h (render_result key ok e) w =
      if-cases (λ (r : Hosted V). IsSound r.1) ok _ _ (λ _. w) (λ _. w)
