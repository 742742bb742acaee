-- ===== src/Renderer/Pages.antt =====
-- www/renderer.js, `draw`: the whole page, component by component.
use mathlib.Core.List.{append_assoc, append-nil}
use agent_mobile.Common.{
  ◌≡◌, refl, subst, true, Option, none, some, List, [], ◌∷◌, ◌++◌, arith, codes, Bool-cases, inl,
  inr,
}
use agent_mobile.Handshake.Base.{Text}
use agent_mobile.Renderer.{
  Js, Component, text, list, image, title, chart, viz, svg, unknown, null, no_items, items,
  not_a_list, Ui, Drawn, Chart, returned, add_component, add_components, write, push_viz,
  push_chart, is_svg, trim, or_empty, draw_page, front, top_list, button_of, or_no_components,
  viz_box, chart_box, bad_svg, image_of, Item, Button,
}
use agent_mobile.Renderer.Reader.{read, within, body, step, step_within, ends}
use agent_mobile.Renderer.Shown.{
  Symbols, shown_component, shown_components, shown_front, shown_page, shown_list, shown_items,
  is_component, are_components, is_well_formed, vizzes_of, all_vizzes, shown_viz, box, shown_image,
  shown_button_of, shown_top_list, is_top_list,
}
use agent_mobile.Renderer.Reads.{
  Prints, Prints-append, Prints-whole, Prints-when, heading_lem, paragraph_lem, button_lem,
  unknown_lem, figure_lem, list_lem,
}

module _ {V : Type 0} (js : Js V) where
  -- A turn that writes the markup of `a` and adds the sandboxes of the component.
  record Adds (d : Drawn V) (c : Component V) (a : Symbols) : Type 0 where
    written : Text
    charts : List (Chart V)
    adds :
        add_component js d c
        ≡ returned (record {
          html = d.html ++ written;
          charts = charts;
          vizzes = d.vizzes ++ vizzes_of js c;
        })
    prints : Prints written a

  plain :
      (d : Drawn V) (c : Component V) (cs : List (Chart V)) (s : Text) {a : Symbols}
      → add_component js d c
        ≡ returned (record { html = d.html ++ s; charts = cs; vizzes = d.vizzes })
      → vizzes_of js c ≡ []
      → Prints s a
      → Adds d c a
  plain d c cs s e n f = record {
    written = _;
    charts = cs;
    adds = rw (n, append-nil) e;
    prints = f;
  }

  ul-Prints : Prints (codes "<ul></ul>") (shown_list js [])
  unfolding shown_list shown_items read step step_within ends
  ul-Prints t = refl

  viz_box-Prints : Prints viz_box shown_viz
  unfolding read step step_within ends
  viz_box-Prints t = refl

  chart_box-Prints : Prints chart_box (box "chart" [])
  unfolding read step step_within ends
  chart_box-Prints t = refl

  svg-Adds : (d : Drawn V) (s l : V) → Adds d (svg s l) (shown_component js (svg s l))
  unfolding add_component shown_component write push_viz vizzes_of read step step_within ends
  svg-Adds d s l = elim (Bool-cases (is_svg (trim (or_empty js s)))) [
    | inl h ↦ record { written = viz_box; charts = d.charts; adds = rw h; prints = λ t. rw h }
    | inr h ↦ record {
      written = bad_svg;
      charts = d.charts;
      adds = rw (h, append-nil);
      prints = λ t. rw h;
    }
  ]

  add_component-Adds :
      (d : Drawn V) (c : Component V) → is_component c ≡ true → Adds d c (shown_component js c)
  unfolding add_component shown_component is_component write push_viz push_chart vizzes_of
  add_component-Adds d (text v) h = plain d _ _ _ refl refl (paragraph_lem _)
  add_component-Adds d (list no_items) h = plain d _ _ _ refl refl ul-Prints
  add_component-Adds d (list (items is)) h =
      let (s, e, f) = list_lem js is h in plain d _ d.charts s (rw e) refl f
  add_component-Adds d (list not_a_list) h = cc
  add_component-Adds d (image src alt) h = plain d _ _ _ refl refl (figure_lem js src alt)
  add_component-Adds d (title v) h = plain d _ _ _ refl refl (heading_lem _)
  add_component-Adds d (chart o t) h = plain d _ _ _ refl refl chart_box-Prints
  add_component-Adds d (viz code' data'' label') h = record {
    written = _;
    charts = _;
    adds = refl;
    prints = viz_box-Prints;
  }
  add_component-Adds d (svg s l) h = svg-Adds d s l
  add_component-Adds d (unknown t) h = plain d _ _ _ refl refl (unknown_lem _)
  add_component-Adds d null h = cc

  -- What the components write is what they have to show, and their sandboxes are in their order.
  record Draws (d : Drawn V) (cs : List (Component V)) (a : Symbols) : Type 0 where
    result : Drawn V
    draws : add_components js d cs ≡ returned result
    prints : Prints result.html (a ++ shown_components js cs)
    vizzes_are : result.vizzes ≡ d.vizzes ++ all_vizzes js cs

  components_lem :
      (cs : List (Component V)) (d : Drawn V) (a : Symbols)
      → are_components cs ≡ true
      → Prints d.html a
      → Draws d cs a
  unfolding add_components shown_components are_components all_vizzes
  components_lem [] d a h f = record {
    result = d;
    draws = refl;
    prints = rw append-nil f;
    vizzes_are = rw append-nil;
  }
  components_lem (c ∷ cs) d a h f =
      let added = add_component-Adds d c (ground (arith, h)) in
      let d' : Drawn V = record {
        html = d.html ++ added.written;
        charts = added.charts;
        vizzes = d.vizzes ++ vizzes_of js c;
      } in
      let rest =
        components_lem cs d' _ (ground (arith, h)) (Prints-append _ _ _ _ f added.prints) in
      record {
        result = rest.result;
        draws = rw (added.adds, rest.draws);
        prints = subst (Prints rest.result.html) (append_assoc a _ _) rest.prints;
        vizzes_are = rw (rest.vizzes_are, append_assoc);
      }

  image-Prints : (i : Option (V × V)) → Prints (image_of js i) (shown_image js i)
  unfolding image_of shown_image
  image-Prints none = λ t. refl
  image-Prints (some (src, alt)) = Prints-when (js.truthy src) _ _ (figure_lem js src alt)

  front-Prints : (u : Ui V) → Prints (front js u) (shown_front js u)
  unfolding front shown_front
  front-Prints u = Prints-append _ _ _ _ (Prints-when (js.truthy u.title) _ _ (heading_lem _)) (
      Prints-append _ _ _ _ (image-Prints u.image)
        (Prints-when (js.truthy u.text) _ _ (paragraph_lem _)))

  button-Prints : (b : Option (Button V)) → Prints (button_of js b) (shown_button_of js b)
  unfolding button_of shown_button_of
  button-Prints none = λ t. refl
  button-Prints (some b) = button_lem (js.string b.label)

  top_list-Prints :
      (l : Option (List (Option (Item V))))
      → is_top_list l ≡ true
      → (s : Text) × (top_list js l ≡ returned s) × Prints s (shown_top_list js l)
  unfolding top_list shown_top_list is_top_list
  top_list-Prints none h = ([], refl, λ t. refl)
  top_list-Prints (some is) h = list_lem js is h

  -- A block with no null component or item, and with every list an array, is drawn; a browser reads
  -- the page as the tags of the block with the agent's texts in them as they are, so that no text
  -- becomes markup; and the sandboxes asked for are those of the components, in their order.
  pub draw_page_lem :
      (u : Ui V)
      → is_well_formed u ≡ true
      → (d : Drawn V) × (draw_page js u ≡ returned d)
        × (read (within body) d.html ≡ shown_page js u)
        × (d.vizzes ≡ all_vizzes js (or_no_components u.components))
  unfolding draw_page shown_page is_well_formed write
  draw_page_lem u h =
      let (s, e, f) = top_list-Prints u.list (ground (arith, h)) in
      let d : Drawn V = record { html = front js u ++ s; charts = []; vizzes = [] } in
      let drawn =
        components_lem (or_no_components u.components) d _ (ground (arith, h))
          (Prints-append _ _ _ _ (front-Prints u) f) in
      let whole = Prints-append _ _ _ _ drawn.prints (button-Prints u.button) in
      (
        write (button_of js u.button) drawn.result,
        rw (e, drawn.draws),
        Prints-whole _ _ whole,
        drawn.vizzes_are,
      )
