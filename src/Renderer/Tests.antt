-- ===== src/Renderer/Tests.antt =====
-- www/renderer.js: the theorems on the page and its sandboxes at concrete inputs.
use agent_mobile.Common.{
  ℕ, ◌+◌, ◌≡◌, refl, true, false, none, some, List, [], ◌∷◌, codes, length, get_elem?, lookup,
  nat_eq, sym, arith,
}
use agent_mobile.Handshake.Base.{Text}
use agent_mobile.Renderer.{
  Js, Ui, text, list, viz, svg, items, not_a_list, unknown, Drawn, Viz, returned, draw_page,
  or_no_components, runner, or_empty, if_truthy, trim, trim_start, trim_end, is_space, is_svg,
}
use agent_mobile.Renderer.Reader.{read, within, body}
use agent_mobile.Renderer.Shown.{
  shown_page, all_vizzes, is_well_formed, is_top_list, are_components, is_component, are_items,
  vizzes_of,
}
use agent_mobile.Renderer.Frames.{frames, page-frames}
use agent_mobile.Renderer.Pages.{draw_page_lem}
use agent_mobile.Renderer.Sandbox.{
  Realm, Screen, new_screen, draw, on_feedback, on_render, on_chart,
}
use agent_mobile.Renderer.Wired.{wired}
use agent_mobile.Renderer.Screens.{sandboxes_wired, hear, forged_is_ignored, malformed_is_noted}
use agent_mobile.SurfaceHost.Markup.{after, lower}

-- Values that are texts; the empty one stands for all that is falsy.
abbrev js : Js Text
js = record {
  string = λ v. v;
  truthy = λ v. elim v [ [] ↦ false | _ ∷ _ ↦ true ];
  or_object = λ v. v;
  svg_data = λ t. t;
  undefined = [];
  of_text = λ t. t;
}

abbrev realm : Realm
realm = record { preamble = []; theme_css = []; runner = []; digits = λ i. (b'0' + i) ∷ [] }

abbrev made : List ℕ
made = 7 ∷ 9 ∷ []

-- A title that looks like markup, two sandboxes, and a list.
abbrev block : Ui Text
block = record {
  title = codes "<iframe>";
  image = none;
  text = [];
  list = none;
  components = some (
      viz (codes "window.render=f") [] (codes "one")
      ∷ list (items (some (record { title = codes "a"; subtitle = [] }) ∷ []))
      ∷ svg (codes " <svg >") []
      ∷ unknown (codes "\"")
      ∷ []);
  button = none;
}

abbrev broken : Ui Text
broken = record block { components = some (text (codes "a") ∷ list not_a_list ∷ []) }

block_formed : is_well_formed block ≡ true
unfolding is_well_formed is_top_list are_components is_component are_items
block_formed = refl

broken_formed : is_well_formed broken ≡ false
unfolding is_well_formed is_top_list are_components is_component are_items
broken_formed = refl

draw_page_lem_example :
    (d : Drawn Text) × (draw_page js block ≡ returned d)
    × (read (within body) d.html ≡ shown_page js block)
    × (d.vizzes ≡ all_vizzes js (or_no_components block.components))
draw_page_lem_example = draw_page_lem js block block_formed

abbrev second : Viz Text
second = record { code = runner; data' = codes "<svg >"; label = none }

at_second : get_elem? (all_vizzes js (or_no_components block.components)) 1 ≡ some second
unfolding all_vizzes vizzes_of or_empty if_truthy trim trim_start trim_end is_space is_svg after
    lower
at_second = refl

two_frames : length made ≡ frames (shown_page js block)
unfolding all_vizzes vizzes_of or_empty if_truthy trim trim_start trim_end is_space is_svg after
    lower
two_frames = sym (page-frames js block)

sandboxes_wired_example :
    (t : Screen Text) × (f : ℕ) × (draw js realm made (some block) new_screen ≡ returned t)
    × (get_elem? made 1 ≡ some f)
    × (lookup 1 t.frames ≡ wired realm 1 f second)
sandboxes_wired_example =
    sandboxes_wired js realm block made new_screen 1 second block_formed two_frames at_second

-- A screen with two live charts
abbrev charted : Screen Text
charted = on_chart 2 (on_chart 1 new_screen)

malformed_is_noted_example :
    on_render js realm [] (some broken) charted
    ≡ record charted { failed = charted.failed + 1; charts = [] }
malformed_is_noted_example = malformed_is_noted js realm [] broken charted broken_formed

-- The frame 9 says that the sandbox of the frame 7 has failed.
drawn_block : (t : Screen Text) × (draw js realm made (some block) new_screen ≡ returned t)
drawn_block =
    let r =
      sandboxes_wired js realm block made new_screen 1 second block_formed two_frames at_second in
    (r.0, r.2)

abbrev drawn : Screen Text
drawn = drawn_block.0

forged_is_ignored_example :
    on_feedback 9 0 (some []) (hear ((7, (0, none)) ∷ []) drawn)
    ≡ ([], hear ((7, (0, none)) ∷ []) drawn)
forged_is_ignored_example =
    forged_is_ignored js realm block made new_screen drawn ((7, (0, none)) ∷ []) 0 1 9 (some [])
      drawn_block.1 refl (λ e. ground (arith, e))
