-- ===== src/Renderer/Shown.antt =====
-- What the page of a render block has to show, symbol by symbol: the tags, and in them the agent's
-- texts as they are.
use Prim.Native.String.{String}
use agent_mobile.Common.{
  Bool, true, false, Option, none, some, List, [], ◌∷◌, ◌++◌, map, ◌&&◌, if◌then◌else◌, codes,
}
use agent_mobile.Handshake.Base.{Text}
use agent_mobile.Renderer.{
  Js, Item, no_items, items, not_a_list, Component, text, list, image, title, chart, viz, svg,
  unknown, null, Button, Viz, runner, Ui, or_empty, if_truthy, trim, is_svg, or_no_components,
}
use agent_mobile.Renderer.Reader.{Symbol, mark, seen, body, value}

abbrev pub Symbols : Type 0
Symbols = List Symbol

abbrev pub tags : String → Symbols
tags s = map mark (codes s)

abbrev pub quoted : Text → Symbols
quoted s = mark b'"' ∷ (map (seen value) s ++ mark b'"' ∷ [])

abbrev pub says : Text → Symbols
says s = map (seen body) s

-- A tag with one attribute.
abbrev pub tag_with : String → String → Symbols
tag_with t v = tags t ++ (quoted (codes v) ++ tags ">")

abbrev pub box : String → Symbols → Symbols
box name inner = tag_with "<div class=" name ++ (inner ++ tags "</div>")

abbrev pub shown_viz : Symbols
shown_viz = box "viz" (
    tags "<iframe class="
    ++ (quoted (codes "vizframe")
        ++ (tags " sandbox=" ++ (quoted (codes "allow-scripts") ++ tags "></iframe>"))))

unfoldable pub shown_heading : Text → Symbols
shown_heading s = tags "<h1>" ++ (says s ++ tags "</h1>")

unfoldable pub shown_paragraph : Text → Symbols
shown_paragraph s = tags "<p>" ++ (says s ++ tags "</p>")

unfoldable pub shown_unknown : Text → Symbols
shown_unknown t = box "vizerr" (
    says (codes "[render] unknown component type \"")
    ++ (says t ++ says (codes "\" (known: text, list, image, title, chart, viz, svg)")))

unfoldable pub shown_button : Text → Symbols
shown_button s = tag_with "<button id=" "act" ++ (says s ++ tags "</button>")

module _ {V : Type 0} where
  -- No null component or item, and every list an array.
  unfoldable pub are_items : List (Option (Item V)) → Bool
  are_items [] = true
  are_items (none ∷ is) = false
  are_items (some i ∷ is) = are_items is

  unfoldable pub is_component : Component V → Bool
  is_component (list (items is)) = are_items is
  is_component (list not_a_list) = false
  is_component null = false
  is_component _ = true

  unfoldable pub are_components : List (Component V) → Bool
  are_components [] = true
  are_components (c ∷ cs) = is_component c && are_components cs

  unfoldable pub is_top_list : Option (List (Option (Item V))) → Bool
  is_top_list none = true
  is_top_list (some is) = are_items is

  unfoldable pub is_well_formed : Ui V → Bool
  is_well_formed u = is_top_list u.list && are_components (or_no_components u.components)

module _ {V : Type 0} (js : Js V) where
  unfoldable pub shown_caption : V → Symbols
  shown_caption alt =
      if js.truthy alt
      then tags "<figcaption>" ++ (says (js.string alt) ++ tags "</figcaption>")
      else []

  unfoldable pub shown_figure : V → V → Symbols
  shown_figure src alt =
      tag_with "<figure class=" "img"
      ++ (tags "<img src="
          ++ (quoted (js.string src)
              ++ (tags " alt="
                  ++ (quoted (or_empty js alt)
                      ++ (tags ">" ++ (shown_caption alt ++ tags "</figure>"))))))

  unfoldable pub shown_subtitle : V → Symbols
  shown_subtitle v = if js.truthy v then tags "<em>" ++ (says (js.string v) ++ tags "</em>") else []

  unfoldable pub shown_item : Item V → Symbols
  shown_item i =
      tags "<li>" ++ (says (js.string i.title) ++ (shown_subtitle i.subtitle ++ tags "</li>"))

  unfoldable pub shown_items : List (Option (Item V)) → Symbols
  shown_items [] = []
  shown_items (none ∷ is) = shown_items is
  shown_items (some i ∷ is) = shown_item i ++ shown_items is

  unfoldable pub shown_list : List (Option (Item V)) → Symbols
  shown_list is = tags "<ul>" ++ (shown_items is ++ tags "</ul>")

  unfoldable pub shown_component : Component V → Symbols
  shown_component (text v) = shown_paragraph (js.string v)
  shown_component (list no_items) = shown_list []
  shown_component (list (items is)) = shown_list is
  shown_component (list not_a_list) = []
  shown_component (image src alt) = shown_figure src alt
  shown_component (title v) = shown_heading (js.string v)
  shown_component (chart _ _) = box "chart" []
  shown_component (viz _ _ _) = shown_viz
  shown_component (svg s _) =
      if is_svg (trim (or_empty js s))
      then shown_viz
      else box "vizerr" (
          says (
            codes
              "[svg] missing or invalid SVG markup — the agent sent a placeholder, not a real chart"))
  shown_component (unknown t) = shown_unknown (js.string t)
  shown_component null = []

  unfoldable pub shown_components : List (Component V) → Symbols
  shown_components [] = []
  shown_components (c ∷ cs) = shown_component c ++ shown_components cs

  unfoldable pub shown_image : Option (V × V) → Symbols
  shown_image none = []
  shown_image (some (src, alt)) = if js.truthy src then shown_figure src alt else []

  unfoldable pub shown_front : Ui V → Symbols
  shown_front u =
      (if js.truthy u.title then shown_heading (js.string u.title) else [])
      ++ (shown_image u.image
          ++ (if js.truthy u.text then shown_paragraph (js.string u.text) else []))

  unfoldable pub shown_top_list : Option (List (Option (Item V))) → Symbols
  shown_top_list none = []
  shown_top_list (some is) = shown_list is

  unfoldable pub shown_button_of : Option (Button V) → Symbols
  shown_button_of none = []
  shown_button_of (some b) = shown_button (js.string b.label)

  unfoldable pub shown_page : Ui V → Symbols
  shown_page u =
      ((shown_front u ++ shown_top_list u.list) ++ shown_components (or_no_components u.components))
      ++ shown_button_of u.button

  -- The sandboxes that a component asks for.
  unfoldable pub vizzes_of : Component V → List (Viz V)
  vizzes_of (viz code' data'' label') =
      record { code = or_empty js code'; data' = js.or_object data''; label = if_truthy js label' }
      ∷ []
  vizzes_of (svg s label') =
      let t = trim (or_empty js s) in
      if is_svg t
      then record { code = runner; data' = js.svg_data t; label = if_truthy js label' } ∷ []
      else []
  vizzes_of _ = []

  unfoldable pub all_vizzes : List (Component V) → List (Viz V)
  all_vizzes [] = []
  all_vizzes (c ∷ cs) = vizzes_of c ++ all_vizzes cs
