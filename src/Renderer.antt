-- ===== src/Renderer.antt =====
-- www/renderer.js: the page that `draw` writes for a render block.
--
-- `V` is the type of a JSON value; `Js` has what the renderer does with one: `String(v)`, the test
-- of `v ? a : b`, `v || {}`, the object `{ svg }` of a text, and the text as a value. A field that is
-- missing is the value `undefined`. The browser, which makes elements of the text, is outside. The
-- parts of a page that one text makes are in Renderer/Parts.
mod Parts
unfoldable pub use Parts.*
pub mod Reader
pub mod Shown
pub mod Reads
pub mod Pages
pub mod Frames
pub mod Sandbox
pub mod Wired
pub mod Malformed
pub mod Screens
pub mod Status
pub mod Dispatch
mod Tests
use agent_mobile.Common.{
  ℕ, ◌+◌, ◌≤◌, Bool, true, false, Option, none, some, List, [], ◌∷◌, ◌++◌, ◌==◌, leb, ◌&&◌, ◌||◌,
  if◌then◌else◌, codes,
}
use agent_mobile.Handshake.Base.{Text}
use agent_mobile.SurfaceHost.Markup.{esc, after}

pub record Js (V : Type 0) : Type 0 where
  pub string : V → Text
  pub truthy : V → Bool
  pub or_object : V → V
  pub svg_data : Text → V
  pub undefined : V
  pub of_text : Text → V

pub record Item (V : Type 0) : Type 0 where
  pub title : V
  pub subtitle : V

-- `c.items || []`: nothing, an array (whose items can be null), or a value with no `map`
pub data Items (V : Type 0) : Type 0 where
  no_items : Items V
  items : List (Option (Item V)) → Items V
  not_a_list : Items V

-- A component by its `t`; the fields are those that the renderer reads.
pub data Component (V : Type 0) : Type 0 where
  text : V → Component V
  list : Items V → Component V
  -- src and alt
  image : V → V → Component V
  title : V → Component V
  -- options and title
  chart : V → V → Component V
  -- code, data and label
  viz : V → V → V → Component V
  -- svg and label
  svg : V → V → Component V
  -- another `t`
  unknown : V → Component V
  null : Component V

-- `u.button`; `action` is `u.button.action`, and `rpc` and `args` are its fields
pub record Button (V : Type 0) : Type 0 where
  pub label : V
  pub action : V
  pub rpc : V
  pub args : V

-- A render block; a list that is no array is `none`.
pub record Ui (V : Type 0) : Type 0 where
  pub title : V
  -- src and alt
  pub image : Option (V × V)
  pub text : V
  pub list : Option (List (Option (Item V)))
  pub components : Option (List (Component V))
  pub button : Option (Button V)

pub record Chart (V : Type 0) : Type 0 where
  pub options : V
  pub title : Text

pub record Viz (V : Type 0) : Type 0 where
  pub code : Text
  pub data' : V
  -- `label || ''`, which is none where it is falsy
  pub label : Option Text

-- What `draw` has gathered: `h`, `charts` and `vizzes`.
pub record Drawn (V : Type 0) : Type 0 where
  pub html : Text
  pub charts : List (Chart V)
  pub vizzes : List (Viz V)

-- A thrown TypeError, or a value.
pub data Result (A : Type 0) : Type 0 where
  thrown : Result A
  returned : A → Result A

abbrev pub bind : {A B : Type 0} → Result A → (A → Result B) → Result B
bind thrown f = thrown
bind (returned a) f = f a

-- The components, and none where they are no array.
abbrev pub or_no_components : {V : Type 0} → Option (List (Component V)) → List (Component V)
or_no_components none = []
or_no_components (some cs) = cs

module _ {V : Type 0} where
  unfoldable pub write : Text → Drawn V → Drawn V
  write t d = record d { html = d.html ++ t }

  -- `charts.push` and `vizzes.push`
  unfoldable pub push_chart : Chart V → Drawn V → Drawn V
  push_chart c d = record d { charts = d.charts ++ c ∷ [] }

  unfoldable pub push_viz : Viz V → Drawn V → Drawn V
  push_viz v d = record d { vizzes = d.vizzes ++ v ∷ [] }

module _ {V : Type 0} (js : Js V) where
  -- `v || ''`, as a text
  unfoldable pub or_empty : V → Text
  or_empty v = if js.truthy v then js.string v else []

  unfoldable pub if_truthy : V → Option Text
  if_truthy v = if js.truthy v then some (js.string v) else none

  unfoldable pub caption : V → Text
  caption alt =
      if js.truthy alt
      then codes "<figcaption>" ++ (esc (js.string alt) ++ codes "</figcaption>")
      else []

  -- A figure, of its source and of its alternative text.
  unfoldable pub figure : V → V → Text
  figure src alt =
      codes "<figure class=\"img\"><img src=\""
      ++ (esc (js.string src)
          ++ (codes "\" alt=\""
              ++ (esc (or_empty alt) ++ (codes "\">" ++ (caption alt ++ codes "</figure>")))))

  unfoldable pub subtitle_html : V → Text
  subtitle_html v = if js.truthy v then codes "<em>" ++ (esc (js.string v) ++ codes "</em>") else []

  unfoldable pub item_html : Item V → Text
  item_html i =
      codes "<li>" ++ (esc (js.string i.title) ++ (subtitle_html i.subtitle ++ codes "</li>"))

  -- The items, which a null one breaks off.
  unfoldable pub items_html : List (Option (Item V)) → Result Text
  items_html [] = returned []
  items_html (none ∷ is) = thrown
  items_html (some i ∷ is) = bind (items_html is) (λ t. returned (item_html i ++ t))

  unfoldable pub list_html : List (Option (Item V)) → Result Text
  list_html is = bind (items_html is) (λ t. returned (codes "<ul>" ++ (t ++ codes "</ul>")))

  -- The turn of `u.components.forEach` for one component.
  unfoldable pub add_component : Drawn V → Component V → Result (Drawn V)
  add_component d (text v) = returned (write (paragraph (js.string v)) d)
  add_component d (list no_items) = returned (write (codes "<ul></ul>") d)
  add_component d (list (items is)) = bind (list_html is) (λ t. returned (write t d))
  add_component d (list not_a_list) = thrown
  add_component d (image src alt) = returned (write (figure src alt) d)
  add_component d (title v) = returned (write (heading (js.string v)) d)
  add_component d (chart options t) =
      let c : Chart V = record { options = js.or_object options; title = or_empty t } in
      returned (write chart_box (push_chart c d))
  add_component d (viz code' data'' label') =
      let v : Viz V = record {
        code = or_empty code';
        data' = js.or_object data'';
        label = if_truthy label';
      } in
      returned (write viz_box (push_viz v d))
  add_component d (svg s label') =
      let t = trim (or_empty s) in
      let v : Viz V = record { code = runner; data' = js.svg_data t; label = if_truthy label' } in
      returned (if is_svg t then write viz_box (push_viz v d) else write bad_svg d)
  add_component d (unknown t) = returned (write (unknown_type (js.string t)) d)
  add_component d null = thrown

  unfoldable pub add_components : Drawn V → List (Component V) → Result (Drawn V)
  add_components d [] = returned d
  add_components d (c ∷ cs) = bind (add_component d c) (λ d'. add_components d' cs)

  unfoldable pub image_of : Option (V × V) → Text
  image_of none = []
  image_of (some (src, alt)) = if js.truthy src then figure src alt else []

  -- The title, the image and the text, which come before the lists.
  unfoldable pub front : Ui V → Text
  front u =
      (if js.truthy u.title then heading (js.string u.title) else [])
      ++ (image_of u.image ++ (if js.truthy u.text then paragraph (js.string u.text) else []))

  unfoldable pub top_list : Option (List (Option (Item V))) → Result Text
  top_list none = returned []
  top_list (some is) = list_html is

  unfoldable pub button_of : Option (Button V) → Text
  button_of none = []
  button_of (some b) = button_html (js.string b.label)

  -- What `draw(u)` gathers before it writes the page.
  unfoldable pub draw_page : Ui V → Result (Drawn V)
  draw_page u = bind (top_list u.list) (λ t.
      bind
        (add_components (record { html = front u ++ t; charts = []; vizzes = [] })
          (or_no_components u.components))
        (λ d. returned (write (button_of u.button) d)))
