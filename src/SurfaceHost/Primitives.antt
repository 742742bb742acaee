-- ===== src/SurfaceHost/Primitives.antt =====
-- www/surface-host.js, `feed`: the primitives that the host draws itself, and the document of a frame.
--
-- A prop is a JSON value, and `Js` of the renderer says what is done with one. `Fields` reads a field
-- of a published value, and the items of an array; a value without the field, and the value
-- `undefined`, are `js.undefined`. The drawing of a chart by the chart library is left out: its box
-- is drawn.
use Prim.Native.String.{String}
use text.Mathlib.Text.{◌==◌ as str_eq}
use agent_mobile.Common.{
  ℕ, Bool, Option, none, some, List, [], ◌∷◌, ◌++◌, if◌then◌else◌, codes, lookup, string_eq, ltb,
  ◌*◌,
}
use agent_mobile.Handshake.Base.{Text}
use agent_mobile.Surface.{Props}
use agent_mobile.Renderer.{Js, or_empty, trim, is_svg, chart_box}
use agent_mobile.SurfaceHost.{Page, Drawing, html, sandbox, thrown}
use agent_mobile.SurfaceHost.Markup.{esc, js_escape, has_external, script_open, script_close}
use agent_mobile.Renderer.Sandbox.{Realm}

-- What is read of a value: `v.name`, whether it is null or undefined, and the array that it is.
pub record Fields (V : Type 0) : Type 0 where
  pub field : V → String → V
  pub is_missing : V → Bool
  pub array : V → Option (List V)

module _ {V : Type 0} (js : Js V) (fields : Fields V) where
  -- `a || b`
  unfoldable pub or_else : V → V → V
  or_else a b = if js.truthy a then a else b

  -- `props && props.name` and `data && data.name`
  unfoldable pub prop : Option (Props V) → String → V
  prop none name = js.undefined
  prop (some p) name = elim (lookup name p) [ none ↦ js.undefined | some v ↦ v ]

  unfoldable pub data_field : Option V → String → V
  data_field none name = js.undefined
  data_field (some d) name = if js.truthy d then fields.field d name else js.undefined

  -- `(data && data.text != null ? data.text : props && props.text) || ''`
  unfoldable pub text_of : Option (Props V) → Option V → Text
  text_of props data' =
      let t = data_field data' "text" in
      or_empty js (if fields.is_missing t then prop props "text" else t)

  -- One item of a list.
  unfoldable pub list_item : V → Text
  list_item i =
      let t = fields.field i "title" in
      let sub = fields.field i "subtitle" in
      codes "<li>"
      ++ (esc (js.string (if fields.is_missing t then i else t))
          ++ ((if js.truthy sub then codes "<em>" ++ (esc (js.string sub) ++ codes "</em>") else [])
              ++ codes "</li>"))

  unfoldable pub list_items : List V → Text
  list_items [] = []
  list_items (i ∷ is) = list_item i ++ list_items is

  -- The array of the items, or the other values that stand in for it; a value that is no array has no
  -- `map`, and is none.
  unfoldable pub items_of : Option (Props V) → Option V → Option (List V)
  items_of props data' =
      let a = prop props "items" in
      elim (fields.array a) [
        | some is ↦ some is
        | none ↦
            let d = or_else (data_field data' "items") (prop props "list") in
            if js.truthy d then fields.array d else some []
      ]

  unfoldable pub figure_of : V → V → Text
  figure_of src alt =
      codes "<figure class=\"swimg\"><img src=\""
      ++ (esc (js.string src)
          ++ (codes "\" alt=\""
              ++ (esc (or_empty js alt)
                  ++ (codes "\">"
                      ++ ((if js.truthy alt
                            then codes "<figcaption>"
                              ++ (esc (js.string alt) ++ codes "</figcaption>")
                            else [])
                          ++ codes "</figure>")))))

  unfoldable pub svg_runner : Text
  svg_runner =
      codes
        "<script>window.render=function(d){var r=document.getElementById(\"root\");if(r&&d&&d.svg)r.innerHTML=d.svg;}</script>"

  unfoldable pub draw_svg : Text → Text → Drawing V
  draw_svg svg label =
      if is_svg svg
      then sandbox svg_runner (js.svg_data svg) label
      else html (codes "<div class=\"vizerr\">[svg] missing or invalid SVG markup</div>")

  unfoldable pub draw_viz : Option (Props V) → Option V → Text → Drawing V
  draw_viz props data' label =
      let code = or_empty js (prop props "code") in
      if has_external code
      then html (
          codes
            "<div style=\"padding:10px;font-size:12px;color:#f0883e\">[viz] external/CDN script blocked (egress-free). Inline the library source.</div>")
      else sandbox
          (if js.truthy (prop props "code")
            then script_open ++ (js_escape code ++ script_close)
            else [])
          (js.or_object (or_else (prop props "data") (data_field data' "data")))
          (if js.truthy (prop props "label") then js.string (prop props "label") else label)

  -- `feed`, from the type of the tile on; `units` are the code units of a type
  unfoldable pub draw_primitive :
      (String → Text) → String → Text → Option (Props V) → Option V → Drawing V
  draw_primitive units type label props data' =
      if str_eq type "text"
      then html (codes "<p class=\"swtext\">" ++ (esc (text_of props data') ++ codes "</p>"))
      else if str_eq type "list"
      then (elim (items_of props data') [
        | none ↦ thrown
        | some is ↦ html (codes "<ul>" ++ (list_items is ++ codes "</ul>"))
      ])
      else if str_eq type "image"
      then html (
          figure_of (or_else (prop props "src") (data_field data' "src"))
            (or_else (prop props "alt") (data_field data' "alt")))
      else if str_eq type "chart"
      then html chart_box
      else if str_eq type "svg"
      then draw_svg (trim (or_empty js (or_else (prop props "svg") (data_field data' "svg")))) label
      else if str_eq type "viz"
      then draw_viz props data' label
      else html (
          codes "<div class=\"vizerr\">[surface] unknown widget type \""
          ++ (esc (units type) ++ codes "\"</div>"))

-- `sandboxDoc(body, label)`
unfoldable pub sandbox_doc : Realm → Text → Text → Text
sandbox_doc realm body label =
    codes "<!doctype html><meta charset=\"utf-8\">"
    ++ (realm.preamble
        ++ (codes "<style>"
            ++ (realm.theme_css
                ++ (codes "</style><div id=\"root\" style=\"width:100%;height:100%\"></div>"
                    ++ (realm.runner ++ (body ++ (router ++ label_box label)))))))
  where
    router : Text
    router =
        codes
          "<script>(function(){window.addEventListener(\"message\",function(e){var m=e.data;if(!m)return;var r=document.getElementById(\"root\");var ok=true;var t=\"\";try{if(m.type===\"vmrender\"){if(window.render)window.render(m.props||{});}else if(m.type===\"vmdata\"){if(window.onData)window.onData(m.data||{});else if(window.render)window.render(m.data||{});}t=r?r.innerText:\"\";}catch(err){ok=false;t=String(err&&err.message||err);}try{window.parent.postMessage({type:ok?\"vmroot\":\"vimer\",text:t},\"*\");}catch(_){}if(window.__vmReport)setTimeout(window.__vmReport,0);});})();</script>"

    label_box : Text → Text
    label_box [] = []
    label_box (c ∷ s) =
        codes
          "<div style=\"position:absolute;top:6px;right:10px;color:var(--muted,#8b949e);font:12px var(--mono,monospace)\">"
        ++ (esc (c ∷ s) ++ codes "</div>")

-- `capacity()`, of what `parseInt` makes of the stored text: none where it makes no number, or one
-- below 0, or the store is not to be had.
unfoldable pub capacity : Option ℕ → ℕ
capacity none = 100 * 1024 * 1024
capacity (some n) = if ltb 0 n then n else 100 * 1024 * 1024

-- The page of the host, with the primitives drawn as above.
abbrev pub page_with :
    {V : Type 0} → Js V → Fields V → (List ℕ → List ℕ) → (String → Text) → String → Page V
page_with js fields decode units error = record {
  decode = decode;
  units = units;
  label_of = λ props. or_empty js (prop js fields (some props) "label");
  or_empty = js.or_object;
  draw = draw_primitive js fields units;
  error = error;
}
