-- ===== src/Renderer/Parts.antt =====
-- www/renderer.js: the parts of a page that one text makes, and the tests of an svg.
use agent_mobile.Common.{
  ℕ, Bool, false, none, some, [], ◌∷◌, ◌++◌, ◌==◌, leb, ◌&&◌, ◌||◌, if◌then◌else◌, codes,
}
use agent_mobile.Handshake.Base.{Text}
use agent_mobile.SurfaceHost.Markup.{esc, after}

-- `\s`, and what `trim` takes off
unfoldable pub is_space : ℕ → Bool
is_space c =
    (leb 9 c && leb c 13)
    || (c == 32)
    || (c == 160)
    || (c == 5760)
    || (leb 8192 c && leb c 8202)
    || (c == 8232)
    || (c == 8233)
    || (c == 8239)
    || (c == 8287)
    || (c == 12288)
    || (c == 65279)

unfoldable pub trim_start : Text → Text
trim_start [] = []
trim_start (c ∷ s) = let rest = trim_start s in if is_space c then rest else c ∷ s

unfoldable pub trim_end : Text → Text
trim_end [] = []
trim_end (c ∷ s) = elim (trim_end s) [ [] ↦ if is_space c then [] else c ∷ [] | d ∷ t ↦ c ∷ d ∷ t ]

-- `str.trim()`
unfoldable pub trim : Text → Text
trim s = trim_end (trim_start s)

-- `/^<svg[\s>]/i.test(svg)`
unfoldable pub is_svg : Text → Bool
is_svg s = elim (after (codes "<svg") s) [
  | none ↦ false
  | some [] ↦ false
  | some (c ∷ t) ↦ is_space c || (c == b'>')
]

-- The runner that `draw` gives an svg.
abbrev pub runner : Text
runner =
    codes
      "window.render=function(d){var r=document.getElementById(\"root\");if(r&&d&&d.svg)r.innerHTML=d.svg;};"

unfoldable pub heading : Text → Text
heading s = codes "<h1>" ++ (esc s ++ codes "</h1>")

unfoldable pub paragraph : Text → Text
paragraph s = codes "<p>" ++ (esc s ++ codes "</p>")

abbrev pub viz_box : Text
viz_box =
    codes "<div class=\"viz\"><iframe class=\"vizframe\" sandbox=\"allow-scripts\"></iframe></div>"

abbrev pub chart_box : Text
chart_box = codes "<div class=\"chart\"></div>"

abbrev pub bad_svg : Text
bad_svg =
    codes
      "<div class=\"vizerr\">[svg] missing or invalid SVG markup — the agent sent a placeholder, not a real chart</div>"

unfoldable pub unknown_type : Text → Text
unknown_type t =
    codes "<div class=\"vizerr\">[render] unknown component type \""
    ++ (esc t ++ codes "\" (known: text, list, image, title, chart, viz, svg)</div>")

unfoldable pub button_html : Text → Text
button_html label = codes "<button id=\"act\">" ++ (esc label ++ codes "</button>")
