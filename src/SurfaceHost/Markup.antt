-- ===== src/SurfaceHost/Markup.antt =====
-- www/surface-host.js: the texts that go into a page or a frame, as lists of code units.
use agent_mobile.Common.{
  ℕ, ◌+◌, Bool, true, false, Option, none, some, [], ◌∷◌, ◌++◌, ◌==◌, leb, ◌&&◌, ◌||◌,
  if◌then◌else◌,
}
use agent_mobile.Handshake.Base.{Text}

-- One character of `esc`
unfoldable pub esc_char : ℕ → Text
esc_char c =
    if c == b'&'
    then b'&' ∷ b'a' ∷ b'm' ∷ b'p' ∷ b';' ∷ []
    else if c == b'<'
    then b'&' ∷ b'l' ∷ b't' ∷ b';' ∷ []
    else if c == b'>'
    then b'&' ∷ b'g' ∷ b't' ∷ b';' ∷ []
    else if c == b'"'
    then b'&' ∷ b'q' ∷ b'u' ∷ b'o' ∷ b't' ∷ b';' ∷ []
    else if c == 39
    then b'&' ∷ b'#' ∷ b'3' ∷ b'9' ∷ b';' ∷ []
    else c ∷ []

-- `esc(s)`
unfoldable pub esc : Text → Text
esc [] = []
esc (c ∷ s) = esc_char c ++ esc s

-- `jsEscape(str)`: every `</` becomes `<\/`
unfoldable pub js_escape : Text → Text
js_escape [] = []
js_escape (c ∷ []) = c ∷ []
js_escape (c ∷ d ∷ s) =
    let rest = js_escape (d ∷ s) in
    if (c == b'<') && (d == b'/') then b'<' ∷ 92 ∷ rest else c ∷ rest

-- A letter in lower case, as `i` compares it.
unfoldable pub lower : ℕ → ℕ
lower c = if leb b'A' c && leb c b'Z' then c + 32 else c

-- Whether a text begins with one in lower case, and what is left of it.
unfoldable pub after : Text → Text → Option Text
after [] s = some s
after (p ∷ ps) [] = none
after (p ∷ ps) (c ∷ s) = if p == lower c then after ps s else none

-- `["']https?:`
unfoldable pub is_remote : Text → Bool
is_remote [] = false
is_remote (q ∷ s) =
    if (q == b'"') || (q == 39)
    then elim (after (b'h' ∷ b't' ∷ b't' ∷ b'p' ∷ []) s) [
      | none ↦ false
      | some [] ↦ false
      | some (c ∷ t) ↦
          if lower c == b's' then elim t [ [] ↦ false | d ∷ _ ↦ d == b':' ] else c == b':'
    ]
    else false

-- `[^>]+src=` and what follows it, from the character after `<script` on
unfoldable pub has_source : Text → Bool
has_source [] = false
has_source (c ∷ s) =
    let rest = has_source s in
    if c == b'>' then false else elim (after (b's' ∷ b'r' ∷ b'c' ∷ b'=' ∷ []) s) [
      | none ↦ rest
      | some t ↦ is_remote t || rest
    ]

-- `hasExternal(s)`
unfoldable pub has_external : Text → Bool
has_external [] = false
has_external (c ∷ s) =
    let rest = has_external s in
    elim (after (b'<' ∷ b's' ∷ b'c' ∷ b'r' ∷ b'i' ∷ b'p' ∷ b't' ∷ []) (c ∷ s)) [
      | none ↦ rest
      | some t ↦ has_source t || rest
    ]

-- `/^text\/css/i.test(mime)`
unfoldable pub is_css : Text → Bool
is_css mime = elim (after (b't' ∷ b'e' ∷ b'x' ∷ b't' ∷ b'/' ∷ b'c' ∷ b's' ∷ b's' ∷ []) mime) [
  | none ↦ false
  | some _ ↦ true
]

abbrev pub style_open : Text
style_open = b'<' ∷ b's' ∷ b't' ∷ b'y' ∷ b'l' ∷ b'e' ∷ b'>' ∷ []

abbrev pub style_close : Text
style_close = b'<' ∷ b'/' ∷ b's' ∷ b't' ∷ b'y' ∷ b'l' ∷ b'e' ∷ b'>' ∷ []

abbrev pub script_open : Text
script_open = b'<' ∷ b's' ∷ b'c' ∷ b'r' ∷ b'i' ∷ b'p' ∷ b't' ∷ b'>' ∷ []

abbrev pub script_close : Text
script_close = b'<' ∷ b'/' ∷ b's' ∷ b'c' ∷ b'r' ∷ b'i' ∷ b'p' ∷ b't' ∷ b'>' ∷ []

-- A `<script>` and a `<style>` with an agent's text.
unfoldable pub script_tag : Text → Text
script_tag code = script_open ++ (js_escape code ++ script_close)

unfoldable pub style_tag : Text → Text
style_tag css = style_open ++ (js_escape css ++ style_close)
