-- ===== src/Renderer/Reader.antt =====
-- How a browser reads the markup that www/renderer.js writes: tags, quoted values of attributes, and
-- text, in which the five character references stand for their characters. It is a description of
-- its own, of the HTML that `draw` needs, and not of the source.
use agent_mobile.Common.{
  ℕ, Bool, true, false, Option, none, some, List, [], ◌∷◌, ◌++◌, map, ◌==◌, leb, ◌&&◌, ◌||◌,
  if◌then◌else◌, codes,
}
use agent_mobile.Handshake.Base.{Text}

-- Where characters are content: in the text of the page, or in the value of an attribute.
pub data Place : Type 0 where
  body value : Place

-- What a character of the markup is: a character of a tag, or of content, references resolved.
pub data Symbol : Type 0 where
  mark : ℕ → Symbol
  seen : Place → ℕ → Symbol

-- Within content, within a tag, or within a reference whose name is being read.
pub data State : Type 0 where
  within : Place → State
  in_tag : State
  in_reference : Place → Text → State

unfoldable pub same : Text → Text → Bool
same [] [] = true
same (c ∷ s) (d ∷ t) = (c == d) && same s t
same [] (_ ∷ _) = false
same (_ ∷ _) [] = false

-- The character of a reference, by its name.
unfoldable pub referent : Text → Option ℕ
referent w =
    if same w (codes "amp")
    then some b'&'
    else if same w (codes "lt")
    then some b'<'
    else if same w (codes "gt")
    then some b'>'
    else if same w (codes "quot")
    then some b'"'
    else if same w (codes "#39")
    then some 39
    else none

-- A letter, a digit or a hash sign.
unfoldable pub in_name : ℕ → Bool
in_name c =
    (leb b'a' c && leb c b'z')
    || (leb b'A' c && leb c b'Z')
    || (leb b'0' c && leb c b'9')
    || (c == b'#')

-- The character that ends content, in its place.
unfoldable pub ends : Place → ℕ → Bool
ends body c = c == b'<'
ends value c = c == b'"'

unfoldable pub step_within : Place → ℕ → List Symbol × State
step_within p c =
    if ends p c
    then (mark c ∷ [], in_tag)
    else if c == b'&'
    then ([], in_reference p [])
    else (seen p c ∷ [], within p)

unfoldable pub step : State → ℕ → List Symbol × State
step (within p) c = step_within p c
step in_tag c =
    if c == b'>'
    then (mark c ∷ [], within body)
    else if c == b'"'
    then (mark c ∷ [], within value)
    else (mark c ∷ [], in_tag)
step (in_reference p w) c =
    if c == b';'
    then (elim (referent w) [
      | some d ↦ (seen p d ∷ [], within p)
      | none ↦ (map (seen p) (b'&' ∷ (w ++ c ∷ [])), within p)
    ])
    else if in_name c
    then ([], in_reference p (w ++ c ∷ []))
    else (let (out, s) = step_within p c in (map (seen p) (b'&' ∷ w) ++ out, s))

unfoldable pub read : State → Text → List Symbol
read (within p) [] = []
read in_tag [] = []
read (in_reference p w) [] = map (seen p) (b'&' ∷ w)
read s (c ∷ t) = let (out, s') = step s c in out ++ read s' t
