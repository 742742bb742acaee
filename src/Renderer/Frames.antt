-- ===== src/Renderer/Frames.antt =====
-- www/renderer.js, `draw`: the sandboxes of the page, as many as the frames that a browser reads in
-- it.
use mathlib.Core.List.{append_assoc, append-nil}
use agent_mobile.Common.{
  ℕ, ◌+◌, ◌≡◌, refl, Bool, true, false, Option, none, some, List, [], ◌∷◌, ◌++◌, map, ◌==◌, ◌&&◌,
  if◌then◌else◌, codes, arith, length, length-append, Bool-cases, inl, inr,
}
use agent_mobile.Handshake.Base.{Text}
use agent_mobile.Renderer.{
  Js, Item, Button, Ui, Component, text, list, image, title, chart, viz, svg, unknown, null,
  no_items, items, not_a_list, is_svg, trim, or_empty, or_no_components,
}
use agent_mobile.Renderer.Reader.{Symbol, mark, seen, Place}
use agent_mobile.Renderer.Shown.{
  Symbols, shown_component, shown_components, shown_front, shown_page, shown_list, shown_items,
  vizzes_of, all_vizzes, shown_image, shown_button_of, shown_button, shown_top_list, shown_item,
  shown_caption, shown_subtitle, shown_figure, shown_heading, shown_paragraph, shown_unknown,
}

unfoldable pub is_mark : ℕ → Symbol → Bool
is_mark c (mark d) = d == c
is_mark c (seen _ _) = false

-- Whether the tag of these characters begins here.
unfoldable pub opens : Text → Symbols → Bool
opens [] s = true
opens (c ∷ w) [] = false
opens (c ∷ w) (x ∷ s) = is_mark c x && opens w s

-- The frames of a page.
unfoldable pub frames : Symbols → ℕ
frames [] = 0
frames (x ∷ s) = let rest = frames s in if opens (codes "<iframe") (x ∷ s) then rest + 1 else rest

-- A text opens no frame.
frames-says : (p : Place) (w : Text) (s : Symbols) → frames (map (seen p) w ++ s) ≡ frames s
unfolding frames opens is_mark
frames-says p [] s = refl
frames-says p (c ∷ w) s = frames-says p w s

-- A part of a page with its frames, whatever follows; and a part with none.
abbrev pub Frames : Symbols → ℕ → Type 0
Frames a n = (s : Symbols) → frames (a ++ s) ≡ n + frames s

abbrev IsFrameless : Symbols → Type 0
IsFrameless a = (s : Symbols) → frames (a ++ s) ≡ frames s

ruleset parts = (append_assoc, frames-says)

Frames-append : (a b : Symbols) (m n : ℕ) → Frames a m → Frames b n → Frames (a ++ b) (m + n)
Frames-append a b m n f g s = rw append_assoc (omega (arith, f (b ++ s), g s))

IsFrameless-when : (c : Bool) (a : Symbols) → IsFrameless a → IsFrameless (if c then a else [])
IsFrameless-when true a f s = f s
IsFrameless-when false a f s = refl

heading-IsFrameless : (w : Text) → IsFrameless (shown_heading w)
unfolding shown_heading frames opens is_mark
heading-IsFrameless w s = simp parts

paragraph-IsFrameless : (w : Text) → IsFrameless (shown_paragraph w)
unfolding shown_paragraph frames opens is_mark
paragraph-IsFrameless w s = simp parts

unknown-IsFrameless : (w : Text) → IsFrameless (shown_unknown w)
unfolding shown_unknown frames opens is_mark
unknown-IsFrameless w s = simp parts

module _ {V : Type 0} (js : Js V) where
  caption-IsFrameless : (alt : V) → IsFrameless (shown_caption js alt)
  unfolding shown_caption frames opens is_mark
  caption-IsFrameless alt = IsFrameless-when (js.truthy alt) _ (λ s. simp parts)

  figure-IsFrameless : (src alt : V) → IsFrameless (shown_figure js src alt)
  unfolding shown_figure frames opens is_mark
  figure-IsFrameless src alt s = simp (parts, caption-IsFrameless alt)

  subtitle-IsFrameless : (v : V) → IsFrameless (shown_subtitle js v)
  unfolding shown_subtitle frames opens is_mark
  subtitle-IsFrameless v = IsFrameless-when (js.truthy v) _ (λ s. simp parts)

  items-IsFrameless : (is : List (Option (Item V))) → IsFrameless (shown_items js is)
  unfolding shown_items shown_item frames opens is_mark
  items-IsFrameless [] s = refl
  items-IsFrameless (none ∷ is) s = items-IsFrameless is s
  items-IsFrameless (some i ∷ is) s =
      simp (parts, subtitle-IsFrameless i.subtitle, items-IsFrameless is)

  list-IsFrameless : (is : List (Option (Item V))) → IsFrameless (shown_list js is)
  unfolding shown_list frames opens is_mark
  list-IsFrameless is s = simp (parts, items-IsFrameless is)

  component-Frames : (c : Component V) → Frames (shown_component js c) (length (vizzes_of js c))
  unfolding shown_component vizzes_of frames opens is_mark
  component-Frames (text v) = λ s. omega (arith, paragraph-IsFrameless (js.string v) s)
  component-Frames (list no_items) = λ s. omega (arith, list-IsFrameless [] s)
  component-Frames (list (items is)) = λ s. omega (arith, list-IsFrameless is s)
  component-Frames (list not_a_list) = λ s. omega arith
  component-Frames (image src alt) = λ s. omega (arith, figure-IsFrameless src alt s)
  component-Frames (title v) = λ s. omega (arith, heading-IsFrameless (js.string v) s)
  component-Frames (chart _ _) = λ s. omega arith
  component-Frames (viz _ _ _) = λ s. omega arith
  component-Frames (svg t l) = elim (Bool-cases (is_svg (trim (or_empty js t)))) [
    | inl h ↦ rw h (λ s. omega arith)
    | inr h ↦ rw h (λ s. omega arith)
  ]
  component-Frames (unknown v) = λ s. omega (arith, unknown-IsFrameless (js.string v) s)
  component-Frames null = λ s. omega arith

  components-Frames :
      (cs : List (Component V)) → Frames (shown_components js cs) (length (all_vizzes js cs))
  unfolding shown_components all_vizzes
  components-Frames [] = λ s. omega arith
  components-Frames (c ∷ cs) =
      rw length-append (Frames-append _ _ _ _ (component-Frames c) (components-Frames cs))

  image-IsFrameless : (i : Option (V × V)) → IsFrameless (shown_image js i)
  unfolding shown_image
  image-IsFrameless none = λ s. refl
  image-IsFrameless (some (src, alt)) =
      IsFrameless-when (js.truthy src) _ (figure-IsFrameless src alt)

  button-IsFrameless : (b : Option (Button V)) → IsFrameless (shown_button_of js b)
  unfolding shown_button_of shown_button frames opens is_mark
  button-IsFrameless none = λ s. refl
  button-IsFrameless (some b) = λ s. simp parts

  top_list-IsFrameless : (l : Option (List (Option (Item V)))) → IsFrameless (shown_top_list js l)
  unfolding shown_top_list
  top_list-IsFrameless none = λ s. refl
  top_list-IsFrameless (some is) = list-IsFrameless is

  front-IsFrameless : (u : Ui V) → IsFrameless (shown_front js u)
  unfolding shown_front
  front-IsFrameless u s =
      let title_part =
        IsFrameless-when (js.truthy u.title) _ (heading-IsFrameless (js.string u.title)) in
      let text_part =
        IsFrameless-when (js.truthy u.text) _ (paragraph-IsFrameless (js.string u.text)) in
      simp (append_assoc, title_part, image-IsFrameless u.image, text_part)

  -- A page has the frames of its components, whatever its texts say.
  pub page-frames :
      (u : Ui V) → frames (shown_page js u) ≡ length (all_vizzes js (or_no_components u.components))
  unfolding shown_page frames
  page-frames u =
      let cs = or_no_components u.components in
      let whole = components-Frames cs (shown_button_of js u.button) in
      let last : frames (shown_button_of js u.button) ≡ 0 =
        rw append-nil at (button-IsFrameless u.button []) in
      simp (append_assoc, front-IsFrameless u, top_list-IsFrameless u.list, whole)
        (omega (arith, last))
