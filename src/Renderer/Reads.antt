-- ===== src/Renderer/Reads.antt =====
-- www/renderer.js, `draw`: the page that it writes, read back.
use agent_mobile.Common.{
  ℕ, ◌≡◌, refl, Bool, true, false, Option, none, some, List, [], ◌∷◌, ◌++◌, map, if◌then◌else◌,
  codes, arith,
}
use mathlib.Core.Path.{sym, ap, ◌∙◌}
use mathlib.Core.List.{append_assoc, append-nil}
use agent_mobile.Handshake.Base.{Text}
use agent_mobile.SurfaceHost.Markup.{esc, esc_char}
use agent_mobile.Renderer.{
  Js, Item, heading, paragraph, button_html, unknown_type, figure, item_html, caption,
  subtitle_html, items_html, list_html, returned,
}
use agent_mobile.Renderer.Reader.{
  Place, seen, body, value, within, read, step, step_within, ends, in_name, referent, same,
}
use agent_mobile.Renderer.Shown.{
  Symbols, shown_heading, shown_paragraph, shown_button, shown_unknown, shown_figure, shown_item,
  shown_caption, shown_subtitle, shown_items, shown_list, are_items,
}

read-char :
    (p : Place) (c : ℕ) (t : Text)
    → read (within p) (esc_char c ++ t) ≡ seen p c ∷ read (within p) t
unfolding read step step_within ends esc_char in_name referent same
read-char body c t = ground arith
read-char value c t = ground arith

pub read-esc :
    (p : Place) (s t : Text) → read (within p) (esc s ++ t) ≡ map (seen p) s ++ read (within p) t
unfolding esc
read-esc p [] t = refl
read-esc p (c ∷ s) t = rw append_assoc (rw (read-char p c, read-esc p s t))

-- What a text of markup is read as, whatever follows it.
abbrev pub Prints : Text → Symbols → Type 0
Prints s out = (t : Text) → read (within body) (s ++ t) ≡ out ++ read (within body) t

pub Prints-append :
    (s s' : Text) (a b : Symbols) → Prints s a → Prints s' b → Prints (s ++ s') (a ++ b)
Prints-append s s' a b f g t = simp (append_assoc, f (s' ++ t), g t)

pub Prints-when :
    (c : Bool) (s : Text) (a : Symbols)
    → Prints s a
    → Prints (if c then s else []) (if c then a else [])
Prints-when true s a f t = f t
Prints-when false s a f t = refl

pub Prints-whole : (s : Text) (a : Symbols) → Prints s a → read (within body) s ≡ a
unfolding read
Prints-whole s a f = sym (ap (read (within body)) (append-nil s)) ∙ (f [] ∙ append-nil a)

ruleset reads = (append_assoc, read-esc)

pub heading_lem : (s : Text) → Prints (heading s) (shown_heading s)
unfolding heading shown_heading read step step_within ends
heading_lem s t = simp reads

pub paragraph_lem : (s : Text) → Prints (paragraph s) (shown_paragraph s)
unfolding paragraph shown_paragraph read step step_within ends
paragraph_lem s t = simp reads

pub button_lem : (s : Text) → Prints (button_html s) (shown_button s)
unfolding button_html shown_button read step step_within ends
button_lem s t = simp reads

pub unknown_lem : (s : Text) → Prints (unknown_type s) (shown_unknown s)
unfolding unknown_type shown_unknown read step step_within ends
unknown_lem s t = simp reads

module _ {V : Type 0} (js : Js V) where
  caption_lem : (alt : V) → Prints (caption js alt) (shown_caption js alt)
  unfolding caption shown_caption read step step_within ends
  caption_lem alt = Prints-when (js.truthy alt) _ _ (λ t. simp reads)

  subtitle_lem : (v : V) → Prints (subtitle_html js v) (shown_subtitle js v)
  unfolding subtitle_html shown_subtitle read step step_within ends
  subtitle_lem v = Prints-when (js.truthy v) _ _ (λ t. simp reads)

  pub figure_lem : (src alt : V) → Prints (figure js src alt) (shown_figure js src alt)
  unfolding figure shown_figure read step step_within ends
  figure_lem src alt t = simp (reads, caption_lem alt)

  item_lem : (i : Item V) → Prints (item_html js i) (shown_item js i)
  unfolding item_html shown_item read step step_within ends
  item_lem i t = simp (reads, subtitle_lem i.subtitle)

  -- Items without a null are written, and are shown.
  items_lem :
      (is : List (Option (Item V)))
      → are_items is ≡ true
      → (s : Text) × (items_html js is ≡ returned s) × Prints s (shown_items js is)
  unfolding items_html shown_items are_items
  items_lem [] h = ([], refl, λ t. refl)
  items_lem (none ∷ is) h = cc
  items_lem (some i ∷ is) h =
      let (s, e, f) = items_lem is h in
      (item_html js i ++ s, rw e, Prints-append _ _ _ _ (item_lem i) f)

  pub list_lem :
      (is : List (Option (Item V)))
      → are_items is ≡ true
      → (s : Text) × (list_html js is ≡ returned s) × Prints s (shown_list js is)
  unfolding list_html shown_list read step step_within ends
  list_lem is h =
      let (s, e, f) = items_lem is h in
      (codes "<ul>" ++ (s ++ codes "</ul>"), rw e, λ t. simp (append_assoc, f))
