-- ===== src/Renderer/Malformed.antt =====
-- www/renderer.js, `draw`: the blocks that it throws on.
use agent_mobile.Common.{
  ◌≡◌, refl, false, Option, none, some, List, [], ◌∷◌, arith, Bool-cases, inl, inr,
}
use agent_mobile.Renderer.{
  Js, Item, Component, list, null, items, not_a_list, Ui, Drawn, thrown, returned, bind, items_html,
  list_html, add_component, add_components, top_list, draw_page, or_no_components, Result,
}
use agent_mobile.Renderer.Shown.{
  are_items, is_component, are_components, is_top_list, is_well_formed,
}

module _ {V : Type 0} (js : Js V) where
  items_html-thrown :
      (is : List (Option (Item V))) → are_items is ≡ false → items_html js is ≡ thrown
  unfolding items_html are_items
  items_html-thrown [] h = cc
  items_html-thrown (none ∷ is) h = refl
  items_html-thrown (some i ∷ is) h = rw (items_html-thrown is h)

  list_html-thrown : (is : List (Option (Item V))) → are_items is ≡ false → list_html js is ≡ thrown
  unfolding list_html
  list_html-thrown is h = rw (items_html-thrown is h)

  add_component-thrown :
      (d : Drawn V) (c : Component V) → is_component c ≡ false → add_component js d c ≡ thrown
  unfolding add_component is_component
  add_component-thrown d (list (items is)) h = rw (list_html-thrown is h)
  add_component-thrown d (list not_a_list) h = refl
  add_component-thrown d null h = refl
  add_component-thrown d _ h = cc

  bind-thrown :
      {A B : Type 0} (r : Result A) (f : A → Result B)
      → ((a : A) → f a ≡ thrown)
      → bind r f ≡ thrown
  bind-thrown thrown f h = refl
  bind-thrown (returned a) f h = h a

  add_components-thrown :
      (d : Drawn V) (cs : List (Component V))
      → are_components cs ≡ false
      → add_components js d cs ≡ thrown
  unfolding add_components are_components
  add_components-thrown d [] h = cc
  add_components-thrown d (c ∷ cs) h = elim (Bool-cases (is_component c)) [
    | inl good ↦
        bind-thrown (add_component js d c) _ (λ d'. add_components-thrown d' cs (rw good at h))
    | inr bad ↦ rw (add_component-thrown d c bad)
  ]

  top_list-thrown :
      (l : Option (List (Option (Item V)))) → is_top_list l ≡ false → top_list js l ≡ thrown
  unfolding is_top_list top_list
  top_list-thrown none h = cc
  top_list-thrown (some is) h = list_html-thrown is h

  -- A block with a null component or item, or with a list that is none, is not drawn.
  pub malformed-thrown : (u : Ui V) → is_well_formed u ≡ false → draw_page js u ≡ thrown
  unfolding draw_page is_well_formed
  malformed-thrown u h = elim (Bool-cases (is_top_list u.list)) [
    | inl good ↦ bind-thrown (top_list js u.list) _ (λ t.
        rw (add_components-thrown _ (or_no_components u.components) (ground (arith, good, h))))
    | inr bad ↦ rw (top_list-thrown u.list bad)
  ]
