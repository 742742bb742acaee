-- ===== src/Renderer/Screens.antt =====
-- www/renderer.js: what a render block does to the screen, and what the frames say afterwards.
use agent_mobile.Common.{
  ℕ, ◌+◌, ◌≡◌, refl, true, false, Option, some, List, [], ◌∷◌, ◌==◌, arith, length, get_elem?,
  lookup, nat_eq, get_elem?-lt, lt_of_get_elem?, Option-match, if-cases, subst, ◌∙◌,
}
use agent_mobile.Renderer.{
  Js, Ui, Viz, Drawn, Result, thrown, returned, draw_page, or_no_components, bind,
}
use agent_mobile.Renderer.Shown.{is_well_formed, all_vizzes, shown_page}
use agent_mobile.Renderer.Pages.{draw_page_lem}
use agent_mobile.Renderer.Frames.{frames, page-frames}
use agent_mobile.Renderer.Sandbox.{
  Realm, Screen, Entry, show_page, draw, on_feedback, action_of, on_render, destroy_charts,
}
use agent_mobile.Renderer.Wired.{wired, IsWired, mount_vizzes-wired, mount_vizzes-IsWired}
use agent_mobile.Handshake.Base.{Text}
use agent_mobile.Renderer.Malformed.{malformed-thrown}

module _ {V : Type 0} where
  -- A run of what frames say.
  unfoldable pub hear : List (ℕ × (ℕ × Option Text)) → Screen V → Screen V
  hear [] s = s
  hear ((source, (i, failure)) ∷ rest) s = hear rest (on_feedback source i failure s).1

  on_feedback-frames :
      (source i : ℕ) (failure : Option Text) (s : Screen V)
      → (on_feedback source i failure s).1.frames ≡ s.frames
  unfolding on_feedback
  on_feedback-frames source i failure s = ground arith

  hear-frames : (evs : List (ℕ × (ℕ × Option Text))) (s : Screen V) → (hear evs s).frames ≡ s.frames
  unfolding hear
  hear-frames [] s = refl
  hear-frames ((source, (i, failure)) ∷ rest) s =
      hear-frames rest _ ∙ on_feedback-frames source i failure s

module _ {V : Type 0} (js : Js V) (realm : Realm) where
  -- If the browser makes as many frames as stand in the page, then a block with no null component or
  -- item, and with every list an array, is drawn, and each of its sandboxes has the frame of its
  -- place, with its own document and data there, except one with an external script, which has none.
  pub sandboxes_wired :
      (u : Ui V) (made : List ℕ) (s : Screen V) (k : ℕ) (v : Viz V)
      → is_well_formed u ≡ true
      → length made ≡ frames (shown_page js u)
      → get_elem? (all_vizzes js (or_no_components u.components)) k ≡ some v
      → (t : Screen V) × (f : ℕ) × (draw js realm made (some u) s ≡ returned t)
        × (get_elem? made k ≡ some f)
        × (lookup k t.frames ≡ wired realm k f v)
  unfolding draw show_page lookup
  sandboxes_wired u made s k v h n g =
      let (d, e, r, vs) = draw_page_lem js u h in
      let (f, m) =
        get_elem?-lt made k (omega (arith, n, page-frames js u, lt_of_get_elem? _ k g)) in
      let g' : get_elem? d.vizzes k ≡ some v = rw vs g in
      (
        show_page realm made d (action_of js u.button),
        f,
        rw e,
        m,
        mount_vizzes-wired realm made 0 k k d.vizzes _ (omega arith) g' m refl,
      )

  -- Whatever a drawn page was made of, its entries are the frames of their places.
  draw-IsWired :
      (made : List ℕ) (u : Ui V) (s t : Screen V)
      → draw js realm made (some u) s ≡ returned t
      → IsWired realm made t
  unfolding draw show_page lookup
  draw-IsWired made u s t e = drawn (draw_page js u) e
    where
      drawn :
          (r : Result (Drawn V))
          → bind r (λ d. returned (show_page realm made d (action_of js u.button))) ≡ returned t
          → IsWired realm made t
      drawn thrown q = cc
      drawn (returned d) q =
          let q' : show_page realm made d (action_of js u.button) ≡ t = cc q in
          subst (IsWired realm made) q' (mount_vizzes-IsWired realm made 0 d.vizzes _ (λ i g h. cc))

  -- After a block is drawn, and whatever the frames have said since, a frame that speaks of an index
  -- that is not its own is not heard: nothing is sent to the agent, and the screen stays as it is.
  pub forged_is_ignored :
      (u : Ui V) (made : List ℕ) (s t : Screen V) (evs : List (ℕ × (ℕ × Option Text))) (i j f : ℕ)
      (failure : Option Text)
      → draw js realm made (some u) s ≡ returned t
      → get_elem? made j ≡ some f
      → ¬ (get_elem? made i ≡ some f)
      → on_feedback f i failure (hear evs t) ≡ ([], hear evs t)
  unfolding on_feedback
  forged_is_ignored u made s t evs i j f failure e m n =
      let h = hear evs t in
      let w : (g : Entry V) → lookup i h.frames ≡ some g → get_elem? made i ≡ some g.frame =
        λ g q. draw-IsWired made u s t e i g (rw (hear-frames evs t) at q) in
      Option-match (λ r. r ≡ ([], h)) (lookup i h.frames) _ _ (λ _. refl)
        (λ g q.
          if-cases (λ r. r ≡ ([], h)) (f == g.frame) _ _
            (λ b. absurd (n (ground (arith, b, w g q)))) (λ _. refl))

  -- A block with a null component or item, or with a list that is no array, leaves the markup of the
  -- page and its sandboxes as they were, and adds one note after it; but the live charts of the page
  -- are destroyed.
  pub malformed_is_noted :
      (made : List ℕ) (u : Ui V) (s : Screen V)
      → is_well_formed u ≡ false
      → on_render js realm made (some u) s ≡ record s { failed = s.failed + 1; charts = [] }
  unfolding on_render draw destroy_charts
  malformed_is_noted made u s h = rw (on_render, draw, malformed-thrown js u h)
