-- ===== src/Renderer/Wired.antt =====
-- www/renderer.js: which frame shows which component, and whose word is taken.
use agent_mobile.Common.{
  ℕ, ◌+◌, ◌<◌, ◌≡◌, ◌≢◌, refl, sym, subst, Option, none, some, List, [], ◌∷◌, if◌then◌else◌, arith,
  get_elem?, lookup, lookup-insert, nat_eq, zero, suc, Option-match, if-cases, lookup-insert_self,
  ◌∙◌,
}
use agent_mobile.SurfaceHost.Markup.{has_external}
use agent_mobile.Renderer.{Viz}
use agent_mobile.Renderer.Sandbox.{Realm, Entry, Screen, mount_viz, mount_vizzes, srcdoc}

module _ {V : Type 0} (realm : Realm) where
  -- The entry of a sandbox in the frame that was made for it.
  abbrev pub wired : ℕ → ℕ → Viz V → Option (Entry V)
  wired i f v =
      if has_external v.code
      then none
      else some
          (record { frame = f; label = v.label; document = srcdoc realm i v; payload = v.data' })

  mount_viz-other :
      (made : List ℕ) (i j : ℕ) (v : Viz V) (s : Screen V)
      → i ≢ j
      → lookup j (mount_viz realm made i v s).frames ≡ lookup j s.frames
  unfolding mount_viz
  mount_viz-other made i j v s h =
      Option-match (λ (t : Screen V). lookup j t.frames ≡ lookup j s.frames) (get_elem? made i) _ _
        (λ _. refl)
        (λ f _.
          if-cases (λ (t : Screen V). lookup j t.frames ≡ lookup j s.frames) (has_external v.code) _
            _ (λ _. refl) (λ _. rw lookup-insert (ground (arith, h))))

  mount_viz-wired :
      (made : List ℕ) (i f : ℕ) (v : Viz V) (s : Screen V)
      → get_elem? made i ≡ some f
      → lookup i s.frames ≡ none
      → lookup i (mount_viz realm made i v s).frames ≡ wired i f v
  unfolding mount_viz
  mount_viz-wired made i f v s e h =
      rw (e, mount_viz)
        (if-cases (λ (t : Screen V). lookup i t.frames ≡ wired i f v) (has_external v.code) _ _
          (λ b. rw b h) (λ b. rw b (rw lookup-insert_self)))

  -- The later turns leave an index alone.
  mount_vizzes-earlier :
      (made : List ℕ) (i j : ℕ) (vs : List (Viz V)) (s : Screen V)
      → j < i
      → lookup j (mount_vizzes realm made i vs s).frames ≡ lookup j s.frames
  unfolding mount_vizzes
  mount_vizzes-earlier made i j [] s h = refl
  mount_vizzes-earlier made i j (v ∷ vs) s h =
      mount_vizzes-earlier made (i + 1) j vs _ (omega arith)
      ∙ mount_viz-other made i j v s (λ e. omega (arith, e))

  mount_vizzes-here :
      (made : List ℕ) (i f : ℕ) (v : Viz V) (vs : List (Viz V)) (s : Screen V)
      → get_elem? made i ≡ some f
      → lookup i s.frames ≡ none
      → lookup i (mount_vizzes realm made i (v ∷ vs) s).frames ≡ wired i f v
  unfolding mount_vizzes
  mount_vizzes-here made i f v vs s e h =
      mount_vizzes-earlier made (i + 1) i vs _ (omega arith) ∙ mount_viz-wired made i f v s e h

  pub mount_vizzes-wired :
      (made : List ℕ) (i j k : ℕ) (vs : List (Viz V)) (s : Screen V) {v : Viz V} {f : ℕ}
      → j ≡ i + k
      → get_elem? vs k ≡ some v
      → get_elem? made j ≡ some f
      → lookup j s.frames ≡ none
      → lookup j (mount_vizzes realm made i vs s).frames ≡ wired j f v
  unfolding mount_vizzes
  mount_vizzes-wired made i j k [] s {v = w} {f = f} p e g h = cc
  mount_vizzes-wired made i j zero (v ∷ vs) s {v = w} {f = f} p e g h =
      let q : j ≡ i = omega (arith, p) in
      let r : v ≡ w = cc e in
      rw (sym r) (
        subst (λ j'. lookup j (mount_vizzes realm made j' (v ∷ vs) s).frames ≡ wired j f v) q
          (mount_vizzes-here made j f v vs s g h))
  mount_vizzes-wired made i j (suc k) (v ∷ vs) s {v = w} {f = f} p e g h =
      mount_vizzes-wired made (i + 1) j k vs _ (omega (arith, p)) e g
        (mount_viz-other made i j v s (λ q. omega (arith, p, q)) ∙ h)

  -- The entries stand for frames that were made, each at its index.
  abbrev pub IsWired : List ℕ → Screen V → Type 0
  IsWired made s =
      (i : ℕ) (e : Entry V) → lookup i s.frames ≡ some e → get_elem? made i ≡ some e.frame

  mount_viz-IsWired :
      (made : List ℕ) (i : ℕ) (v : Viz V) (s : Screen V)
      → IsWired made s
      → IsWired made (mount_viz realm made i v s)
  unfolding mount_viz
  mount_viz-IsWired made i v s w =
      Option-match (IsWired made) (get_elem? made i) _ _ (λ _. w)
        (λ f g.
          if-cases (IsWired made) (has_external v.code) _ _ (λ _. w)
            (λ _ j e h. ground (arith, g, w j e, rw lookup-insert at h)))

  pub mount_vizzes-IsWired :
      (made : List ℕ) (i : ℕ) (vs : List (Viz V)) (s : Screen V)
      → IsWired made s
      → IsWired made (mount_vizzes realm made i vs s)
  unfolding mount_vizzes
  mount_vizzes-IsWired made i [] s w = w
  mount_vizzes-IsWired made i (v ∷ vs) s w =
      mount_vizzes-IsWired made (i + 1) vs _ (mount_viz-IsWired made i v s w)
