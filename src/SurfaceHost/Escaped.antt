-- ===== src/SurfaceHost/Escaped.antt =====
-- www/surface-host.js, `esc` and `jsEscape`: what an agent's text cannot do.
use agent_mobile.Common.{ℕ, ◌≡◌, ◌≢◌, refl, [], ◌∷◌, ◌++◌, ◌==◌, ◌&&◌, arith, if-cases}
use agent_mobile.Handshake.Base.{Text}
use agent_mobile.SurfaceHost.Markup.{esc_char, esc, js_escape}

-- No character of these five of HTML: no tag or attribute ends or begins in it.
abbrev pub IsInert : Text → Type 0
IsInert [] = Unit {0}
IsInert (c ∷ s) = ((c ≢ b'<') × (c ≢ b'>') × (c ≢ b'"') × (c ≢ 39)) × IsInert s

IsInert-append : (s t : Text) → IsInert s → IsInert t → IsInert (s ++ t)
IsInert-append [] t v w = w
IsInert-append (c ∷ s) t v w = (v.0, IsInert-append s t v.1 w)

esc_char-IsInert : (c : ℕ) → IsInert (esc_char c)
unfolding esc_char
esc_char-IsInert c =
    if-cases IsInert (c == b'&') _ _ (λ _. ground arith)
      (λ _.
        if-cases IsInert (c == b'<') _ _ (λ _. ground arith)
          (λ lt.
            if-cases IsInert (c == b'>') _ _ (λ _. ground arith)
              (λ gt.
                if-cases IsInert (c == b'"') _ _ (λ _. ground arith)
                  (λ quote.
                    if-cases IsInert (c == 39) _ _ (λ _. ground arith)
                      (λ apostrophe. (
                        (
                          λ e. ground (arith, e, lt),
                          λ e. ground (arith, e, gt),
                          λ e. ground (arith, e, quote),
                          λ e. ground (arith, e, apostrophe),
                        ),
                        tt,
                      ))))))

-- Whatever the text, `esc` of it has no angle bracket and no quote.
pub esc-IsInert : (s : Text) → IsInert (esc s)
unfolding esc
esc-IsInert [] = tt
esc-IsInert (c ∷ s) = IsInert-append (esc_char c) (esc s) (esc_char-IsInert c) (esc-IsInert s)

-- The end of a tag, `</`, stands nowhere.
abbrev pub IsUnclosed : Text → Type 0
IsUnclosed [] = Unit {0}
IsUnclosed (c ∷ []) = Unit {0}
IsUnclosed (c ∷ d ∷ s) = ¬ ((c ≡ b'<') × (d ≡ b'/')) × IsUnclosed (d ∷ s)

js_escape-head : (d : ℕ) (s : Text) → (r : Text) × (js_escape (d ∷ s) ≡ d ∷ r)
unfolding js_escape
js_escape-head d [] = ([], refl)
js_escape-head d (e ∷ s) =
    if-cases (λ (t : Text). (r : Text) × (t ≡ d ∷ r)) ((d == b'<') && (e == b'/')) _ _
      (λ h. (92 ∷ js_escape (e ∷ s), ground (arith, h))) (λ _. (js_escape (e ∷ s), refl))

-- Whatever the text, `jsEscape` of it has no `</`: it cannot end the script or the style that it is put in.
pub js_escape-IsUnclosed : (s : Text) → IsUnclosed (js_escape s)
unfolding js_escape
js_escape-IsUnclosed [] = tt
js_escape-IsUnclosed (c ∷ []) = tt
js_escape-IsUnclosed (c ∷ d ∷ s) =
    let ih = js_escape-IsUnclosed (d ∷ s) in
    let (r, e) = js_escape-head d s in
    let ih' : IsUnclosed (d ∷ r) = rw e at ih in
    if-cases IsUnclosed ((c == b'<') && (d == b'/')) _ _
      (λ _. rw e (λ h. ground (arith, h.1), (λ h. ground (arith, h.0), ih')))
      (λ n. rw e (λ h. ground (arith, h.0, h.1, n), ih'))
