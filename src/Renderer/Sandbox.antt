-- ===== src/Renderer/Sandbox.antt =====
-- www/renderer.js: the sandboxes of a page, their messages, and the dispatch of what the agent sends.
--
-- A frame is a number: the one that the browser gives the element, and its window. `made` are the
-- frames that the browser makes of a page, in their order.
use agent_mobile.Common.{
  ℕ, ◌+◌, Bool, false, Option, none, some, List, [], ◌∷◌, ◌++◌, ◌==◌, ◌||◌, if◌then◌else◌, codes,
  get_elem?, lookup, insert, nat_eq,
}
use agent_mobile.Handshake.Base.{Text}
use agent_mobile.SurfaceHost.Markup.{esc, js_escape, after, has_external, script_close, script_open}
use agent_mobile.Renderer.{
  Js, Ui, Button, Viz, Drawn, Result, thrown, returned, bind, draw_page, is_space, trim_start,
}

-- What the page's own scripts lend a frame: `__sandboxPreamble`, `__frameThemeCss()`,
-- `__frameRunner`, and the text of an index.
pub record Realm : Type 0 where
  pub preamble : Text
  pub theme_css : Text
  pub runner : Text
  pub digits : ℕ → Text

-- `/<script[\s>]/i.test(s)`
unfoldable pub has_script : Text → Bool
has_script [] = false
has_script (c ∷ s) =
    let rest = has_script s in
    elim (after (codes "<script") (c ∷ s)) [
      | none ↦ rest
      | some [] ↦ rest
      | some (d ∷ t) ↦ (is_space d || (d == b'>')) || rest
    ]

-- `isHtml(s)`
unfoldable pub is_html : Text → Bool
is_html s = (elim (trim_start s) [ [] ↦ false | c ∷ t ↦ c == b'<' ]) || has_script s

-- `body`: code of HTML as it is, other code as a script
unfoldable pub body_of : Text → Text
body_of code = if is_html code then code else script_open ++ (js_escape code ++ script_close)

-- The listener that every frame ends with, for its index.
unfoldable pub listener : Text → Text
listener i =
    codes
      "<script>window.addEventListener(\"message\",function(e){var m=e.data;if(!m||m.type!==\"vmdata\")return;try{if(window.onData&&window.__vizInit)window.onData(m.payload);else{(window.render||function(){throw new Error(\"viz code defines no window.render\")})(m.payload);window.__vizInit=true;}parent.postMessage({type:\"vmok\",i:"
    ++ (i
        ++ (codes
              "},\"*\");if(window.__vmReport)setTimeout(window.__vmReport,0);}catch(err){try{parent.postMessage({type:\"vimer\",i:"
            ++ (i ++ codes ",s:String(err&&err.message||err)},\"*\");}catch(_){}}});</script>")))

unfoldable pub label_box : Option Text → Text
label_box none = []
label_box (some label) =
    codes
      "<div style=\"position:absolute;top:6px;right:10px;color:var(--muted,#8b949e);font:12px var(--mono,monospace)\">"
    ++ (esc label ++ codes "</div>")

-- The attribute `srcdoc` of frame `i`.
unfoldable pub srcdoc : {V : Type 0} → Realm → ℕ → Viz V → Text
srcdoc realm i v =
    codes "<!doctype html><meta charset=\"utf-8\">"
    ++ (realm.preamble
        ++ (codes "<style>"
            ++ (realm.theme_css
                ++ (codes "</style><div id=\"root\" style=\"width:100%;height:100%\"></div>"
                    ++ (realm.runner
                        ++ (body_of v.code ++ (listener (realm.digits i) ++ label_box v.label)))))))

-- A frame that is wired: its number, its label, its document, and the data it is sent on load.
pub record Entry (V : Type 0) : Type 0 where
  pub frame : ℕ
  pub label : Option Text
  pub document : Text
  pub payload : V

-- `__vizStatus[i]`
pub data Status : Type 0 where
  ok : Status
  error : Text → Status

-- `#ui` and what belongs to it. `html` is the markup last written, `failed` the notes of failed
-- draws after it, `frames` is `__vizFrames`, `blocked` the frames that a warning replaced, `errors`
-- the notes in the boxes of frames, `action` what the button sends, and `charts` is `liveCharts`, by
-- the numbers of the instances: one that leaves the list is destroyed.
pub record Screen (V : Type 0) : Type 0 where
  pub html : Text
  pub failed : ℕ
  pub frames : List (ℕ × Entry V)
  pub blocked : List ℕ
  pub statuses : List (ℕ × Status)
  pub errors : List (ℕ × Text)
  pub action : Option (V × V)
  pub charts : List ℕ

-- `render_result` of a frame, and the button's `action`.
pub data Sent (V : Type 0) : Type 0 where
  viz_failed : ℕ → Text → Sent V
  action_sent : V → V → Sent V

abbrev pub new_screen : {V : Type 0} → Screen V
new_screen = record {
  html = [];
  failed = 0;
  frames = [];
  blocked = [];
  statuses = [];
  errors = [];
  action = none;
  charts = [];
}

module _ {V : Type 0} (realm : Realm) where
  -- One turn of `vizzes.forEach`, of index `i`: with no frame element nothing is done, an external
  -- script is replaced by a warning, and otherwise the frame is wired.
  unfoldable pub mount_viz : List ℕ → ℕ → Viz V → Screen V → Screen V
  mount_viz made i v s = elim (get_elem? made i) [
    | none ↦ s
    | some f ↦
        if has_external v.code then record s { blocked = s.blocked ++ f ∷ [] } else record s {
          frames =
              insert i
                (record {
                  frame = f;
                  label = v.label;
                  document = srcdoc realm i v;
                  payload = v.data';
                })
                s.frames;
        }
  ]

  unfoldable pub mount_vizzes : List ℕ → ℕ → List (Viz V) → Screen V → Screen V
  mount_vizzes made i [] s = s
  mount_vizzes made i (v ∷ vs) s = mount_vizzes made (i + 1) vs (mount_viz made i v s)

  -- The page that `draw` leaves.
  unfoldable pub show_page : List ℕ → Drawn V → Option (V × V) → Screen V
  show_page made d action =
      mount_vizzes made 0 d.vizzes (record new_screen { html = d.html; action = action })

module _ {V : Type 0} where
  -- `liveCharts.splice(0)`, each destroyed
  unfoldable pub destroy_charts : Screen V → Screen V
  destroy_charts s = record s { charts = [] }

  -- A chart of the page is mounted, in a frame of its own after the draw.
  unfoldable pub on_chart : ℕ → Screen V → Screen V
  on_chart c s = record s { charts = s.charts ++ c ∷ [] }

module _ {V : Type 0} (js : Js V) where
  -- `u.button.action`, where it is there, with its `args || {}`
  unfoldable pub action_of : Option (Button V) → Option (V × V)
  action_of none = none
  action_of (some b) = if js.truthy b.action then some (b.rpc, js.or_object b.args) else none

module _ {V : Type 0} (js : Js V) (realm : Realm) where
  -- `draw(u)`, for a block that is none where it is falsy; `made` are the frames of the new page. A
  -- page that is drawn has no live chart yet.
  unfoldable pub draw : List ℕ → Option (Ui V) → Screen V → Result (Screen V)
  draw made none s = returned (destroy_charts s)
  draw made (some u) s =
      bind (draw_page js u) (λ d. returned (show_page realm made d (action_of js u.button)))

  -- A message `render`: a draw that throws has destroyed the charts before, and leaves the rest of
  -- the page; a note is put after it.
  unfoldable pub on_render : List ℕ → Option (Ui V) → Screen V → Screen V
  on_render made u s = elim (draw made u s) [
    | thrown ↦ record (destroy_charts s) { failed = s.failed + 1 }
    | returned s' ↦ s'
  ]

-- `'[viz' + (label ? ' ' + label : '') + '] ' + error`
unfoldable pub note : Option Text → Text → Text
note none e = codes "[viz] " ++ e
note (some label) e = codes "[viz " ++ (label ++ (codes "] " ++ e))

module _ {V : Type 0} where
  -- The listener of `vmok` (no error) and `vimer`, from the window `source`, about index `i`.
  unfoldable pub on_feedback : ℕ → ℕ → Option Text → Screen V → List (Sent V) × Screen V
  on_feedback source i failure s = elim (lookup i s.frames) [
    | none ↦ ([], s)
    | some entry ↦
        if source == entry.frame
        then (elim failure [
          | none ↦ ([], record s { statuses = insert i ok s.statuses })
          | some e ↦ (
            viz_failed i e ∷ [],
            record s {
              statuses = insert i (error e) s.statuses;
              errors = s.errors ++ (entry.frame, note entry.label e) ∷ [];
            },
          )
        ])
        else ([], s)
  ]

  -- A press of the button.
  unfoldable pub on_button : Screen V → List (Sent V)
  on_button s = elim s.action [ none ↦ [] | some (rpc, args) ↦ action_sent rpc args ∷ [] ]
