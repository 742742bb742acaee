-- ===== src/Renderer/Dispatch.antt =====
-- www/renderer.js: the listener of `__agent.onMessage`.
use agent_mobile.Common.{ℕ, Option, none, some, List, [], ◌++◌, codes}
use agent_mobile.Renderer.{Js, Ui, thrown, returned}
use agent_mobile.Renderer.Sandbox.{Realm, Screen, draw, on_render, destroy_charts}
use agent_mobile.Renderer.Status.{StatusMessage, Strip, StripEffect, apply_status}

-- A message of the agent, by its `type`; `echo` is one of another type with that field, and `other`
-- one without, or a text that is no JSON.
pub data Incoming (V L : Type 0) : Type 0 where
  render : Option (Ui V) → Incoming V L
  text : Incoming V L
  status : StatusMessage L → Incoming V L
  echo : V → Incoming V L
  other : Incoming V L

abbrev pub Display : Type 0 → Type 0
Display V = Screen V × Strip

module _ {V L : Type 0} (js : Js V) (realm : Realm) (percent : L → ℕ) where
  -- `{ text: 'agent › ' + m.echo }`
  unfoldable pub echo_ui : V → Ui V
  echo_ui e = record {
    title = js.undefined;
    image = none;
    text = js.of_text (codes "agent › " ++ js.string e);
    list = none;
    components = none;
    button = none;
  }

  -- The draw of an echo is not guarded: were it to throw, only the charts would be gone.
  unfoldable pub draw_echo : List ℕ → V → Screen V → Screen V
  draw_echo made e s = elim (draw js realm made (some (echo_ui e)) s) [
    | thrown ↦ destroy_charts s
    | returned s' ↦ s'
  ]

  -- One message; `made` are the frames of the page that it may draw.
  unfoldable pub on_message : List ℕ → Incoming V L → Display V → List (StripEffect L) × Display V
  on_message made (render u) (s, strip) = ([], (on_render js realm made u s, strip))
  on_message made text d = ([], d)
  on_message made (status st) (s, strip) =
      let (es, strip') = apply_status percent st strip in (es, (s, strip'))
  on_message made (echo e) (s, strip) = ([], (draw_echo made e s, strip))
  on_message made other d = ([], d)
