-- ===== src/SurfaceHost.antt =====
-- www/surface-host.js: the tiles of the display surface, over the surface core.
--
-- The DOM is outside: a frame has a number, and what is posted to it or sent to the agent is an
-- effect. `Page` has what the host calls: the decoding of base64, the label of props, `x || {}`, the
-- code units of a text, the drawing of the built-in primitives, and the text of what a drawing throws.
pub mod Markup
pub mod Handlers
pub mod Views
pub mod Steps
pub mod Runs
pub mod Escaped
pub mod Queue
pub mod Tiles
pub mod Mirrored
pub mod Mirror
pub mod Primitives
pub mod Uncaught
mod Tests
use Prim.Native.String.{String}
use text.Mathlib.Text.{◌==◌ as str_eq}
use agent_mobile.Common.{
  ℕ, ◌+◌, Bool, true, false, Option, none, some, List, [], ◌∷◌, ◌++◌, map, ◌==◌, ◌&&◌, not,
  if◌then◌else◌, lookup, insert, erase, string_eq,
}
use agent_mobile.Handshake.Base.{Text}
use agent_mobile.Surface.{
  WidgetType, Props, Surface, Error, Event, asset_ready, asset_removed, type_ready, render, update,
  feed, destroy, render_result, Op, Outcome,
}
use agent_mobile.Surface.Names.{is_inherited}
use agent_mobile.Surface.Assets.{get_asset_source}
use agent_mobile.Surface.Apply.{apply, report_render}
use agent_mobile.SurfaceHost.Markup.{has_external, is_css, script_tag, style_tag}

-- What is posted to a frame.
pub data Message (V : Type 0) : Type 0 where
  vm_render : Props V → Message V
  vm_data : V → Message V

-- What a tile shows: nothing, a frame with its body and label, the note on a blocked script, or
-- the markup of a built-in primitive.
pub data Shown : Type 0 where
  blank : Shown
  framed : Text → Text → Shown
  blocked : Shown
  markup : Text → Shown

-- A drawing that throws, the markup of a node, or a sandbox.
pub data Drawing (V : Type 0) : Type 0 where
  thrown : Drawing V
  html : Text → Drawing V
  -- body, data and label
  sandbox : Text → V → Text → Drawing V

pub record Page (V : Type 0) : Type 0 where
  pub decode : List ℕ → List ℕ
  pub units : String → Text
  pub label_of : Props V → Text
  pub or_empty : V → V
  -- of a type, the label of the tile, the props and the data
  pub draw : String → Text → Option (Props V) → Option V → Drawing V
  pub error : String

pub record View (V : Type 0) : Type 0 where
  pub type : String
  pub label : Text
  pub shown : Shown
  pub iframe : Option ℕ
  pub ready : Bool
  pub queue : List (Message V)
  pub pending_feedback : Bool
  pub rendered : String

-- `occupied` is the class of the body, `next_frame` the number of the next frame that is made.
pub record Host (V : Type 0) : Type 0 where
  pub surface : Surface V
  pub views : List (String × View V)
  pub next_frame : ℕ
  pub occupied : Bool

-- What an outcome says went wrong: the core's errors, and those of the host.
pub data Reason : Type 0 where
  core : Error → Reason
  no_view_to_update : String → Reason
  no_view_to_publish : String → Reason

-- `uncaught` is an exception that no handler of an event catches.
pub data Effect (V : Type 0) : Type 0 where
  uncaught : Effect V
  posted : ℕ → Message V → Effect V
  sent_result : Option String → Bool → Option Reason → Effect V
  -- the names of the assets, the types and the widgets
  sent_state : List String → List String → List String → Effect V

abbrev pub Hosted : Type 0 → Type 0
Hosted V = List (Effect V) × Host V

unfoldable pub threw : {V : Type 0} → List (Effect V) → Bool
threw [] = false
threw (uncaught ∷ _) = true
threw (posted _ _ ∷ es) = threw es
threw (sent_result _ _ _ ∷ es) = threw es
threw (sent_state _ _ _ ∷ es) = threw es

-- What comes after a step is left out where the step throws.
unfoldable pub unless_threw : {V : Type 0} → Hosted V → (Host V → Hosted V) → Hosted V
unless_threw (es, h) next =
    if threw es then (es, h) else (let (es', h') = next h in (es ++ es', h'))

abbrev pub is_some : {A : Type 0} → Option A → Bool
is_some none = false
is_some (some _) = true

abbrev pub names : {A : Type 0} → List (String × A) → List String
names [] = []
names ((k, _) ∷ m) = k ∷ names m

abbrev pub new_view : {V : Type 0} → View V
new_view = record {
  type = "";
  label = [];
  shown = blank;
  iframe = none;
  ready = false;
  queue = [];
  pending_feedback = false;
  rendered = "";
}

abbrev pub new_host : {V : Type 0} → Surface V → Host V
new_host surface = record { surface = surface; views = []; next_frame = 0; occupied = false }

abbrev pub reason_of : Option Error → Option Reason
reason_of none = none
reason_of (some e) = some (core e)

module _ {V : Type 0} where
  -- `syncSurfaceOccupancy()`
  unfoldable pub sync : Host V → Host V
  sync h = record h { occupied = elim h.views [ [] ↦ false | _ ∷ _ ↦ true ] }

  abbrev pub put_view : String → View V → Host V → Host V
  put_view key v h = record h { views = insert key v h.views }

  -- `views[key]`, or `makeView(key)` where there is none; under a name that objects inherit there is
  -- one always, which is no tile
  unfoldable pub with_view : String → Host V → Host V
  with_view key h = elim (lookup key h.views) [
    | some _ ↦ h
    | none ↦ if is_inherited key then h else sync (put_view key new_view h)
  ]

  -- `teardownView(key)`
  unfoldable pub teardown_view : String → Host V → Host V
  teardown_view key h = elim (lookup key h.views) [
    | none ↦ h
    | some _ ↦ sync (record h { views = erase key h.views })
  ]

  -- `post(v, msg)`
  unfoldable pub post : View V → Message V → List (Effect V) × View V
  post v msg = elim v.iframe [
    | none ↦ ([], v)
    | some f ↦
        if v.ready then (posted f msg ∷ [], v) else ([], record v { queue = v.queue ++ (msg ∷ []) })
  ]

  unfoldable pub post_all : View V → List (Message V) → List (Effect V) × View V
  post_all v [] = ([], v)
  post_all v (m ∷ ms) =
      let (es, v') = post v m in let (es', v'') = post_all v' ms in (es ++ es', v'')

  -- The props and the data that are there, as messages
  abbrev pub messages : (V → V) → Option (Props V) → Option V → List (Message V)
  messages or_empty none none = []
  messages or_empty none (some d) = vm_data (or_empty d) ∷ []
  messages or_empty (some p) none = vm_render p ∷ []
  messages or_empty (some p) (some d) = vm_render p ∷ vm_data (or_empty d) ∷ []

  -- `mountSandbox`, with the frame `n`; `first` is what `autoPost` puts in the queue
  unfoldable pub mount_sandbox : ℕ → View V → Text → Text → List (Message V) → View V
  mount_sandbox n v body label first = record v {
    shown = framed body label;
    iframe = some n;
    ready = false;
    queue = first;
  }

  -- `fr.onload` of the frame `f` of the tile `key`
  unfoldable pub on_load : Host V → String → ℕ → Hosted V
  on_load h key f = elim (lookup key h.views) [
    | none ↦ ([], h)
    | some v ↦ elim v.iframe [
      | none ↦ ([], h)
      | some g ↦
          if f == g
          then (map (posted f) v.queue, put_view key (record v { ready = true; queue = [] }) h)
          else ([], h)
    ]
  ]

  -- `report(key, ok, err)`: what the core emits of it goes to the agent
  unfoldable pub sent_up : List (Event V) → List (Effect V)
  sent_up [] = []
  sent_up (render_result key ok e ∷ evs) = sent_result key ok (reason_of e) ∷ sent_up evs
  sent_up (asset_ready _ _ ∷ evs) = sent_up evs
  sent_up (asset_removed _ _ _ ∷ evs) = sent_up evs
  sent_up (type_ready _ ∷ evs) = sent_up evs
  sent_up (render _ _ _ _ ∷ evs) = sent_up evs
  sent_up (update _ _ ∷ evs) = sent_up evs
  sent_up (feed _ _ ∷ evs) = sent_up evs
  sent_up (destroy _ ∷ evs) = sent_up evs

  unfoldable pub report : Host V → String → Bool → Option String → Hosted V
  report h key ok err =
      let (s, evs) = report_render h.surface key ok err in (sent_up evs, record h { surface = s })

  -- `reportState()`
  unfoldable pub report_state : Host V → List (Effect V)
  report_state h =
      sent_state (names h.surface.assets) (names h.surface.types) (names h.surface.widgets) ∷ []

  -- `keyOfSource(source)`
  unfoldable pub key_of_source : List (String × View V) → ℕ → Option String
  key_of_source [] f = none
  key_of_source ((k, v) ∷ vs) f =
      let rest = key_of_source vs f in
      elim v.iframe [ none ↦ rest | some g ↦ if f == g then some k else rest ]

  -- A `vmroot` of a tile
  unfoldable pub on_rendered : Host V → String → View V → String → Hosted V
  on_rendered h key v t =
      if v.pending_feedback
      then report (put_view key (record v { rendered = t; pending_feedback = false }) h) key true
          none
      else ([], put_view key (record v { rendered = t }) h)

  -- The listener of `message`: what a frame says, a failure or not, with its text; an
  -- empty key counts as none
  unfoldable pub on_message : Host V → ℕ → Bool → String → Hosted V
  on_message h source failed t = elim (key_of_source h.views source) [
    | none ↦ ([], h)
    | some key ↦ if str_eq key "" then ([], h) else elim (lookup key h.views) [
      | none ↦ ([], h)
      | some v ↦ if failed then report h key false (some t) else on_rendered h key v t
    ]
  ]
