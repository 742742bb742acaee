-- ===== src/Surface.antt =====
-- www/surface-core.js: the state, the operations and the effect events of the display surface.
--
-- Names, keys and codes are texts. A base64 payload is the list of its code units, and a missing
-- one is the empty list, as `b64 || ''` reads it. Props are association lists over values that
-- the core never looks into (the parameter `V`). A lookup finds own entries only, as in the
-- source for every name but those that an object inherits (Surface/Names).
pub mod Names
pub mod Base64
pub mod Assets
pub mod Widgets
pub mod Apply
pub mod Cases
pub mod Sound
pub mod Own
pub mod Usage
pub mod Upload
pub mod Poison
pub mod Registry
mod Tests
use Prim.Native.String.{String}
use agent_mobile.Common.{ℕ, Bool, Option, none, some, List, [], ◌≡◌}

-- A complete asset. `source` is the decoded text once `getAssetSource` has computed it.
pub record Asset : Type 0 where
  pub mime : String
  pub chunks : List (List ℕ)
  pub size : ℕ
  pub source : Option (List ℕ)

-- An upload in flight. `next` is the source's `seq` plus one: 0 before the first numbered chunk.
pub record Pending : Type 0 where
  pub mime : String
  pub chunks : List (List ℕ)
  pub bytes : ℕ
  pub next : ℕ

pub record WidgetType : Type 0 where
  pub code : String
  pub assets : List String

abbrev pub Props : Type 0 → Type 0
Props V = List (String × V)

pub record Widget (V : Type 0) : Type 0 where
  pub type : String
  pub props : Props V

pub record Surface (V : Type 0) : Type 0 where
  pub capacity : ℕ
  pub assets : List (String × Asset)
  pub types : List (String × WidgetType)
  pub widgets : List (String × Widget V)
  pub usage : ℕ
  pub pending : List (String × Pending)
  pub poisoned : List (String × Unit {0})

-- The texts of the error events, by what they are built from.
pub data Error : Type 0 where
  aborted_before : String → Error
  empty_payload : String → Error
  bad_seq : String → ℕ → ℕ → Error
  cap_exceeded : ℕ → ℕ → ℕ → Error
  missing_asset : String → Error
  unknown_type : String → Error
  no_widget_to_update : String → Error
  no_widget_to_publish : String → Error
  unknown_op : String → Error
  reported : String → Error

pub data Event (V : Type 0) : Type 0 where
  asset_ready : String → ℕ → Event V
  asset_removed : String → ℕ → ℕ → Event V
  type_ready : String → Event V
  -- key, type, props, and whether it is a test
  render : String → String → Props V → Bool → Event V
  update : String → Option (Props V) → Event V
  feed : String → V → Event V
  destroy : String → Event V
  render_result : Option String → Bool → Option Error → Event V

-- An upload's `seq`, where it is a number, is a natural one.
pub data Op (V : Type 0) : Type 0 where
  -- name, mime, b64, append, seq
  register_asset : String → Option String → List ℕ → Bool → Option ℕ → Op V
  unregister_asset : String → Op V
  -- name, code, assets, testKey
  register_widget_type : String → Option String → List String → Option String → Op V
  -- key, type, props
  add_widget : String → String → Option (Props V) → Op V
  update_widget : String → Option (Props V) → Op V
  publish : String → V → Op V
  remove_widget : String → Op V
  test_widget : String → String → Option (Props V) → Op V
  -- any other `op`, with the operation's key
  other : String → Option String → Op V

-- What one operation leaves: the surface, and the events that it emitted.
abbrev pub Outcome : Type 0 → Type 0
Outcome V = Surface V × List (Event V)

-- `createSurface({ capacity })`
unfoldable pub create_surface : (V : Type 0) → ℕ → Surface V
create_surface V capacity = record {
  capacity = capacity;
  assets = [];
  types = [];
  widgets = [];
  usage = 0;
  pending = [];
  poisoned = [];
}
