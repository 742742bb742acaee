-- ===== src/Surface/Widgets.antt =====
-- www/surface-core.js: the operations on widget types and widgets, and their accessors.
use Prim.Native.String.{String}
use text.Mathlib.Text.{◌==◌ as str_eq}
use agent_mobile.Common.{
  Bool, true, false, Option, none, some, List, [], ◌∷◌, if◌then◌else◌, lookup, insert, erase,
  string_eq,
}
use agent_mobile.Surface.{
  WidgetType, Widget, Props, Surface, missing_asset, unknown_type, no_widget_to_update,
  no_widget_to_publish, type_ready, render, update, feed, destroy, Outcome,
}
use agent_mobile.Surface.Assets.{failed, with_default}

-- `opts`: the properties of `patch` over those of `prev`.
unfoldable pub merge_props : {V : Type 0} → Props V → Props V → Props V
merge_props prev [] = prev
merge_props prev ((k, v) ∷ patch) = merge_props (insert k v prev) patch

-- `(deps || []).find(d => !assets[d])`
unfoldable pub first_missing : {V : Type 0} → Surface V → List String → Option String
first_missing s [] = none
first_missing s (d ∷ deps) = elim (lookup d s.assets) [
  | none ↦ some d
  | some _ ↦ first_missing s deps
]

-- `if (missing)`: the empty name counts as no name.
unfoldable pub refused : Option String → Bool
refused none = false
refused (some d) = if str_eq d "" then false else true

unfoldable pub register_widget_type :
    {V : Type 0} → Surface V → String → Option String → List String → Option String → Outcome V
unfolding first_missing refused
register_widget_type {V} s name code deps test_key =
    let missing = first_missing s deps in
    if refused missing then (s, failed V test_key (missing_asset (with_default missing ""))) else (
      record s {
        types = insert name (record { code = with_default code ""; assets = deps }) s.types;
      },
      type_ready name ∷ [],
    )

unfoldable pub add_widget :
    {V : Type 0} → Surface V → String → String → Option (Props V) → Outcome V
add_widget {V} s key type props = elim (lookup type s.types) [
  | none ↦ (s, failed V (some key) (unknown_type type))
  | some _ ↦ (
    record s {
      widgets = insert key (record { type = type; props = with_default props [] }) s.widgets;
    },
    render key type (with_default props []) false ∷ [],
  )
]

unfoldable pub update_widget : {V : Type 0} → Surface V → String → Option (Props V) → Outcome V
unfolding merge_props
update_widget {V} s key props = elim (lookup key s.widgets) [
  | none ↦ (s, failed V (some key) (no_widget_to_update key))
  | some w ↦ (
    record s {
      widgets =
          insert key (record w { props = merge_props w.props (with_default props []) }) s.widgets;
    },
    update key props ∷ [],
  )
]

unfoldable pub publish : {V : Type 0} → Surface V → String → V → Outcome V
publish {V} s key payload = elim (lookup key s.widgets) [
  | none ↦ (s, failed V (some key) (no_widget_to_publish key))
  | some _ ↦ (s, feed key payload ∷ [])
]

unfoldable pub remove_widget : {V : Type 0} → Surface V → String → Outcome V
remove_widget s key = elim (lookup key s.widgets) [
  | none ↦ (s, [])
  | some _ ↦ (record s { widgets = erase key s.widgets }, destroy key ∷ [])
]

unfoldable pub test_widget :
    {V : Type 0} → Surface V → String → String → Option (Props V) → Outcome V
test_widget {V} s key type props = elim (lookup type s.types) [
  | none ↦ (s, failed V (some key) (unknown_type type))
  | some _ ↦ (s, render key type (with_default props []) true ∷ [])
]

-- `getType` and `getWidget`
pub get_type : {V : Type 0} → Surface V → String → Option WidgetType
get_type s name = lookup name s.types

pub get_widget : {V : Type 0} → Surface V → String → Option (Widget V)
get_widget s key = lookup key s.widgets
