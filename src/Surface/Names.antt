-- ===== src/Surface/Names.antt =====
-- www/surface-core.js: the names that plain objects inherit, and the operations that name none of them.
--
-- `assets`, `pending`, `types` and `widgets` are plain objects. Under an inherited name the source finds
-- a function of `Object.prototype` there, which the operations of this model do not: they follow the
-- source for the other names.
use Prim.Native.String.{String}
use text.Mathlib.Text.{◌==◌ as str_eq}
use agent_mobile.Common.{Bool, true, false, List, [], ◌∷◌, ◌&&◌, ◌||◌, not}
use agent_mobile.Surface.{Op}

abbrev pub inherited_names : List String
inherited_names =
    "constructor" ∷ "hasOwnProperty" ∷ "isPrototypeOf" ∷ "propertyIsEnumerable" ∷ "toLocaleString"
    ∷ "toString" ∷ "valueOf" ∷ "__defineGetter__" ∷ "__defineSetter__" ∷ "__lookupGetter__"
    ∷ "__lookupSetter__" ∷ "__proto__" ∷ []

unfoldable pub is_one_of : String → List String → Bool
is_one_of k [] = false
is_one_of k (n ∷ ns) = str_eq k n || is_one_of k ns

unfoldable pub is_inherited : String → Bool
is_inherited k = is_one_of k inherited_names

unfoldable pub none_inherited : List String → Bool
none_inherited [] = true
none_inherited (k ∷ ks) = not (is_inherited k) && none_inherited ks

-- The names that an operation looks up.
unfoldable pub names_of : {V : Type 0} → Op V → List String
names_of (Op.register_asset name mime b64 append seq) = name ∷ []
names_of (Op.unregister_asset name) = name ∷ []
names_of (Op.register_widget_type name code deps key) = name ∷ deps
names_of (Op.add_widget key type props) = key ∷ type ∷ []
names_of (Op.update_widget key props) = key ∷ []
names_of (Op.publish key payload) = key ∷ []
names_of (Op.remove_widget key) = key ∷ []
names_of (Op.test_widget key type props) = key ∷ type ∷ []
names_of (Op.other op key) = []

-- No operation looks an inherited name up.
unfoldable pub are_own : {V : Type 0} → List (Op V) → Bool
are_own [] = true
are_own (op ∷ ops) = none_inherited (names_of op) && are_own ops
