-- ===== src/Surface/Apply.antt =====
-- www/surface-core.js: `apply`, and a run of operations with the events in order.
use Prim.Native.String.{String}
use agent_mobile.Common.{Bool, Option, none, some, List, [], ◌∷◌, ◌++◌}
use agent_mobile.Surface.{Surface, Op, unknown_op, reported, render_result, Outcome}
use agent_mobile.Surface.Assets.{register_asset, unregister_asset, failed}
use agent_mobile.Surface.Widgets.{
  register_widget_type, add_widget, update_widget, publish, remove_widget, test_widget,
}

unfoldable pub apply : {V : Type 0} → Surface V → Op V → Outcome V
apply s (Op.register_asset name mime b64 append seq) = register_asset s name mime b64 append seq
apply s (Op.unregister_asset name) = unregister_asset s name
apply s (Op.register_widget_type name code deps key) = register_widget_type s name code deps key
apply s (Op.add_widget key type props) = add_widget s key type props
apply s (Op.update_widget key props) = update_widget s key props
apply s (Op.publish key payload) = publish s key payload
apply s (Op.remove_widget key) = remove_widget s key
apply s (Op.test_widget key type props) = test_widget s key type props
apply {V} s (Op.other op key) = (s, failed V key (unknown_op op))

-- `reportRender`: how the host says a tile rendered.
unfoldable pub report_render : {V : Type 0} → Surface V → String → Bool → Option String → Outcome V
report_render s key ok error =
    (s, render_result (some key) ok (elim error [ none ↦ none | some t ↦ some (reported t) ]) ∷ [])

-- A batch of operations, as the host applies them: one after the other.
unfoldable pub run : {V : Type 0} → Surface V → List (Op V) → Outcome V
run s [] = (s, [])
run s (op ∷ ops) = let (s', es) = apply s op in let (s'', es') = run s' ops in (s'', es ++ es')
