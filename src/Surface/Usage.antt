-- ===== src/Surface/Usage.antt =====
-- www/surface-core.js: every operation keeps the accounting of stored bytes.
use Prim.Native.String.{String}
use agent_mobile.Common.{
  ℕ, ◌≡◌, refl, inl, Bool, true, Option, none, List, [], ◌∷◌, lookup, string_eq, total, arith,
  if-cases, Option-match, lookup-erase_self,
}
use agent_mobile.Surface.{Surface, Op, Outcome, create_surface}
use agent_mobile.Surface.Base64.{base64_bytes}
use agent_mobile.Surface.Assets.{check_chunk, register_asset}
use agent_mobile.Surface.Widgets.{
  first_missing, refused, register_widget_type, add_widget, update_widget, publish, remove_widget,
  test_widget,
}
use agent_mobile.Surface.Own.{HasOwnNames, run-HasOwnNames, create_surface-HasOwnNames}
use agent_mobile.Surface.Names.{are_own}
use agent_mobile.Surface.Apply.{apply, run}
use agent_mobile.Surface.Sound.{
  IsSound, same_stores, abort-IsSound, unregister_asset-IsSound, restart-IsSound,
  store_chunk-IsSound,
}
use agent_mobile.Surface.Cases.{check_chunk_cases, register_asset_cases}

module _ {V : Type 0} where
  check_chunk-IsSound :
      (s : Surface V) (name : String) (mime : Option String) (b64 : List ℕ) (append : Bool)
      (seq : Option ℕ)
      → IsSound s
      → lookup name s.poisoned ≡ none
      → IsSound (check_chunk s name mime b64 append seq).0
  check_chunk-IsSound s name mime b64 append seq v fresh =
      check_chunk_cases (λ o. IsSound o.0) s name mime b64 append seq
        (λ e. abort-IsSound s name e v)
        (λ pos fits _.
          store_chunk-IsSound s name mime b64 append seq (base64_bytes b64) v fresh pos fits)

  register_asset-IsSound :
      (s : Surface V) (name : String) (mime : Option String) (b64 : List ℕ) (append : Bool)
      (seq : Option ℕ)
      → IsSound s
      → IsSound (register_asset s name mime b64 append seq).0
  register_asset-IsSound s name mime b64 append seq v =
      register_asset_cases (λ o. IsSound o.0) s name mime b64 append seq v
        (λ fresh. check_chunk-IsSound s name mime b64 append seq v fresh)
        (λ restart.
          check_chunk-IsSound _ name mime b64 append seq (restart-IsSound s name v)
            (lookup-erase_self name s.poisoned))

  -- Every operation keeps the surface sound.
  pub apply-IsSound : (s : Surface V) (op : Op V) → IsSound s → IsSound (apply s op).0
  unfolding apply register_widget_type add_widget update_widget publish remove_widget test_widget
  apply-IsSound s (Op.register_asset name mime b64 append seq) v =
      register_asset-IsSound s name mime b64 append seq v
  apply-IsSound s (Op.unregister_asset name) v = unregister_asset-IsSound s name v
  apply-IsSound s (Op.register_widget_type name code deps key) v =
      if-cases (λ (o : Outcome V). IsSound o.0) (refused (first_missing s deps)) _ _ (λ _. v)
        (λ _. same_stores s _ refl refl refl refl refl v)
  apply-IsSound s (Op.add_widget key type props) v =
      Option-match (λ (o : Outcome V). IsSound o.0) (lookup type s.types) _ _ (λ _. v)
        (λ _ _. same_stores s _ refl refl refl refl refl v)
  apply-IsSound s (Op.update_widget key props) v =
      Option-match (λ (o : Outcome V). IsSound o.0) (lookup key s.widgets) _ _ (λ _. v)
        (λ _ _. same_stores s _ refl refl refl refl refl v)
  apply-IsSound s (Op.publish key payload) v =
      Option-match (λ (o : Outcome V). IsSound o.0) (lookup key s.widgets) _ _ (λ _. v) (λ _ _. v)
  apply-IsSound s (Op.remove_widget key) v =
      Option-match (λ (o : Outcome V). IsSound o.0) (lookup key s.widgets) _ _ (λ _. v)
        (λ _ _. same_stores s _ refl refl refl refl refl v)
  apply-IsSound s (Op.test_widget key type props) v =
      Option-match (λ (o : Outcome V). IsSound o.0) (lookup type s.types) _ _ (λ _. v) (λ _ _. v)
  apply-IsSound s (Op.other op key) v = v

  create_surface-IsSound : (capacity : ℕ) → IsSound (create_surface V capacity)
  unfolding create_surface lookup total
  create_surface-IsSound capacity = record {
    assets_map = tt;
    pending_map = tt;
    accounted = refl;
    within = omega arith;
    apart = λ n. inl refl;
    sized = λ n a h. absurd (ground arith);
    clean = λ n. inl refl;
  }

  pub run-IsSound : (s : Surface V) (ops : List (Op V)) → IsSound s → IsSound (run s ops).0
  unfolding run
  run-IsSound s [] v = v
  run-IsSound s (op ∷ ops) v = run-IsSound (apply s op).0 ops (apply-IsSound s op v)

  -- After any sequence of operations on a fresh surface that look up no name which objects inherit,
  -- `usage` is the number of bytes of the complete assets and of the uploads in flight, it does not
  -- exceed the capacity, no name is both complete and in flight, no stored asset is empty, and no
  -- poisoned name has an upload in flight; and no asset or upload stands under an inherited name.
  pub run-create_surface-IsSound :
      (capacity : ℕ) (ops : List (Op V))
      → are_own ops ≡ true
      → IsSound (run (create_surface V capacity) ops).0
        × HasOwnNames (run (create_surface V capacity) ops).0
  run-create_surface-IsSound capacity ops own = (
    run-IsSound _ ops (create_surface-IsSound capacity),
    run-HasOwnNames _ ops own (create_surface-HasOwnNames V capacity),
  )
