-- ===== src/Surface/Tests.antt =====
-- www/surface-core.js: runs of the surface, and the theorems at concrete inputs.
use Prim.Native.String.{String}
use agent_mobile.Common.{
  ℕ, ◌≡◌, refl, true, false, none, some, List, [], ◌∷◌, ◌⊎◌, arith, lookup, insert, erase,
  string_eq,
}
use agent_mobile.Surface.{
  Surface, Op, create_surface, asset_ready, asset_removed, type_ready, render, feed, destroy,
  render_result, missing_asset,
}
use agent_mobile.Surface.Base64.{base64_bytes}
use agent_mobile.Surface.Assets.{
  finish_asset, store_chunk, check_cap, check_chunk, register_asset, unregister_asset,
}
use agent_mobile.Surface.Widgets.{register_widget_type, add_widget, publish, remove_widget}
use agent_mobile.Surface.Own.{HasOwnNames}
use agent_mobile.Surface.Names.{are_own, none_inherited, names_of, is_inherited, is_one_of}
use agent_mobile.Surface.Apply.{apply, run}
use agent_mobile.Surface.Sound.{IsSound}
use agent_mobile.Surface.Usage.{run-create_surface-IsSound}
use agent_mobile.Surface.Upload.{numbered, payload, upload_completes}
use agent_mobile.Surface.Poison.{bad_seq-drops}
use agent_mobile.Surface.Registry.{
  AllPresent, Typed, register_widget_type_lem, empty_name_hides_missing, run-create_surface-Typed,
}

-- "aGk=", two bytes, and "YWJj", three.
abbrev hi : List ℕ
hi = b'a' ∷ b'G' ∷ b'k' ∷ b'=' ∷ []

abbrev abc : List ℕ
abc = b'Y' ∷ b'W' ∷ b'J' ∷ b'j' ∷ []

hi_bytes : base64_bytes hi ≡ 2
unfolding base64_bytes
hi_bytes = refl

abc_bytes : base64_bytes abc ≡ 3
unfolding base64_bytes
abc_bytes = refl

abbrev fresh : Surface ℕ
fresh = create_surface ℕ 10

abbrev script : List (Op ℕ)
script =
    Op.register_asset "lib" none hi true (some 0)
    ∷ Op.register_asset "lib" none abc false (some 1)
    ∷ Op.register_widget_type "tile" (some "code") ("lib" ∷ []) none
    ∷ Op.add_widget "k" "tile" none
    ∷ Op.publish "k" 7
    ∷ Op.unregister_asset "lib"
    ∷ Op.remove_widget "k"
    ∷ []

script_events :
    (run fresh script).1
    ≡ asset_ready "lib" 5
      ∷ type_ready "tile"
      ∷ render "k" "tile" [] false
      ∷ feed "k" 7
      ∷ asset_removed "lib" 5 0
      ∷ destroy "k"
      ∷ []
unfolding run apply create_surface register_asset check_chunk check_cap store_chunk finish_asset
    base64_bytes register_widget_type add_widget publish unregister_asset remove_widget lookup
    insert erase
script_events = refl

script_own : are_own script ≡ true
unfolding are_own none_inherited names_of is_inherited is_one_of
script_own = refl

run-create_surface-IsSound_example : IsSound (run fresh script).0 × HasOwnNames (run fresh script).0
run-create_surface-IsSound_example = run-create_surface-IsSound 10 script script_own

run-create_surface-Typed_example : Typed (run fresh script).0
run-create_surface-Typed_example = run-create_surface-Typed 10 script

fits :
    (fresh.usage ≡ 0)
    × (fresh.capacity ≡ 10)
    × (lookup "lib" fresh.pending ≡ none)
    × (lookup "lib" fresh.assets ≡ none)
unfolding create_surface lookup
fits = (refl, refl, refl, refl)

upload_completes_example :
    (run fresh (numbered "lib" none 0 hi (abc ∷ []))).1
    ≡ asset_ready "lib" (payload (hi ∷ abc ∷ [])) ∷ []
upload_completes_example =
    (upload_completes fresh "lib" none hi (abc ∷ []) fits.2
      (omega (arith, hi_bytes), (omega (arith, abc_bytes), tt))
      (omega (arith, fits, hi_bytes, abc_bytes))).1

bad_seq-drops_example :
    lookup "lib"
      (run
        (apply fresh (Op.register_asset "lib" none hi true (some 1))).0
        (Op.register_asset "lib" none abc false (some 2) ∷ [])).0.assets
    ≡ lookup "lib" fresh.assets
bad_seq-drops_example =
    (bad_seq-drops "lib" fresh none hi true 1 (Op.register_asset "lib" none abc false (some 2) ∷ [])
      (unfold create_surface lookup in refl)
      (unfold create_surface lookup in λ e. absurd (omega arith)) (refl, tt)).2

register_widget_type_lem_example :
    let r = register_widget_type fresh "tile" none ("lib" ∷ []) none in
    (AllPresent fresh ("lib" ∷ [])
      × (lookup "tile" r.0.types ≡ some (record { code = ""; assets = "lib" ∷ [] }))
      × (r.1 ≡ type_ready "tile" ∷ []))
    ⊎ ((d : String) × (lookup d fresh.assets ≡ none)
        × (r ≡ (fresh, render_result none false (some (missing_asset d)) ∷ [])))
register_widget_type_lem_example =
    register_widget_type_lem fresh "tile" none ("lib" ∷ []) none (refl, tt)

empty_name_hides_missing_example :
    (register_widget_type fresh "tile" none ("" ∷ "gone" ∷ []) none).1 ≡ type_ready "tile" ∷ []
empty_name_hides_missing_example =
    empty_name_hides_missing fresh "tile" none ("gone" ∷ []) none
      (unfold create_surface lookup in refl)
