-- ===== src/Surface/Registry.antt =====
-- www/surface-core.js: which types and widgets a surface may hold.
use Prim.Native.String.{String}
use text.Mathlib.Text.{◌==◌ as str_eq}
use agent_mobile.Common.{
  ℕ, ◌≡◌, refl, subst, ◌⊎◌, inl, inr, Bool, false, Option, none, some, List, [], ◌∷◌, lookup,
  insert, erase, string_eq, lookup-insert, lookup-erase, lookup-insert_self, arith, Bool-cases,
  if-cases, Option-match, Option-cases,
}
use agent_mobile.Surface.{
  Surface, Asset, Widget, WidgetType, missing_asset, Op, render_result, Outcome, create_surface,
  type_ready,
}
use agent_mobile.Surface.Assets.{
  with_default, abort, finish_asset, store_chunk, check_chunk, register_asset, unregister_asset,
}
use agent_mobile.Surface.Cases.{check_chunk_cases, register_asset_cases}
use agent_mobile.Surface.Widgets.{
  first_missing, refused, merge_props, register_widget_type, add_widget, update_widget, publish,
  remove_widget, test_widget,
}
use agent_mobile.Surface.Apply.{apply, run}

-- Every dependency of a list is a complete asset.
abbrev pub AllPresent : {V : Type 0} → Surface V → List String → Type 0
AllPresent s [] = Unit
AllPresent s (d ∷ ds) = ((a : Asset) × (lookup d s.assets ≡ some a)) × AllPresent s ds

abbrev pub AllNamed : List String → Type 0
AllNamed [] = Unit
AllNamed (d ∷ ds) = (str_eq d "" ≡ false) × AllNamed ds

-- A registered name stays registered when another definition is put in.
still_there :
    {A : Type 0} (k j : String) (a : A) (m : List (String × A))
    → ((b : A) × (lookup j m ≡ some b))
    → (b : A) × (lookup j (insert k a m) ≡ some b)
still_there k j a m (b, e) = elim (Bool-cases (string_eq.beq k j)) [
  | inl h ↦ (a, rw (lookup-insert k j a m, h) refl)
  | inr h ↦ (b, rw (lookup-insert k j a m, h) e)
]

module _ {V : Type 0} where
  -- Either every dependency is there, or the first that is not is found.
  present-or-missing :
      (s : Surface V) (deps : List String)
      → (AllPresent s deps × (first_missing s deps ≡ none))
        ⊎ ((d : String) × (first_missing s deps ≡ some d) × (lookup d s.assets ≡ none))
  unfolding first_missing
  present-or-missing s [] = inl (tt, refl)
  present-or-missing s (d ∷ ds) = elim (Option-cases (lookup d s.assets)) [
    | inl e ↦ inr (d, rw (e, first_missing), e)
    | inr (a, e) ↦ elim (present-or-missing s ds) [
      | inl h ↦ inl (((a, e), h.0), rw (e, first_missing) h.1)
      | inr (d', f, g) ↦ inr (d', rw (e, first_missing) f, g)
    ]
  ]

  missing_is_named :
      (s : Surface V) (deps : List String) (d : String)
      → AllNamed deps
      → first_missing s deps ≡ some d
      → str_eq d "" ≡ false
  unfolding first_missing
  missing_is_named s [] d n h = cc
  missing_is_named s (x ∷ deps) d n h = ground (arith, h, n.0, missing_is_named s deps d n.1)

  -- A widget type whose dependencies have non-empty names is registered exactly when all of them
  -- are complete assets; otherwise nothing changes, and the error names one that is not there.
  pub register_widget_type_lem :
      (s : Surface V) (name : String) (code : Option String) (deps : List String)
      (key : Option String)
      → AllNamed deps
      → let r = register_widget_type s name code deps key in
        (AllPresent s deps
          × (lookup name r.0.types ≡ some (record { code = with_default code ""; assets = deps }))
          × (r.1 ≡ type_ready name ∷ []))
        ⊎ ((d : String) × (lookup d s.assets ≡ none)
            × (r ≡ (s, render_result key false (some (missing_asset d)) ∷ [])))
  unfolding register_widget_type refused
  register_widget_type_lem s name code deps key n = elim (present-or-missing s deps) [
    | inl (h, e) ↦
        inl (h, rw (e, refused) (lookup-insert_self name _ s.types), rw (e, refused) refl)
    | inr (d, e, g) ↦ inr (d, g, rw (e, missing_is_named s deps d n e))
  ]

  -- A dependency with the empty name switches the check off: with no asset of that name, a type
  -- that lists it first is registered, whatever else it depends on.
  pub empty_name_hides_missing :
      (s : Surface V) (name : String) (code : Option String) (deps : List String)
      (key : Option String)
      → lookup "" s.assets ≡ none
      → (register_widget_type s name code ("" ∷ deps) key).1 ≡ type_ready name ∷ []
  unfolding register_widget_type refused first_missing
  empty_name_hides_missing s name code deps key e = ground (arith, e)

  -- Every live widget is of a registered type.
  abbrev pub Typed : Surface V → Type 0
  Typed s =
      (key : String) (w : Widget V)
      → lookup key s.widgets ≡ some w
      → (t : WidgetType) × (lookup w.type s.types ≡ some t)

  -- The operations on assets leave types and widgets alone.
  abbrev SameRegistry : Surface V → Outcome V → Type 0
  SameRegistry s o = (o.0.types ≡ s.types) × (o.0.widgets ≡ s.widgets)

  check_chunk-SameRegistry :
      (s : Surface V) (name : String) (mime : Option String) (b64 : List ℕ) (append : Bool)
      (seq : Option ℕ)
      → SameRegistry s (check_chunk s name mime b64 append seq)
  unfolding abort store_chunk finish_asset
  check_chunk-SameRegistry s name mime b64 append seq =
      check_chunk_cases (SameRegistry s) s name mime b64 append seq (λ _. (refl, refl))
        (λ _ _ _. if-cases (SameRegistry s) append _ _ (λ _. (refl, refl)) (λ _. (refl, refl)))

  register_asset-SameRegistry :
      (s : Surface V) (name : String) (mime : Option String) (b64 : List ℕ) (append : Bool)
      (seq : Option ℕ)
      → SameRegistry s (register_asset s name mime b64 append seq)
  register_asset-SameRegistry s name mime b64 append seq =
      register_asset_cases (SameRegistry s) s name mime b64 append seq (refl, refl)
        (λ _. check_chunk-SameRegistry s name mime b64 append seq)
        (λ _.
          check_chunk-SameRegistry (record s { poisoned = erase name s.poisoned }) name mime b64
            append seq)

  put_typed :
      (types : List (String × WidgetType)) (key : String) (wd : Widget V)
      (m : List (String × Widget V))
      → ((k : String) (w : Widget V)
          → lookup k m ≡ some w
          → (t : WidgetType) × (lookup w.type types ≡ some t))
      → ((t : WidgetType) × (lookup wd.type types ≡ some t))
      → (k : String) (w : Widget V) → lookup k (insert key wd m) ≡ some w
      → (t : WidgetType) × (lookup w.type types ≡ some t)
  put_typed types key wd m all this k w h = elim (Bool-cases (string_eq.beq key k)) [
    | inl e ↦
        subst (λ (u : Widget V). (t : WidgetType) × (lookup u.type types ≡ some t)) {x = wd} {y = w}
          (ground (arith, h, e, lookup-insert key k wd m)) this
    | inr e ↦ all k w (ground (arith, h, e, lookup-insert key k wd m))
  ]

  apply-Typed : (s : Surface V) (op : Op V) → Typed s → Typed (apply s op).0
  unfolding apply register_widget_type add_widget update_widget publish remove_widget test_widget
      unregister_asset
  apply-Typed s (Op.register_asset name mime b64 append seq) t = λ k w h.
      let e = register_asset-SameRegistry s name mime b64 append seq in
      rw e.0 (t k w (rw (← e.1) h))
  apply-Typed s (Op.unregister_asset name) t = t
  apply-Typed s (Op.register_widget_type name code deps key) t =
      if-cases (λ (o : Outcome V). Typed o.0) (refused (first_missing s deps)) _ _ (λ _. t)
        (λ _ k w h.
          still_there name w.type (record { code = with_default code ""; assets = deps }) s.types
            (t k w h))
  apply-Typed s (Op.add_widget key type props) t =
      Option-match (λ (o : Outcome V). Typed o.0) (lookup type s.types) _ _ (λ _. t)
        (λ wt e.
          put_typed s.types key (record { type = type; props = with_default props [] }) s.widgets t
            (wt, e))
  apply-Typed s (Op.update_widget key props) t =
      Option-match (λ (o : Outcome V). Typed o.0) (lookup key s.widgets) _ _ (λ _. t)
        (λ wd e.
          put_typed s.types key (record wd { props = merge_props wd.props (with_default props []) })
            s.widgets t (t key wd e))
  apply-Typed s (Op.publish key payload) t =
      Option-match (λ (o : Outcome V). Typed o.0) (lookup key s.widgets) _ _ (λ _. t) (λ _ _. t)
  apply-Typed s (Op.remove_widget key) t =
      Option-match (λ (o : Outcome V). Typed o.0) (lookup key s.widgets) _ _ (λ _. t)
        (λ _ _ k w h. t k w (ground (arith, h, lookup-erase key k s.widgets)))
  apply-Typed s (Op.test_widget key type props) t =
      Option-match (λ (o : Outcome V). Typed o.0) (lookup type s.types) _ _ (λ _. t) (λ _ _. t)
  apply-Typed s (Op.other op key) t = t

  run-Typed : (s : Surface V) (ops : List (Op V)) → Typed s → Typed (run s ops).0
  unfolding run
  run-Typed s [] t = t
  run-Typed s (op ∷ ops) t = run-Typed (apply s op).0 ops (apply-Typed s op t)

  -- After any operations on a fresh surface, the type of every live widget is registered.
  pub run-create_surface-Typed :
      (capacity : ℕ) (ops : List (Op V)) → Typed (run (create_surface V capacity) ops).0
  unfolding create_surface lookup
  run-create_surface-Typed capacity ops =
      run-Typed (create_surface V capacity) ops (λ k w h. absurd (ground arith))
