-- ===== src/Surface/Own.antt =====
-- www/surface-core.js: operations that look up no inherited name store nothing under one.
use Prim.Native.String.{String}
use agent_mobile.Common.{
  ℕ, ◌≡◌, Bool, true, false, Option, some, List, [], ◌∷◌, ◌==◌, lookup, insert, erase, string_eq,
  lookup-insert, lookup-erase, lookup-nil, arith, if-cases, Option-match,
}
use agent_mobile.Surface.{Surface, Op, Outcome, create_surface}
use agent_mobile.Surface.Names.{is_inherited, none_inherited, names_of, are_own}
use agent_mobile.Surface.Assets.{
  unregister_asset, check_chunk, abort, store_chunk, finish_asset, replacing,
}
use agent_mobile.Surface.Cases.{check_chunk_cases, register_asset_cases}
use agent_mobile.Surface.Widgets.{
  first_missing, refused, register_widget_type, add_widget, update_widget, publish, remove_widget,
  test_widget,
}
use agent_mobile.Surface.Apply.{apply, run}

abbrev pub AreOwn : {A : Type 0} → List (String × A) → Type 0
AreOwn {A} m = (k : String) (a : A) → lookup k m ≡ some a → is_inherited k ≡ false

-- The names of the assets and of the uploads in flight are no inherited ones.
abbrev pub HasOwnNames : {V : Type 0} → Surface V → Type 0
HasOwnNames s = AreOwn s.assets × AreOwn s.pending

insert-AreOwn :
    {A : Type 0} (n : String) (v : A) (m : List (String × A))
    → is_inherited n ≡ false
    → AreOwn m
    → AreOwn (insert n v m)
insert-AreOwn n v m own w k a e =
    ground (arith, rw lookup-insert at e, own, w k a, string_eq.beq_iff n k)

erase-AreOwn : {A : Type 0} (n : String) (m : List (String × A)) → AreOwn m → AreOwn (erase n m)
erase-AreOwn n m w k a e = ground (arith, rw lookup-erase at e, w k a)

module _ {V : Type 0} where
  abort-HasOwnNames :
      (s : Surface V) (name : String) (e : _) → HasOwnNames s → HasOwnNames (abort s name e).0
  unfolding abort
  abort-HasOwnNames s name e w = (w.0, erase-AreOwn name s.pending w.1)

  store_chunk-HasOwnNames :
      (s : Surface V) (name : String) (mime : Option String) (b64 : List ℕ) (append : Bool)
      (seq : Option ℕ) (bytes : ℕ)
      → is_inherited name ≡ false
      → HasOwnNames s
      → HasOwnNames (store_chunk s name mime b64 append seq bytes).0
  unfolding store_chunk finish_asset
  store_chunk-HasOwnNames s name mime b64 append seq bytes own w =
      let kept =
        if-cases AreOwn (replacing s name == 0) s.assets (erase name s.assets) (λ _. w.0)
          (λ _. erase-AreOwn name s.assets w.0) in
      let joined = insert-AreOwn name _ s.pending own w.1 in
      if-cases (λ (o : Outcome V). HasOwnNames o.0) append _ _ (λ _. (kept, joined))
        (λ _. (insert-AreOwn name _ _ own kept, erase-AreOwn name _ joined))

  check_chunk-HasOwnNames :
      (s : Surface V) (name : String) (mime : Option String) (b64 : List ℕ) (append : Bool)
      (seq : Option ℕ)
      → is_inherited name ≡ false
      → HasOwnNames s
      → HasOwnNames (check_chunk s name mime b64 append seq).0
  check_chunk-HasOwnNames s name mime b64 append seq own w =
      check_chunk_cases (λ o. HasOwnNames o.0) s name mime b64 append seq
        (λ e. abort-HasOwnNames s name e w)
        (λ _ _ _. store_chunk-HasOwnNames s name mime b64 append seq _ own w)

  apply-HasOwnNames :
      (s : Surface V) (op : Op V)
      → none_inherited (names_of op) ≡ true
      → HasOwnNames s
      → HasOwnNames (apply s op).0
  unfolding apply unregister_asset register_widget_type add_widget update_widget publish
      remove_widget test_widget none_inherited names_of
  apply-HasOwnNames s (Op.register_asset name mime b64 append seq) own w =
      let own' : is_inherited name ≡ false = ground (arith, own) in
      register_asset_cases (λ o. HasOwnNames o.0) s name mime b64 append seq w
        (λ _. check_chunk-HasOwnNames s name mime b64 append seq own' w)
        (λ _. check_chunk-HasOwnNames _ name mime b64 append seq own' w)
  apply-HasOwnNames s (Op.unregister_asset name) own w =
      (erase-AreOwn name s.assets w.0, erase-AreOwn name s.pending w.1)
  apply-HasOwnNames s (Op.register_widget_type name code deps key) own w =
      if-cases (λ (o : Outcome V). HasOwnNames o.0) (refused (first_missing s deps)) _ _ (λ _. w)
        (λ _. w)
  apply-HasOwnNames s (Op.add_widget key type props) own w =
      Option-match (λ (o : Outcome V). HasOwnNames o.0) (lookup type s.types) _ _ (λ _. w)
        (λ _ _. w)
  apply-HasOwnNames s (Op.update_widget key props) own w =
      Option-match (λ (o : Outcome V). HasOwnNames o.0) (lookup key s.widgets) _ _ (λ _. w)
        (λ _ _. w)
  apply-HasOwnNames s (Op.publish key payload) own w =
      Option-match (λ (o : Outcome V). HasOwnNames o.0) (lookup key s.widgets) _ _ (λ _. w)
        (λ _ _. w)
  apply-HasOwnNames s (Op.remove_widget key) own w =
      Option-match (λ (o : Outcome V). HasOwnNames o.0) (lookup key s.widgets) _ _ (λ _. w)
        (λ _ _. w)
  apply-HasOwnNames s (Op.test_widget key type props) own w =
      Option-match (λ (o : Outcome V). HasOwnNames o.0) (lookup type s.types) _ _ (λ _. w)
        (λ _ _. w)
  apply-HasOwnNames s (Op.other op key) own w = w

  pub run-HasOwnNames :
      (s : Surface V) (ops : List (Op V))
      → are_own ops ≡ true
      → HasOwnNames s
      → HasOwnNames (run s ops).0
  unfolding run are_own
  run-HasOwnNames s [] own w = w
  run-HasOwnNames s (op ∷ ops) own w =
      run-HasOwnNames (apply s op).0 ops (ground (arith, own))
        (apply-HasOwnNames s op (ground (arith, own)) w)

pub create_surface-HasOwnNames :
    (V : Type 0) (capacity : ℕ) → HasOwnNames (create_surface V capacity)
unfolding create_surface
create_surface-HasOwnNames V capacity =
    (λ k a e. absurd (lookup-nil k e), λ k a e. absurd (lookup-nil k e))
