-- ===== src/Surface/Poison.antt =====
-- www/surface-core.js: an upload that failed stays failed until it is restarted.
use Prim.Native.String.{String}
use agent_mobile.Common.{
  ℕ, ◌≡◌, ◌≢◌, refl, ◌∙◌, inl, inr, Bool, true, false, ◌&&◌, Option, none, some, List, [], ◌∷◌,
  ◌==◌, if◌then◌else◌, lookup, erase, string_eq, lookup-insert, lookup-erase, lookup-insert_self,
  lookup-erase_self, arith, Bool-cases, if-cases, Option-match, if-cases,
}
use agent_mobile.Surface.{Surface, Op, Outcome, Error}
use agent_mobile.Surface.Base64.{base64_bytes}
use agent_mobile.Surface.Assets.{
  is_poisoned, restarts, wanted, replacing, abort, finish_asset, store_chunk, check_chunk,
  register_asset, unregister_asset,
}
use agent_mobile.Surface.Widgets.{
  first_missing, refused, register_widget_type, add_widget, update_widget, publish, remove_widget,
  test_widget,
}
use agent_mobile.Surface.Apply.{apply, run}
use agent_mobile.Surface.Cases.{check_chunk_cases, register_asset_cases}

module _ {V : Type 0} where
  -- The operations that make a name usable again: a chunk numbered 0, and `unregister_asset`.
  abbrev pub revives : String → Op V → Bool
  revives name (Op.register_asset n _ _ _ seq) = string_eq.beq n name && restarts seq
  revives name (Op.unregister_asset n) = string_eq.beq n name
  revives name _ = false

  abbrev pub NoneRevives : String → List (Op V) → Type 0
  NoneRevives name [] = Unit
  NoneRevives name (op ∷ ops) = (revives name op ≡ false) × NoneRevives name ops

  -- What holds of a poisoned name after an operation that does not revive it.
  abbrev Kept : String → Surface V → Outcome V → Type 0
  Kept name s o = (is_poisoned name o.0 ≡ true) × (lookup name o.0.assets ≡ lookup name s.assets)

  abort-Kept :
      (name : String) (s : Surface V) (n : String) (e : Error)
      → is_poisoned name s ≡ true
      → Kept name s (abort s n e)
  unfolding abort
  abort-Kept name s n e h = ground (arith, h, lookup-insert n name tt s.poisoned)

  store_chunk-Kept :
      (name : String) (s : Surface V) (n : String) (mime : Option String) (b64 : List ℕ)
      (append : Bool) (seq : Option ℕ) (bytes : ℕ)
      → string_eq.beq n name ≡ false
      → is_poisoned name s ≡ true
      → Kept name s (store_chunk s n mime b64 append seq bytes)
  unfolding store_chunk finish_asset
  store_chunk-Kept name s n mime b64 true seq bytes ne h =
      (h, ground (arith, ne, lookup-erase n name s.assets))
  store_chunk-Kept name s n mime b64 false seq bytes ne h = (
    h,
    lookup-insert n name _ (if replacing s n == 0 then s.assets else erase n s.assets)
        ∙ rw ne (ground (arith, ne, lookup-erase n name s.assets)),
  )

  other_name-Kept :
      (name : String) (s : Surface V) (n : String) (mime : Option String) (b64 : List ℕ)
      (append : Bool) (seq : Option ℕ)
      → string_eq.beq n name ≡ false
      → is_poisoned name s ≡ true
      → Kept name s (register_asset s n mime b64 append seq)
  other_name-Kept name s n mime b64 append seq ne h =
      register_asset_cases (Kept name s) s n mime b64 append seq (h, refl) (λ _. chunk s h refl)
        (λ _. chunk _ (ground (arith, h, ne, lookup-erase n name s.poisoned)) refl)
    where
      onward :
          (t : Surface V)
          → lookup name t.assets ≡ lookup name s.assets
          → (o : Outcome V) → Kept name t o
          → Kept name s o
      onward t q o k = (k.0, k.1 ∙ q)

      chunk :
          (t : Surface V)
          → is_poisoned name t ≡ true
          → lookup name t.assets ≡ lookup name s.assets
          → Kept name s (check_chunk t n mime b64 append seq)
      chunk t p q =
          check_chunk_cases (Kept name s) t n mime b64 append seq
            (λ e. onward t q (abort t n e) (abort-Kept name t n e p))
            (λ _ _ _.
              onward t q (store_chunk t n mime b64 append seq (base64_bytes b64))
                (store_chunk-Kept name t n mime b64 append seq (base64_bytes b64) ne p))

  same_name-Kept :
      (name : String) (s : Surface V) (n : String) (mime : Option String) (b64 : List ℕ)
      (append : Bool) (seq : Option ℕ)
      → string_eq.beq n name ≡ true
      → restarts seq ≡ false
      → is_poisoned name s ≡ true
      → Kept name s (register_asset s n mime b64 append seq)
  unfolding register_asset
  same_name-Kept name s n mime b64 append seq e r h =
      rw ((string_eq.beq_iff n name).0 e, h, r) (h, refl)

  apply-Kept :
      (name : String) (s : Surface V) (op : Op V)
      → revives name op ≡ false
      → is_poisoned name s ≡ true
      → Kept name s (apply s op)
  unfolding apply register_widget_type add_widget update_widget publish remove_widget test_widget
      unregister_asset
  apply-Kept name s (Op.register_asset n mime b64 append seq) r h =
      elim (Bool-cases (string_eq.beq n name)) [
        | inl e ↦ same_name-Kept name s n mime b64 append seq e (ground (arith, e, r)) h
        | inr e ↦ other_name-Kept name s n mime b64 append seq e h
      ]
  apply-Kept name s (Op.unregister_asset n) r h =
      ground (arith, h, r, lookup-erase n name s.poisoned, lookup-erase n name s.assets)
  apply-Kept name s (Op.register_widget_type n code deps key) r h =
      if-cases (Kept name s) (refused (first_missing s deps)) _ _ (λ _. (h, refl)) (λ _. (h, refl))
  apply-Kept name s (Op.add_widget key type props) r h =
      Option-match (Kept name s) (lookup type s.types) _ _ (λ _. (h, refl)) (λ _ _. (h, refl))
  apply-Kept name s (Op.update_widget key props) r h =
      Option-match (Kept name s) (lookup key s.widgets) _ _ (λ _. (h, refl)) (λ _ _. (h, refl))
  apply-Kept name s (Op.publish key payload) r h =
      Option-match (Kept name s) (lookup key s.widgets) _ _ (λ _. (h, refl)) (λ _ _. (h, refl))
  apply-Kept name s (Op.remove_widget key) r h =
      Option-match (Kept name s) (lookup key s.widgets) _ _ (λ _. (h, refl)) (λ _ _. (h, refl))
  apply-Kept name s (Op.test_widget key type props) r h =
      Option-match (Kept name s) (lookup type s.types) _ _ (λ _. (h, refl)) (λ _ _. (h, refl))
  apply-Kept name s (Op.other op key) r h = (h, refl)

  run-Kept :
      (name : String) (s : Surface V) (ops : List (Op V))
      → NoneRevives name ops
      → is_poisoned name s ≡ true
      → Kept name s (run s ops)
  unfolding run
  run-Kept name s [] r h = (h, refl)
  run-Kept name s (op ∷ ops) r h =
      let k = apply-Kept name s op r.0 h in
      let l = run-Kept name (apply s op).0 ops r.1 k.0 in (l.0, l.1 ∙ k.1)

  abbrev Dropped : String → Surface V → Outcome V → Type 0
  Dropped name s o = (lookup name o.0.pending ≡ none) × Kept name s o

  abort-Dropped : (name : String) (s : Surface V) (e : Error) → Dropped name s (abort s name e)
  unfolding abort
  abort-Dropped name s e = (
    lookup-erase_self name s.pending,
    (rw (lookup-insert_self name tt s.poisoned, is_poisoned), refl),
  )

  -- A chunk whose number is not the one that the upload waits for drops the upload: nothing of the
  -- name stays in flight, and whatever follows, short of chunk 0 or `unregister_asset` of that
  -- name, leaves the asset of that name as it was before the bad chunk: none, or the old one whole.
  pub bad_seq-drops :
      (name : String) (s : Surface V) (mime : Option String) (b64 : List ℕ) (append : Bool) (k : ℕ)
      (ops : List (Op V))
      → is_poisoned name s ≡ false
      → k ≢ wanted (lookup name s.pending)
      → NoneRevives name ops
      → let t = (apply s (Op.register_asset name mime b64 append (some k))).0 in
        (lookup name t.pending ≡ none)
        × (is_poisoned name t ≡ true)
        × (lookup name (run t ops).0.assets ≡ lookup name s.assets)
  unfolding apply register_asset
  bad_seq-drops name s mime b64 append k ops p ne r =
      let d : Dropped name s (check_chunk s name mime b64 append (some k)) = bad_chunk in
      rw p (d.0, d.1.0, (run-Kept name _ ops r d.1.0).1 ∙ d.1.1)
    where
      bad_chunk : Dropped name s (check_chunk s name mime b64 append (some k))
      bad_chunk =
          check_chunk_cases (Dropped name s) s name mime b64 append (some k)
            (λ e. abort-Dropped name s e) (λ _ _ ok. absurd (ground (arith, ok, ne)))
