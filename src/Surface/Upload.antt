-- ===== src/Surface/Upload.antt =====
-- www/surface-core.js: a chunked upload, chunk after chunk, yields the asset made of those chunks.
use Prim.Native.String.{String}
use mathlib.Core.List.{append_assoc}
use native.Mathlib.Nat.{zero-add}
use agent_mobile.Common.{
  ℕ, suc, ◌+◌, ◌-◌, ◌≤◌, ◌<◌, ◌≡◌, refl, sym, subst, ◌∙◌, ap, inl, inr, Bool, true, false, Option,
  none, some, List, [], ◌∷◌, ◌++◌, lookup, erase, string_eq, lookup-insert_self, lookup-erase_self,
  arith, Bool-cases, le→ltb,
}
use agent_mobile.Surface.{Asset, Pending, Surface, Op, Event, Outcome, asset_ready}
use agent_mobile.Surface.Base64.{base64_bytes}
use agent_mobile.Surface.Assets.{
  is_poisoned, with_default, wanted, replacing, joined, grow, finish_asset, store_chunk, check_cap,
  check_chunk, register_asset,
}
use agent_mobile.Surface.Apply.{apply, run}

-- The decoded size of a list of chunks.
abbrev pub payload : List (List ℕ) → ℕ
payload [] = 0
payload (c ∷ cs) = base64_bytes c + payload cs

abbrev pub AllCarryData : List (List ℕ) → Type 0
AllCarryData [] = Unit
AllCarryData (c ∷ cs) = (0 < base64_bytes c) × AllCarryData cs

module _ {V : Type 0} where
  -- An upload as the agent sends it: the chunks numbered from `k`, all but the last with `append`.
  abbrev pub numbered : String → Option String → ℕ → List ℕ → List (List ℕ) → List (Op V)
  numbered name mime k c [] = Op.register_asset name mime c false (some k) ∷ []
  numbered name mime k c (c' ∷ cs) =
      Op.register_asset name mime c true (some k) ∷ numbered name mime (suc k) c' cs

  -- A chunk that passes every check is stored.
  accepted :
      (s : Surface V) (name : String) (mime : Option String) (c : List ℕ) (append : Bool) (k : ℕ)
      → is_poisoned name s ≡ false
      → wanted (lookup name s.pending) ≡ k
      → 0 < base64_bytes c
      → s.usage - replacing s name + base64_bytes c ≤ s.capacity
      → apply s (Op.register_asset name mime c append (some k))
        ≡ store_chunk s name mime c append (some k) (base64_bytes c)
  unfolding apply register_asset check_chunk check_cap
  accepted s name mime c append k p w pos fits = ground (arith, p, w, pos, fits, le→ltb _ _ fits)

  module _ (s : Surface V) (name : String) (mime : Option String) (c : List ℕ) (k bytes : ℕ)
      (o : Option Pending) (e : lookup name s.pending ≡ o) where
    abbrev asset : Asset
    asset = record {
      mime = (joined mime o).mime;
      chunks = (joined mime o).chunks ++ (c ∷ []);
      size = (joined mime o).bytes + bytes;
      source = none;
    }

    store_last :
        let r = store_chunk s name mime c false (some k) bytes in
        (lookup name r.0.assets ≡ some asset) × (r.1 ≡ asset_ready name asset.size ∷ [])
    unfolding store_chunk finish_asset
    store_last = (
      lookup-insert_self name _ _
          ∙ ap
              (λ q. some (record {
                mime = (joined mime q).mime;
                chunks = (joined mime q).chunks ++ (c ∷ []);
                size = (joined mime q).bytes + bytes;
                source = none;
              }))
              e,
      ap (λ q. asset_ready name ((joined mime q).bytes + bytes) ∷ []) e,
    )

    store_more :
        let r = store_chunk s name mime c true (some k) bytes in
        (lookup name r.0.pending ≡ some (grow mime c (some k) bytes o))
        × (r.0.usage - replacing r.0 name ≡ s.usage - replacing s name + bytes)
        × (r.0.capacity ≡ s.capacity)
        × (is_poisoned name r.0 ≡ is_poisoned name s)
        × (r.1 ≡ [])
    unfolding store_chunk
    store_more = (
      lookup-insert_self name _ _ ∙ ap (λ q. some (grow mime c (some k) bytes q)) e,
      ground (
        arith,
        lookup-insert_self name (grow mime c (some k) bytes (lookup name s.pending)) s.pending,
      ),
      refl,
      refl,
      refl,
    )

  abbrev Uploaded :
      String
      → Option String
      → Option Pending
      → List ℕ
      → List (List ℕ)
      → Outcome V
      → List (Event V)
      → Type 0
  Uploaded name mime o c cs r es =
      (lookup name r.0.assets
        ≡ some (record {
          mime = (joined mime o).mime;
          chunks = (joined mime o).chunks ++ (c ∷ cs);
          size = (joined mime o).bytes + payload (c ∷ cs);
          source = none;
        }))
      × (es ++ r.1 ≡ asset_ready name ((joined mime o).bytes + payload (c ∷ cs)) ∷ [])

  step :
      (s : Surface V) (name : String) (mime : Option String) (c : List ℕ) (k : ℕ)
      (o : Option Pending) (e : lookup name s.pending ≡ o) (c' : List ℕ) (cs : List (List ℕ))
      → let r = store_chunk s name mime c true (some k) (base64_bytes c) in
        Uploaded name mime
          (some (grow mime c (some k) (base64_bytes c) o))
          c'
          cs
          (run r.0 (numbered name mime (suc k) c' cs))
          []
        → Uploaded name mime o c (c' ∷ cs) (run r.0 (numbered name mime (suc k) c' cs)) r.1
  step s name mime c k o e c' cs h = ground (
    arith,
    h,
    store_more s name mime c k (base64_bytes c) o e,
    append_assoc (joined mime o).chunks (c ∷ []) (c' ∷ cs),
  )

  -- From a state in which chunk `k` is awaited, the chunks from `k` on complete the asset: its
  -- chunks are those that were in flight and the new ones, in order, its size is theirs, and the
  -- one event is that it is ready.
  upload_rest :
      (s : Surface V) (name : String) (mime : Option String) (k : ℕ) (c : List ℕ)
      (cs : List (List ℕ)) (o : Option Pending)
      → lookup name s.pending ≡ o
      → is_poisoned name s ≡ false
      → wanted o ≡ k
      → AllCarryData (c ∷ cs)
      → s.usage - replacing s name + payload (c ∷ cs) ≤ s.capacity
      → let p = joined mime o in
        let r = run s (numbered name mime k c cs) in
        (lookup name r.0.assets
          ≡ some (record {
            mime = p.mime;
            chunks = p.chunks ++ (c ∷ cs);
            size = p.bytes + payload (c ∷ cs);
            source = none;
          }))
        × (r.1 ≡ asset_ready name (p.bytes + payload (c ∷ cs)) ∷ [])
  unfolding run
  upload_rest s name mime k c [] o e p w d fits =
      subst (λ r. Uploaded name mime o c [] (run r.0 []) r.1)
        (sym (accepted s name mime c false k p (ground (arith, e, w)) d.0 (omega arith)))
        (ground (arith, store_last s name mime c k (base64_bytes c) o e))
  upload_rest s name mime k c (c' ∷ cs) o e p w d fits =
      subst (λ r. Uploaded name mime o c (c' ∷ cs) (run r.0 (numbered name mime (suc k) c' cs)) r.1)
        (sym (accepted s name mime c true k p (ground (arith, e, w)) d.0 (omega arith)))
        (step s name mime c k o e c' cs (
          upload_rest (store_chunk s name mime c true (some k) (base64_bytes c)).0 name mime (suc k)
            c' cs (some (grow mime c (some k) (base64_bytes c) o))
            (store_more s name mime c k (base64_bytes c) o e).0
            (ground (arith, store_more s name mime c k (base64_bytes c) o e, p)) refl d.1
            (omega (arith, store_more s name mime c k (base64_bytes c) o e, fits))))

  restarted :
      (s : Surface V) (name : String) (mime : Option String) (c : List ℕ) (append : Bool)
      → is_poisoned name s ≡ true
      → apply s (Op.register_asset name mime c append (some 0))
        ≡ apply
            (record s { poisoned = erase name s.poisoned })
            (Op.register_asset name mime c append (some 0))
  unfolding apply register_asset
  restarted s name mime c append p = ground (arith, p, lookup-erase_self name s.poisoned)

  run_restarted :
      (s : Surface V) (name : String) (mime : Option String) (c : List ℕ) (cs : List (List ℕ))
      → is_poisoned name s ≡ true
      → run s (numbered name mime 0 c cs)
        ≡ run (record s { poisoned = erase name s.poisoned }) (numbered name mime 0 c cs)
  unfolding run
  run_restarted s name mime c [] p =
      ap {B = Outcome V} (λ o. (o.0, o.1 ++ [])) (restarted s name mime c false p)
  run_restarted s name mime c (c' ∷ cs) p =
      ap {B = Outcome V} (λ o. let r = run o.0 (numbered name mime 1 c' cs) in (r.0, o.1 ++ r.1))
        (restarted s name mime c true p)

  -- An upload of chunks numbered from 0, each with data, of a name that is not in flight, completes
  -- if its bytes fit beside what is stored (an asset that it replaces not counted), also where an
  -- earlier upload of the name was aborted: afterwards the asset holds exactly those chunks in
  -- order, with their size, and the only event is that it is ready.
  pub upload_completes :
      (s : Surface V) (name : String) (mime : Option String) (c : List ℕ) (cs : List (List ℕ))
      → lookup name s.pending ≡ none
      → AllCarryData (c ∷ cs)
      → s.usage - replacing s name + payload (c ∷ cs) ≤ s.capacity
      → let r = run s (numbered name mime 0 c cs) in
        (lookup name r.0.assets
          ≡ some (record {
            mime = with_default mime "application/octet-stream";
            chunks = c ∷ cs;
            size = payload (c ∷ cs);
            source = none;
          }))
        × (r.1 ≡ asset_ready name (payload (c ∷ cs)) ∷ [])
  upload_completes s name mime c cs e d fits = elim (Bool-cases (is_poisoned name s)) [
    | inr p ↦ rw zero-add at (upload_rest s name mime 0 c cs none e p refl d fits)
    | inl p ↦ rw (run_restarted s name mime c cs p) (
        rw zero-add at (
          upload_rest (record s { poisoned = erase name s.poisoned }) name mime 0 c cs none e
            (rw (lookup-erase_self name s.poisoned, is_poisoned) refl) refl d fits))
  ]
