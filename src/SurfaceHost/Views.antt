-- ===== src/SurfaceHost/Views.antt =====
-- www/surface-host.js: the tiles and their frames, over any run of batches, loads and messages.
use Prim.Native.String.{String}
use text.Mathlib.Text.{◌==◌ as str_eq}
use agent_mobile.Common.{
  ℕ, ◌+◌, ◌≤◌, ◌<◌, ◌≡◌, ◌⊎◌, inl, inr, refl, sym, ap, ◌∙◌, subst, Bool, true, false, some, List,
  [], ◌∷◌, lookup, insert, erase, string_eq, IsMap, insert-IsMap, erase-IsMap, lookup-insert,
  lookup-erase, lookup-nil, arith, Option-match, Bool-cases, if-cases,
}
use agent_mobile.Surface.{Surface}
use agent_mobile.Surface.Names.{is_inherited}
use agent_mobile.SurfaceHost.{View, Host, new_view, sync, put_view, with_view, teardown_view}

-- Nothing waits for a frame that is there.
abbrev pub IsIdle : {V : Type 0} → View V → Type 0
IsIdle v = v.ready ≡ true → v.queue ≡ []

-- Each key has one tile, each frame is that of one tile and was made before `n`, and nothing waits
-- for a frame that has loaded.
pub record IsTidy {V : Type 0} (n : ℕ) (views : List (String × View V)) : Type 0 where
  pub map : IsMap views
  pub made : (k : String) (v : View V) (f : ℕ) → lookup k views ≡ some v → v.iframe ≡ some f → f < n
  pub distinct :
      (j k : String) (u v : View V) (f : ℕ)
      → lookup j views ≡ some u
      → lookup k views ≡ some v
      → u.iframe ≡ some f
      → v.iframe ≡ some f
      → j ≡ k
  pub idle : (k : String) (v : View V) → lookup k views ≡ some v → IsIdle v

abbrev pub has_any : {V : Type 0} → List (String × View V) → Bool
has_any [] = false
has_any (_ ∷ _) = true

-- The tiles are tidy, and the class of the body says whether there is one.
pub record IsSound {V : Type 0} (h : Host V) : Type 0 where
  pub tidy : IsTidy h.next_frame h.views
  pub occupied : h.occupied ≡ has_any h.views

-- A tile in the place of an old one, with its frame or the next one.
pub record Places {V : Type 0} (n : ℕ) (old v : View V) (n' : ℕ) : Type 0 where
  pub idle : IsIdle v
  pub frame : ((v.iframe ≡ old.iframe) × (n' ≡ n)) ⊎ ((v.iframe ≡ some n) × (n' ≡ n + 1))

module _ {V : Type 0} where
  -- What a lookup finds after an insertion.
  lookup-insert_cases :
      (k j : String) (v u : View V) (views : List (String × View V))
      → lookup j (insert k v views) ≡ some u
      → ((k ≡ j) × (v ≡ u)) ⊎ (lookup j views ≡ some u)
  lookup-insert_cases k j v u views h = elim (Bool-cases (str_eq k j)) [
    | inl e ↦
        let h' : some v ≡ some u = rw (lookup-insert k j v views, e) at h in
        inl ((string_eq.beq_iff k j).0 e, ground (arith, h'))
    | inr e ↦ inr (rw (lookup-insert k j v views, e) at h)
  ]

  insert-IsTidy :
      (n n' : ℕ) (key : String) (v : View V) (views : List (String × View V))
      → n ≤ n'
      → IsIdle v
      → ((f : ℕ)
          → v.iframe ≡ some f
          → (f < n')
            × ((j : String) (u : View V) → lookup j views ≡ some u → u.iframe ≡ some f → j ≡ key))
      → IsTidy n views
      → IsTidy n' (insert key v views)
  insert-IsTidy n n' key v views le idle own t = record {
    map = insert-IsMap key v views t.map;
    made = λ k u f h e. elim (lookup-insert_cases key k v u views h) [
      | inl (a, b) ↦ (own f (ap View.iframe b ∙ e)).0
      | inr b ↦ omega (arith, le, t.made k u f b e)
    ];
    distinct = λ j k u w f hj hk ej ek. elim (lookup-insert_cases key j v u views hj) [
      | inl (a, b) ↦ elim (lookup-insert_cases key k v w views hk) [
        | inl (a', b') ↦ sym a ∙ a'
        | inr b' ↦ sym ((own f (ap View.iframe b ∙ ej)).1 k w b' ek ∙ a)
      ]
      | inr b ↦ elim (lookup-insert_cases key k v w views hk) [
        | inl (a', b') ↦ (own f (ap View.iframe b' ∙ ek)).1 j u b ej ∙ a'
        | inr b' ↦ t.distinct j k u w f b b' ej ek
      ]
    ];
    idle = λ k u h. elim (lookup-insert_cases key k v u views h) [
      | inl (a, b) ↦ subst IsIdle b idle
      | inr b ↦ t.idle k u b
    ];
  }

  placed :
      (n n' : ℕ) (key : String) (old v : View V) (views : List (String × View V))
      → lookup key views ≡ some old
      → Places n old v n'
      → IsTidy n views
      → IsTidy n' (insert key v views)
  placed n n' key old v views e p t = elim p.frame [
    | inl (a, b) ↦
        insert-IsTidy n n' key v views (omega (arith, b)) p.idle
          (λ f h. (
            omega (arith, b, t.made key old f e (sym a ∙ h)),
            λ j u hj ej. t.distinct j key u old f hj e ej (sym a ∙ h),
          ))
          t
    | inr (a, b) ↦
        insert-IsTidy n n' key v views (omega (arith, b)) p.idle
          (λ f h.
            let same : n ≡ f = ground (arith, a, h) in
            (omega (arith, b, same), λ j u hj ej. absurd (omega (arith, t.made j u f hj ej, same))))
          t
  ]

  has_any-insert :
      (k : String) (v : View V) (views : List (String × View V)) → has_any (insert k v views) ≡ true
  unfolding insert
  has_any-insert k v [] = refl
  has_any-insert k v ((j, u) ∷ views) = ground arith

  has_any-lookup :
      (k : String) {v : View V} (views : List (String × View V))
      → lookup k views ≡ some v
      → has_any views ≡ true
  has_any-lookup k [] h = absurd (lookup-nil k h)
  has_any-lookup k (_ ∷ _) h = refl

  -- A tile that is put in the place of an old one.
  pub put-IsSound :
      (h : Host V) (key : String) (old v : View V) (s : Surface V) (n' : ℕ)
      → lookup key h.views ≡ some old
      → Places h.next_frame old v n'
      → IsSound h
      → IsSound (put_view key v (record h { surface = s; next_frame = n' }))
  put-IsSound h key old v s n' e p w = record {
    tidy = placed h.next_frame n' key old v h.views e p w.tidy;
    occupied = w.occupied ∙ has_any-lookup key h.views e ∙ sym (has_any-insert key v h.views);
  }

  pub with_view-IsSound : (key : String) (h : Host V) → IsSound h → IsSound (with_view key h)
  unfolding with_view sync
  with_view-IsSound key h w =
      Option-match IsSound (lookup key h.views) _ _
        (λ _.
          if-cases IsSound (is_inherited key) _ _ (λ _. w)
            (λ _. record {
              tidy =
                  insert-IsTidy h.next_frame h.next_frame key new_view h.views (omega arith)
                    (λ _. refl) (λ f e. absurd (cc)) w.tidy;
              occupied = ground arith;
            }))
        (λ _ _. w)

  lookup-erase_cases :
      (k j : String) (u : View V) (views : List (String × View V))
      → lookup j (erase k views) ≡ some u
      → lookup j views ≡ some u
  lookup-erase_cases k j u views h = ground (arith, h, lookup-erase k j views)

  pub teardown_view-IsSound :
      (key : String) (h : Host V) → IsSound h → IsSound (teardown_view key h)
  unfolding teardown_view sync
  teardown_view-IsSound key h w =
      Option-match IsSound (lookup key h.views) _ _ (λ _. w)
        (λ _ _. record {
          tidy = record {
            map = erase-IsMap key h.views w.tidy.map;
            made = λ k v f e. w.tidy.made k v f (lookup-erase_cases key k v h.views e);
            distinct = λ j k u v f hj hk.
                w.tidy.distinct j k u v f (lookup-erase_cases key j u h.views hj)
                  (lookup-erase_cases key k v h.views hk);
            idle = λ k v e. w.tidy.idle k v (lookup-erase_cases key k v h.views e);
          };
          occupied = ground arith;
        })
