-- ===== src/Surface/Cases.antt =====
-- www/surface-core.js: the ways through `register_asset`, as rules for proofs about it.
use Prim.Native.String.{String}
use agent_mobile.Common.{
  ℕ, ◌+◌, ◌-◌, ◌≤◌, ◌<◌, ◌≡◌, refl, ◌⊎◌, inl, inr, Bool, true, false, Option, none, some, List, ltb,
  ◌==◌, if◌then◌else◌, lookup, erase, string_eq, arith, if-cases, ltb→le,
}
use agent_mobile.Surface.{
  aborted_before, empty_payload, cap_exceeded, bad_seq, Surface, Error, Outcome,
}
use agent_mobile.Surface.Base64.{base64_bytes}
use agent_mobile.Surface.Assets.{
  is_poisoned, failed, replacing, wanted, restarts, abort, store_chunk, check_cap, check_chunk,
  register_asset,
}

-- The ways through `register_asset`, each with what its tests have shown.
pub check_chunk_cases {ℓ} :
    {V : Type 0} (P : Outcome V → Type ℓ) (s : Surface V) (name : String) (mime : Option String)
    (b64 : List ℕ) (append : Bool) (seq : Option ℕ)
    → ((e : Error) → P (abort s name e))
    → (0 < base64_bytes b64
        → s.usage - replacing s name + base64_bytes b64 ≤ s.capacity
        → (seq ≡ none) ⊎ (seq ≡ some (wanted (lookup name s.pending)))
        → P (store_chunk s name mime b64 append seq (base64_bytes b64)))
    → P (check_chunk s name mime b64 append seq)
unfolding check_chunk check_cap
check_chunk_cases P s name mime b64 append seq bad good =
    if-cases P (n == 0) _ _ (λ _. bad (empty_payload name)) (λ pos. numbered seq refl pos)
  where
    n : ℕ
    n = base64_bytes b64

    capped :
        n == 0 ≡ false
        → (seq ≡ none) ⊎ (seq ≡ some (wanted (lookup name s.pending)))
        → P (check_cap s name mime b64 append seq n)
    capped pos ok =
        if-cases P (ltb s.capacity (s.usage - replacing s name + n)) _ _
          (λ _. bad (cap_exceeded (s.usage - replacing s name) n s.capacity))
          (λ fits. good (ground arith) (ltb→le _ _ fits) ok)

    numbered :
        (q : Option ℕ)
        → seq ≡ q
        → n == 0 ≡ false
        → P (elim q [
          | none ↦ check_cap s name mime b64 append seq n
          | some k ↦
              if k == wanted (lookup name s.pending)
              then check_cap s name mime b64 append seq n
              else abort s name (bad_seq name k (wanted (lookup name s.pending)))
        ])
    numbered none e pos = capped pos (inl e)
    numbered (some k) e pos =
        if-cases P (k == wanted (lookup name s.pending)) _ _
          (λ h. capped pos (inr (ground (arith, e, h))))
          (λ _. bad (bad_seq name k (wanted (lookup name s.pending))))

pub register_asset_cases {ℓ} :
    {V : Type 0} (P : Outcome V → Type ℓ) (s : Surface V) (name : String) (mime : Option String)
    (b64 : List ℕ) (append : Bool) (seq : Option ℕ)
    → P (s, failed V (some name) (aborted_before name))
    → (lookup name s.poisoned ≡ none → P (check_chunk s name mime b64 append seq))
    → (restarts seq ≡ true
        → P (check_chunk (record s { poisoned = erase name s.poisoned }) name mime b64 append seq))
    → P (register_asset s name mime b64 append seq)
unfolding register_asset
register_asset_cases P s name mime b64 append seq stay fresh restart =
    if-cases P (is_poisoned name s) _ _ (λ _. if-cases P (restarts seq) _ _ restart (λ _. stay))
      (λ clear. fresh (ground (arith, clear)))
