-- ===== src/Surface/Sound.antt =====
-- www/surface-core.js: the accounting of stored bytes. The invariant of a surface, and that the
-- operations on assets keep it.
use Prim.Native.String.{String}
use agent_mobile.Common.{
  ℕ, ◌+◌, ◌-◌, ◌≤◌, ◌<◌, ◌≡◌, refl, ◌⊎◌, inl, inr, Bool, true, false, Option, none, some, List,
  ◌==◌, if◌then◌else◌, lookup, insert, erase, string_eq, share, total, IsMap, insert-IsMap,
  erase-IsMap, lookup-insert_self, total-insert, total-erase, lookup-insert, lookup-erase, beq_refl,
  arith, Bool-cases, Option-cases,
}
use agent_mobile.Surface.{Asset, Pending, Surface, Error}
use agent_mobile.Surface.Assets.{
  bytes_of, size_of, replacing, grow, abort, finish_asset, store_chunk, unregister_asset,
}

pub record IsSound {V : Type 0} (s : Surface V) : Type 0 where
  pub assets_map : IsMap s.assets
  pub pending_map : IsMap s.pending
  -- `usage` counts every stored byte once
  pub accounted : s.usage ≡ total size_of s.assets + total bytes_of s.pending
  pub within : s.usage ≤ s.capacity
  -- no name is complete and in flight at once
  pub apart : (n : String) → (lookup n s.pending ≡ none) ⊎ (lookup n s.assets ≡ none)
  pub sized : (n : String) (a : Asset) → lookup n s.assets ≡ some a → 0 < a.size
  -- a poisoned name has nothing in flight
  pub clean : (n : String) → (lookup n s.poisoned ≡ none) ⊎ (lookup n s.pending ≡ none)

grow_bytes :
    (mime : Option String) (b64 : List ℕ) (seq : Option ℕ) (bytes : ℕ) (o : Option Pending)
    → (grow mime b64 seq bytes o).bytes ≡ share bytes_of o + bytes
grow_bytes mime b64 seq bytes none = refl
grow_bytes mime b64 seq bytes (some p) = refl

module _ {V : Type 0} where
  -- Operations that leave the byte stores alone.
  pub same_stores :
      (s t : Surface V)
      → t.capacity ≡ s.capacity
      → t.assets ≡ s.assets
      → t.usage ≡ s.usage
      → t.pending ≡ s.pending
      → t.poisoned ≡ s.poisoned
      → IsSound s
      → IsSound t
  same_stores s t c a u p q v = record {
    assets_map = rw a v.assets_map;
    pending_map = rw p v.pending_map;
    accounted = rw (u, a, p) v.accounted;
    within = rw (u, c) v.within;
    apart = rw (p, a) v.apart;
    sized = rw a v.sized;
    clean = rw (q, p) v.clean;
  }

  pub abort-IsSound :
      (s : Surface V) (name : String) (e : Error) → IsSound s → IsSound (abort s name e).0
  unfolding abort
  abort-IsSound s name e v = record {
    assets_map = v.assets_map;
    pending_map = erase-IsMap name s.pending v.pending_map;
    accounted = omega (arith, total-erase bytes_of name s.pending v.pending_map, v.accounted);
    within = omega (arith, v.within);
    apart = λ n. ground (arith, v.apart n, lookup-erase name n s.pending);
    sized = v.sized;
    clean = λ n. ground (
      arith,
      v.clean n,
      lookup-erase name n s.pending,
      lookup-insert name n tt s.poisoned,
      string_eq.beq_iff name n,
    );
  }

  pub unregister_asset-IsSound :
      (s : Surface V) (name : String) → IsSound s → IsSound (unregister_asset s name).0
  unfolding unregister_asset
  unregister_asset-IsSound s name v = record {
    assets_map = erase-IsMap name s.assets v.assets_map;
    pending_map = erase-IsMap name s.pending v.pending_map;
    accounted = omega (
      arith,
      total-erase bytes_of name s.pending v.pending_map,
      total-erase size_of name s.assets v.assets_map,
      v.accounted,
    );
    within = omega (arith, v.within);
    apart =
        λ n. ground (arith, v.apart n, lookup-erase name n s.pending, lookup-erase name n s.assets);
    sized = λ n a h. v.sized n a (ground (arith, lookup-erase name n s.assets, h));
    clean = λ n.
        ground (arith, v.clean n, lookup-erase name n s.pending, lookup-erase name n s.poisoned);
  }

  pub restart-IsSound :
      (s : Surface V) (name : String)
      → IsSound s
      → IsSound (record s { poisoned = erase name s.poisoned })
  restart-IsSound s name v = record {
    assets_map = v.assets_map;
    pending_map = v.pending_map;
    accounted = v.accounted;
    within = v.within;
    apart = v.apart;
    sized = v.sized;
    clean = λ n. ground (arith, v.clean n, lookup-erase name n s.poisoned);
  }

  -- The assets once a replaced one is out.
  abbrev rest : Surface V → String → List (String × Asset)
  rest s name = if replacing s name == 0 then s.assets else erase name s.assets

  rest-IsMap : (s : Surface V) (name : String) → IsSound s → IsMap (rest s name)
  rest-IsMap s name v = elim (Bool-cases (replacing s name == 0)) [
    | inl e ↦ rw e v.assets_map
    | inr e ↦ rw e (erase-IsMap name s.assets v.assets_map)
  ]

  -- The name to be stored is free by then.
  lookup-rest_self : (s : Surface V) (name : String) → IsSound s → lookup name (rest s name) ≡ none
  lookup-rest_self s name v = elim (Option-cases (lookup name s.assets)) [
    | inl e ↦ ground (arith, e, lookup-erase name name s.assets)
    | inr (a, e) ↦
        ground
          (arith, e, v.sized name a e, v.apart name, lookup-erase name name s.assets, beq_refl name)
  ]

  lookup-rest :
      (s : Surface V) (name n : String) (a : Asset)
      → lookup n (rest s name) ≡ some a
      → lookup n s.assets ≡ some a
  lookup-rest s name n a h = ground (arith, h, lookup-erase name n s.assets)

  total-rest :
      (s : Surface V) (name : String)
      → IsSound s
      → total size_of (rest s name) + replacing s name ≡ total size_of s.assets
  total-rest s name v = elim (Option-cases (lookup name s.pending)) [
    | inl e ↦ ground (arith, e, total-erase size_of name s.assets v.assets_map)
    | inr (p, e) ↦ ground (arith, e)
  ]

  lookup-rest-none :
      (s : Surface V) (name n : String) → lookup n s.assets ≡ none → lookup n (rest s name) ≡ none
  lookup-rest-none s name n h = ground (arith, h, lookup-erase name n s.assets)

  module _ (s : Surface V) (name : String) (v : IsSound s) where
    stored-IsSound :
        (p : Pending) (bytes : ℕ)
        → lookup name s.poisoned ≡ none
        → s.usage - replacing s name + bytes ≤ s.capacity
        → p.bytes ≡ share bytes_of (lookup name s.pending) + bytes
        → IsSound (record s {
          usage = s.usage - replacing s name + bytes;
          assets = rest s name;
          pending = insert name p s.pending;
        })
    stored-IsSound p bytes fresh fits e = record {
      assets_map = rest-IsMap s name v;
      pending_map = insert-IsMap name p s.pending v.pending_map;
      accounted =
          omega
            (arith, total-rest s name v, total-insert bytes_of name p s.pending, v.accounted, e);
      within = fits;
      apart = λ n. ground (
        arith,
        v.apart n,
        lookup-insert name n p s.pending,
        string_eq.beq_iff name n,
        lookup-rest_self s name v,
        lookup-rest-none s name n,
      );
      sized = λ n a h. v.sized n a (lookup-rest s name n a h);
      clean = λ n.
          ground
            (arith, v.clean n, lookup-insert name n p s.pending, string_eq.beq_iff name n, fresh);
    }

  pub finish_asset-IsSound :
      (s : Surface V) (name : String) (p : Pending)
      → lookup name s.pending ≡ some p
      → 0 < p.bytes
      → IsSound s
      → IsSound (finish_asset s name p).0
  unfolding finish_asset
  finish_asset-IsSound s name p e pos v = record {
    assets_map = insert-IsMap name _ s.assets v.assets_map;
    pending_map = erase-IsMap name s.pending v.pending_map;
    accounted = ground (
      arith,
      total-erase bytes_of name s.pending v.pending_map,
      total-insert size_of name
          (record { mime = p.mime; chunks = p.chunks; size = p.bytes; source = none }) s.assets,
      v.accounted,
      v.apart name,
      e,
    );
    within = v.within;
    apart = λ n. ground (
      arith,
      v.apart n,
      lookup-erase name n s.pending,
      lookup-insert name n
          (record { mime = p.mime; chunks = p.chunks; size = p.bytes; source = none }) s.assets,
    );
    sized = λ n a h. ground (
      arith,
      v.sized n a,
      lookup-insert name n
          (record { mime = p.mime; chunks = p.chunks; size = p.bytes; source = none }) s.assets,
      h,
    );
    clean = λ n. ground (arith, v.clean n, lookup-erase name n s.pending);
  }

  pub store_chunk-IsSound :
      (s : Surface V) (name : String) (mime : Option String) (b64 : List ℕ) (append : Bool)
      (seq : Option ℕ) (bytes : ℕ)
      → IsSound s
      → lookup name s.poisoned ≡ none
      → 0 < bytes
      → s.usage - replacing s name + bytes ≤ s.capacity
      → IsSound (store_chunk s name mime b64 append seq bytes).0
  unfolding store_chunk
  store_chunk-IsSound s name mime b64 true seq bytes v fresh pos fits =
      stored-IsSound s name v (grow mime b64 seq bytes (lookup name s.pending)) bytes fresh fits
        (grow_bytes mime b64 seq bytes (lookup name s.pending))
  store_chunk-IsSound s name mime b64 false seq bytes v fresh pos fits =
      finish_asset-IsSound _ name p (lookup-insert_self name p s.pending)
        (omega (arith, grow_bytes mime b64 seq bytes (lookup name s.pending)))
        (stored-IsSound s name v p bytes fresh fits
          (grow_bytes mime b64 seq bytes (lookup name s.pending)))
    where
      p : Pending
      p = grow mime b64 seq bytes (lookup name s.pending)
