-- ===== src/Surface/Assets.antt =====
-- www/surface-core.js: `register_asset`, `unregister_asset`, and the asset accessors.
use Prim.Native.String.{String}
use mathlib.Core.List.{flat_map}
use agent_mobile.Common.{
  ℕ, suc, ◌+◌, ◌-◌, Bool, true, false, Option, none, some, List, [], ◌∷◌, ◌++◌, ltb, ◌==◌,
  if◌then◌else◌, lookup, insert, erase, string_eq, share,
}
use agent_mobile.Surface.{
  Asset, Pending, Surface, Error, aborted_before, empty_payload, bad_seq, cap_exceeded, Event,
  asset_ready, asset_removed, render_result, Outcome,
}
use agent_mobile.Surface.Base64.{base64_bytes}

abbrev pub bytes_of : Pending → ℕ
bytes_of p = p.bytes

abbrev pub size_of : Asset → ℕ
size_of a = a.size

abbrev pub is_poisoned : {V : Type 0} → String → Surface V → Bool
is_poisoned name s = elim (lookup name s.poisoned) [ none ↦ false | some _ ↦ true ]

-- The event of a failed operation.
abbrev pub failed : (V : Type 0) → Option String → Error → List (Event V)
failed V key e = render_result key false (some e) ∷ []

-- `abort`: the upload's bytes are given back (`Math.max(0, …)`), and its name is poisoned.
unfoldable pub abort : {V : Type 0} → Surface V → String → Error → Outcome V
abort {V} s name e = (
  record s {
    usage = s.usage - share bytes_of (lookup name s.pending);
    pending = erase name s.pending;
    poisoned = insert name tt s.poisoned;
  },
  failed V (some name) e,
)

abbrev pub with_default : {A : Type 0} → Option A → A → A
with_default none d = d
with_default (some a) d = a

-- `finishAsset`, given the upload that it completes.
unfoldable pub finish_asset : {V : Type 0} → Surface V → String → Pending → Outcome V
finish_asset s name p = (
  record s {
    pending = erase name s.pending;
    assets =
        insert name (record { mime = p.mime; chunks = p.chunks; size = p.bytes; source = none })
          s.assets;
  },
  asset_ready name p.bytes ∷ [],
)

-- The upload that a chunk joins: the one in flight, or a new one.
abbrev pub joined : Option String → Option Pending → Pending
joined mime inflight = with_default inflight (record {
  mime = with_default mime "application/octet-stream";
  chunks = [];
  bytes = 0;
  next = 0;
})

-- The upload with one more chunk.
abbrev pub grow : Option String → List ℕ → Option ℕ → ℕ → Option Pending → Pending
grow mime b64 seq bytes inflight =
    let p = joined mime inflight in
    record p {
      chunks = p.chunks ++ (b64 ∷ []);
      bytes = p.bytes + bytes;
      next = elim seq [ none ↦ p.next | some k ↦ suc k ];
    }

-- The bytes that a replacement gives back: those of a complete asset, where no upload is in flight.
abbrev pub replacing : {V : Type 0} → Surface V → String → ℕ
replacing s name = elim (lookup name s.pending) [
  | none ↦ share size_of (lookup name s.assets)
  | some _ ↦ 0
]

-- The part of `register_asset` behind the storage cap: `usage - replacing` never falls below 0,
-- since the asset that is replaced is counted in `usage`.
unfoldable pub store_chunk :
    {V : Type 0} → Surface V → String → Option String → List ℕ → Bool → Option ℕ → ℕ → Outcome V
store_chunk s name mime b64 append seq bytes =
    let back = replacing s name in
    let p = grow mime b64 seq bytes (lookup name s.pending) in
    let stored = record s {
      usage = s.usage - back + bytes;
      assets = if back == 0 then s.assets else erase name s.assets;
      pending = insert name p s.pending;
    } in
    if append then (stored, []) else finish_asset stored name p

-- The part behind the check of the sequence number.
unfoldable pub check_cap :
    {V : Type 0} → Surface V → String → Option String → List ℕ → Bool → Option ℕ → ℕ → Outcome V
check_cap s name mime b64 append seq bytes =
    let back = replacing s name in
    if ltb s.capacity (s.usage - back + bytes)
    then abort s name (cap_exceeded (s.usage - back) bytes s.capacity)
    else store_chunk s name mime b64 append seq bytes

-- The chunk number that an upload waits for.
abbrev pub wanted : Option Pending → ℕ
wanted none = 0
wanted (some p) = p.next

-- The part behind the check of poisoned names.
unfoldable pub check_chunk :
    {V : Type 0} → Surface V → String → Option String → List ℕ → Bool → Option ℕ → Outcome V
check_chunk s name mime b64 append seq =
    let bytes = base64_bytes b64 in
    let want = wanted (lookup name s.pending) in
    let go_on = check_cap s name mime b64 append seq bytes in
    if bytes == 0 then abort s name (empty_payload name) else elim seq [
      | none ↦ go_on
      | some k ↦ if k == want then go_on else abort s name (bad_seq name k want)
    ]

-- A poisoned name restarts at `seq` 0.
abbrev pub restarts : Option ℕ → Bool
restarts none = false
restarts (some k) = k == 0

-- `register_asset`, of a name that objects do not inherit; under another, the source finds a function
-- in `pending`, and its bytes make `usage` NaN.
unfoldable pub register_asset :
    {V : Type 0} → Surface V → String → Option String → List ℕ → Bool → Option ℕ → Outcome V
register_asset {V} s name mime b64 append seq =
    if is_poisoned name s
    then if restarts seq
      then check_chunk (record s { poisoned = erase name s.poisoned }) name mime b64 append seq
      else (s, failed V (some name) (aborted_before name))
    else check_chunk s name mime b64 append seq

unfoldable pub unregister_asset : {V : Type 0} → Surface V → String → Outcome V
unregister_asset s name =
    let freed = share bytes_of (lookup name s.pending) + share size_of (lookup name s.assets) in
    (
      record s {
        pending = erase name s.pending;
        poisoned = erase name s.poisoned;
        assets = erase name s.assets;
        usage = s.usage - freed;
      },
      asset_removed name freed (s.usage - freed) ∷ [],
    )

-- `getAssetSource`: the decoded chunks, joined, computed once. `decode` is `decodeB64`, which the
-- host's `atob` and `TextDecoder` do.
module _ (decode : List ℕ → List ℕ) where
  unfoldable pub get_asset_source : {V : Type 0} → Surface V → String → Option (List ℕ) × Surface V
  get_asset_source s name = elim (lookup name s.assets) [
    | none ↦ (none, s)
    | some a ↦ elim a.source [
      | some text ↦ (some text, s)
      | none ↦
          let text = flat_map decode a.chunks in
          (some text, record s { assets = insert name (record a { source = some text }) s.assets })
    ]
  ]
