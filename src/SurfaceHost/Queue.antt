-- ===== src/SurfaceHost/Queue.antt =====
-- www/surface-host.js, `post` and the load of a frame: what waits is what would have been posted.
use Prim.Native.String.{String}
use agent_mobile.Common.{
  ℕ, ◌≡◌, refl, sym, ap, true, false, none, some, List, [], ◌∷◌, ◌++◌, map, lookup, insert,
  string_eq, lookup-insert_self, lookup-erase_self, beq_refl, arith, Option-match,
}
use agent_mobile.Surface.{WidgetType, Props, feed, update, Op, Outcome}
use agent_mobile.Surface.Apply.{apply}
use agent_mobile.Surface.Widgets.{remove_widget}
use agent_mobile.SurfaceHost.Tiles.{surface-teardown_view}
use agent_mobile.SurfaceHost.{
  Message, vm_render, vm_data, Page, View, Host, posted, put_view, sync, teardown_view, post,
  post_all, on_load, threw, unless_threw,
}
use agent_mobile.SurfaceHost.Handlers.{
  feed_view, handle_update, handle_data, handle_event, handle_events, apply_op,
}

module _ {V : Type 0} where
  pub insert_self :
      (k : String) (v : V) (m : List (String × V)) → lookup k m ≡ some v → insert k v m ≡ m
  unfolding lookup insert
  insert_self k v [] h = absurd (cc)
  insert_self k v ((j, w) ∷ m) h = ground (arith, h, insert_self k v m)

  insert-insert :
      (k : String) (v w : V) (m : List (String × V)) → insert k w (insert k v m) ≡ insert k w m
  unfolding insert
  insert-insert k v w [] = ground (arith, beq_refl ⦃e = string_eq⦄ k)
  insert-insert k v w ((j, u) ∷ m) = ground (arith, insert-insert k v w m)

  append-nil : (xs : List V) → xs ++ [] ≡ xs
  append-nil [] = refl
  append-nil (x ∷ xs) = ap (λ l. x ∷ l) (append-nil xs)

  append_assoc : (xs ys zs : List V) → (xs ++ ys) ++ zs ≡ xs ++ (ys ++ zs)
  append_assoc [] ys zs = refl
  append_assoc (x ∷ xs) ys zs = ap (λ l. x ∷ l) (append_assoc xs ys zs)

map-append : {A B : Type 0} (f : A → B) (xs ys : List A) → map f (xs ++ ys) ≡ map f xs ++ map f ys
map-append f [] ys = refl
map-append f (x ∷ xs) ys = ap (λ l. f x ∷ l) (map-append f xs ys)

-- The tile of a registered type that waits for its frame `f`.
pub record Waits {V : Type 0} (h : Host V) (key : String) (f : ℕ) (v : View V) : Type 0 where
  pub there : lookup key h.views ≡ some v
  pub frame : v.iframe ≡ some f
  pub def : WidgetType
  pub registered : lookup v.type h.surface.types ≡ some def
  pub unready : v.ready ≡ false

module _ {V : Type 0} (page : Page V) where
  -- The data of a publish, as it is posted.
  abbrev pub data_of : V → Message V
  data_of d = vm_data (page.or_empty (page.or_empty d))

  feed_waiting :
      (h : Host V) (key : String) (f : ℕ) (v : View V) (d : V)
      → Waits h key f v
      → handle_event page h (feed key d)
        ≡ ([], put_view key (record v { queue = v.queue ++ (data_of d ∷ []) }) h)
  unfolding handle_event handle_data feed_view post_all post
  feed_waiting h key f v d w = ground (arith, w.there, w.frame, w.registered, w.unready)

  feed_loaded :
      (h : Host V) (key : String) (f : ℕ) (v : View V) (def : WidgetType) (d : V)
      → lookup key h.views ≡ some v
      → v.iframe ≡ some f
      → lookup v.type h.surface.types ≡ some def
      → v.ready ≡ true
      → handle_event page h (feed key d) ≡ (posted f (data_of d) ∷ [], h)
  unfolding handle_event handle_data feed_view post_all post
  feed_loaded h key f v def d e i r q = ground (arith, e, i, r, q, insert_self key v h.views e)

  -- A tile with more in its queue waits all the same.
  queued :
      (h : Host V) (key : String) (f : ℕ) (v : View V) (q : List (Message V))
      → Waits h key f v
      → Waits (put_view key (record v { queue = q }) h) key f (record v { queue = q })
  queued h key f v q w = record {
    there = lookup-insert_self key _ h.views;
    frame = w.frame;
    def = w.def;
    registered = w.registered;
    unready = w.unready;
  }

  feeds_waiting :
      (ds : List V) (h : Host V) (key : String) (f : ℕ) (v : View V)
      → Waits h key f v
      → handle_events page h (map (feed key) ds)
        ≡ ([], put_view key (record v { queue = v.queue ++ map data_of ds }) h)
  unfolding handle_events unless_threw threw
  feeds_waiting [] h key f v w = rw (append-nil v.queue, insert_self key v h.views w.there) refl
  feeds_waiting (d ∷ ds) h key f v w =
      let v' : View V = record v { queue = v.queue ++ (data_of d ∷ []) } in
      rw
        (
          feed_waiting h key f v d w,
          feeds_waiting ds (put_view key v' h) key f v' (queued h key f v v'.queue w),
          append_assoc v.queue (data_of d ∷ []) (map data_of ds),
        )
        (ap (λ m. ([], record h { views = m })) (insert-insert key v' _ h.views))

  feeds_loaded :
      (ds : List V) (h : Host V) (key : String) (f : ℕ) (v : View V) (def : WidgetType)
      → lookup key h.views ≡ some v
      → v.iframe ≡ some f
      → lookup v.type h.surface.types ≡ some def
      → v.ready ≡ true
      → handle_events page h (map (feed key) ds) ≡ (map (posted f) (map data_of ds), h)
  unfolding handle_events unless_threw threw
  feeds_loaded [] h key f v def e i r q = refl
  feeds_loaded (d ∷ ds) h key f v def e i r q =
      rw (feed_loaded h key f v def d e i r q, feeds_loaded ds h key f v def e i r q) refl

  load :
      (h : Host V) (key : String) (f : ℕ) (v : View V)
      → lookup key h.views ≡ some v
      → v.iframe ≡ some f
      → on_load h key f
        ≡ (map (posted f) v.queue, put_view key (record v { ready = true; queue = [] }) h)
  unfolding on_load
  load h key f v e i = ground (arith, e, i)

  -- For the tile of a registered type whose frame has not loaded: to publish any data and then load
  -- the frame posts the same messages in the same order, and leaves the same host, as to load it
  -- and then publish; and these are what was in the queue, then the data, in the order of publishing.
  pub publish_before_load :
      (h : Host V) (key : String) (f : ℕ) (v : View V) (ds : List V)
      → Waits h key f v
      → let early = handle_events page h (map (feed key) ds) in
        let early_load = on_load early.1 key f in
        let late_load = on_load h key f in
        let late = handle_events page late_load.1 (map (feed key) ds) in
        (early.0 ++ early_load.0 ≡ late_load.0 ++ late.0)
        × (early_load.1 ≡ late.1)
        × (late_load.0 ++ late.0 ≡ map (posted f) (v.queue ++ map data_of ds))
  publish_before_load h key f v ds w =
      let v' : View V = record v { queue = v.queue ++ map data_of ds } in
      let loaded : View V = record v { ready = true; queue = [] } in
      let w' = queued h key f v v'.queue w in
      rw
        (
          feeds_waiting ds h key f v w,
          load h key f v w.there w.frame,
          load (put_view key v' h) key f v' w'.there w'.frame,
          feeds_loaded ds (put_view key loaded h) key f loaded w.def
              (lookup-insert_self key loaded h.views) w.frame w.registered refl,
          insert-insert key v' loaded h.views,
        )
        (
          map-append (posted f) v.queue (map data_of ds),
          refl,
          sym (map-append (posted f) v.queue (map data_of ds)),
        )

  update_posts :
      (h : Host V) (key : String) (f : ℕ) (v : View V) (def : WidgetType) (props : Props V)
      → lookup key h.views ≡ some v
      → v.iframe ≡ some f
      → lookup v.type h.surface.types ≡ some def
      → handle_event page h (update key (some props)) ≡ (posted f (vm_render props) ∷ [], h)
  unfolding handle_event handle_update
  update_posts h key f v def props e i r = ground (arith, e, i, r)

  -- For such a tile an update overtakes what waits: it is posted to the frame that has not loaded,
  -- before the queue, and not, as it would be once the frame has loaded, after it.
  pub update_overtakes_queue :
      (h : Host V) (key : String) (f : ℕ) (v : View V) (props : Props V)
      → Waits h key f v
      → let early = handle_event page h (update key (some props)) in
        let late_load = on_load h key f in
        (early.0 ++ (on_load early.1 key f).0 ≡ posted f (vm_render props) ∷ map (posted f) v.queue)
        × (late_load.0 ++ (handle_event page late_load.1 (update key (some props))).0
            ≡ map (posted f) v.queue ++ (posted f (vm_render props) ∷ []))
  update_overtakes_queue h key f v props w =
      let loaded : View V = record v { ready = true; queue = [] } in
      rw
        (
          update_posts h key f v w.def props w.there w.frame w.registered,
          load h key f v w.there w.frame,
          update_posts (put_view key loaded h) key f loaded w.def props
              (lookup-insert_self key loaded h.views) w.frame w.registered,
        )
        (refl, refl)

  lookup-teardown_view : (h : Host V) (key : String) → lookup key (teardown_view key h).views ≡ none
  unfolding teardown_view sync
  lookup-teardown_view h key =
      Option-match (λ (r : Host V). lookup key r.views ≡ none) (lookup key h.views) _ _ (λ e. e)
        (λ _ _. lookup-erase_self key h.views)

  widget_gone :
      (h : Host V) (key : String)
      → let o = apply h.surface (Op.remove_widget key) in
        lookup key (handle_events page (record h { surface = o.0 }) o.1).1.surface.widgets ≡ none
  unfolding apply remove_widget handle_events handle_event unless_threw threw
  widget_gone h key =
      Option-match
        (λ (o : Outcome V).
          lookup key (handle_events page (record h { surface = o.0 }) o.1).1.surface.widgets ≡ none)
        (lookup key h.surface.widgets) _ _ (λ e. e)
        (λ w _. rw surface-teardown_view (lookup-erase_self key h.surface.widgets))

  removal_quiet :
      (h : Host V) (key : String)
      → let o = apply h.surface (Op.remove_widget key) in
        threw (handle_events page (record h { surface = o.0 }) o.1).0 ≡ false
  unfolding apply remove_widget handle_events handle_event unless_threw threw
  removal_quiet h key =
      Option-match
        (λ (o : Outcome V). threw (handle_events page (record h { surface = o.0 }) o.1).0 ≡ false)
        (lookup key h.surface.widgets) _ _ (λ _. refl) (λ _ _. refl)

  -- After a removal neither the core has the widget nor the page a tile of the key, that of a test
  -- included.
  pub removed_is_gone :
      (h : Host V) (key : String)
      → (lookup key (apply_op page h (Op.remove_widget key)).1.views ≡ none)
        × (lookup key (apply_op page h (Op.remove_widget key)).1.surface.widgets ≡ none)
  unfolding apply_op
  removed_is_gone h key =
      rw (removal_quiet h key)
        (lookup-teardown_view _ key, rw surface-teardown_view (widget_gone h key))
