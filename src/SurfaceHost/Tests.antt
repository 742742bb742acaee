-- ===== src/SurfaceHost/Tests.antt =====
-- www/surface-host.js: the theorems on the tiles at concrete inputs.
use agent_mobile.Common.{
  ℕ, ◌≡◌, refl, true, false, none, some, [], ◌∷◌, ◌++◌, map, lookup, string_eq, List,
}
use agent_mobile.Surface.{Op, feed, update, create_surface}
use agent_mobile.SurfaceHost.Markup.{
  esc, js_escape, has_external, has_source, after, lower, is_remote,
}
use agent_mobile.SurfaceHost.{vm_render, Page, View, Host, html, new_host, framed, posted, on_load}
use agent_mobile.SurfaceHost.Handlers.{handle_event, handle_events, apply_op}
use agent_mobile.SurfaceHost.Mirrored.{Mirrors}
use agent_mobile.SurfaceHost.Mirror.{host_run-new_host-Mirrors, own_names}
use agent_mobile.Surface.Names.{are_own, none_inherited, names_of, is_inherited, is_one_of}
use agent_mobile.SurfaceHost.Views.{IsSound}
use agent_mobile.SurfaceHost.Runs.{
  HostEvent, batch, loaded, says, host_run, host_run-new_host-IsSound,
}
use agent_mobile.SurfaceHost.Escaped.{IsInert, IsUnclosed, esc-IsInert, js_escape-IsUnclosed}
use agent_mobile.SurfaceHost.Queue.{
  Waits, data_of, publish_before_load, update_overtakes_queue, removed_is_gone,
}
use agent_mobile.Renderer.{Js}
use agent_mobile.SurfaceHost.Primitives.{page_with}

abbrev page : Page ℕ
page = record {
  decode = λ b. b;
  units = λ s. [];
  label_of = λ p. [];
  or_empty = λ d. d;
  draw = λ type label props d. html [];
  error = "";
}

-- A registered tile that waits for frame 0 with its props.
abbrev waiting : View ℕ
waiting = record {
  type = "clock";
  label = [];
  shown = framed [] [];
  iframe = some 0;
  ready = false;
  queue = vm_render [] ∷ [];
  pending_feedback = false;
  rendered = "";
}

abbrev host : Host ℕ
host = record {
  surface = record {
    capacity = 100;
    assets = [];
    types = ("clock", record { code = ""; assets = [] }) ∷ [];
    widgets = ("k", record { type = "clock"; props = [] }) ∷ [];
    usage = 0;
    pending = [];
    poisoned = [];
  };
  views = ("k", waiting) ∷ [];
  next_frame = 1;
  occupied = true;
}

waits : Waits host "k" 0 waiting
waits = record {
  there = unfold lookup in refl;
  frame = refl;
  def = record { code = ""; assets = [] };
  registered = unfold lookup in refl;
  unready = refl;
}

publish_before_load_example :
    let early = handle_events page host (map (feed "k") (7 ∷ 8 ∷ [])) in
    let early_load = on_load early.1 "k" 0 in
    let late_load = on_load host "k" 0 in
    let late = handle_events page late_load.1 (map (feed "k") (7 ∷ 8 ∷ [])) in
    (early.0 ++ early_load.0 ≡ late_load.0 ++ late.0)
    × (early_load.1 ≡ late.1)
    × (late_load.0 ++ late.0 ≡ map (posted 0) (waiting.queue ++ map (data_of page) (7 ∷ 8 ∷ [])))
publish_before_load_example = publish_before_load page host "k" 0 waiting (7 ∷ 8 ∷ []) waits

update_overtakes_queue_example :
    let early = handle_event page host (update "k" (some [])) in
    let late_load = on_load host "k" 0 in
    (early.0 ++ (on_load early.1 "k" 0).0 ≡ posted 0 (vm_render []) ∷ map (posted 0) waiting.queue)
    × (late_load.0 ++ (handle_event page late_load.1 (update "k" (some []))).0
        ≡ map (posted 0) waiting.queue ++ (posted 0 (vm_render []) ∷ []))
update_overtakes_queue_example = update_overtakes_queue page host "k" 0 waiting [] waits

removed_is_gone_example :
    (lookup "k" (apply_op page host (Op.remove_widget "k")).1.views ≡ none)
    × (lookup "k" (apply_op page host (Op.remove_widget "k")).1.surface.widgets ≡ none)
removed_is_gone_example = removed_is_gone page host "k"

host_run-new_host-IsSound_example :
    IsSound
      (host_run page (new_host (create_surface ℕ 100)) (
        batch (
          Op.register_widget_type "clock" none [] none
          ∷ Op.add_widget "k" "clock" none
          ∷ Op.publish "k" 7
          ∷ [])
        ∷ loaded "k" 0
        ∷ says 0 false "12:00"
        ∷ [])).1
host_run-new_host-IsSound_example = host_run-new_host-IsSound page 100 (
    batch (
      Op.register_widget_type "clock" none [] none
      ∷ Op.add_widget "k" "clock" none
      ∷ Op.publish "k" 7
      ∷ [])
    ∷ loaded "k" 0
    ∷ says 0 false "12:00"
    ∷ [])

esc-IsInert_example : IsInert (esc (b'<' ∷ b'a' ∷ b'>' ∷ []))
esc-IsInert_example = esc-IsInert (b'<' ∷ b'a' ∷ b'>' ∷ [])

js_escape-IsUnclosed_example : IsUnclosed (js_escape (b'<' ∷ b'/' ∷ b's' ∷ []))
js_escape-IsUnclosed_example = js_escape-IsUnclosed (b'<' ∷ b'/' ∷ b's' ∷ [])

-- `<script src="https:` is external, without the quote it is not seen.
quoted :
    has_external (
      b'<' ∷ b's' ∷ b'c' ∷ b'r' ∷ b'i' ∷ b'p' ∷ b't' ∷ b' ' ∷ b'S' ∷ b'r' ∷ b'c' ∷ b'=' ∷ b'"'
      ∷ b'h' ∷ b't' ∷ b't' ∷ b'p' ∷ b's' ∷ b':' ∷ [])
    ≡ true
quoted = unfold has_external has_source after lower is_remote in refl

unquoted :
    has_external (
      b'<' ∷ b's' ∷ b'c' ∷ b'r' ∷ b'i' ∷ b'p' ∷ b't' ∷ b' ' ∷ b'S' ∷ b'r' ∷ b'c' ∷ b'=' ∷ b'h'
      ∷ b't' ∷ b't' ∷ b'p' ∷ b's' ∷ b':' ∷ [])
    ≡ false
unquoted = unfold has_external has_source after lower is_remote in refl

abbrev shown_clock : List (HostEvent ℕ)
shown_clock =
    batch (
      Op.register_widget_type "clock" none [] none
      ∷ Op.add_widget "k" "clock" none
      ∷ Op.test_widget "p" "clock" none
      ∷ [])
    ∷ loaded "k" 0
    ∷ says 0 false "12:00"
    ∷ []

shown_clock_own : own_names shown_clock ≡ true
unfolding own_names are_own none_inherited names_of is_inherited is_one_of
shown_clock_own = refl

host_run-new_host-Mirrors_example :
    Mirrors (host_run page (new_host (create_surface ℕ 100)) shown_clock).1
host_run-new_host-Mirrors_example = host_run-new_host-Mirrors page 100 shown_clock shown_clock_own

-- The host's own drawing, of numbers that are neither arrays nor have fields.
abbrev js : Js ℕ
js = record {
  string = λ v. [];
  truthy = λ v. true;
  or_object = λ v. v;
  svg_data = λ t. 0;
  undefined = 0;
  of_text = λ t. 0;
}

abbrev drawing_page : Page ℕ
drawing_page =
    page_with js (record { field = λ v name. v; is_missing = λ v. false; array = λ v. none })
      (λ b. b) (λ s. []) "items.map is not a function"

abbrev list_tile : View ℕ
list_tile = record waiting { type = "list"; iframe = none; queue = [] }

abbrev list_host : Host ℕ
list_host = record host {
  surface = record host.surface { widgets = ("k", record { type = "list"; props = [] }) ∷ [] };
  views = ("k", list_tile) ∷ [];
}
