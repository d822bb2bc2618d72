-- ===== src/Inspect/Bound.antt =====
-- The page keeps at most two hundred entries.
use omni_tun.Prelude.{◌≤◌, String, List, [], ◌∷◌, length, length-take, arith}
use omni_tun.Js.{Value}
use omni_tun.Js.Env.{Js}
use omni_tun.Inspect.Defs.{
  InspectEntry, Inspect, max_entries, add_entry, on_traffic, on_tick, end_highlight, handle_clear,
  Event, message, tick, highlight_ends, clear, pause, handle,
}

abbrev pub IsBounded : Inspect → Type 0
IsBounded s = length s.entries ≤ max_entries

add_entry-IsBounded : (e : InspectEntry) (s : Inspect) → IsBounded (add_entry e s)
unfolding add_entry
add_entry-IsBounded e s = omega (arith, length-take max_entries (e ∷ s.entries))

module _ (js : Js) (as_entry : Value → InspectEntry) where
  on_traffic-IsBounded :
      (text : String) (s : Inspect) → IsBounded s → IsBounded (on_traffic js as_entry text s)
  unfolding on_traffic
  on_traffic-IsBounded text s h = grind (arith, h, add_entry-IsBounded)

  handle-IsBounded : (ev : Event) (s : Inspect) → IsBounded s → IsBounded (handle js as_entry ev s)
  unfolding handle on_tick end_highlight handle_clear
  handle-IsBounded (message text) s h = on_traffic-IsBounded text s h
  handle-IsBounded (tick e) s h = ground (arith, h, add_entry-IsBounded e s)
  handle-IsBounded highlight_ends s h = h
  handle-IsBounded clear s h = omega arith
  handle-IsBounded (pause b) s h = h

  abbrev pub handle_all : List Event → Inspect → Inspect
  handle_all [] s = s
  handle_all (ev ∷ evs) s = handle_all evs (handle js as_entry ev s)

  -- Whatever messages, timers and clicks come, the page keeps at most two hundred entries.
  pub handle_all-IsBounded :
      (evs : List Event) (s : Inspect) → IsBounded s → IsBounded (handle_all evs s)
  handle_all-IsBounded [] s h = h
  handle_all-IsBounded (ev ∷ evs) s h =
      handle_all-IsBounded evs (handle js as_entry ev s) (handle-IsBounded ev s h)
