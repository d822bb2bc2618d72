-- ===== src/Inspect/Defs.antt =====
-- The entries that the page keeps, and what changes them.
use omni_tun.Prelude.{
  ℕ, String, Bool, false, ◌||◌, ◌&&◌, Option, none, some, List, [], ◌∷◌, Dict, take, select, ◌==◌,
  if◌then◌else◌,
}
use omni_tun.Js.{Value, str, obj, own, truthy}
use omni_tun.Js.Env.{Js}
use omni_tun.Palette.{Locale, includes}

pub record InspectEntry : Type 0 where
  pub id : String
  pub timestamp : String
  pub method : String
  pub path : String
  pub status_code : ℕ
  pub duration_ms : ℕ
  pub client_ip : String
  pub request_headers : Option (Dict String)
  pub request_body : Option String
  pub response_headers : Option (Dict String)
  pub response_body : Option String

pub record Inspect : Type 0 where
  pub entries : List InspectEntry
  pub paused : Bool
  pub filter : String
  pub highlighted_id : Option String

abbrev pub max_entries : ℕ
max_entries = 200

unfoldable pub add_entry : InspectEntry → Inspect → Inspect
add_entry e s = record s { entries = take max_entries (e ∷ s.entries); highlighted_id = some e.id }

-- `v === 'traffic'`
abbrev pub is_traffic : Value → Bool
is_traffic (str s) = s == "traffic"
is_traffic v = false

-- `ws.onmessage`; `as_entry` stands for the cast of the data. What is no object has no `type`, and
-- what fails within the `try` is ignored.
unfoldable pub on_traffic : Js → (Value → InspectEntry) → String → Inspect → Inspect
on_traffic js as_entry text s = if s.paused then s else elim (js.json_parse text) [
  | none ↦ s
  | some msg ↦ elim msg [
    | obj fs ↦
        if is_traffic (own "type" fs) && truthy (own "data" fs)
        then add_entry (as_entry (own "data" fs)) s
        else s
    | _ ↦ s
  ]
]

-- The timer, with the entry that it makes up.
unfoldable pub on_tick : InspectEntry → Inspect → Inspect
on_tick e s = if s.paused then s else add_entry e s

-- The highlight of an entry ends, whichever entry has it by then.
unfoldable pub end_highlight : Inspect → Inspect
end_highlight s = record s { highlighted_id = none }

unfoldable pub handle_clear : Inspect → Inspect
handle_clear s = record s { entries = [] }

unfoldable pub filtered_entries : Locale → Inspect → List InspectEntry
filtered_entries lo s =
    let q = lo.to_lower s.filter in
    let shown =
      select
        (λ e.
          includes q (lo.to_lower e.method)
          || includes q (lo.to_lower e.path)
          || includes q (lo.number_text e.status_code)
          || includes q e.client_ip)
        s.entries in
    if s.filter == "" then s.entries else shown

-- What can happen to the page.
pub data Event : Type 0 where
  message : String → Event
  tick : InspectEntry → Event
  highlight_ends clear : Event
  pause : Bool → Event

unfoldable pub handle : Js → (Value → InspectEntry) → Event → Inspect → Inspect
handle js as_entry (message text) s = on_traffic js as_entry text s
handle js as_entry (tick e) s = on_tick e s
handle js as_entry highlight_ends s = end_highlight s
handle js as_entry clear s = handle_clear s
handle js as_entry (pause b) s = record s { paused = b }
