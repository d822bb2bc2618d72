-- ===== src/Inspect/Replaying.antt =====
-- The entries that the page makes up, and what is copied and replayed of an entry.
use Prim.Native.String
use omni_tun.Prelude.{
  ℕ, String, Bool, true, false, Option, none, some, List, [], ◌∷◌, Dict, get_elem?, leb, ◌==◌,
  if◌then◌else◌, ◌>>=◌,
}
use omni_tun.Js.{Value, str, obj, Entries, entry, no_entries}
use omni_tun.Palette.{or_text}
use omni_tun.Inspect.Defs.{InspectEntry}

abbrev pub mock_methods : List String
mock_methods = "GET" ∷ "POST" ∷ "PUT" ∷ "DELETE" ∷ "PATCH" ∷ []

abbrev pub mock_paths : List String
mock_paths =
    "/api/users" ∷ "/api/tunnels" ∷ "/api/health" ∷ "/api/data" ∷ "/api/config" ∷ "/"
    ∷ "/static/app.js" ∷ "/favicon.ico" ∷ []

abbrev pub mock_status_codes : List ℕ
mock_status_codes =
    200 ∷ 200 ∷ 200 ∷ 201 ∷ 204 ∷ 301 ∷ 302 ∷ 304 ∷ 400 ∷ 401 ∷ 403 ∷ 404 ∷ 500 ∷ 502 ∷ 503 ∷ []

-- What `Math.random` gives in a call: the three places drawn, the texts, and the printed numbers.
pub record Drawn : Type 0 where
  pub method_at : ℕ
  pub path_at : ℕ
  pub status_at : ℕ
  pub id : String
  pub duration : ℕ
  pub third_byte : String
  pub fourth_byte : String
  pub request_json : String
  pub request_id : String
  pub response_json : String

abbrev pub mock_request_headers : Dict String
mock_request_headers =
    ("Host", "example.omnitun.io")
    ∷ ("User-Agent", "Mozilla/5.0 (Windows NT 10.0; Win64; x64)")
    ∷ ("Accept", "application/json")
    ∷ ("Content-Type", "application/json")
    ∷ ("Authorization", "Bearer eyJ...")
    ∷ []

-- `iso` is the printed time. `none` where a place lies outside of its list, which `Math.random` never
-- draws.
unfoldable pub generate_mock_entry : String → Drawn → Option InspectEntry
generate_mock_entry iso d = get_elem? mock_methods d.method_at >>= λ method.
    get_elem? mock_paths d.path_at >>= λ path. get_elem? mock_status_codes d.status_at >>= λ status.
    some (record {
      id = d.id;
      timestamp = iso;
      method = method;
      path = path;
      status_code = status;
      duration_ms = d.duration;
      client_ip = String.◌++◌ "192.168." (String.◌++◌ d.third_byte (String.◌++◌ "." d.fourth_byte));
      request_headers = some mock_request_headers;
      request_body = if method == "GET" then none else some d.request_json;
      response_headers =
          some (("Content-Type", "application/json") ∷ ("X-Request-ID", d.request_id) ∷ []);
      response_body = some d.response_json;
    })

unfoldable pub status_color : ℕ → String
status_color code =
    if leb 500 code
    then "text-red-600 dark:text-red-400"
    else if leb 400 code
    then "text-yellow-600 dark:text-yellow-400"
    else if leb 300 code
    then "text-blue-600 dark:text-blue-400"
    else "text-emerald-600 dark:text-emerald-400"

-- `Object.entries(…).map(…).join('\n')`
abbrev pub header_text : Dict String → String
header_text [] = ""
header_text ((k, v) ∷ hs) =
    let line = String.◌++◌ k (String.◌++◌ ": " v) in
    elim hs [ [] ↦ line | h ∷ rest ↦ String.◌++◌ line (String.◌++◌ "\n" (header_text hs)) ]

abbrev pub headers_or_empty : Option (Dict String) → Dict String
headers_or_empty none = []
headers_or_empty (some hs) = hs

-- The lines after the first one of both copied texts.
abbrev pub copied_rest : Option (Dict String) → Option String → String
copied_rest headers body =
    String.◌++◌ "\n"
      (String.◌++◌ (header_text (headers_or_empty headers)) (String.◌++◌ "\n\n" (or_text body "")))

unfoldable pub request_text : InspectEntry → String
request_text e =
    String.◌++◌ e.method
      (String.◌++◌ " " (String.◌++◌ e.path (copied_rest e.request_headers e.request_body)))

-- `number_text` prints a number.
unfoldable pub response_text : (ℕ → String) → InspectEntry → String
response_text number_text e =
    String.◌++◌ "Status: "
      (String.◌++◌ (number_text e.status_code) (copied_rest e.response_headers e.response_body))

-- The selected entry and the dialog of the replay.
pub record Replay : Type 0 where
  pub selected_entry : Option InspectEntry
  pub show_replay : Bool
  pub replay_body : String
  pub replay_headers : String
  pub replaying : Bool
  pub toasts : List String

abbrev pub header_entries : Dict String → Entries
header_entries [] = no_entries
header_entries ((k, v) ∷ hs) = entry k (str v) (header_entries hs)

-- `pretty` is `JSON.stringify` with an indentation of two.
unfoldable pub handle_open_replay : (Value → String) → InspectEntry → Replay → Replay
handle_open_replay pretty e s = record s {
  replay_body = or_text e.request_body "";
  replay_headers = pretty (obj (header_entries (headers_or_empty e.request_headers)));
  show_replay = true;
}

-- `handleReplay` up to its timer, and after it.
unfoldable pub start_replay : Replay → Replay
start_replay s = elim s.selected_entry [ none ↦ s | some e ↦ record s { replaying = true } ]

unfoldable pub end_replay : Replay → Replay
end_replay s = record s {
  replaying = false;
  show_replay = false;
  toasts = "Request replayed (mock)" ∷ s.toasts;
}
