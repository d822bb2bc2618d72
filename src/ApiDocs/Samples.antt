-- ===== src/ApiDocs/Samples.antt =====
-- `generateCurl`, the samples of the other languages, and `CodeSample`. `to_upper` is `toUpperCase`, and
-- `pretty` is `JSON.stringify` with an indentation of two.
use Prim.Native.String
use omni_tun.Prelude.{
  String, Bool, not, ◌&&◌, Option, none, some, List, [], ◌∷◌, Dict, get, select, get_elem?,
  split_on, same_char, ◌==◌, if◌then◌else◌, ◌>>=◌,
}
use omni_tun.Js.{Value, str, obj, Entries, entry, no_entries, coalesce}
use omni_tun.Palette.{or_text}
use omni_tun.ApiDocs.Defs.{
  Schema, schema, no_properties, properties, Fields, end, field, Parameter, RequestBody,
}

-- A template literal: its parts one after the other.
abbrev pub template : List String → String
template [] = ""
template (part ∷ parts) = String.◌++◌ part (template parts)

abbrev pub base_url : String
base_url = "https://api.omnitun.dev"

-- `method !== 'get' && method !== 'delete'`
abbrev pub sends_body : String → Bool
sends_body method = not (method == "get") && not (method == "delete")

abbrev pub is_in : String → Parameter → Bool
is_in place p = p.place == place

abbrev pub header_line : Parameter → String
header_line p = template (" \\\n  -H \"" ∷ p.name ∷ ": <" ∷ p.name ∷ ">\"" ∷ [])

-- `forEach` that appends the line of each header.
abbrev pub header_lines : List Parameter → String
header_lines [] = ""
header_lines (p ∷ ps) = String.◌++◌ (header_line p) (header_lines ps)

abbrev pub type_line : String → String
type_line method = if sends_body method then " \\\n  -H \"Content-Type: application/json\"" else ""

abbrev pub auth_line : String
auth_line = " \\\n  -H \"Authorization: Bearer <token>\""

abbrev pub query_part : Parameter → String
query_part p = template (p.name ∷ "=<" ∷ p.name ∷ ">" ∷ [])

-- `join('&')`
abbrev pub query_string : List Parameter → String
query_string [] = ""
query_string (p ∷ ps) = elim ps [
  | [] ↦ query_part p
  | q ∷ qs ↦ template (query_part p ∷ "&" ∷ query_string ps ∷ [])
]

-- `prop.example ?? `<${prop.type ?? 'string'}>``
abbrev pub example_of : Schema → Value
example_of (schema f ps its bs) =
    coalesce f.example (str (template ("<" ∷ or_text f.type "string" ∷ ">" ∷ [])))

abbrev pub examples : Fields → Entries
examples end = no_entries
examples (field key s fs) = entry key (example_of s) (examples fs)

abbrev pub data_line : (Value → String) → Option Schema → String
data_line pretty none = ""
data_line pretty (some (schema f no_properties its bs)) = ""
data_line pretty (some (schema f (properties fs) its bs)) =
    template (" \\\n  -d '" ∷ pretty (obj (examples fs)) ∷ "'" ∷ [])

abbrev pub json_schema : Option RequestBody → Option Schema
json_schema none = none
json_schema (some body) = get "application/json" body.content

abbrev pub or_query : List Parameter → String → String → String
or_query [] first so_far = so_far
or_query (p ∷ ps) first so_far = template (first ∷ "?" ∷ query_string (p ∷ ps) ∷ "\"" ∷ [])

-- `curl` is assigned anew where there are parameters of the query.
unfoldable pub generate_curl :
    (String → String)
    → (Value → String)
    → String
    → String
    → List Parameter
    → Option RequestBody
    → String
generate_curl to_upper pretty method path params body =
    let url = template ("curl -X " ∷ to_upper method ∷ " \"" ∷ base_url ∷ path ∷ []) in
    let first = String.◌++◌ url "\"" in
    let with_headers = String.◌++◌ first (header_lines (select (is_in "header") params)) in
    let with_type = String.◌++◌ with_headers (type_line method) in
    let with_auth = String.◌++◌ with_type auth_line in
    let curl = or_query (select (is_in "query") params) url with_auth in
    if sends_body method then String.◌++◌ curl (data_line pretty (json_schema body)) else curl

-- `s.replace(/s$/, '')`
unfoldable pub without_s : String → String
without_s String.[] = ""
without_s (String.◌∷◌ c s) =
    let rest = without_s s in if s == "" && same_char c "s" then "" else String.◌∷◌ c rest

-- `path.split('/')[2]?.replace(/s$/, '') ?? 'resource'`
unfoldable pub sample_tag : String → String
unfolding without_s
sample_tag path = elim (get_elem? (split_on "/" path) 2) [
  | none ↦ "resource"
  | some part ↦ without_s part
]

-- `s[0].toUpperCase() + s.slice(1)`, which throws for an empty text.
abbrev pub capitalised : (String → String) → String → Option String
capitalised to_upper String.[] = none
capitalised to_upper (String.◌∷◌ c s) = some (String.◌++◌ (to_upper (String.◌∷◌ c String.[])) s)

abbrev pub go_client : String
go_client = "client, _ := omnitun.NewClient(\"<token>\")\n"

abbrev pub go_list : String
go_list = String.◌++◌ go_client "tunnels, err := client.Tunnels.List(ctx, nil)"

abbrev pub go_create : String
go_create = template (
    go_client ∷ "tunnel, err := client.Tunnels.Create(ctx, omnitun.CreateTunnelOptions{\n"
    ∷ "  Name:      \"my-tunnel\",\n" ∷ "  Protocol:  \"http\",\n" ∷ "  LocalPort: 3000,\n" ∷ "})"
    ∷ [])

abbrev pub go_one : String
go_one = String.◌++◌ go_client "tunnel, err := client.Tunnels.Get(ctx, \"<tunnel-id>\")"

abbrev pub go_delete : String
go_delete = String.◌++◌ go_client "err := client.Tunnels.Delete(ctx, \"<tunnel-id>\")"

abbrev pub go_snippets : Dict String
go_snippets =
    ("list-tunnels", go_list)
    ∷ ("create-tunnel", go_create)
    ∷ ("get-tunnel", go_one)
    ∷ ("delete-tunnel", go_delete)
    ∷ []

abbrev pub sample_key : String → String → String
sample_key method tag = template (method ∷ "-" ∷ tag ∷ [])

abbrev pub go_todo : String → String → String
go_todo service call =
    template (go_client ∷ "// TODO: call client." ∷ service ∷ "." ∷ call ∷ "(ctx, ...)" ∷ [])

-- `none` where it throws.
unfoldable pub generate_go_snippet : (String → String) → String → String → Option String
unfolding sample_tag
generate_go_snippet to_upper method path =
    let tag = sample_tag path in
    capitalised to_upper tag >>= λ service. elim (get (sample_key method tag) go_snippets) [
      | some snippet ↦ some snippet
      | none ↦ capitalised to_upper method >>= λ call. some (go_todo service call)
    ]

abbrev pub python_client : String
python_client = "from omnitun import OmniTun\n\nclient = OmniTun(token=\"<token>\")\n"

abbrev pub python_list : String
python_list = String.◌++◌ python_client "tunnels = client.tunnels.list()"

abbrev pub python_create : String
python_create = template (
    python_client ∷ "tunnel = client.tunnels.create(\n" ∷ "    name=\"my-tunnel\",\n"
    ∷ "    protocol=\"http\",\n" ∷ "    local_port=3000,\n" ∷ ")" ∷ [])

abbrev pub python_one : String
python_one = String.◌++◌ python_client "tunnel = client.tunnels.get(\"<tunnel-id>\")"

abbrev pub python_delete : String
python_delete = String.◌++◌ python_client "client.tunnels.delete(\"<tunnel-id>\")"

abbrev pub python_snippets : Dict String
python_snippets =
    ("list-tunnels", python_list)
    ∷ ("create-tunnel", python_create)
    ∷ ("get-tunnel", python_one)
    ∷ ("delete-tunnel", python_delete)
    ∷ []

abbrev pub python_todo : String → String → String
python_todo tag method =
    template (python_client ∷ "# TODO: use client." ∷ tag ∷ "s." ∷ method ∷ "(...)" ∷ [])

unfoldable pub generate_python_snippet : String → String → String
unfolding sample_tag
generate_python_snippet method path =
    let tag = sample_tag path in
    or_text (get (sample_key method tag) python_snippets) (python_todo tag method)

unfoldable pub generate_js_snippet : (String → String) → String → String → String
generate_js_snippet to_upper method path = template (
    "const response = await fetch('https://api.omnitun.dev"
    ∷ path
    ∷ "', {\n  method: '"
    ∷ to_upper method
    ∷ "',\n  headers: {\n    'Authorization': 'Bearer <token>',\n"
    ∷ "    'Content-Type': 'application/json',\n  }"
    ∷ (if sends_body method
        then ",\n  body: JSON.stringify({\n    // ... request body\n  }),"
        else "")
    ∷ "\n});\nconst data = await response.json();"
    ∷ [])

pub data CodeTab : Type 0 where
  curl go python javascript : CodeTab

-- The `switch` of `CodeSample`; `none` where a sample throws.
unfoldable pub code_for :
    (String → String)
    → (Value → String)
    → CodeTab
    → String
    → String
    → Option (List Parameter)
    → Option RequestBody
    → Option String
code_for to_upper pretty curl method path none body =
    some (generate_curl to_upper pretty method path [] body)
code_for to_upper pretty curl method path (some params) body =
    some (generate_curl to_upper pretty method path params body)
code_for to_upper pretty go method path params body = generate_go_snippet to_upper method path
code_for to_upper pretty python method path params body = some (generate_python_snippet method path)
code_for to_upper pretty javascript method path params body =
    some (generate_js_snippet to_upper method path)
