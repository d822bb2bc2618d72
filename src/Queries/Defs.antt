-- ===== src/Queries/Defs.antt =====
-- The queries and mutations over the API client. The library that runs them is third-party: a mutation
-- calls its function and then, on success only, its `onSuccess`.
use omni_tun.Prelude.{String, Option, none, some, List, [], ◌∷◌, ◌++◌, ◌==◌, if◌then◌else◌}
use Prim.Native.String
use omni_tun.Js.{
  Value, undefined, str, prop, arr, obj, Entries, no_entries, entry, Elements, no_elements, own,
}
use omni_tun.Js.Env.{Js, text_of}
use omni_tun.Api.{
  Request, Options, Reply, Result, ok, throw, Thrown, api_error, native_error, thrown, World, App,
  request,
}

-- The client, and the query keys that were invalidated so far, the latest first.
pub record Queries : Type 0 where
  pub api : World
  pub invalidated : List (List String)

abbrev pub tunnels_key : List String
tunnels_key = "tunnels" ∷ []

abbrev pub networks_key : List String
networks_key = "networks" ∷ []

-- `err.message` of what a call throws; a value without properties has none.
abbrev pub error_message : Thrown → Value
error_message (api_error e) = e.message
error_message (native_error message) = str message
error_message (thrown v) = elim (prop v "message") [ none ↦ undefined | some m ↦ m ]

-- `${id}` of an id that may be missing.
abbrev pub id_text : Option String → String
id_text none = "undefined"
id_text (some id) = id

abbrev pub plain : Options
plain = record { method = none; headers = []; body = none }

abbrev pub bare : String → Options
bare method = record { method = some method; headers = []; body = none }

abbrev pub with_body : Js → String → Entries → Options
with_body js method body = record {
  method = some method;
  headers = [];
  body = some (js.stringify (obj body));
}

-- `{ id, ...input }`: the input without its id.
abbrev pub without_id : Entries → Entries
without_id no_entries = no_entries
without_id (entry k v fs) = let rest = without_id fs in if k == "id" then rest else entry k v rest

-- Every mutation of the two hooks, with what it is called with; the invite and the removal of a node
-- also have the network of their hook.
pub data Mutation : Type 0 where
  create_tunnel : Entries → Mutation
  update_tunnel : Entries → Mutation
  delete_tunnel start_tunnel stop_tunnel restart_tunnel : String → Mutation
  create_network join_network : Entries → Mutation
  delete_network : String → Mutation
  create_invite : Option String → String → Mutation
  remove_node : Option String → String → Mutation

-- `/v1/tunnels/${id}` and what follows it.
abbrev pub tunnel_path : String → String → String
tunnel_path id rest = String.◌++◌ "/v1/tunnels/" (String.◌++◌ id rest)

abbrev pub network_path : String → String → String
network_path id rest = String.◌++◌ "/v1/networks/" (String.◌++◌ id rest)

-- The first argument of `apiRequest` in each `mutationFn`.
unfoldable pub path_of : Js → Mutation → String
path_of js (create_tunnel input) = "/v1/tunnels"
path_of js (update_tunnel input) = tunnel_path (text_of js (own "id" input)) ""
path_of js (delete_tunnel id) = tunnel_path id ""
path_of js (start_tunnel id) = tunnel_path id "/start"
path_of js (stop_tunnel id) = tunnel_path id "/stop"
path_of js (restart_tunnel id) = tunnel_path id "/restart"
path_of js (create_network input) = "/v1/networks"
path_of js (join_network input) = "/v1/networks/join"
path_of js (delete_network id) = network_path id ""
path_of js (create_invite network_id id) = network_path id "/invite"
path_of js (remove_node network_id node_id) =
    network_path (id_text network_id) (String.◌++◌ "/nodes/" node_id)

-- The second one.
unfoldable pub options_of : Js → Mutation → Options
options_of js (create_tunnel input) = with_body js "POST" input
options_of js (update_tunnel input) = with_body js "PATCH" (without_id input)
options_of js (delete_tunnel id) = bare "DELETE"
options_of js (start_tunnel id) = bare "POST"
options_of js (stop_tunnel id) = bare "POST"
options_of js (restart_tunnel id) = bare "POST"
options_of js (create_network input) = with_body js "POST" input
options_of js (join_network input) = with_body js "POST" input
options_of js (delete_network id) = bare "DELETE"
options_of js (create_invite network_id id) = bare "POST"
options_of js (remove_node network_id node_id) = bare "DELETE"

-- What `onSuccess` invalidates, the latest first.
unfoldable pub keys_of : Mutation → List (List String)
keys_of (create_tunnel input) = tunnels_key ∷ []
keys_of (update_tunnel input) = tunnels_key ∷ []
keys_of (delete_tunnel id) = tunnels_key ∷ []
keys_of (start_tunnel id) = tunnels_key ∷ []
keys_of (stop_tunnel id) = tunnels_key ∷ []
keys_of (restart_tunnel id) = tunnels_key ∷ []
keys_of (create_network input) = networks_key ∷ []
keys_of (join_network input) = networks_key ∷ []
keys_of (delete_network id) = networks_key ∷ []
keys_of (create_invite network_id id) = ("network" ∷ id_text network_id ∷ "invite" ∷ []) ∷ []
keys_of (remove_node network_id node_id) = networks_key ∷ ("network" ∷ id_text network_id ∷ []) ∷ []

-- The list in a reply: the reply itself, or its property of this name.
unfoldable pub list_of : String → Value → Elements
list_of name (arr items) = items
list_of name (obj fs) = elim (own name fs) [ arr items ↦ items | _ ↦ no_elements ]
list_of name _ = no_elements

abbrev pub list_result : String → Result Value → Result Elements
list_result name (ok v) = ok (list_of name v)
list_result name (throw e) = throw e

-- `enabled: !!id`
abbrev pub is_enabled : Option String → Option String
is_enabled none = none
is_enabled (some id) = if id == "" then none else some id

module _ (js : Js) (app : App) (net : List Request → Request → Reply) where
  abbrev pub on_success : List (List String) → Result Value → Queries → Queries
  on_success keys (ok v) s = record s { invalidated = keys ++ s.invalidated }
  on_success keys (throw e) s = s

  -- A mutation that calls the API and invalidates these keys on success.
  unfoldable pub send_mutation :
      String → Options → List (List String) → Queries → Result Value × Queries
  send_mutation path options keys s =
      let (result, w) = request js app net path options s.api in
      (result, on_success keys result (record s { api = w }))

  -- `mutateAsync`
  unfoldable pub mutate : Mutation → Queries → Result Value × Queries
  unfolding send_mutation
  mutate mu s = send_mutation (path_of js mu) (options_of js mu) (keys_of mu) s

  unfoldable pub query_tunnels : World → Result Elements × World
  query_tunnels w =
      let (result, w') = request js app net "/v1/tunnels" plain w in
      (list_result "tunnels" result, w')

  unfoldable pub query_networks : World → Result Elements × World
  query_networks w =
      let (result, w') = request js app net "/v1/networks" plain w in
      (list_result "networks" result, w')

  -- A query by id; `none` where it is not enabled.
  abbrev pub query_by : (String → String) → Option String → World → Option (Result Value × World)
  query_by path id w = elim (is_enabled id) [
    | none ↦ none
    | some i ↦ some (request js app net (path i) plain w)
  ]

  unfoldable pub query_tunnel : Option String → World → Option (Result Value × World)
  query_tunnel = query_by (λ id. tunnel_path id "")

  unfoldable pub query_network : Option String → World → Option (Result Value × World)
  query_network = query_by (λ id. network_path id "")

  unfoldable pub query_invite : Option String → World → Option (Result Value × World)
  query_invite = query_by (λ id. network_path id "/invite")
