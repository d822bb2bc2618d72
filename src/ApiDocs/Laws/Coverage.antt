-- ===== src/ApiDocs/Laws/Coverage.antt =====
-- Which calls of the web application the built-in document describes.
use Prim.Native.String
use text.Mathlib.TextLemmas.{append-nil as text_append-nil}
use omni_tun.Prelude.{
  String, Bool, true, false, ◌≡◌, refl, Option, none, some, List, [], ◌∷◌, get, split_on, ◌>>=◌,
}
use omni_tun.Js.{own}
use omni_tun.Js.Env.{Js, text_of}
use omni_tun.Queries.{
  Mutation, create_tunnel, update_tunnel, delete_tunnel, start_tunnel, stop_tunnel, restart_tunnel,
  create_network, join_network, delete_network, create_invite, remove_node, path_of, options_of,
  id_text,
}
use omni_tun.ApiDocs.Defs.{PathOperation, OpenApiSpec}
use omni_tun.ApiDocs.Reference.{mock_spec}
use omni_tun.ApiDocs.Laws.Snippets.{HttpMethod, get_, post, put_, patch, delete_, method_text}

-- The text after the first part of a split.
abbrev second : List String → String
second [] = ""
second (p ∷ []) = ""
second (p ∷ q ∷ ps) = q

-- A path of the document with ids for what stands in braces.
abbrev fill_parts : List String → List String → String
fill_parts [] ids = ""
fill_parts (part ∷ parts) [] = ""
fill_parts (part ∷ parts) (id ∷ ids) =
    String.◌++◌ id (String.◌++◌ (second (split_on "}" part)) (fill_parts parts ids))

abbrev fill_after : List String → List String → String
fill_after [] ids = ""
fill_after (front ∷ parts) ids = String.◌++◌ front (fill_parts parts ids)

abbrev pub fill : String → List String → String
fill path ids = fill_after (split_on "{" path) ids

abbrev pub upper_text : HttpMethod → String
upper_text get_ = "GET"
upper_text post = "POST"
upper_text put_ = "PUT"
upper_text patch = "PATCH"
upper_text delete_ = "DELETE"

-- The method, the path and the ids of a call, in the words of the document.
abbrev pub verb_of : Mutation → HttpMethod
verb_of (update_tunnel input) = patch
verb_of (delete_tunnel id) = delete_
verb_of (delete_network id) = delete_
verb_of (remove_node network_id node_id) = delete_
verb_of _ = post

abbrev pub described_path : Mutation → String
described_path (create_tunnel input) = "/v1/tunnels"
described_path (update_tunnel input) = "/v1/tunnels/{id}"
described_path (delete_tunnel id) = "/v1/tunnels/{id}"
described_path (start_tunnel id) = "/v1/tunnels/{id}/start"
described_path (stop_tunnel id) = "/v1/tunnels/{id}/stop"
described_path (restart_tunnel id) = "/v1/tunnels/{id}/restart"
described_path (create_network input) = "/v1/networks"
described_path (join_network input) = "/v1/networks/join"
described_path (delete_network id) = "/v1/networks/{id}"
described_path (create_invite network_id id) = "/v1/networks/{id}/invite"
described_path (remove_node network_id node_id) = "/v1/networks/{id}/nodes/{node_id}"

abbrev pub ids_of : Js → Mutation → List String
ids_of js (create_tunnel input) = []
ids_of js (update_tunnel input) = text_of js (own "id" input) ∷ []
ids_of js (delete_tunnel id) = id ∷ []
ids_of js (start_tunnel id) = id ∷ []
ids_of js (stop_tunnel id) = id ∷ []
ids_of js (restart_tunnel id) = id ∷ []
ids_of js (create_network input) = []
ids_of js (join_network input) = []
ids_of js (delete_network id) = id ∷ []
ids_of js (create_invite network_id id) = id ∷ []
ids_of js (remove_node network_id node_id) = id_text network_id ∷ node_id ∷ []

abbrev is_there : Option PathOperation → Bool
is_there none = false
is_there (some op) = true

-- The document has the method of the call at its path.
abbrev pub is_described : OpenApiSpec → Mutation → Bool
is_described spec mu =
    is_there
      (get (described_path mu) spec.paths >>= λ methods. get (method_text (verb_of mu)) methods)

abbrev pub is_in_reference : Mutation → Bool
is_in_reference (restart_tunnel id) = false
is_in_reference (create_invite network_id id) = false
is_in_reference (remove_node network_id node_id) = false
is_in_reference _ = true

-- A call of the hooks is one of the method and the path given here, and the built-in document describes
-- it unless it restarts a tunnel, creates an invite or removes a node.
pub is_described_lem :
    (js : Js) (mu : Mutation)
    → (path_of js mu ≡ fill (described_path mu) (ids_of js mu))
      × ((options_of js mu).method ≡ some (upper_text (verb_of mu)))
      × (is_described mock_spec mu ≡ is_in_reference mu)
unfolding path_of options_of mock_spec get
is_described_lem js (create_tunnel input) = (refl, refl, refl)
is_described_lem js (update_tunnel input) = (refl, refl, refl)
is_described_lem js (delete_tunnel id) = (refl, refl, refl)
is_described_lem js (start_tunnel id) = (refl, refl, refl)
is_described_lem js (stop_tunnel id) = (refl, refl, refl)
is_described_lem js (restart_tunnel id) = (refl, refl, refl)
is_described_lem js (create_network input) = (refl, refl, refl)
is_described_lem js (join_network input) = (refl, refl, refl)
is_described_lem js (delete_network id) = (refl, refl, refl)
is_described_lem js (create_invite network_id id) = (refl, refl, refl)
is_described_lem js (remove_node network_id node_id) = (rw text_append-nil, refl, refl)
