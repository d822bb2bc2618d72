-- ===== src/ApiDocs/Tests.antt =====
-- Runs on the built-in document.
use omni_tun.Prelude.{
  String, List, true, false, any, Dict, ◌⊎◌, ◌≤◌, ◌≡◌, refl, none, some, [], ◌∷◌, get,
}
use omni_tun.Js.{undefined}
use omni_tun.ApiDocs.Defs.{
  SchemaFacts, Schema, schema, no_properties, no_items, items, no_branches, Parameter, Endpoint,
  grouped_paths,
}
use omni_tun.ApiDocs.Views.{schema_view, array, plain}
use omni_tun.ApiDocs.Samples.{generate_curl, go_one, generate_go_snippet}
use omni_tun.ApiDocs.Reference.{mock_spec}
use omni_tun.ApiDocs.Laws.Depth.{nesting, nesting-schema_view-le}
use omni_tun.ApiDocs.Laws.Groups.{is_inherited, endpoints, tagged, joined, get-grouped_paths}

abbrev facts : String → SchemaFacts
facts name = record {
  type = some name;
  format = none;
  description = none;
  required = none;
  example = undefined;
  enum = none;
  ref = none;
}

abbrev texts : Schema
texts =
    schema (facts "array") no_properties
      (items (schema (facts "string") no_properties no_items no_branches)) no_branches

texts_view : schema_view texts 0 ≡ array (plain (some "string") none)
unfolding schema_view
texts_view = refl

abbrev status_param : Parameter
status_param = record {
  name = "status";
  place = "query";
  description = none;
  required = none;
  schema = schema (facts "string") no_properties no_items no_branches;
}

nesting-schema_view-le_example : nesting (schema_view texts 0) ≤ 5
nesting-schema_view-le_example = nesting-schema_view-le texts

get-grouped_paths_example :
    ((any is_inherited (endpoints mock_spec.paths) ≡ true) × (grouped_paths mock_spec ≡ none))
    ⊎ ((any is_inherited (endpoints mock_spec.paths) ≡ false)
        × ((groups : Dict (List Endpoint)) × (grouped_paths mock_spec ≡ some groups)
            × ((tag : String)
                → get tag groups ≡ joined none (tagged tag (endpoints mock_spec.paths)))))
get-grouped_paths_example = get-grouped_paths mock_spec

-- Both samples of the list of the tunnels.
curl_without_token :
    generate_curl (λ s. s) (λ v. "{}") "GET" "/v1/tunnels" (status_param ∷ []) none
    ≡ "curl -X GET \"https://api.omnitun.dev/v1/tunnels?status=<status>\""
unfolding generate_curl
curl_without_token = refl

go_gets_one : generate_go_snippet (λ s. s) "get" "/v1/tunnels" ≡ some go_one
unfolding generate_go_snippet get
go_gets_one = refl
